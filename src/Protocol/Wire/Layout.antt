-- ===== src/Protocol/Wire/Layout.antt =====
-- What `WriteFrame` of internal/protocol/wire.go puts on the wire, as a plain layout.
use maboo.Base.{
  ℕ, zero, suc, ◌+◌, ◌-◌, ◌/◌, ◌%◌, ◌≤◌, ◌≡◌, refl, ap, ◌∙◌, inl, inr, List, [], ◌∷◌, ◌++◌, ltb,
  if◌then◌else◌, length, take, drop, replicate, length-append, length-drop, length-replicate,
  Bool-cases, arith,
}
use maboo.Base.Results.{ok, err}
use maboo.Protocol.Wire.{
  Frame, Writer, magic0, magic1, version, put_header, write, write_frame, writing_frame,
}

-- The last `n` digits of `v` to the base 256, highest first.
unfoldable pub be : ℕ → ℕ → List ℕ
be zero v = []
be (suc n) v = be n (v / 256) ++ v % 256 ∷ []

unfoldable pub header : Frame → List ℕ
unfolding be
header f =
    magic0
    ∷ magic1
    ∷ version
    ∷ f.type
    ∷ f.flags
    ∷ (be 2 f.stream_id ++ (be 3 (length f.headers) ++ be 4 (length f.payload)))

-- A frame on the wire.
unfoldable pub encoding : Frame → List ℕ
encoding f = header f ++ (f.headers ++ f.payload)

-- Every byte of the 14 is written, whatever the buffer held.
put_header-eq-header :
    (xs : List ℕ) (f : Frame) → 14 ≤ length xs → put_header (take 14 xs) f ≡ header f
unfolding put_header header
put_header-eq-header (_ ∷ _ ∷ _ ∷ _ ∷ _ ∷ _ ∷ _ ∷ _ ∷ _ ∷ _ ∷ _ ∷ _ ∷ _ ∷ _ ∷ xs) f h = ground arith
put_header-eq-header _ f h = absurd (omega arith)

pub length-header : (f : Frame) → length (header f) ≡ 14
unfolding header
length-header f = refl

pub length-encoding : (f : Frame) → length (encoding f) ≡ 14 + length f.headers + length f.payload
unfolding encoding
length-encoding f = omega (
  arith,
  length-header f,
  length-append (header f) (f.headers ++ f.payload),
  length-append f.headers f.payload,
)

-- The array that `WriteFrame` works on has room for the whole frame.
abbrev array : List ℕ → ℕ → List ℕ
array buf n = if ltb (length buf) n then replicate n 0 else buf

array_room :
    (buf : List ℕ) (n : ℕ) → (n ≤ length (array buf n)) × (length buf ≤ length (array buf n))
array_room buf n = elim (Bool-cases (ltb (length buf) n)) [
  | inl e ↦ rw e (rw (length-replicate {A = ℕ} n 0) (omega arith, ground arith))
  | inr e ↦ rw e (ground arith)
]

out-eq-encoding :
    (buf : List ℕ) (f : Frame)
    → put_header (take 14 (array buf (14 + length f.headers + length f.payload))) f
        ++ (f.headers ++ f.payload)
      ≡ encoding f
unfolding encoding
out-eq-encoding buf f =
    ap (λ h. h ++ (f.headers ++ f.payload))
      (put_header-eq-header _ f
        (omega (arith, (array_room buf (14 + length f.headers + length f.payload)).0)))

-- `WriteFrame` hands the encoding of the frame to one `Write`, whatever the pooled buffer held.
pub write_frame-encoding :
    (buf : List ℕ) (w : Writer) (f : Frame)
    → ((write_frame buf w f).1 ≡ (write w (encoding f)).0)
      × ((write_frame buf w f).2 ≡ (if (write w (encoding f)).1 then ok tt else err writing_frame))
unfolding write_frame
write_frame-encoding buf w f =
    let e = out-eq-encoding buf f in
    (
      ap (λ out. (write w out).0) e,
      ap (λ out. if (write w out).1 then ok tt else err writing_frame) e,
    )

-- The buffer that goes back to the pool is at least as large as before, and as the frame.
write_frame-capacity :
    (buf : List ℕ) (w : Writer) (f : Frame)
    → (length buf ≤ length (write_frame buf w f).0)
      × (14 + length f.headers + length f.payload ≤ length (write_frame buf w f).0)
unfolding write_frame
write_frame-capacity buf w f =
    let total : ℕ = 14 + length f.headers + length f.payload in
    let old : List ℕ = drop total (array buf total) in
    let size : length (encoding f ++ old) ≡ total + (length (array buf total) - total) = omega (
      arith,
      length-append (encoding f) old,
      length-encoding f,
      length-drop total (array buf total),
    ) in
    let whole = ap (λ out. length (out ++ old)) (out-eq-encoding buf f) ∙ size in
    let (fits, keeps) = array_room buf total in (omega (arith, whole), omega (arith, whole))
