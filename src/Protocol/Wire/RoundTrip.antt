-- ===== src/Protocol/Wire/RoundTrip.antt =====
-- `WriteFrame` and `ReadFrame` of internal/protocol/wire.go against each other.
use maboo.Base.{
  ℕ, zero, suc, ◌+◌, ◌≤◌, ◌≡◌, ◌≢◌, refl, sym, ap, ◌∙◌, List, [], ◌∷◌, ◌++◌, true, if◌then◌else◌,
  length, take, drop, drop-length-append, arith, ◌%◌, ◌^◌, length-take, length-drop,
  take-append-drop, All, subst, length-append,
}
use maboo.Base.Results.{Result, ok, err}
use maboo.Protocol.Wire.{
  magic0, magic1, version, Frame, Writer, IsByte, IsTyped, Fits, ReadError, write, write_frame,
  writing_frame, read_frame,
}
use maboo.Protocol.Wire.Layout.{be, header, encoding, length-encoding, write_frame-encoding}
use maboo.Protocol.Wire.Reading.{read_frame-encoding}
use maboo.Protocol.Wire.Accepted.{read_frame_accepts}
use mathlib.Core.List.{append_assoc, append-nil}

-- There is room for the whole frame.
abbrev pub HasRoom : Writer → Frame → Type 0
HasRoom w f = 14 + length f.headers + length f.payload ≤ w.room

take_all : (n : ℕ) (xs : List ℕ) → length xs ≤ n → take n xs ≡ xs
take_all zero [] h = refl
take_all zero (x ∷ xs) h = absurd (omega arith)
take_all (suc n) [] h = refl
take_all (suc n) (x ∷ xs) h = ap (◌∷◌ x) (take_all n xs (omega arith))

write_all :
    (w : Writer) (bytes : List ℕ)
    → length bytes ≤ w.room
    → ((write w bytes).0.written ≡ w.written ++ bytes) × ((write w bytes).1 ≡ true)
unfolding write
write_all w bytes h = (ap (λ b. w.written ++ b) (take_all w.room bytes h), ground arith)

pub write_frame-written :
    (buf : List ℕ) (w : Writer) (f : Frame)
    → HasRoom w f
    → ((write_frame buf w f).2 ≡ ok tt)
      × ((write_frame buf w f).1.written ≡ w.written ++ encoding f)
write_frame-written buf w f room =
    let (sent, result) = write_frame-encoding buf w f in
    let (bytes, done) = write_all w (encoding f) (omega (arith, length-encoding f)) in
    (
      result ∙ ap (λ b. if b then ok tt else err writing_frame) done,
      ap (λ (v : Writer). v.written) sent ∙ bytes,
    )

-- A frame whose header and payload lengths fit their fields (24 and 32 bits), written by
-- `WriteFrame` to a writer that takes it all, with any pooled buffer, is read back by `ReadFrame`:
-- no error, the same frame, and the reader stands at what follows.
pub read_frame-write_frame :
    (buf : List ℕ) (w : Writer) (f : Frame) (rest : List ℕ)
    → IsTyped f
    → Fits f
    → HasRoom w f
    → ((write_frame buf w f).2 ≡ ok tt)
      × (read_frame (drop (length w.written) (write_frame buf w f).1.written ++ rest)
          ≡ (ok f, rest))
read_frame-write_frame buf w f rest t fits room =
    let (done, bytes) = write_frame-written buf w f room in
    (
      done,
      rw (bytes, drop-length-append w.written (encoding f)) (read_frame-encoding f rest t fits),
    )

All-append : (xs ys : List ℕ) → All IsByte xs → All IsByte ys → All IsByte (xs ++ ys)
All-append [] ys h k = k
All-append (x ∷ xs) ys h k = (h.0, All-append xs ys h.1 k)

All-prefix : (xs ys : List ℕ) → All IsByte (xs ++ ys) → All IsByte xs
All-prefix [] ys h = tt
All-prefix (x ∷ xs) ys h = (h.0, All-prefix xs ys h.1)

-- The slices of a frame hold bytes.
pub record HoldsBytes (f : Frame) : Type 0 where
  pub headers_bytes : All IsByte f.headers
  pub payload_bytes : All IsByte f.payload

pub encoding-IsByte : (f : Frame) → IsTyped f → HoldsBytes f → All IsByte (encoding f)
unfolding encoding header
encoding-IsByte f t b =
    All-append (header f) (f.headers ++ f.payload) (omega arith)
      (All-append f.headers f.payload b.headers_bytes b.payload_bytes)

not-ok-err : (r : Result ReadError Frame) → ((g : Frame) → r ≢ ok g) → (e : ReadError) × (r ≡ err e)
not-ok-err (ok g) h = absurd (h g refl)
not-ok-err (err e) h = (e, refl)

-- `ReadFrame` returns an error on every proper prefix of a frame that `WriteFrame` can send.
pub read_frame_truncated :
    (f : Frame) (front back : List ℕ) (x : ℕ)
    → IsTyped f
    → Fits f
    → HoldsBytes f
    → encoding f ≡ front ++ x ∷ back
    → (e : ReadError) × ((read_frame front).0 ≡ err e)
read_frame_truncated f front back x t fits b e = not-ok-err (read_frame front).0 λ g k.
    let bytes : All IsByte front =
      All-prefix front (x ∷ back) (subst (All IsByte) e (encoding-IsByte f t b)) in
    let more : List ℕ = (read_frame front).1 in
    let (same, tg, fg) = read_frame_accepts front more g bytes (ap (λ r. (r, more)) k) in
    let whole : encoding f ≡ encoding g ++ (more ++ x ∷ back) =
      e ∙ ap (λ r. r ++ x ∷ back) same ∙ append_assoc (encoding g) more (x ∷ back) in
    let read : read_frame (encoding f) ≡ (ok g, more ++ x ∷ back) =
      rw whole (read_frame-encoding g (more ++ x ∷ back) tg fg) in
    let alone : read_frame (encoding f) ≡ (ok f, []) =
      rw append-nil at (read_frame-encoding f [] t fits) in
    absurd (
      omega (
        arith,
        ap (λ (r : Result ReadError Frame × List ℕ). length r.1) (sym read ∙ alone),
        length-append more (x ∷ back),
      ))

-- What is read back of a frame: its lengths wrap to 24 and 32 bits.
abbrev pub cut : Frame → Frame
cut f =
    let bytes = f.headers ++ f.payload in
    let headers = length f.headers % 2 ^ 24 in
    record f {
      headers = take headers bytes;
      payload = take (length f.payload % 2 ^ 32) (drop headers bytes);
    }

-- The bytes of a frame that are left in the reader.
abbrev pub lost : Frame → List ℕ
lost f =
    drop (length f.payload % 2 ^ 32) (drop (length f.headers % 2 ^ 24) (f.headers ++ f.payload))

length-cut :
    (f : Frame)
    → (length (cut f).headers ≡ length f.headers % 2 ^ 24)
      × (length (cut f).payload ≡ length f.payload % 2 ^ 32)
length-cut f =
    let bytes = f.headers ++ f.payload in
    let headers = length f.headers % 2 ^ 24 in
    let size = length-append f.headers f.payload in
    (
      length-take headers bytes (omega (arith, size)),
      length-take (length f.payload % 2 ^ 32) (drop headers bytes)
          (omega (arith, size, length-drop headers bytes)),
    )

wrapped_3 : (v : ℕ) → be 3 (v % 2 ^ 24) ≡ be 3 v
unfolding be
wrapped_3 v = ground arith

wrapped_4 : (v : ℕ) → be 4 (v % 2 ^ 32) ≡ be 4 v
unfolding be
wrapped_4 v = ground arith

header-cut : (f : Frame) → header f ≡ header (cut f)
unfolding header
header-cut f =
    let (headers, payload) = length-cut f in
    let front = λ (a b : List ℕ).
      magic0 ∷ magic1 ∷ version ∷ f.type ∷ f.flags ∷ (be 2 f.stream_id ++ (a ++ b)) in
    ap (λ a. front a (be 4 (length f.payload)))
      (sym (ap (be 3) headers ∙ wrapped_3 (length f.headers)))
    ∙ ap (front (be 3 (length (cut f).headers)))
        (sym (ap (be 4) payload ∙ wrapped_4 (length f.payload)))

encoding-cut : (f : Frame) → encoding f ≡ encoding (cut f) ++ lost f
unfolding encoding
encoding-cut f =
    let bytes = f.headers ++ f.payload in
    let headers = length f.headers % 2 ^ 24 in
    let rest = drop headers bytes in
    ap (λ h. h ++ bytes) (header-cut f)
    ∙ ap (λ b. header (cut f) ++ b)
        (sym (take-append-drop headers bytes)
          ∙ ap (λ b. (cut f).headers ++ b) (sym (take-append-drop (length f.payload % 2 ^ 32) rest))
          ∙ sym (append_assoc (cut f).headers (cut f).payload (lost f)))
    ∙ sym (append_assoc (header (cut f)) ((cut f).headers ++ (cut f).payload) (lost f))

-- `WriteFrame` sends a frame whose header or payload is too long for its length field without an
-- error, to a writer that takes it all, and `ReadFrame` returns no error either, but another frame:
-- the lengths wrap to 24 and 32 bits, the rest of the bytes stays in front of what follows.
pub read_frame_oversized :
    (buf : List ℕ) (w : Writer) (f : Frame) (rest : List ℕ)
    → IsTyped f
    → HasRoom w f
    → ¬ Fits f
    → ((write_frame buf w f).2 ≡ ok tt)
      × (read_frame (drop (length w.written) (write_frame buf w f).1.written ++ rest)
          ≡ (ok (cut f), lost f ++ rest))
      × (cut f ≢ f)
read_frame_oversized buf w f rest t room big =
    let (done, bytes) = write_frame-written buf w f room in
    let (headers, payload) = length-cut f in
    let typed : IsTyped (cut f) = record {
      type_byte = t.type_byte;
      flags_byte = t.flags_byte;
      stream_word = t.stream_word;
    } in
    let fits : Fits (cut f) = record {
      headers_fit = omega (arith, headers);
      payload_fits = omega (arith, payload);
    } in
    (
      done,
      rw (bytes, drop-length-append w.written (encoding f))
          (ap (λ r. read_frame (r ++ rest)) (encoding-cut f)
            ∙ ap read_frame (append_assoc (encoding (cut f)) (lost f) rest)
            ∙ read_frame-encoding (cut f) (lost f ++ rest) typed fits),
      λ e. big (subst Fits e fits),
    )
