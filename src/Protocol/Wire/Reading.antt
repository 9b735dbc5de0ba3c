-- ===== src/Protocol/Wire/Reading.antt =====
-- `ReadFrame` of internal/protocol/wire.go on the bytes of a frame, and on what it accepts.
use maboo.Base.{
  ℕ, ◌+◌, ◌*◌, ◌/◌, ◌%◌, ◌^◌, ◌<◌, ◌≡◌, refl, ap, ◌∙◌, inl, inr, List, [], ◌∷◌, ◌++◌, ltb, leb,
  some, length, length-append, take-length-append, drop-length-append, Bool-cases, arith,
}
use maboo.Base.Bits.{bit_or_fields}
use maboo.Base.Results.{ok}
use maboo.Protocol.Wire.{
  Frame, IsTyped, Fits, be16, be24, be32, read_full, read_data, read_frame, attach, after_header,
}
use maboo.Protocol.Wire.Layout.{header, encoding, length-header}
use mathlib.Core.List.{append_assoc}
use Prim.Native.Nat.{bit_or}

pub be16-digits : (a b : ℕ) → b < 256 → be16 a b ≡ a * 256 + b
be16-digits a b h = bit_or_fields 8 a b h

pub be24-digits : (a b c : ℕ) → b < 256 → c < 256 → be24 a b c ≡ (a * 256 + b) * 256 + c
be24-digits a b c hb hc = rw (bit_or_fields 16 a (b * 256) (omega arith)) (
    ap (λ (t : ℕ). bit_or t c)
      (let e : a * 65536 + b * 256 ≡ (a * 256 + b) * 2 ^ 8 = omega arith in e)
    ∙ bit_or_fields 8 (a * 256 + b) c hc)

pub be32-digits :
    (a b c d : ℕ) → b < 256 → c < 256 → d < 256 → be32 a b c d ≡ ((a * 256 + b) * 256 + c) * 256 + d
be32-digits a b c d hb hc hd =
    let e : bit_or (a * 2 ^ 24) (b * 2 ^ 16) ≡ (a * 256 + b) * 2 ^ 16 =
      omega (arith, bit_or_fields 24 a (b * 65536) (omega arith)) in
    let e' : (a * 256 + b) * 2 ^ 16 + c * 2 ^ 8 ≡ ((a * 256 + b) * 256 + c) * 2 ^ 8 = omega arith in
    ap (λ (t : ℕ). bit_or (bit_or t (c * 2 ^ 8)) d) e
    ∙ ap (λ (t : ℕ). bit_or t d) (bit_or_fields 16 (a * 256 + b) (c * 256) (omega arith) ∙ e')
    ∙ bit_or_fields 8 ((a * 256 + b) * 256 + c) d hd

pub read_full-append : (xs ys : List ℕ) → read_full (length xs) (xs ++ ys) ≡ (some xs, ys)
unfolding read_full
read_full-append xs ys = elim (Bool-cases (leb (length xs) (length (xs ++ ys)))) [
  | inl e ↦ rw (e, take-length-append xs ys, drop-length-append xs ys)
  | inr e ↦ absurd (ground (arith, length-append xs ys))
]

-- The frame that the header alone gives.
abbrev pub bare : Frame → Frame
bare f = record f { headers = []; payload = [] }

attach-append :
    (f : Frame) (xs ys : List ℕ)
    → attach (bare f) (length xs) (length ys) (some (xs ++ ys))
      ≡ ok (record f { headers = xs; payload = ys })
unfolding attach
attach-append f [] [] = refl
attach-append f [] (y ∷ ys) = ground arith
attach-append f (x ∷ xs) [] = ground (arith, take-length-append xs [])
attach-append f (x ∷ xs) (y ∷ ys) =
    ground (arith, take-length-append xs (y ∷ ys), drop-length-append xs (y ∷ ys))

read_full_parts :
    (xs ys rest : List ℕ)
    → read_full (length xs + length ys) (xs ++ (ys ++ rest)) ≡ (some (xs ++ ys), rest)
read_full_parts xs ys rest =
    rw (← append_assoc xs ys rest, ← length-append xs ys) (read_full-append (xs ++ ys) rest)

read_data_some :
    (f : Frame) (n m : ℕ) (r : List ℕ)
    → 0 < n + m
    → read_data f n m r ≡ (attach f n m (read_full (n + m) r).0, (read_full (n + m) r).1)
unfolding read_data
read_data_some f n m r h = elim (Bool-cases (ltb 0 (n + m))) [
  | inl e ↦ rw e
  | inr e ↦ absurd (ground arith)
]

read_data-append :
    (f : Frame) (xs ys rest : List ℕ)
    → read_data (bare f) (length xs) (length ys) (xs ++ (ys ++ rest))
      ≡ (ok (record f { headers = xs; payload = ys }), rest)
read_data-append f [] [] rest = unfold read_data in refl
read_data-append f (x ∷ xs) ys rest =
    read_data_some (bare f) (length (x ∷ xs)) (length ys) _ (omega arith)
    ∙ rw (read_full_parts (x ∷ xs) ys rest, attach-append f (x ∷ xs) ys)
read_data-append f [] (y ∷ ys) rest =
    read_data_some (bare f) 0 (length (y ∷ ys)) _ (omega arith)
    ∙ rw (read_full_parts [] (y ∷ ys) rest, attach-append f [] (y ∷ ys))

-- The three numbers of a frame header.
word_of_digits : (v : ℕ) → v < 65536 → be16 (v / 256 % 256) (v % 256) ≡ v
word_of_digits v h = omega (arith, be16-digits (v / 256 % 256) (v % 256) (omega arith))

three_of_digits : (v : ℕ) → v < 2 ^ 24 → be24 (v / 256 / 256 % 256) (v / 256 % 256) (v % 256) ≡ v
three_of_digits v h =
    omega (
      arith,
      be24-digits (v / 256 / 256 % 256) (v / 256 % 256) (v % 256) (omega arith) (omega arith),
    )

four_of_digits :
    (v : ℕ)
    → v < 2 ^ 32
    → be32 (v / 256 / 256 / 256 % 256) (v / 256 / 256 % 256) (v / 256 % 256) (v % 256) ≡ v
four_of_digits v h = omega (
  arith,
  be32-digits (v / 256 / 256 / 256 % 256) (v / 256 / 256 % 256) (v / 256 % 256) (v % 256)
      (omega arith) (omega arith) (omega arith),
)

after_header-header :
    (f : Frame) (r : List ℕ)
    → IsTyped f
    → Fits f
    → after_header (some (header f)) r ≡ read_data (bare f) (length f.headers) (length f.payload) r
unfolding after_header header
after_header-header f r t fits = rw (
  word_of_digits f.stream_id t.stream_word,
  three_of_digits (length f.headers) fits.headers_fit,
  four_of_digits (length f.payload) fits.payload_fits,
)

-- A frame with valid fields and lengths is read back, and what follows it stays in the reader.
pub read_frame-encoding :
    (f : Frame) (rest : List ℕ)
    → IsTyped f
    → Fits f
    → read_frame (encoding f ++ rest) ≡ (ok f, rest)
unfolding read_frame encoding
read_frame-encoding f rest t fits =
    rw
      (append_assoc (header f) (f.headers ++ f.payload) rest, append_assoc f.headers f.payload rest)
      (let body : List ℕ = f.headers ++ (f.payload ++ rest) in
        let e : read_full 14 (header f ++ body) ≡ (some (header f), body) =
          rw length-header at (read_full-append (header f) body) in
        rw (e, after_header-header f body t fits) (read_data-append f f.headers f.payload rest))
