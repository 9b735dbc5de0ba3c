-- ===== src/Protocol/Wire/Accepted.antt =====
-- What `ReadFrame` of internal/protocol/wire.go accepts.
use maboo.Base.{
  ℕ, zero, suc, ◌+◌, ◌≡◌, refl, sym, ap, ◌∙◌, inl, inr, List, [], ◌∷◌, ◌++◌, ltb, Option, none,
  some, length, take, drop, take-append-drop, length-take, length-drop, Bool-cases, arith, All,
}
use maboo.Base.Results.{Result, ok}
use maboo.Protocol.Wire.{
  Frame, IsByte, IsTyped, Fits, ReadError, be16, be24, be32, read_full, read_data, read_frame,
  attach, after_header,
}
use maboo.Protocol.Wire.Layout.{header, encoding}
use maboo.Protocol.Wire.Reading.{be16-digits, be24-digits, be32-digits, read_full-append, bare}
use mathlib.Core.List.{append_assoc}

drop_all : (n : ℕ) (xs : List ℕ) → length xs ≡ n → drop n xs ≡ []
drop_all zero [] e = refl
drop_all zero (x ∷ xs) e = absurd (omega arith)
drop_all (suc n) [] e = refl
drop_all (suc n) (x ∷ xs) e = drop_all n xs (omega arith)

-- The parts of a frame body of `n + m` bytes.
attach_parts :
    (f g : Frame) (n m : ℕ) (bytes : List ℕ)
    → length bytes ≡ n + m
    → attach (bare f) n m (some bytes) ≡ ok g
    → (g.headers ≡ take n bytes)
      × (g.payload ≡ drop n bytes)
      × (g ≡ record f { headers = g.headers; payload = g.payload })
unfolding attach
attach_parts f g zero m bytes e h = ground (arith, drop_all 0 bytes)
attach_parts f g (suc n) m bytes e h = ground (arith, drop_all (suc n) bytes)

read_full-ok :
    (n : ℕ) (r bytes rest : List ℕ)
    → read_full n r ≡ (some bytes, rest)
    → (r ≡ bytes ++ rest) × (length bytes ≡ n)
unfolding read_full
read_full-ok n r bytes rest h = ground (arith, take-append-drop n r, length-take n r)

-- What a body of `n + m` bytes, read from `r` with `rest` left, makes of the frame.
abbrev Reads : Frame → Frame → ℕ → ℕ → List ℕ → List ℕ → Type 0
Reads f g n m r rest =
    (r ≡ g.headers ++ (g.payload ++ rest))
    × (length g.headers ≡ n)
    × (length g.payload ≡ m)
    × (g ≡ record f { headers = g.headers; payload = g.payload })

bytes-Reads :
    (f g : Frame) (n m : ℕ) (bytes r rest : List ℕ)
    → read_full (n + m) r ≡ (some bytes, rest)
    → attach (bare f) n m (some bytes) ≡ ok g
    → Reads f g n m r rest
bytes-Reads f g n m bytes r rest e h =
    let (whole, size) = read_full-ok (n + m) r bytes rest e in
    let (heads, pays, same) = attach_parts f g n m bytes size h in
    (
      whole
          ∙ ap (λ b. b ++ rest) (sym (take-append-drop n bytes))
          ∙ append_assoc (take n bytes) (drop n bytes) rest
          ∙ rw (heads, pays),
      rw heads (length-take n bytes (omega arith)),
      rw pays (omega (arith, length-drop n bytes)),
      same,
    )

read-Reads :
    (f g : Frame) (n m : ℕ) (o : Option (List ℕ)) (r r' rest : List ℕ)
    → read_full (n + m) r ≡ (o, r')
    → attach (bare f) n m o ≡ ok g
    → r' ≡ rest
    → Reads f g n m r rest
read-Reads f g n m none r r' rest e h k = unfold attach in cc
read-Reads f g n m (some bytes) r r' rest e h k =
    bytes-Reads f g n m bytes r rest (e ∙ ap (λ t. (some bytes, t)) k) h

read_data-Reads :
    (f g : Frame) (n m : ℕ) (r rest : List ℕ)
    → read_data (bare f) n m r ≡ (ok g, rest)
    → Reads f g n m r rest
unfolding read_data
read_data-Reads f g n m r rest h = elim (Bool-cases (ltb 0 (n + m))) [
  | inl e ↦
      let h' : ◌≡◌ {A = Result ReadError Frame × List ℕ}
          (attach (bare f) n m (read_full (n + m) r).0, (read_full (n + m) r).1) (ok g, rest) =
        rw e at h in
      read-Reads f g n m (read_full (n + m) r).0 r (read_full (n + m) r).1 rest refl
        (ap (λ t. t.0) h') (ap (λ t. t.1) h')
  | inr e ↦ ground arith
]

after_header-ok :
    (a0 a1 a2 a3 a4 a5 a6 a7 a8 a9 a10 a11 a12 a13 : ℕ) (r rest : List ℕ) (g : Frame)
    → after_header
        (some (a0 ∷ a1 ∷ a2 ∷ a3 ∷ a4 ∷ a5 ∷ a6 ∷ a7 ∷ a8 ∷ a9 ∷ a10 ∷ a11 ∷ a12 ∷ a13 ∷ []))
        r
      ≡ (ok g, rest)
    → (a0 ≡ 0x4d)
      × (a1 ≡ 0x42)
      × (a2 ≡ 1)
      × (read_data
            (record { type = a3; flags = a4; stream_id = be16 a5 a6; headers = []; payload = [] })
            (be24 a7 a8 a9)
            (be32 a10 a11 a12 a13)
            r
          ≡ (ok g, rest))
unfolding after_header
after_header-ok a0 a1 a2 a3 a4 a5 a6 a7 a8 a9 a10 a11 a12 a13 r rest g h = ground arith

-- The header that was read is the one that the frame has.
header_digits :
    (a3 a4 a5 a6 a7 a8 a9 a10 a11 a12 a13 : ℕ) (g : Frame)
    → All IsByte (a5 ∷ a6 ∷ a7 ∷ a8 ∷ a9 ∷ a10 ∷ a11 ∷ a12 ∷ a13 ∷ [])
    → g.type ≡ a3
    → g.flags ≡ a4
    → g.stream_id ≡ be16 a5 a6
    → length g.headers ≡ be24 a7 a8 a9
    → length g.payload ≡ be32 a10 a11 a12 a13
    → header g ≡ 0x4d ∷ 0x42 ∷ 1 ∷ a3 ∷ a4 ∷ a5 ∷ a6 ∷ a7 ∷ a8 ∷ a9 ∷ a10 ∷ a11 ∷ a12 ∷ a13 ∷ []
unfolding header
header_digits a3 a4 a5 a6 a7 a8 a9 a10 a11 a12 a13 g b t f s h p =
    ground (arith, be16-digits a5 a6, be24-digits a7 a8 a9, be32-digits a10 a11 a12 a13)

encoding-append :
    (g : Frame) (rest : List ℕ)
    → encoding g ++ rest ≡ header g ++ (g.headers ++ (g.payload ++ rest))
unfolding encoding
encoding-append g rest =
    append_assoc (header g) (g.headers ++ g.payload) rest
    ∙ ap (λ t. header g ++ t) (append_assoc g.headers g.payload rest)

-- The first 14 bytes, and what `ReadFrame` makes of them.
header_bytes-accepted :
    (a0 a1 a2 a3 a4 a5 a6 a7 a8 a9 a10 a11 a12 a13 : ℕ) (r rest : List ℕ) (g : Frame)
    → All IsByte (a0 ∷ a1 ∷ a2 ∷ a3 ∷ a4 ∷ a5 ∷ a6 ∷ a7 ∷ a8 ∷ a9 ∷ a10 ∷ a11 ∷ a12 ∷ a13 ∷ r)
    → after_header
        (some (a0 ∷ a1 ∷ a2 ∷ a3 ∷ a4 ∷ a5 ∷ a6 ∷ a7 ∷ a8 ∷ a9 ∷ a10 ∷ a11 ∷ a12 ∷ a13 ∷ []))
        r
      ≡ (ok g, rest)
    → (a0 ∷ a1 ∷ a2 ∷ a3 ∷ a4 ∷ a5 ∷ a6 ∷ a7 ∷ a8 ∷ a9 ∷ a10 ∷ a11 ∷ a12 ∷ a13 ∷ r
        ≡ encoding g ++ rest)
      × IsTyped g
      × Fits g
header_bytes-accepted a0 a1 a2 a3 a4 a5 a6 a7 a8 a9 a10 a11 a12 a13 r rest g b h =
    let f : Frame = record {
      type = a3;
      flags = a4;
      stream_id = be16 a5 a6;
      headers = [];
      payload = [];
    } in
    let head : List ℕ =
      a0 ∷ a1 ∷ a2 ∷ a3 ∷ a4 ∷ a5 ∷ a6 ∷ a7 ∷ a8 ∷ a9 ∷ a10 ∷ a11 ∷ a12 ∷ a13 ∷ [] in
    let (m0, m1, v, body) =
      after_header-ok a0 a1 a2 a3 a4 a5 a6 a7 a8 a9 a10 a11 a12 a13 r rest g h in
    let (whole, hs, ps, same) =
      read_data-Reads f g (be24 a7 a8 a9) (be32 a10 a11 a12 a13) r rest body in
    let typed = ap (λ (t : Frame). t.type) same in
    let flagged = ap (λ (t : Frame). t.flags) same in
    let stream = ap (λ (t : Frame). t.stream_id) same in
    let digits : header g ≡ head =
      header_digits a3 a4 a5 a6 a7 a8 a9 a10 a11 a12 a13 g (omega arith) typed flagged stream hs ps
      ∙ ground arith in
    (
      ap (λ t. head ++ t) whole
          ∙ ap (λ t. t ++ (g.headers ++ (g.payload ++ rest))) (sym digits)
          ∙ sym (encoding-append g rest),
      record {
        type_byte = omega arith;
        flags_byte = omega arith;
        stream_word = omega (arith, be16-digits a5 a6 (omega arith));
      },
      record {
        headers_fit = omega (arith, be24-digits a7 a8 a9 (omega arith) (omega arith));
        payload_fits =
            omega (arith, be32-digits a10 a11 a12 a13 (omega arith) (omega arith) (omega arith));
      },
    )

-- What `ReadFrame` accepts is the encoding of the frame that it returns, then what it leaves; the
-- frame's fields are in range and its lengths fit.
pub read_frame_accepts :
    (r rest : List ℕ) (g : Frame)
    → All IsByte r
    → read_frame r ≡ (ok g, rest)
    → (r ≡ encoding g ++ rest) × IsTyped g × Fits g
unfolding read_frame
read_frame_accepts (a0 ∷ a1 ∷ a2 ∷ a3 ∷ a4 ∷ a5 ∷ a6 ∷ a7 ∷ a8 ∷ a9 ∷ a10 ∷ a11 ∷ a12 ∷ a13 ∷ r)
      rest g b h =
    header_bytes-accepted a0 a1 a2 a3 a4 a5 a6 a7 a8 a9 a10 a11 a12 a13 r rest g b (
      rw
        (read_full-append
          (a0 ∷ a1 ∷ a2 ∷ a3 ∷ a4 ∷ a5 ∷ a6 ∷ a7 ∷ a8 ∷ a9 ∷ a10 ∷ a11 ∷ a12 ∷ a13 ∷ []) r)
        at h)
read_frame_accepts _ rest g b h = ground arith
