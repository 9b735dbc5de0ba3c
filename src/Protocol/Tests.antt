-- ===== src/Protocol/Tests.antt =====
-- Examples for internal/protocol/wire.go.
use maboo.Base.{
  ◌+◌, ℕ, ◌^◌, ◌≡◌, ◌≢◌, refl, List, [], ◌∷◌, zero, suc, ap, ◌++◌, drop, length, All, arith, subst,
}
use maboo.Base.Results.{ok, err}
use maboo.Protocol.Wire.{Frame, IsTyped, Fits, IsByte, Writer, ReadError, write_frame, read_frame}
use maboo.Protocol.Wire.Layout.{encoding, header}
use maboo.Protocol.Wire.Accepted.{read_frame_accepts}
use maboo.Protocol.Wire.RoundTrip.{
  encoding-IsByte, HasRoom, HoldsBytes, read_frame-write_frame, read_frame_truncated,
  read_frame_oversized, cut, lost,
}

abbrev sample : Frame
sample = record { type = 3; flags = 0; stream_id = 258; headers = 7 ∷ 8 ∷ []; payload = 9 ∷ [] }

abbrev bytes : List ℕ
bytes = 77 ∷ 66 ∷ 1 ∷ 3 ∷ 0 ∷ 1 ∷ 2 ∷ 0 ∷ 0 ∷ 2 ∷ 0 ∷ 0 ∷ 0 ∷ 1 ∷ 7 ∷ 8 ∷ 9 ∷ []

abbrev pipe : Writer
pipe = record { written = 5 ∷ []; room = 1000 }

sample-IsTyped : IsTyped sample
sample-IsTyped = record {
  type_byte = omega arith;
  flags_byte = omega arith;
  stream_word = omega arith;
}

sample-Fits : Fits sample
sample-Fits = record { headers_fit = omega arith; payload_fits = omega arith }

sample-HoldsBytes : HoldsBytes sample
sample-HoldsBytes = record {
  headers_bytes = (omega arith, (omega arith, tt));
  payload_bytes = (omega arith, tt);
}

sample-room : HasRoom pipe sample
sample-room = omega arith

sample_bytes : encoding sample ≡ bytes
unfolding encoding header
sample_bytes = refl

read_frame-write_frame_example :
    ((write_frame [] pipe sample).2 ≡ ok tt)
    × (read_frame (drop (length pipe.written) (write_frame [] pipe sample).1.written ++ 1 ∷ [])
        ≡ (ok sample, 1 ∷ []))
read_frame-write_frame_example =
    read_frame-write_frame [] pipe sample (1 ∷ []) sample-IsTyped sample-Fits sample-room

read_frame_truncated_example : (e : ReadError) × ((read_frame (77 ∷ 66 ∷ 1 ∷ 3 ∷ [])).0 ≡ err e)
read_frame_truncated_example =
    read_frame_truncated sample (77 ∷ 66 ∷ 1 ∷ 3 ∷ [])
      (1 ∷ 2 ∷ 0 ∷ 0 ∷ 2 ∷ 0 ∷ 0 ∷ 0 ∷ 1 ∷ 7 ∷ 8 ∷ 9 ∷ []) 0 sample-IsTyped sample-Fits
      sample-HoldsBytes sample_bytes

sample_read : read_frame bytes ≡ (ok sample, [])
unfolding read_frame
sample_read = refl

read_frame_accepts_example : (bytes ≡ encoding sample ++ []) × IsTyped sample × Fits sample
read_frame_accepts_example =
    read_frame_accepts bytes [] sample
      (subst (All IsByte) sample_bytes (encoding-IsByte sample sample-IsTyped sample-HoldsBytes))
      sample_read

zeros : (n : ℕ) → (xs : List ℕ) × (length xs ≡ n) × All IsByte xs
zeros zero = ([], refl, tt)
zeros (suc n) = let (xs, size, small) = zeros n in (0 ∷ xs, ap suc size, (omega arith, small))

-- A frame whose header bytes are one more than a 24-bit length can tell.
big : (f : Frame) × IsTyped f × HoldsBytes f × (length f.headers ≡ 2 ^ 24)
big =
    let (xs, size, small) = zeros (2 ^ 24) in
    (
      record { type = 3; flags = 0; stream_id = 0; headers = xs; payload = [] },
      record { type_byte = omega arith; flags_byte = omega arith; stream_word = omega arith },
      record { headers_bytes = small; payload_bytes = tt },
      size,
    )

abbrev wide_pipe : Writer
wide_pipe = record { written = []; room = 14 + length big.0.headers + length big.0.payload }

read_frame_oversized_example :
    ((write_frame [] wide_pipe big.0).2 ≡ ok tt)
    × (read_frame (drop 0 (write_frame [] wide_pipe big.0).1.written ++ [])
        ≡ (ok (cut big.0), lost big.0 ++ []))
    × (cut big.0 ≢ big.0)
read_frame_oversized_example =
    read_frame_oversized [] wide_pipe big.0 [] big.1 (omega arith)
      (λ fits. omega (arith, fits.headers_fit, big.3))
