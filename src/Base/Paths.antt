-- ===== src/Base/Paths.antt =====
-- Texts character by character, as filepath.Ext and strings.ToLower read them.
use maboo.Base.Tests.{if◌then◌else◌, ◌==◌, leb}
use Prim.Native.Nat.{ℕ, ◌+◌}
use Prim.Native.Char.{code}
use Prim.Native.String.{String, [] as empty, ◌∷◌ as ◌∷ₛ◌}
use mathlib.Core.Bool.{Bool, true, false, ◌&&◌, ◌||◌}
use mathlib.Core.List.{List, [], ◌∷◌}

unfoldable pub codes : String → List ℕ
codes empty = []
codes (c ∷ₛ s) = code c ∷ codes s

abbrev pub codes_eq : List ℕ → List ℕ → Bool
codes_eq [] [] = true
codes_eq (a ∷ xs) (b ∷ ys) = (a == b) && codes_eq xs ys
codes_eq _ _ = false

-- From the last dot of the last element on, or nothing: `acc` is what the characters before gave.
unfoldable pub ext_from : List ℕ → List ℕ → List ℕ
ext_from acc [] = acc
ext_from acc (c ∷ cs) = ext_from (if c == 47 then [] else if c == 46 then c ∷ cs else acc) cs

-- `filepath.Ext`
unfoldable pub ext : String → List ℕ
unfolding codes ext_from
ext path = ext_from [] (codes path)

-- `strings.ToLower`, exact where it yields ASCII: U+0130 and U+212A are the only others that do.
unfoldable pub lower : List ℕ → List ℕ
lower [] = []
lower (c ∷ cs) =
    (if leb 65 c && leb c 90
      then c + 32
      else if c == 304
      then 105
      else if c == 8490
      then 107
      else c)
    ∷ lower cs

-- A `switch` on a text, or a search in a list of texts.
unfoldable pub is_one_of : List ℕ → List String → Bool
unfolding codes
is_one_of s [] = false
is_one_of s (t ∷ ts) = codes_eq s (codes t) || is_one_of s ts
