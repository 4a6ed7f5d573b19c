-- ===== src/Prelude/Text.antt =====
-- Text as code points, for the code that walks it. The case and space rules are those of ASCII.
use Prim.Native.Nat.{ℕ, ◌+◌}
use Prim.Native.Char.{code}
use Prim.Native.String.{String}
use mathlib.Core.Bool.{Bool, true, false, ◌&&◌, ◌||◌}
use mathlib.Core.List.{List, [], ◌∷◌, map, reverse}
use datagenie.Prelude.Tests.{leb, eqb, if◌then◌else◌}

abbrev pub Codes : Type 0
Codes = List ℕ

abbrev pub codes : String → Codes
codes String.[] = []
codes (String.◌∷◌ c s) = code c ∷ codes s

abbrev pub codes_eq : Codes → Codes → Bool
codes_eq [] [] = true
codes_eq (x ∷ xs) (y ∷ ys) = eqb x y && codes_eq xs ys
codes_eq _ _ = false

-- `str.lower`
unfoldable pub lower_char : ℕ → ℕ
lower_char c = if leb 65 c && leb c 90 then c + 32 else c

unfoldable pub lower : Codes → Codes
unfolding lower_char
lower s = map lower_char s

-- `str.strip`
unfoldable pub is_space : ℕ → Bool
is_space c = leb 9 c && leb c 13 || leb 28 c && leb c 32

unfoldable pub lstrip : Codes → Codes
unfolding is_space
lstrip [] = []
lstrip (c ∷ s) = if is_space c then lstrip s else c ∷ s

unfoldable pub strip : Codes → Codes
unfolding lstrip
strip s = reverse (lstrip (reverse (lstrip s)))

-- `s.split(sep)` at a separator of one character: `split_from` holds the field so far, reversed.
unfoldable pub split_from : ℕ → Codes → Codes → List Codes
split_from sep field [] = reverse field ∷ []
split_from sep field (c ∷ s) =
    let cut = split_from sep [] s in
    let on = split_from sep (c ∷ field) s in if eqb c sep then reverse field ∷ cut else on

unfoldable pub split : ℕ → Codes → List Codes
unfolding split_from
split sep s = split_from sep [] s

-- `s.startswith(p)` and `p in s`
unfoldable pub has_prefix : Codes → Codes → Bool
has_prefix [] s = true
has_prefix (x ∷ p) [] = false
has_prefix (x ∷ p) (c ∷ s) = eqb x c && has_prefix p s

unfoldable pub is_infix : Codes → Codes → Bool
unfolding has_prefix
is_infix p [] = has_prefix p []
is_infix p (c ∷ s) = has_prefix p (c ∷ s) || is_infix p s
