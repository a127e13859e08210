-- ===== src/Base/Strings.antt =====
-- Go strings as lists of code points, and the routines of package strings that the program calls.
pub mod Laws
use Prim.Native.Char.{code}
use Prim.Native.String.{String}
use Prim.Native.Nat.{ℕ}
use mathlib.Core.Bool.{Bool, true, false, ◌&&◌, ◌||◌}
use mathlib.Core.Logic.{ite}
use mathlib.Core.List.{List, [], ◌∷◌, ◌++◌, reverse}
use native.Mathlib.Decide.{ℕ_discrete}
use jpl.Base.Lists.{list_discrete}
use jpl.Base.Tests.{ltb, leb, ◌==◌, if◌then◌else◌}

abbrev pub Str : Type 0
Str = List ℕ

-- The code points of a literal.
abbrev pub codes : String → Str
codes String.[] = []
codes (String.◌∷◌ c s) = code c ∷ codes s

unfoldable pub str_discrete : Discrete Str
unfolding ℕ_discrete list_discrete
str_discrete = list_discrete ℕ_discrete

-- `a < b` on strings: by code points, which is the order of the bytes of their UTF-8.
unfoldable pub str_lt : Str → Str → Bool
unfolding ℕ_discrete
str_lt [] [] = false
str_lt [] (y ∷ t) = true
str_lt (x ∷ s) [] = false
str_lt (x ∷ s) (y ∷ t) = ite (ℕ_discrete x y) (str_lt s t) (ltb x y)

-- strings.Split by a separator of one code point: never empty.
cons_head : ℕ → List Str → List Str
cons_head c [] = (c ∷ []) ∷ []
cons_head c (p ∷ ps) = (c ∷ p) ∷ ps

unfoldable pub split : ℕ → Str → List Str
unfolding cons_head
split sep [] = [] ∷ []
split sep (c ∷ s) = let rest = split sep s in if c == sep then [] ∷ rest else cons_head c rest

-- strings.Join with a separator of one code point.
unfoldable pub join : ℕ → List Str → Str
join sep [] = []
join sep (p ∷ []) = p
join sep (p ∷ q ∷ ps) = p ++ sep ∷ join sep (q ∷ ps)

-- unicode.IsSpace
abbrev pub is_space : ℕ → Bool
is_space c =
    (leb 9 c && leb c 13)
    || c == 32
    || c == 0x85
    || c == 0xA0
    || c == 0x1680
    || (leb 0x2000 c && leb c 0x200a)
    || c == 0x2028
    || c == 0x2029
    || c == 0x202f
    || c == 0x205f
    || c == 0x3000

trim_left : Str → Str
trim_left [] = []
trim_left (c ∷ s) = let rest = trim_left s in if is_space c then rest else c ∷ s

-- strings.TrimSpace
unfoldable pub trim_space : Str → Str
unfolding trim_left
trim_space s = reverse (trim_left (reverse (trim_left s)))

-- strings.ReplaceAll of a pattern of one code point.
unfoldable pub replace_one : ℕ → Str → Str → Str
replace_one old new [] = []
replace_one old new (c ∷ s) =
    let rest = replace_one old new s in if c == old then new ++ rest else c ∷ rest

-- strings.ReplaceAll of a pattern of two code points: from the left, without overlaps.
unfoldable pub replace_two : ℕ → ℕ → Str → Str → Str
replace_two a b new [] = []
replace_two a b new (c ∷ []) = c ∷ []
replace_two a b new (c ∷ d ∷ s) =
    let skip = replace_two a b new s in
    let keep = replace_two a b new (d ∷ s) in if c == a && d == b then new ++ skip else c ∷ keep
