-- ===== src/Prelude/Text.antt =====
-- Go strings as lists of bytes, with what the program uses of the package `strings`.
use Prim.Native.Nat.{ℕ, suc}
use Prim.Native.Char.{code}
use Prim.Native.String.{String}
use mathlib.Core.Path.{◌≡◌, refl}
use mathlib.Core.Logic.{◌↔◌}
use mathlib.Core.Bool.{Bool, true, false, ◌&&◌, ◌||◌}
use mathlib.Core.List.{List, [], ◌∷◌, reverse}
use mathlib.Core.Option.{Option, none, some}
use native.Mathlib.Omega.{arith}
use kumacore.Prelude.Tests.{ltb, leb, nat_eq, Eq, if◌then◌else◌}
use kumacore.Prelude.Lists.{length, drop}

abbrev pub Str : Type 0
Str = List ℕ

-- The bytes of an ASCII literal.
abbrev pub str : String → Str
str String.[] = []
str (String.◌∷◌ c s) = code c ∷ str s

-- s == t
unfoldable pub str_eq : Str → Str → Bool
str_eq [] [] = true
str_eq [] (y ∷ ys) = false
str_eq (x ∷ xs) [] = false
str_eq (x ∷ xs) (y ∷ ys) = nat_eq x y && str_eq xs ys

pub str_eq_iff : (s t : Str) → (str_eq s t ≡ true) ↔ (s ≡ t)
unfolding str_eq
str_eq_iff [] [] = ground arith
str_eq_iff [] (y ∷ ys) = ground arith
str_eq_iff (x ∷ xs) [] = ground arith
str_eq_iff (x ∷ xs) (y ∷ ys) = ground (arith, str_eq_iff xs ys)

instance abbrev pub Eq-str : Eq Str
Eq-str = record { beq = str_eq; beq_iff = str_eq_iff }

-- How often a text is listed.
unfoldable pub count : Str → List Str → ℕ
count i [] = 0
count i (j ∷ js) = if str_eq j i then suc (count i js) else count i js

abbrev pub is_empty : Str → Bool
is_empty [] = true
is_empty (_ ∷ _) = false

-- s < t, byte by byte
unfoldable pub str_lt : Str → Str → Bool
str_lt [] [] = false
str_lt [] (y ∷ ys) = true
str_lt (x ∷ xs) [] = false
str_lt (x ∷ xs) (y ∷ ys) = ltb x y || (nat_eq x y && str_lt xs ys)

-- strings.HasPrefix
unfoldable pub has_prefix : Str → Str → Bool
has_prefix s [] = true
has_prefix [] (p ∷ ps) = false
has_prefix (c ∷ s) (p ∷ ps) = nat_eq c p && has_prefix s ps

-- strings.HasSuffix and strings.TrimSuffix
unfoldable pub has_suffix : Str → Str → Bool
unfolding has_prefix
has_suffix s p = has_prefix (reverse s) (reverse p)

unfoldable pub trim_suffix : Str → Str → Str
unfolding has_suffix
trim_suffix s p = if has_suffix s p then reverse (drop (length p) (reverse s)) else s

-- strings.Cut at a separator of one byte: the parts before and after its first occurrence
unfoldable pub cut : ℕ → Str → Option (Str × Str)
cut sep [] = none
cut sep (c ∷ s) =
    let rest = cut sep s in
    if nat_eq c sep
    then some ([], s)
    else elim rest [ none ↦ none | some (before, after) ↦ some (c ∷ before, after) ]

-- strings.Split at a separator of one byte: there is always a part
unfoldable pub split : ℕ → Str → List Str
split sep [] = [] ∷ []
split sep (c ∷ s) =
    let rest = split sep s in
    if nat_eq c sep
    then [] ∷ rest
    else elim rest [ [] ↦ (c ∷ []) ∷ [] | part ∷ parts ↦ (c ∷ part) ∷ parts ]

-- The white-space characters of `unicode.IsSpace`, in UTF-8.
is_space1 : ℕ → Bool
is_space1 a = (leb 9 a && leb a 13) || nat_eq a 32

is_space2 : ℕ → ℕ → Bool
is_space2 a b = nat_eq a 0xc2 && (nat_eq b 0x85 || nat_eq b 0xa0)

is_space3 : ℕ → ℕ → ℕ → Bool
is_space3 a b c =
    (nat_eq a 0xe1 && nat_eq b 0x9a && nat_eq c 0x80)
    || (nat_eq a 0xe2
        && nat_eq b 0x80
        && ((leb 0x80 c && leb c 0x8a) || nat_eq c 0xa8 || nat_eq c 0xa9 || nat_eq c 0xaf))
    || (nat_eq a 0xe2 && nat_eq b 0x81 && nat_eq c 0x9f)
    || (nat_eq a 0xe3 && nat_eq b 0x80 && nat_eq c 0x80)

-- Drops white space at the front; `flip` reads the bytes of a character backwards.
trim_front : Bool → Str → Str
unfolding is_space1 is_space2 is_space3
trim_front flip [] = []
trim_front flip (a ∷ []) = if is_space1 a then [] else a ∷ []
trim_front flip (a ∷ b ∷ []) =
    let rest = trim_front flip (b ∷ []) in
    if is_space1 a
    then rest
    else if (if flip then is_space2 b a else is_space2 a b)
    then []
    else a ∷ b ∷ []
trim_front flip (a ∷ b ∷ c ∷ s) =
    let rest1 = trim_front flip (b ∷ c ∷ s) in
    let rest2 = trim_front flip (c ∷ s) in
    let rest3 = trim_front flip s in
    if is_space1 a
    then rest1
    else if (if flip then is_space2 b a else is_space2 a b)
    then rest2
    else if (if flip then is_space3 c b a else is_space3 a b c)
    then rest3
    else a ∷ b ∷ c ∷ s

-- strings.TrimSpace
unfoldable pub trim_space : Str → Str
unfolding trim_front
trim_space s = reverse (trim_front true (reverse (trim_front false s)))

trim_space_test : trim_space (str " \t a b\n") ≡ str "a b"
unfolding trim_space
trim_space_test = refl

cut_test : cut b'_' (str "0001_a_b") ≡ some (str "0001", str "a_b")
unfolding cut
cut_test = refl

trim_suffix_test : trim_suffix (str "a.sql") (str ".sql") ≡ str "a"
unfolding trim_suffix
trim_suffix_test = refl
