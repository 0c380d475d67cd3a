-- ===== src/Web/Tags.antt =====
-- `calculateStaticEntityTag` of core/httpx/router.go tells the versions of a file apart.
use kumacore.Prelude.{
  ℕ, zero, suc, ◌+◌, ◌*◌, ◌/◌, ◌%◌, ◌-◌, ◌≤◌, ◌<◌, pos, [], ◌∷◌, ◌++◌, ◌≡◌, refl, sym, ap, ◌∙◌,
  arith, if◌then◌else◌, ltb, length, length-append, Bool-cases, inl, inr,
}
use kumacore.Prelude.Text.{Str}
use kumacore.Web.{digit_36, digits_36, format_int_36, calculate_static_entity_tag, FileInfo}

digit_value : ℕ → ℕ
digit_value c = if ltb c 58 then c - 48 else c - 87

digit_value-digit_36 : (d : ℕ) → d < 36 → digit_value (digit_36 d) ≡ d
unfolding digit_value digit_36
digit_value-digit_36 d h = ground arith

-- The number that digits stand for, after those that have been read.
read_36 : ℕ → Str → ℕ
read_36 acc [] = acc
read_36 acc (c ∷ s) = read_36 (acc * 36 + digit_value c) s

read_36-last :
    (acc c : ℕ) (s : Str) → read_36 acc (s ++ c ∷ []) ≡ read_36 acc s * 36 + digit_value c
unfolding read_36
read_36-last acc c [] = refl
read_36-last acc c (d ∷ s) = read_36-last (acc * 36 + digit_value d) c s

pow_36 : ℕ → ℕ
pow_36 zero = 1
pow_36 (suc k) = 36 * pow_36 k

-- With fuel for all of its digits, a number is read back.
read_36-digits_36 : (fuel n : ℕ) → n < pow_36 fuel → read_36 0 (digits_36 fuel n) ≡ n
unfolding digits_36 read_36 pow_36
read_36-digits_36 zero n h = omega arith
read_36-digits_36 (suc fuel) n h = elim (Bool-cases (ltb n 36)) [
  | inl one ↦ rw one (omega (arith, digit_value-digit_36 n (ground arith)))
  | inr more ↦ rw more (
      omega (
        arith,
        read_36-last 0 (digit_36 (n % 36)) (digits_36 fuel (n / 36)),
        read_36-digits_36 fuel (n / 36) (omega arith),
        digit_value-digit_36 (n % 36) (omega arith),
      ))
]

-- How many digits there are.
length-digits_36 :
    (fuel k n : ℕ)
    → pow_36 k ≤ n
    → n < pow_36 (suc k)
    → k < fuel
    → length (digits_36 fuel n) ≡ suc k
unfolding digits_36 pow_36
length-digits_36 zero k n lo hi h = absurd (omega arith)
length-digits_36 (suc fuel) zero n lo hi h = elim (Bool-cases (ltb n 36)) [
  | inl one ↦ rw one refl
  | inr more ↦ absurd (ground arith)
]
length-digits_36 (suc fuel) (suc k) n lo hi h = elim (Bool-cases (ltb n 36)) [
  | inl one ↦ absurd (ground (arith, pow_36_pos k))
  | inr more ↦ rw more (
      omega (
        arith,
        length-append (digits_36 fuel (n / 36)) (digit_36 (n % 36) ∷ []),
        length-digits_36 fuel k (n / 36) (omega arith) (omega arith) (omega arith),
      ))
]
  where
    pow_36_pos : (j : ℕ) → 1 ≤ pow_36 j
    pow_36_pos zero = omega arith
    pow_36_pos (suc j) = omega (arith, pow_36_pos j)

digits_36-injective :
    (m n : ℕ) → m < pow_36 13 → n < pow_36 13 → digits_36 13 m ≡ digits_36 13 n → m ≡ n
digits_36-injective m n hm hn e =
    sym (read_36-digits_36 13 m hm) ∙ ap (read_36 0) e ∙ read_36-digits_36 13 n hn

append_injective : (s t u v : Str) → length s ≡ length t → s ++ u ≡ t ++ v → (s ≡ t) × (u ≡ v)
append_injective [] [] u v l e = (refl, e)
append_injective [] (d ∷ t) u v l e = absurd (omega arith)
append_injective (c ∷ s) [] u v l e = absurd (omega arith)
append_injective (c ∷ s) (d ∷ t) u v l e =
    let (p, q) = append_injective s t u v (omega arith) (cc) in (cc, q)

-- From the fourth of March 1974 to the year 2120 a time in nanoseconds has twelve digits.
abbrev pub IsRecent : ℕ → Type 0
IsRecent n = (131621703842267136 ≤ n) × (n < 4738381338321616896)

length-recent : (n : ℕ) → IsRecent n → length (digits_36 13 n) ≡ 12
unfolding pow_36
length-recent n (lo, hi) = length-digits_36 13 11 n lo hi (omega arith)

tag_recent :
    (file_info : FileInfo) (n : ℕ)
    → file_info.modified ≡ pos n
    → IsRecent n
    → calculate_static_entity_tag file_info
      ≡ b'"' ∷ (digits_36 13 n ++ (digits_36 13 file_info.size ++ b'"' ∷ []))
unfolding calculate_static_entity_tag format_int_36
tag_recent file_info n e (lo, hi) = ground arith

drop_quote : (s t : Str) → s ++ b'"' ∷ [] ≡ t ++ b'"' ∷ [] → s ≡ t
drop_quote s t e =
    (append_injective s t (b'"' ∷ []) (b'"' ∷ [])
      (omega (arith, ap length e, length-append s (b'"' ∷ []), length-append t (b'"' ∷ []))) e).0

int64_max : (n : ℕ) → n < 9223372036854775808 → n < pow_36 13
unfolding pow_36
int64_max n h = omega arith

-- Two versions of a file that were modified between the fourth of March 1974 and the year 2120 have
-- the same entity tag only if both the time of modification, to the nanosecond, and the size are the
-- same, although nothing stands between the two numbers in the tag.
pub entity_tag-injective :
    (a b : FileInfo) (m n : ℕ)
    → a.modified ≡ pos m
    → b.modified ≡ pos n
    → IsRecent m
    → IsRecent n
    → a.size < 9223372036854775808
    → b.size < 9223372036854775808
    → calculate_static_entity_tag a ≡ calculate_static_entity_tag b
    → (m ≡ n) × (a.size ≡ b.size)
entity_tag-injective a b m n p q recent_m recent_n size_a size_b e =
    let tags = sym (tag_recent a m p recent_m) ∙ e ∙ tag_recent b n q recent_n in
    let (times, sizes) =
      append_injective (digits_36 13 m) (digits_36 13 n) (digits_36 13 a.size ++ b'"' ∷ [])
        (digits_36 13 b.size ++ b'"' ∷ [])
        (length-recent m recent_m ∙ sym (length-recent n recent_n)) (cc) in
    (
      digits_36-injective m n (int64_max m (omega arith)) (int64_max n (omega arith)) times,
      digits_36-injective a.size b.size (int64_max a.size size_a) (int64_max b.size size_b)
          (drop_quote (digits_36 13 a.size) (digits_36 13 b.size) sizes),
    )
