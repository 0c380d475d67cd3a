-- ===== src/Jobs/Names.antt =====
-- What `backupFilenamePattern` of app/jobs/backup matches.
use kumacore.Prelude.{
  ℕ, zero, suc, ◌+◌, ◌-◌, ◌*◌, true, false, some, [], ◌∷◌, ◌++◌, ◌≡◌, ◌⊎◌, inl, inr, refl, sym, ap,
  ◌∙◌, arith, ◌==◌, Bool-cases, Option-cases, All, length, drop,
}
use kumacore.Prelude.Text.{Str, Eq-str, str, str_eq_iff, has_prefix}
use kumacore.Jobs.Dates.{is_digit, read_digits, read_byte}
use kumacore.Jobs.Backup.{
  match_backup, match_date, match_suffix, is_stray, suffix_daily, suffix_weekly, zip_suffix,
  backup_prefix,
}
use kumacore.Jobs.Stamps.{drop-append}
use kumacore.Jobs.Extensions.{has_prefix-eq-true}

-- backup_, eight digits, an underscore, daily or weekly, and .zip
abbrev IsDated : Str → Type 0
IsDated rest =
    (digits : Str) × (suffix : Str) × (rest ≡ digits ++ b'_' ∷ (suffix ++ str ".zip"))
    × (length digits ≡ 8)
    × All (λ c. is_digit c ≡ true) digits
    × ((suffix ≡ str "daily") ⊎ (suffix ≡ str "weekly"))

abbrev pub IsBackupName : Str → Type 0
IsBackupName name = (rest : Str) × (name ≡ str "backup_" ++ rest) × IsDated rest

read_digits-eq-some :
    (k n : ℕ) (s : Str) {value : ℕ} {rest : Str}
    → read_digits k n s ≡ some (value, rest)
    → (digits : Str) × (s ≡ digits ++ rest)
      × (length digits ≡ k)
      × All (λ c. is_digit c ≡ true) digits
unfolding read_digits
read_digits-eq-some zero n s h = ([], cc, refl, tt)
read_digits-eq-some (suc k) n [] h = absurd (ground arith)
read_digits-eq-some (suc k) n (c ∷ s) {value} {rest} h = elim (Bool-cases (is_digit c)) [
  | inr other ↦ absurd (ground arith)
  | inl one ↦
      let (digits, p, q, all) =
        read_digits-eq-some k (n * 10 + (c - 48)) s {value = value} {rest = rest} (ground arith) in
      (c ∷ digits, ap (λ t. c ∷ t) p, ap suc q, (one, all))
]

read_byte-eq-some : (b : ℕ) (s : Str) {rest : Str} → read_byte b s ≡ some rest → s ≡ b ∷ rest
unfolding read_byte
read_byte-eq-some b [] h = absurd (ground arith)
read_byte-eq-some b (c ∷ s) h = ground arith

match_suffix-eq-some :
    (s : Str) {suffix : Str}
    → match_suffix s ≡ some suffix
    → (s ≡ suffix ++ str ".zip") × ((suffix ≡ str "daily") ⊎ (suffix ≡ str "weekly"))
unfolding match_suffix
match_suffix-eq-some s h = elim (Bool-cases (s == suffix_daily ++ zip_suffix)) [
  | inl daily ↦
      let e = (str_eq_iff s (suffix_daily ++ zip_suffix)).0 daily in
      let is : suffix_daily ≡ _ = ground arith in (e ∙ ap (λ t. t ++ zip_suffix) is, inl (sym is))
  | inr other ↦ elim (Bool-cases (s == suffix_weekly ++ zip_suffix)) [
    | inl weekly ↦
        let e = (str_eq_iff s (suffix_weekly ++ zip_suffix)).0 weekly in
        let is : suffix_weekly ≡ _ = ground arith in
        (e ∙ ap (λ t. t ++ zip_suffix) is, inr (sym is))
    | inr neither ↦ absurd (ground arith)
  ]
]

match_date-eq-some : (s digits suffix : Str) → match_date s ≡ some (digits, suffix) → IsDated s
unfolding match_date
match_date-eq-some s taken found h = elim (Option-cases (read_digits 8 0 s)) [
  | inl none' ↦ absurd (ground arith)
  | inr ((value, s1), p) ↦ elim (Option-cases (read_byte b'_' s1)) [
    | inl none' ↦ absurd (ground arith)
    | inr (s2, q) ↦ elim (Option-cases (match_suffix s2)) [
      | inl none' ↦ absurd (ground arith)
      | inr (suffix, r) ↦
          let (digits, e, eight, all) = read_digits-eq-some 8 0 s {value = value} {rest = s1} p in
          let (ends, is) = match_suffix-eq-some s2 {suffix = suffix} r in
          (
            digits,
            suffix,
            e ∙ ap (λ t. digits ++ t) (read_byte-eq-some b'_' s1 q ∙ ap (λ t. b'_' ∷ t) ends),
            eight,
            all,
            is,
          )
    ]
  ]
]

-- A name that is not a stray's has the form of a backup's.
pub is_stray-IsBackupName : (name : Str) → is_stray name ≡ false → IsBackupName name
unfolding match_backup
is_stray-IsBackupName name h = elim (Bool-cases (has_prefix name backup_prefix)) [
  | inr other ↦ absurd (ground arith)
  | inl starts ↦
      let (rest, e) = has_prefix-eq-true name backup_prefix starts in
      let tail : drop (length backup_prefix) name ≡ rest =
        ap (drop (length backup_prefix)) e ∙ drop-append backup_prefix rest in
      elim (Option-cases (match_date rest)) [
        | inl none' ↦ absurd (ground (arith, ap match_date tail))
        | inr ((digits, suffix), p) ↦ (rest, e, match_date-eq-some rest digits suffix p)
      ]
]
