-- ===== src/Scaffold/Regions.antt =====
-- `replaceMarkedRegion` of cmd/kumacore/internal/initcmd/write.go: what it keeps and what it writes.
use native.Mathlib.Nat.{zero-add, suc-add}
use kumacore.Prelude.{
  ℕ, zero, suc, ◌+◌, ◌-◌, ◌≤◌, true, some, [], ◌∷◌, ◌++◌, ok, ◌≡◌, ◌⊎◌, refl, sym, ap, subst, ◌∙◌,
  arith, ltb, length, take, drop, append_assoc, Bool-cases, Option-cases, inl, inr, >>=-eq-ok, ◌>>◌,
  fail_if,
}
use kumacore.Prelude.Text.{Str, has_prefix}
use kumacore.Scaffold.Markers.{index, newline, invalid_order, find_marker, replace_marked_region}

has_prefix-drop : (s p : Str) → has_prefix s p ≡ true → drop 0 s ≡ p ++ drop (length p) s
unfolding has_prefix
has_prefix-drop s [] h = refl
has_prefix-drop [] (c ∷ p) h = cc
has_prefix-drop (d ∷ s) (c ∷ p) h = ground (arith, has_prefix-drop s p)

index-cons :
    (c : ℕ) (s p : Str) (i : ℕ)
    → index (c ∷ s) p ≡ some i
    → ((has_prefix (c ∷ s) p ≡ true) × (i ≡ 0)) ⊎ ((j : ℕ) × (index s p ≡ some j) × (i ≡ suc j))
unfolding index
index-cons c s p i h = elim (Option-cases (index s p)) [
  | inl q ↦ inl (ground arith, ground arith)
  | inr (j, q) ↦ elim (Bool-cases (has_prefix (c ∷ s) p)) [
    | inl found ↦ inl (found, ground arith)
    | inr later ↦ inr (j, q, ground arith)
  ]
]

drop-nil : (n : ℕ) → drop {A = ℕ} n [] ≡ []
drop-nil zero = refl
drop-nil (suc n) = refl

take-nil : (n : ℕ) → take {A = ℕ} n [] ≡ []
take-nil zero = refl
take-nil (suc n) = refl

drop-add : (i n : ℕ) (s : Str) → drop n (drop i s) ≡ drop (i + n) s
drop-add zero n s = ap (λ k. drop k s) (sym (zero-add n))
drop-add (suc i) n [] = drop-nil n ∙ sym (drop-nil (suc i + n))
drop-add (suc i) n (c ∷ s) = drop-add i n s ∙ ap (λ k. drop k (c ∷ s)) (sym (suc-add i n))

length-drop-le : (n : ℕ) (s : Str) → length (drop n s) ≤ length s
length-drop-le zero s = omega arith
length-drop-le (suc n) [] = omega arith
length-drop-le (suc n) (c ∷ s) = omega (arith, length-drop-le n s)

length-drop_mono : (b e : ℕ) (s : Str) → b ≤ e → length (drop e s) ≤ length (drop b s)
length-drop_mono b e s h =
    let same : b + (e - b) ≡ e = omega arith in
    subst (λ n. length (drop n s) ≤ length (drop b s)) same
      (subst (λ t. length t ≤ length (drop b s)) (drop-add b (e - b) s)
        (length-drop-le (e - b) (drop b s)))

-- The text from the index on is the pattern and what follows it.
index-drop : (s p : Str) (i : ℕ) → index s p ≡ some i → drop i s ≡ p ++ drop (length p) (drop i s)
unfolding index
index-drop [] p i h = elim (Bool-cases (has_prefix [] p)) [
  | inl q ↦
      let e : 0 ≡ i = ground arith in
      subst (λ n. drop n [] ≡ p ++ drop (length p) (drop n [])) e (has_prefix-drop [] p q)
  | inr q ↦ absurd (ground arith)
]
index-drop (c ∷ s) p i h = elim (index-cons c s p i h) [
  | inl (q, e) ↦ rw e (has_prefix-drop (c ∷ s) p q)
  | inr (j, q, e) ↦ rw e (index-drop s p j q)
]

take-drop : (i : ℕ) (s : Str) → take i s ++ drop i s ≡ s
take-drop zero s = refl
take-drop (suc i) [] = refl
take-drop (suc i) (c ∷ s) = ap (λ t. c ∷ t) (take-drop i s)

take-add : (i n : ℕ) (s : Str) → take (i + n) s ≡ take i s ++ take n (drop i s)
take-add zero n s = ap (λ k. take k s) (zero-add n)
take-add (suc i) n [] = take-nil (suc i + n) ∙ sym (take-nil n)
take-add (suc i) n (c ∷ s) =
    ap (λ k. take k (c ∷ s)) (suc-add i n) ∙ ap (λ t. c ∷ t) (take-add i n s)

take-append : (p s : Str) → take (length p) (p ++ s) ≡ p
take-append [] s = refl
take-append (c ∷ p) s = ap (λ t. c ∷ t) (take-append p s)

take-marker : (s p : Str) (i : ℕ) → index s p ≡ some i → take (i + length p) s ≡ take i s ++ p
take-marker s p i h =
    take-add i (length p) s
    ∙ ap (λ t. take i s ++ t)
        (ap (take (length p)) (index-drop s p i h) ∙ take-append p (drop (length p) (drop i s)))

find_marker-index :
    (source marker : Str) {i : ℕ} → find_marker source marker ≡ ok i → index source marker ≡ some i
unfolding find_marker
find_marker-index source marker h = ground arith

-- What a replacement that succeeds has done.
pub record IsReplaced (source begin_marker end_marker content result : Str) : Type 0 where
  pub head : Str
  pub after_begin : Str
  pub before_end : Str
  pub tail : Str
  pub source_begins : source ≡ head ++ (begin_marker ++ after_begin)
  pub source_ends : source ≡ before_end ++ (end_marker ++ tail)
  pub ordered : length (end_marker ++ tail) ≤ length (begin_marker ++ after_begin)
  pub replaced : result ≡ (head ++ begin_marker) ++ (newline ++ (content ++ (end_marker ++ tail)))

check_order :
    (b e : ℕ) (marker text : Str) {result : Str}
    → (fail_if (ltb e b) (invalid_order marker) >> ok text) ≡ ok result
    → (b ≤ e) × (result ≡ text)
check_order b e marker text h = (ground arith, ground arith)

-- A replacement that succeeds has found both markers, the end not before the begin. It keeps the text
-- up to and with the begin marker and the text from the end marker on, and what stands between them
-- afterwards is a line break and the content.
pub replace_marked_region-IsReplaced :
    (source begin_marker end_marker content : Str) {result : Str}
    → replace_marked_region source begin_marker end_marker content ≡ ok result
    → IsReplaced source begin_marker end_marker content result
unfolding replace_marked_region
replace_marked_region-IsReplaced source begin_marker end_marker content {result} h =
    let (b, p, h1) = >>=-eq-ok (find_marker source begin_marker) _ h in
    let (e, q, h2) = >>=-eq-ok (find_marker source end_marker) _ h1 in
    let (le, same) = check_order b e begin_marker _ {result = result} h2 in
    let at_begin = find_marker-index source begin_marker p in
    let at_end = find_marker-index source end_marker q in
    let begins = index-drop source begin_marker b at_begin in
    let ends = index-drop source end_marker e at_end in
    record {
      head = take b source;
      after_begin = drop (length begin_marker) (drop b source);
      before_end = take e source;
      tail = drop (length end_marker) (drop e source);
      source_begins = sym (take-drop b source) ∙ ap (λ t. take b source ++ t) begins;
      source_ends = sym (take-drop e source) ∙ ap (λ t. take e source ++ t) ends;
      ordered =
          subst
            (λ t. length t ≤ length (begin_marker ++ drop (length begin_marker) (drop b source)))
            ends
            (subst (λ t. length (drop e source) ≤ length t) begins
              (length-drop_mono b e source le));
      replaced =
          same
          ∙ simp (take-marker source begin_marker b at_begin, append_assoc)
              (ap (λ t. take b source ++ (begin_marker ++ (newline ++ (content ++ t)))) ends);
    }
