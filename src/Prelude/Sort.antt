-- ===== src/Prelude/Sort.antt =====
-- Sorting by a Boolean order: `sort.Slice` and `sort.Strings` where no two elements tie.
use Prim.Native.Nat.{ℕ, zero, suc, ◌≤◌}
use mathlib.Core.Path.{◌≡◌, refl, ap, ◌∙◌}
use mathlib.Core.Bool.{Bool}
use mathlib.Core.List.{List, [], ◌∷◌}
use mathlib.Core.Logic.{inl, inr}
use native.Mathlib.Omega.{arith}
use kumacore.Prelude.Tests.{if◌then◌else◌, ltb, Bool-cases}
use kumacore.Prelude.Lists.{length, filter, take, drop, All}

unfoldable pub insert_sorted {ℓ} : {A : Type ℓ} → (A → A → Bool) → A → List A → List A
insert_sorted before x [] = x ∷ []
insert_sorted before x (y ∷ ys) = if before y x then y ∷ insert_sorted before x ys else x ∷ y ∷ ys

unfoldable pub sort {ℓ} : {A : Type ℓ} → (A → A → Bool) → List A → List A
unfolding insert_sorted
sort before [] = []
sort before (x ∷ xs) = insert_sorted before x (sort before xs)

module _ {ℓ} {A : Type ℓ} (key : A → ℕ) where
  abbrev pub before_by : A → A → Bool
  before_by x y = ltb (key x) (key y)

  pub length-insert_sorted :
      (x : A) (xs : List A) → length (insert_sorted before_by x xs) ≡ suc (length xs)
  unfolding insert_sorted
  length-insert_sorted x [] = refl
  length-insert_sorted x (y ∷ ys) = ground (arith, length-insert_sorted x ys)

  pub length-sort : (xs : List A) → length (sort before_by xs) ≡ length xs
  unfolding sort
  length-sort [] = refl
  length-sort (x ∷ xs) = length-insert_sorted x (sort before_by xs) ∙ ap suc (length-sort xs)

  -- Keys never fall.
  abbrev pub AtLeast : ℕ → List A → Type 0
  AtLeast n [] = Unit
  AtLeast n (x ∷ xs) = (n ≤ key x) × AtLeast n xs

  abbrev pub IsAscending : List A → Type 0
  IsAscending [] = Unit
  IsAscending (x ∷ xs) = AtLeast (key x) xs × IsAscending xs

  AtLeast-le : (m n : ℕ) (xs : List A) → m ≤ n → AtLeast n xs → AtLeast m xs
  AtLeast-le m n [] le h = tt
  AtLeast-le m n (x ∷ xs) le (h, hs) = (omega arith, AtLeast-le m n xs le hs)

  insert_sorted-AtLeast :
      (n : ℕ) (x : A) (xs : List A)
      → n ≤ key x
      → AtLeast n xs
      → AtLeast n (insert_sorted before_by x xs)
  unfolding insert_sorted
  insert_sorted-AtLeast n x [] le h = (le, tt)
  insert_sorted-AtLeast n x (y ∷ ys) le (h, hs) = elim (Bool-cases (before_by y x)) [
    | inl later ↦ rw later (h, insert_sorted-AtLeast n x ys le hs)
    | inr here ↦ rw here (le, (h, hs))
  ]

  insert_sorted-IsAscending :
      (x : A) (xs : List A) → IsAscending xs → IsAscending (insert_sorted before_by x xs)
  unfolding insert_sorted
  insert_sorted-IsAscending x [] h = (tt, tt)
  insert_sorted-IsAscending x (y ∷ ys) (h, hs) = elim (Bool-cases (before_by y x)) [
    | inl later ↦
        rw later
          (insert_sorted-AtLeast (key y) x ys (ground arith) h, insert_sorted-IsAscending x ys hs)
    | inr here ↦
        let le : key x ≤ key y = ground arith in
        rw here ((le, AtLeast-le (key x) (key y) ys le h), (h, hs))
  ]

  pub sort-IsAscending : (xs : List A) → IsAscending (sort before_by xs)
  unfolding sort
  sort-IsAscending [] = tt
  sort-IsAscending (x ∷ xs) = insert_sorted-IsAscending x (sort before_by xs) (sort-IsAscending xs)

  -- Selecting elements and sorting can change places.
  module _ (p : A → Bool) where
    filter-AtLeast : (n : ℕ) (xs : List A) → AtLeast n xs → AtLeast n (filter p xs)
    unfolding filter
    filter-AtLeast n [] h = tt
    filter-AtLeast n (x ∷ xs) (h, hs) = elim (Bool-cases (p x)) [
      | inl kept ↦ rw kept (h, filter-AtLeast n xs hs)
      | inr gone ↦ rw gone (filter-AtLeast n xs hs)
    ]

    insert_front :
        (x : A) (xs : List A) → AtLeast (key x) xs → insert_sorted before_by x xs ≡ x ∷ xs
    unfolding insert_sorted
    insert_front x [] h = refl
    insert_front x (y ∷ ys) (h, hs) = ground arith

    filter-insert_sorted :
        (x : A) (xs : List A)
        → IsAscending xs
        → filter p (insert_sorted before_by x xs)
          ≡ (if p x then insert_sorted before_by x (filter p xs) else filter p xs)
    unfolding filter insert_sorted
    filter-insert_sorted x [] h = ground arith
    filter-insert_sorted x (y ∷ ys) (h, hs) = elim (Bool-cases (before_by y x)) [
      | inl later ↦ ground (arith, filter-insert_sorted x ys hs)
      | inr here ↦
          let le : key x ≤ key y = ground arith in
          let front =
            insert_front x (filter p ys)
              (filter-AtLeast (key x) ys (AtLeast-le (key x) (key y) ys le h)) in
          ground (arith, front)
    ]

    pub filter-sort : (xs : List A) → filter p (sort before_by xs) ≡ sort before_by (filter p xs)
    unfolding sort filter
    filter-sort [] = refl
    filter-sort (x ∷ xs) =
        ground
          (arith, filter-insert_sorted x (sort before_by xs) (sort-IsAscending xs), filter-sort xs)

-- What holds of every element holds of every element of the sorted list, and back.
module _ {ℓ κ} {A : Type ℓ} (P : A → Type κ) (before : A → A → Bool) where
  All-insert_sorted : (x : A) (xs : List A) → P x → All P xs → All P (insert_sorted before x xs)
  unfolding insert_sorted
  All-insert_sorted x [] h hs = (h, tt)
  All-insert_sorted x (y ∷ ys) h (k, ks) = elim (Bool-cases (before y x)) [
    | inl later ↦ rw later (k, All-insert_sorted x ys h ks)
    | inr here ↦ rw here (h, (k, ks))
  ]

  pub All-sort : (xs : List A) → All P xs → All P (sort before xs)
  unfolding sort
  All-sort [] h = tt
  All-sort (x ∷ xs) (h, hs) = All-insert_sorted x (sort before xs) h (All-sort xs hs)

  All-uninsert : (x : A) (xs : List A) → All P (insert_sorted before x xs) → P x × All P xs
  unfolding insert_sorted
  All-uninsert x [] (h, hs) = (h, tt)
  All-uninsert x (y ∷ ys) h = elim (Bool-cases (before y x)) [
    | inl later ↦
        let both : P y × All P (insert_sorted before x ys) = rw later at h in
        let (here, rest) = All-uninsert x ys both.1 in (here, (both.0, rest))
    | inr here ↦ let all : P x × (P y × All P ys) = rw here at h in all
  ]

  pub All-unsort : (xs : List A) → All P (sort before xs) → All P xs
  unfolding sort
  All-unsort [] h = tt
  All-unsort (x ∷ xs) h =
      let (here, rest) = All-uninsert x (sort before xs) h in (here, All-unsort xs rest)

module _ {ℓ κ} {A : Type ℓ} (P : A → Type κ) where
  pub All-take : (n : ℕ) (xs : List A) → All P xs → All P (take n xs)
  All-take zero xs h = tt
  All-take (suc n) [] h = tt
  All-take (suc n) (x ∷ xs) (h, hs) = (h, All-take n xs hs)

-- The front of an ascending list is nowhere above its rest.
module _ {ℓ} {A : Type ℓ} (key : A → ℕ) where
  AtLeast-drop : (n k : ℕ) (xs : List A) → AtLeast key n xs → All (λ c. n ≤ key c) (drop k xs)
  AtLeast-drop n zero [] h = tt
  AtLeast-drop n (suc k) [] h = tt
  AtLeast-drop n zero (x ∷ xs) (h, hs) = (h, AtLeast-drop n zero xs hs)
  AtLeast-drop n (suc k) (x ∷ xs) (h, hs) = AtLeast-drop n k xs hs

  pub take-le-drop :
      (k : ℕ) (xs : List A)
      → IsAscending key xs
      → All (λ b. All (λ c. key b ≤ key c) (drop k xs)) (take k xs)
  take-le-drop zero xs h = tt
  take-le-drop (suc k) [] h = tt
  take-le-drop (suc k) (x ∷ xs) (h, hs) = (AtLeast-drop (key x) k xs h, take-le-drop k xs hs)
