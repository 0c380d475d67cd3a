-- ===== src/Jobs/Extensions.antt =====
-- filepath.Ext as app/jobs/backup uses it, against the end of a name.
use kumacore.Prelude.{
  Bool, true, false, ◌||◌, [], ◌∷◌, ◌++◌, ◌≡◌, ◌≢◌, ◌⊎◌, inl, inr, refl, sym, ap, ◌∙◌, arith,
  if◌then◌else◌, ◌==◌, nat_eq, Bool-cases, append-nil, reverse, reverse-append, reverse-reverse,
}
use kumacore.Prelude.Text.{Str, Eq-str, str, str_eq_iff, has_prefix, has_suffix}
use kumacore.Jobs.Backup.{one_of, skip_extensions, extension_from}
use kumacore.Jobs.Stamps.{reversed_suffix}

-- The end of a name shows that it is a file of SQLite, or an archive.
unfoldable pub is_raw : Str → Bool
unfolding has_suffix
is_raw path =
    has_suffix path (str ".db")
    || has_suffix path (str ".db-shm")
    || has_suffix path (str ".db-wal")
    || has_suffix path (str ".zip")

pub has_prefix-eq-true : (s p : Str) → has_prefix s p ≡ true → (rest : Str) × (s ≡ p ++ rest)
unfolding has_prefix
has_prefix-eq-true s [] h = (s, refl)
has_prefix-eq-true [] (c ∷ p) h = cc
has_prefix-eq-true (d ∷ s) (c ∷ p) h =
    let (rest, e) = has_prefix-eq-true s p (ground arith) in (rest, ground arith)

has_suffix-eq-true : (s p : Str) → has_suffix s p ≡ true → (front : Str) × (s ≡ front ++ p)
unfolding has_suffix
has_suffix-eq-true s p h =
    let (rest, e) = has_prefix-eq-true (reverse s) (reverse p) h in
    (
      reverse rest,
      sym (reverse-reverse s)
          ∙ ap reverse e
          ∙ reverse-append (reverse p) rest
          ∙ ap (λ t. reverse rest ++ t) (reverse-reverse p),
    )

-- The extension of a path is the one given, or a part that ends it.
extension-ends :
    (found s : Str)
    → (extension_from found s ≡ found) ⊎ ((front : Str) × (s ≡ front ++ extension_from found s))
unfolding extension_from
extension-ends found [] = inl refl
extension-ends found (c ∷ s) =
    let found' : Str = if nat_eq c b'.' then c ∷ s else if nat_eq c b'/' then [] else found in
    elim (extension-ends found' s) [
      | inr (front, e) ↦ inr (c ∷ front, ap (λ t. c ∷ t) e)
      | inl e ↦ elim (Bool-cases (nat_eq c b'.')) [
        | inl dot ↦ inr ([], sym (e ∙ rw dot refl))
        | inr other ↦ elim (Bool-cases (nat_eq c b'/')) [
          | inl slash ↦
              let none' : extension_from found' s ≡ [] = e ∙ rw (other, slash) refl in
              inr (c ∷ s, sym (append-nil (c ∷ s)) ∙ ap (λ t. (c ∷ s) ++ t) (sym none'))
          | inr letter ↦ inl (e ∙ rw (other, letter) refl)
        ]
      ]
    ]

same_test : (a b : Bool) → (a ≡ true → b ≡ true) → (b ≡ true → a ≡ true) → a ≡ b
same_test true b f g = sym (f refl)
same_test false true f g = g refl
same_test false false f g = refl

-- A text that is its own extension, wherever it stands at the end.
module _ (e : Str) (nonempty : e ≢ []) (own : (found : Str) → extension_from found e ≡ e) where
  extension-append : (found front : Str) → extension_from found (front ++ e) ≡ e
  unfolding extension_from
  extension-append found [] = own found
  extension-append found (c ∷ front) =
      extension-append
        (if nat_eq c b'.' then c ∷ (front ++ e) else if nat_eq c b'/' then [] else found) front

  extension_is : (path : Str) → (extension_from [] path == e) ≡ has_suffix path e
  extension_is path =
      same_test (extension_from [] path == e) (has_suffix path e)
        (λ h.
          let is : extension_from [] path ≡ e = (str_eq_iff (extension_from [] path) e).0 h in
          elim (extension-ends [] path) [
            | inl empty ↦ absurd (nonempty (sym is ∙ empty))
            | inr (front, p) ↦
                let ends : path ≡ front ++ e = p ∙ ap (λ t. front ++ t) is in
                ap (λ t. has_suffix t e) ends ∙ reversed_suffix front e
          ])
        (λ h.
          let (front, p) = has_suffix-eq-true path e h in
          (str_eq_iff (extension_from [] path) e).1
            (ap (extension_from []) p ∙ extension-append [] front))

-- Files of the data directory with such an extension are left out.
abbrev pub is_skipped : Str → Bool
is_skipped path = one_of (extension_from [] path) skip_extensions

own_db : (found : Str) → extension_from found (str ".db") ≡ str ".db"
unfolding extension_from
own_db found = refl

own_shm : (found : Str) → extension_from found (str ".db-shm") ≡ str ".db-shm"
unfolding extension_from
own_shm found = refl

own_wal : (found : Str) → extension_from found (str ".db-wal") ≡ str ".db-wal"
unfolding extension_from
own_wal found = refl

own_zip : (found : Str) → extension_from found (str ".zip") ≡ str ".zip"
unfolding extension_from
own_zip found = refl

pub is_skipped-is_raw : (path : Str) → is_skipped path ≡ is_raw path
unfolding is_raw
is_skipped-is_raw path = ground (
  arith,
  extension_is (str ".db") (λ h. cc) own_db path,
  extension_is (str ".db-shm") (λ h. cc) own_shm path,
  extension_is (str ".db-wal") (λ h. cc) own_wal path,
  extension_is (str ".zip") (λ h. cc) own_zip path,
)
