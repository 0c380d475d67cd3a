-- ===== src/Jobs/Folder.antt =====
-- A directory as `os.ReadDir` lists it, and the loop of app/jobs that removes files from it. A name
-- stands in it once; `os.Remove` fails for the names that its fault says, and for a directory that
-- is not empty.
use kumacore.Prelude.{
  ℕ, suc, ◌+◌, Bool, true, false, ◌&&◌, ◌||◌, not, Option, none, some, List, [], ◌∷◌, filter,
  Result, ok, err, if◌then◌else◌, ◌==◌, ◌≡◌, All,
}
use kumacore.Prelude.Text.{Str, Eq-str}

-- An entry; an archive and a directory have the names of their own entries.
pub record Item : Type 0 where
  pub name : Str
  pub is_dir : Bool
  pub entries : List Str

abbrev pub Items : Type 0
Items = List Item

-- A directory, or none if it is missing.
abbrev pub Folder : Type 0
Folder = Option Items

abbrev pub is_file : Str → Item → Bool
is_file name item = not item.is_dir && item.name == name

-- A directory of the name is there.
unfoldable pub has_dir : Str → Items → Bool
has_dir name [] = false
has_dir name (item ∷ items) = (item.is_dir && item.name == name) || has_dir name items

abbrev pub is_nil : List Str → Bool
is_nil [] = true
is_nil (_ ∷ _) = false

-- What os.Remove takes away: the file of the name, or the directory of the name if it is empty.
abbrev pub is_removed : Str → Item → Bool
is_removed name item = item.name == name && (not item.is_dir || is_nil item.entries)

-- os.Remove, on the directory and on the number of removals that have worked
unfoldable pub remove : Str → Items → Items
unfolding filter
remove name items = filter (λ item. not (is_removed name item)) items

unfoldable pub count_removal : Str → Items → ℕ → ℕ
count_removal name [] deleted = deleted
count_removal name (item ∷ items) deleted =
    if is_removed name item then deleted + 1 else count_removal name items deleted

-- One round of the loops: entries that are chosen are removed and counted.
unfoldable pub remove_if : (Str → Bool) → Bool → Str → Items × ℕ → Items × ℕ
unfolding remove count_removal
remove_if fault chosen name (items, deleted) =
    if chosen && not (fault name)
    then (remove name items, count_removal name items deleted)
    else (items, deleted)

-- The loop over what `os.ReadDir` has given.
unfoldable pub remove_chosen : (Str → Bool) → (Str → Bool) → Items → Items × ℕ → Items × ℕ
unfolding remove_if
remove_chosen fault chosen [] state = state
remove_chosen fault chosen (item ∷ rest) state =
    remove_chosen fault chosen rest
      (remove_if fault (not item.is_dir && chosen item.name) item.name state)

-- A pass over the directory: it fails if the directory cannot be read, and does nothing if it is
-- missing.
abbrev pub pass : {E : Type 0} → E → Bool → (Items → Items × ℕ) → Folder → Folder × Result E ℕ
pass e true f folder = (folder, err e)
pass e false f none = (none, ok 0)
pass e false f (some items) = let (items', deleted) = f items in (some items', ok deleted)

-- The next pass, unless the one before has failed.
abbrev pub and_then :
    {E : Type 0} → Folder × Result E ℕ → (Folder → Folder × Result E ℕ) → Folder × Result E ℕ
and_then (folder, err e) f = (folder, err e)
and_then (folder, ok n) f = f folder

abbrev pub error_of : {E A : Type 0} → Result E A → Option E
error_of (ok a) = none
error_of (err e) = some e

abbrev pub no_fault : Str → Bool
no_fault name = false

-- The entries of a directory have different names.
abbrev pub NotNamed : Str → Items → Type 0
NotNamed name items = All (λ item. (item.name == name) ≡ false) items

abbrev pub IsFolder : Items → Type 0
IsFolder [] = Unit
IsFolder (item ∷ items) = NotNamed item.name items × IsFolder items

-- How many entries have the name.
unfoldable pub count_name : Str → Items → ℕ
count_name name [] = 0
count_name name (item ∷ items) =
    if item.name == name then suc (count_name name items) else count_name name items
