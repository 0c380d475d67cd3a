-- ===== src/Worker/Places.antt =====
-- How the statements and transactions of core/worker change the number of rows with an id.
use kumacore.Prelude.{
  ℕ, suc, ◌+◌, List, [], ◌∷◌, ◌++◌, map, ◌≡◌, refl, arith, if◌then◌else◌, ◌==◌, not, ◌&&◌,
}
use kumacore.Prelude.Text.{Str, Eq-str, str_eq_iff}
use kumacore.Worker.Table.{
  Database, QueueRow, count, is_id, queue_id, history_id, graveyard_id, claim_row, retry_row,
  reset_row, delete_rows, is_pending, claimed, record_id,
}

-- The rows of all three tables that have the id.
abbrev pub places : Str → Database → ℕ
places i db =
    count queue_id i db.job_queue
    + count history_id i db.job_history
    + count graveyard_id i db.job_graveyard

module _ {R : Type 0} (key : R → Str) where
  pub count-append :
      (i : Str) (xs ys : List R) → count key i (xs ++ ys) ≡ count key i xs + count key i ys
  unfolding count
  count-append i [] ys = omega arith
  count-append i (x ∷ xs) ys = ground (arith, count-append i xs ys)

-- A change of a row that keeps its id keeps the counts.
pub count-map :
    (f : QueueRow → QueueRow) (same : (row : QueueRow) → (f row).id ≡ row.id) (i : Str)
    → (rows : List QueueRow) → count queue_id i (map f rows) ≡ count queue_id i rows
unfolding count
count-map f same i [] = refl
count-map f same i (row ∷ rows) = rw (same row, count-map f same i rows) refl

pub claim_row-id : (now : ℕ) (row : QueueRow) → (claim_row now row).id ≡ row.id
unfolding claim_row
claim_row-id now row = ground arith

pub retry_row-id :
    (attempts now : ℕ) (i : Str) (row : QueueRow) → (retry_row attempts now i row).id ≡ row.id
unfolding retry_row
retry_row-id attempts now i row = ground arith

pub reset_row-id : (now : ℕ) (row : QueueRow) → (reset_row now row).id ≡ row.id
unfolding reset_row
reset_row-id now row = ground arith

pub count-delete_rows :
    (i j : Str) (rows : List QueueRow)
    → count queue_id i (delete_rows j rows) ≡ (if j == i then 0 else count queue_id i rows)
unfolding count delete_rows
count-delete_rows i j [] = ground arith
count-delete_rows i j (row ∷ rows) =
    ground
      (arith, count-delete_rows i j rows, str_eq_iff row.id i, str_eq_iff row.id j, str_eq_iff j i)

-- The rows of the queue with the id that are running, and those that are pending.
unfoldable pub running_count : Str → List QueueRow → ℕ
running_count i [] = 0
running_count i (row ∷ rows) =
    if is_id row.id i && not (is_pending row.status)
    then suc (running_count i rows)
    else running_count i rows

unfoldable pub pending_count : Str → List QueueRow → ℕ
pending_count i [] = 0
pending_count i (row ∷ rows) =
    if is_id row.id i && is_pending row.status
    then suc (pending_count i rows)
    else pending_count i rows

pub count-running-pending :
    (i : Str) (rows : List QueueRow)
    → count queue_id i rows ≡ running_count i rows + pending_count i rows
unfolding count running_count pending_count
count-running-pending i [] = refl
count-running-pending i (row ∷ rows) = ground (arith, count-running-pending i rows)

pub running_count-append :
    (i : Str) (xs ys : List QueueRow)
    → running_count i (xs ++ ys) ≡ running_count i xs + running_count i ys
unfolding running_count
running_count-append i [] ys = omega arith
running_count-append i (x ∷ xs) ys = ground (arith, running_count-append i xs ys)

-- Claiming makes every row with the id running, and returns those that were pending.
pub running_count-claim :
    (i : Str) (now : ℕ) (rows : List QueueRow)
    → running_count i (map (claim_row now) rows) ≡ count queue_id i rows
unfolding running_count count claim_row
running_count-claim i now [] = refl
running_count-claim i now (row ∷ rows) = ground (arith, running_count-claim i now rows)

pub pending_count-claim :
    (i : Str) (now : ℕ) (rows : List QueueRow) → pending_count i (map (claim_row now) rows) ≡ 0
unfolding pending_count claim_row
pending_count-claim i now [] = refl
pending_count-claim i now (row ∷ rows) = ground (arith, pending_count-claim i now rows)

pub count-claimed :
    (i : Str) (rows : List QueueRow) → count record_id i (claimed rows) ≡ pending_count i rows
unfolding pending_count count claimed
count-claimed i [] = refl
count-claimed i (row ∷ rows) = ground (arith, count-claimed i rows)

pub running_count-delete_rows :
    (i j : Str) (rows : List QueueRow)
    → running_count i (delete_rows j rows) ≡ (if j == i then 0 else running_count i rows)
unfolding running_count delete_rows
running_count-delete_rows i j [] = ground arith
running_count-delete_rows i j (row ∷ rows) = ground (
  arith,
  running_count-delete_rows i j rows,
  str_eq_iff row.id i,
  str_eq_iff row.id j,
  str_eq_iff j i,
)

pub running_count-retry :
    (i j : Str) (attempts now : ℕ) (rows : List QueueRow)
    → running_count i (map (retry_row attempts now j) rows)
      ≡ (if j == i then 0 else running_count i rows)
unfolding running_count retry_row
running_count-retry i j attempts now [] = ground arith
running_count-retry i j attempts now (row ∷ rows) = ground (
  arith,
  running_count-retry i j attempts now rows,
  str_eq_iff row.id i,
  str_eq_iff row.id j,
  str_eq_iff j i,
)
