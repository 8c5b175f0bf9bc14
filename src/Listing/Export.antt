-- ===== src/Listing/Export.antt =====
-- `streamPredictionsForExport` of backend/src/modules/predictions/predictions.service.js: the pages of
-- an export, each read from the table as it is by then. Rows are handed on by their keys, which here
-- are the predictions' own.
pub mod Ascending
pub mod Complete
pub mod Finish
use transactguard.Prelude.{
  ℕ, Bool, true, false, Option, none, some, List, [], ◌∷◌, ltb, leb, if◌then◌else◌, length, take,
  drop, filter, Table,
}

-- `orderBy: { id: 'asc' }`
abbrev pub insert : ℕ → List ℕ → List ℕ
insert a [] = a ∷ []
insert a (x ∷ xs) = if leb a x then a ∷ x ∷ xs else x ∷ insert a xs

abbrev pub sort_ids : List ℕ → List ℕ
sort_ids [] = []
sort_ids (x ∷ xs) = insert x (sort_ids xs)

-- `{ cursor: { id: cursor }, skip: 1 }`: the rows from the cursor on, without the first of them.
unfoldable pub from_cursor : Option ℕ → List ℕ → List ℕ
from_cursor none ids = ids
from_cursor (some c) ids = drop 1 (filter (leb c) ids)

-- `batch[batch.length - 1].id`, after a cursor.
abbrev pub last_of : Option ℕ → List ℕ → Option ℕ
last_of o [] = o
last_of o (x ∷ xs) = last_of (some x) xs

-- The batches that have been yielded, and whether the generator has returned.
pub record Exported : Type 0 where
  pub batches : List (List ℕ)
  pub finished : Bool

module _ {R : Type 0} (T : Table R) (where_clause : ℕ → R → Bool) (batch_size : ℕ) where
  -- The keys that match, in their order.
  unfoldable pub matching : T.State → List ℕ
  matching s = sort_ids (T.find_ids where_clause s)

  unfoldable pub export_page : Option ℕ → T.State → List ℕ
  unfolding from_cursor matching
  export_page cursor s = take batch_size (from_cursor cursor (matching s))

  -- One turn of the loop, with what the turns after it come to.
  unfoldable pub after_batch : List ℕ → Exported → Exported
  after_batch [] rest = record { batches = []; finished = true }
  after_batch (x ∷ xs) rest =
      if ltb (length (x ∷ xs)) batch_size
      then record { batches = (x ∷ xs) ∷ []; finished = true }
      else record { batches = (x ∷ xs) ∷ rest.batches; finished = rest.finished }

  -- The loop, over the states of the table that its queries meet one after the other.
  unfoldable pub stream_predictions : Option ℕ → List T.State → Exported
  unfolding after_batch
  stream_predictions cursor [] = record { batches = []; finished = false }
  stream_predictions cursor (s ∷ states) =
      let batch = export_page cursor s in
      let rest = stream_predictions (last_of cursor batch) states in after_batch batch rest
