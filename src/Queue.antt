-- ===== src/Queue.antt =====
-- backend/src/config/queue.js: the split of a job's ids into chunks, and the retry policy.
-- The queue itself is BullMQ's; the module keeps the messages that the services hand over.
pub mod Chunks
use transactguard.Prelude.{ℕ, zero, suc, Bool, List, [], ◌∷◌, length, take, drop}

abbrev pub chunk_size : ℕ
chunk_size = 100

-- `JOB_OPTIONS.attempts`
abbrev pub attempts : ℕ
attempts = 3

-- The data of one `score-chunk` message.
pub record ChunkMessage : Type 0 where
  pub batch_job_id : ℕ
  pub transaction_ids : List ℕ
  pub chunk_index : ℕ
  pub total_chunks : ℕ
  pub retry : Bool

module _ {ℓ} {A : Type ℓ} where
  -- The rounds of `for (let i = 0; i < items.length; i += size)`, with the items from `i` on. Every
  -- round with a positive size uses up an item, so that as many rounds as items are enough.
  chunk_from : ℕ → List A → ℕ → List (List A)
  chunk_from zero items size = []
  chunk_from (suc fuel) [] size = []
  chunk_from (suc fuel) (x ∷ items) size =
      take size (x ∷ items) ∷ chunk_from fuel (drop size (x ∷ items)) size

  unfoldable pub chunk : List A → ℕ → List (List A)
  unfolding chunk_from
  chunk items size = chunk_from (length items) items size
