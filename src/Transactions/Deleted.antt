-- ===== src/Transactions/Deleted.antt =====
-- What is left of a transaction that has been deleted.
use transactguard.Prelude.{
  ℕ, ◌≡◌, ◌∙◌, true, Option, none, some, inl, inr, is_some, ==_refl, Bool-cases, arith, ap, sym,
}
use transactguard.Errors.{Code, ok, throw}
use transactguard.Errors.Raise
use transactguard.Schema.{Database, World, Ctx, Transaction}
use transactguard.MlClient.{MlRequest, FetchOutcome}
use transactguard.Predictions.{live, score_and_persist}
use transactguard.Transactions.{get_transaction_by_id, delete_found, soft_delete_transaction}

live-deleted : (t : Transaction) → is_some t.deleted_at ≡ true → live (some t) ≡ none
live-deleted t d = ground arith

-- What the operations make of a row that is marked as deleted.
module _ (D : Database) (id : ℕ) (t : Transaction) (w : World D) where
  get-deleted :
      D.transactions.find id w.transactions ≡ some t
      → is_some t.deleted_at ≡ true
      → get_transaction_by_id D id w ≡ throw Raise.not_found
  unfolding get_transaction_by_id
  get-deleted f d = rw f (rw (live-deleted t d))

  score-deleted :
      (fetch : MlRequest → FetchOutcome) (job : Option ℕ) (ctx : Ctx)
      → D.transactions.find id w.transactions ≡ some t
      → is_some t.deleted_at ≡ true
      → score_and_persist D fetch id job ctx w ≡ (throw Raise.not_found, w)
  unfolding score_and_persist
  score-deleted fetch job ctx f d = rw f (rw (live-deleted t d))

  delete-deleted :
      (user_id : ℕ) (ctx : Ctx)
      → D.transactions.find id w.transactions ≡ some t
      → is_some t.deleted_at ≡ true
      → soft_delete_transaction D id user_id ctx w
        ≡ (throw (Raise.conflict Code.already_deleted), w)
  unfolding soft_delete_transaction
  delete-deleted user_id ctx f d = rw f (rw d)

module _ (D : Database) (id user_id : ℕ) (ctx : Ctx) (w : World D) where
  delete_found-ok :
      (o : Option Transaction) (t : Transaction)
      → (delete_found D id user_id ctx w o).0 ≡ ok t
      → (is_some t.deleted_at ≡ true)
        × (D.transactions.find id (delete_found D id user_id ctx w o).1.transactions ≡ some t)
  unfolding delete_found
  delete_found-ok none t h = absurd (cc)
  delete_found-ok (some x) t h =
      let row : Transaction = record x { deleted_at = some ctx.now } in
      let law = D.transactions.find-put id id row w.transactions in
      elim (Bool-cases (is_some x.deleted_at)) [
        | inl d ↦ absurd (let q = rw d at h in cc)
        | inr n ↦
            let q = rw n at h in
            let same : row ≡ t = cc in
            (
              ap (λ (r : Transaction). is_some r.deleted_at) (sym same),
              rw n (law ∙ (rw (==_refl id) (ap some same))),
            )
      ]

  -- In the state that a deletion leaves when it succeeds, reading the transaction by its id and scoring
  -- it are refused with a 404, the latter without a change, and deleting it again is refused with a 409
  -- and without a change.
  pub deleted_is_gone :
      (t : Transaction) (fetch : MlRequest → FetchOutcome) (job : Option ℕ) (ctx' : Ctx) (user' : ℕ)
      → (soft_delete_transaction D id user_id ctx w).0 ≡ ok t
      → let w' = (soft_delete_transaction D id user_id ctx w).1 in
        (get_transaction_by_id D id w' ≡ throw Raise.not_found)
        × (score_and_persist D fetch id job ctx' w' ≡ (throw Raise.not_found, w'))
        × (soft_delete_transaction D id user' ctx' w'
            ≡ (throw (Raise.conflict Code.already_deleted), w'))
  unfolding soft_delete_transaction
  deleted_is_gone t fetch job ctx' user' h =
      let (d, f) = delete_found-ok (D.transactions.find id w.transactions) t h in
      let w' = (delete_found D id user_id ctx w (D.transactions.find id w.transactions)).1 in
      (
        get-deleted D id t w' f d,
        score-deleted D id t w' fetch job ctx' f d,
        delete-deleted D id t w' user' ctx' f d,
      )
