-- ===== src/Jobs/Enqueue.antt =====
-- What `createJob` and `retryJob` leave behind.
use transactguard.Prelude.{
  ◌⊎◌, inl, inr, Bool-cases, ℕ, ◌≡◌, refl, ◌∙◌, false, Option, none, some, List, [], ◌∷◌, arith,
  ==_refl, length,
}
use transactguard.Errors.{ApiError, ok, throw}
use transactguard.Queue.{chunk, chunk_size}
use transactguard.Schema.{Database, World, Ctx, BatchJob}
use transactguard.Jobs.{
  CreateBody, JobView, new_job, create_resolved, create_job, resolve_transaction_ids, is_retryable,
  live_among, outstanding, retry_ids, retry_found, retry_job,
}
use transactguard.Jobs.Enqueued.{enqueued-Fresh, Enqueued}

-- The row under the key lists these transactions and counts them.
abbrev pub Lists : (D : Database) → ℕ → List ℕ → World D → Type 0
Lists D id ids w =
    (row : BatchJob) × (D.jobs.find id w.jobs ≡ some row)
    × (row.transaction_ids ≡ ids)
    × (row.total_txns ≡ length ids)

module _ (D : Database) (user_id : ℕ) (ctx : Ctx) (w : World D) where
  create_resolved-ok :
      (body : CreateBody) (ids : List ℕ) (skipped : ℕ) (v : JobView × ℕ)
      → (create_resolved D body ids skipped user_id ctx w).0 ≡ ok v
      → Enqueued D ctx.new_id false 0 ids w (create_resolved D body ids skipped user_id ctx w).1
        × Lists D ctx.new_id ids (create_resolved D body ids skipped user_id ctx w).1
        × (v.1 ≡ skipped)
  unfolding create_resolved new_job
  create_resolved-ok body [] skipped v h = absurd (cc)
  create_resolved-ok body (i ∷ ids) skipped v h =
      let all = i ∷ ids in
      let n = length (chunk all chunk_size) in
      let job = new_job body all n user_id ctx in
      let law = λ (j : ℕ). D.jobs.find-put ctx.new_id j job w.jobs in
      (
        record {
          some_id = omega arith;
          queue_is = refl;
          others = λ j e. law j ∙ (rw e);
          untouched = refl;
          fresh = λ tallies acc.
              enqueued-Fresh D (create_resolved D body all skipped user_id ctx w).1 ctx.new_id false
                all job (law ctx.new_id ∙ (rw (==_refl ctx.new_id))) refl refl refl refl refl
                (omega arith) tallies acc;
        },
        (job, law ctx.new_id ∙ (rw (==_refl ctx.new_id)), refl, refl),
        ground arith,
      )

  create_resolved-throw :
      (body : CreateBody) (ids : List ℕ) (skipped : ℕ) (e : ApiError)
      → (create_resolved D body ids skipped user_id ctx w).0 ≡ throw e
      → ((create_resolved D body ids skipped user_id ctx w).1 ≡ w)
        × (e.status_code ≡ 400)
        × (ids ≡ [])
  unfolding create_resolved
  create_resolved-throw body [] skipped e h = (refl, ground arith, refl)
  create_resolved-throw body (i ∷ ids) skipped e h = absurd (cc)

  retry_ids-throw :
      (id : ℕ) (job : BatchJob) (ids : List ℕ) (e : ApiError)
      → (retry_ids D id job ids user_id ctx w).0 ≡ throw e
      → ((retry_ids D id job ids user_id ctx w).1 ≡ w) × (e.status_code ≡ 409) × (ids ≡ [])
  unfolding retry_ids
  retry_ids-throw id job [] e h = (refl, ground arith, refl)
  retry_ids-throw id job (i ∷ ids) e h = absurd (cc)

  -- A job that is created has the transactions that the request resolves to, at least one, in
  -- messages at the end of the queue, and its row lists and counts them; no other job and nothing else
  -- in the world changes but the audit log; and it is fresh for whatever outcomes its messages come to.
  pub create_job-ok :
      (body : CreateBody) (v : JobView × ℕ)
      → (create_job D body user_id ctx w).0 ≡ ok v
      → Enqueued D ctx.new_id false 0
          (resolve_transaction_ids D body w).0
          w
          (create_job D body user_id ctx w).1
        × Lists D ctx.new_id
            (resolve_transaction_ids D body w).0
            (create_job D body user_id ctx w).1
        × (v.1 ≡ (resolve_transaction_ids D body w).1)
  unfolding create_job
  create_job-ok body v h =
      let (ids, skipped) = resolve_transaction_ids D body w in
      create_resolved-ok body ids skipped v h

  -- The transactions that a retry of the job sends to the worker again.
  abbrev pub retried : ℕ → BatchJob → List ℕ
  retried id job = D.transactions.find_ids (live_among (outstanding D job id w)) w.transactions

  retry_found-throw :
      (id : ℕ) (o : Option BatchJob) (e : ApiError)
      → (retry_found D id o user_id ctx w).0 ≡ throw e
      → ((retry_found D id o user_id ctx w).1 ≡ w)
        × (((o ≡ none) × (e.status_code ≡ 404))
            ⊎ ((job : BatchJob) × (o ≡ some job)
                × (e.status_code ≡ 409)
                × ((is_retryable job.status ≡ false) ⊎ (retried id job ≡ []))))
  unfolding retry_found
  retry_found-throw id none e h = (refl, inl (refl, ground arith))
  retry_found-throw id (some job) e h = elim (Bool-cases (is_retryable job.status)) [
    | inr no' ↦ (ground arith, inr (job, refl, ground arith, inl no'))
    | inl yes' ↦
        let q = rw yes' at h in
        let (same, code, empty) = retry_ids-throw id job (retried id job) e q in
        ((rw yes' same), inr (job, refl, code, inr empty))
  ]

  -- A creation that is refused changes nothing; it is refused with a 400, when no transaction is left
  -- to score.
  pub create_job-throw :
      (body : CreateBody) (e : ApiError)
      → (create_job D body user_id ctx w).0 ≡ throw e
      → ((create_job D body user_id ctx w).1 ≡ w)
        × (e.status_code ≡ 400)
        × ((resolve_transaction_ids D body w).0 ≡ [])
  unfolding create_job
  create_job-throw body e h =
      let (ids, skipped) = resolve_transaction_ids D body w in
      create_resolved-throw body ids skipped e h

  -- A retry that is refused changes nothing; it is refused when there is no such job (404), when its
  -- status is neither of the two that allow it, and when nothing is left to do (both 409).
  pub retry_job-throw :
      (id : ℕ) (e : ApiError)
      → (retry_job D id user_id ctx w).0 ≡ throw e
      → ((retry_job D id user_id ctx w).1 ≡ w)
        × (((D.jobs.find id w.jobs ≡ none) × (e.status_code ≡ 404))
            ⊎ ((job : BatchJob) × (D.jobs.find id w.jobs ≡ some job)
                × (e.status_code ≡ 409)
                × ((is_retryable job.status ≡ false) ⊎ (retried id job ≡ []))))
  unfolding retry_job
  retry_job-throw id e h = retry_found-throw id (D.jobs.find id w.jobs) e h
