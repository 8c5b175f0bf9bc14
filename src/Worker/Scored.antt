-- ===== src/Worker/Scored.antt =====
-- What the loop over the transactions of a chunk comes to.
use transactguard.Prelude.{
  ℕ, ap, ◌+◌, ◌≡◌, refl, ◌∙◌, ◌⊎◌, inl, inr, true, Option, none, some, List, [], ◌∷◌, arith, length,
  elem, matches, Bool-cases,
}
use transactguard.Errors.{ApiError, Result, ok, throw, Result-cases}
use transactguard.Schema.{Database, World, Prediction}
use transactguard.Predictions.{Outcome, score_and_persist}
use transactguard.Jobs.Counters.{Tally}
use transactguard.Predictions.Atomic.{score_and_persist-throw, score_and_persist-ok}
use transactguard.Jobs.Resolve.{scored_by-some}
use transactguard.Worker.{Env, is_retryable_code, scored_among, after_scoring, score_all}

module _ (D : Database) where
  after_scoring-ok :
      (r : Result Outcome) (t t' : Tally) (w : World D) (rest : Tally → Result Tally × World D)
      → (after_scoring D r t w rest).0 ≡ ok t'
      → (u : Tally) × (u.processed + u.failed ≡ t.processed + t.failed + 1) × ((rest u).0 ≡ ok t')
  unfolding after_scoring
  after_scoring-ok (ok o) t t' w rest h = (record t { processed = t.processed + 1 }, omega arith, h)
  after_scoring-ok (throw e) t t' w rest h =
      (record t { failed = t.failed + 1 }, omega arith, ground arith)

  after_scoring-throw :
      (r : Result Outcome) (t : Tally) (w : World D) (rest : Tally → Result Tally × World D)
      (e : ApiError)
      → (after_scoring D r t w rest).0 ≡ throw e
      → (is_retryable_code e.code ≡ true) ⊎ ((u : Tally) × ((rest u).0 ≡ throw e))
  unfolding after_scoring
  after_scoring-throw (ok o) t w rest e h = inr (record t { processed = t.processed + 1 }, h)
  after_scoring-throw (throw e') t w rest e h = elim (Bool-cases (is_retryable_code e'.code)) [
    | inl yes' ↦ inl (ground arith)
    | inr no' ↦ inr (record t { failed = t.failed + 1 }, ground arith)
  ]

pub scored_among-elem :
    (job_id : ℕ) (ids : List ℕ) (a : ℕ) (o : Option Prediction)
    → matches (scored_among job_id ids) a o ≡ true
    → elem a ids ≡ true
unfolding scored_among
scored_among-elem job_id ids a none h = absurd (cc)
scored_among-elem job_id ids a (some p) h = ground arith

pub scored_among-ScoredBy :
    (job_id : ℕ) (ids : List ℕ) (a : ℕ) (o : Option Prediction)
    → matches (scored_among job_id ids) a o ≡ true
    → (elem a ids ≡ true) × ((p : Prediction) × (o ≡ some p) × (p.batch_job_id ≡ some job_id))
unfolding scored_among
scored_among-ScoredBy job_id ids a none h = absurd (cc)
scored_among-ScoredBy job_id ids a (some p) h =
    (ground arith, scored_by-some job_id (some p) (ground arith))

module _ (D : Database) (env : ℕ → Env) (job_id : ℕ) where
  score_and_persist-jobs :
      (id : ℕ) (w : World D)
      → (score_and_persist D (env id).fetch id (some job_id) (env id).ctx w).1.jobs ≡ w.jobs
  score_and_persist-jobs id w =
      let e = env id in
      elim (Result-cases (score_and_persist D e.fetch id (some job_id) e.ctx w).0) [
        | inl (x, h) ↦
            ap (λ (v : World D). v.jobs)
              (score_and_persist-throw D e.fetch id (some job_id) e.ctx w x h).0
        | inr (o, h) ↦
            let (_, _, _, _, frame, _) =
              score_and_persist-ok D e.fetch id (some job_id) e.ctx w o h in
            ap (λ (v : World D). v.jobs) frame
      ]

  after_scoring-jobs :
      (r : Result Outcome) (t : Tally) (w v : World D) (rest : Tally → Result Tally × World D)
      → w.jobs ≡ v.jobs
      → ((u : Tally) → (rest u).1.jobs ≡ w.jobs)
      → (after_scoring D r t w rest).1.jobs ≡ v.jobs
  unfolding after_scoring
  after_scoring-jobs (ok o) t w v rest e h = h (record t { processed = t.processed + 1 }) ∙ e
  after_scoring-jobs (throw x) t w v rest e h = elim (Bool-cases (is_retryable_code x.code)) [
    | inl yes' ↦ rw yes' e
    | inr no' ↦ rw no' (h (record t { failed = t.failed + 1 }) ∙ e)
  ]

  -- Scoring leaves the table of jobs alone.
  pub score_all-jobs :
      (ids : List ℕ) (t : Tally) (w : World D) → (score_all D env job_id ids t w).1.jobs ≡ w.jobs
  unfolding score_all
  score_all-jobs [] t w = refl
  score_all-jobs (id ∷ ids) t w =
      let (r, w') = score_and_persist D (env id).fetch id (some job_id) (env id).ctx w in
      after_scoring-jobs r t w' w (λ u. score_all D env job_id ids u w')
        (score_and_persist-jobs id w) (λ u. score_all-jobs ids u w')

  -- A chunk that gets through its loop has counted each of its transactions once.
  pub score_all-ok :
      (ids : List ℕ) (t t' : Tally) (w : World D)
      → (score_all D env job_id ids t w).0 ≡ ok t'
      → t'.processed + t'.failed ≡ t.processed + t.failed + length ids
  unfolding score_all
  score_all-ok [] t t' w h = ground arith
  score_all-ok (id ∷ ids) t t' w h =
      let (r, w') = score_and_persist D (env id).fetch id (some job_id) (env id).ctx w in
      let (t₁, one_more, rest) =
        after_scoring-ok D r t t' w' (λ u. score_all D env job_id ids u w') h in
      omega (arith, one_more, score_all-ok ids t₁ t' w' rest)

  -- A chunk is abandoned only when the model failed: the error is a 502 with one of its codes.
  pub score_all-throw :
      (ids : List ℕ) (t : Tally) (w : World D) (e : ApiError)
      → (score_all D env job_id ids t w).0 ≡ throw e
      → is_retryable_code e.code ≡ true
  unfolding score_all
  score_all-throw [] t w e h = absurd (cc)
  score_all-throw (id ∷ ids) t w e h =
      let (r, w') = score_and_persist D (env id).fetch id (some job_id) (env id).ctx w in
      elim (after_scoring-throw D r t w' (λ u. score_all D env job_id ids u w') e h) [
        | inl now ↦ now
        | inr (t₁, later) ↦ score_all-throw ids t₁ w' e later
      ]
