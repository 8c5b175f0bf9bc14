-- ===== src/Jobs/Resolve.antt =====
-- Which transactions a new job covers, and which ones a retry covers.
use transactguard.Prelude.{
  false, inl, inr, Bool-cases, Option-cases, ==_iff, ==_refl, ap, ℕ, ◌+◌, ◌≤◌, ◌≡◌, refl, sym, ◌∙◌,
  Bool, true, false, not, ◌&&◌, Option, none, some, List, [], ◌∷◌, arith, length, take, elem, nodup,
  dedup, zero, suc, or_else, elem-filter, elem-dedup, length-le_of_subset, matches,
}
use transactguard.Schema.{Database, World, Transaction, BatchJob, Prediction}
use transactguard.Predictions.{is_live}
use transactguard.Jobs.{
  insert_by, sort_by, created_at, CreateBody, live_among, scored_by, unscored,
  resolve_transaction_ids, outstanding, max_transactions_per_job,
}

-- There is a transaction under the key, and it is not deleted.
abbrev pub exists_live : Option Transaction → Bool
exists_live none = false
exists_live (some t) = is_live t

matches-live_among :
    (ids : List ℕ) (a : ℕ) (o : Option Transaction)
    → matches (live_among ids) a o ≡ (elem a ids && exists_live o)
unfolding live_among
matches-live_among ids a none = ground arith
matches-live_among ids a (some t) = refl

elem-take : (n a : ℕ) (xs : List ℕ) → elem a (take n xs) ≡ true → elem a xs ≡ true
elem-take zero a xs h = absurd (cc)
elem-take (suc n) a [] h = absurd (cc)
elem-take (suc n) a (x ∷ xs) h = ground (arith, elem-take n a xs)

nodup-take : (n : ℕ) (xs : List ℕ) → nodup xs ≡ true → nodup (take n xs) ≡ true
nodup-take zero xs h = refl
nodup-take (suc n) [] h = refl
nodup-take (suc n) (x ∷ xs) h = ground (arith, nodup-take n xs, elem-take n x xs)

length-take-le {ℓ} : {A : Type ℓ} (n : ℕ) (xs : List A) → length (take n xs) ≤ n
length-take-le zero xs = omega arith
length-take-le (suc n) [] = omega arith
length-take-le (suc n) (x ∷ xs) = omega (arith, length-take-le n xs)

elem-insert_by :
    (key : ℕ → ℕ) (a x : ℕ) (ids : List ℕ) → elem a (insert_by key x ids) ≡ elem a (x ∷ ids)
unfolding insert_by
elem-insert_by key a x [] = refl
elem-insert_by key a x (b ∷ ids) = ground (arith, elem-insert_by key a x ids)

elem-sort_by : (key : ℕ → ℕ) (a : ℕ) (ids : List ℕ) → elem a (sort_by key ids) ≡ elem a ids
unfolding sort_by
elem-sort_by key a [] = refl
elem-sort_by key a (x ∷ ids) =
    ground (arith, elem-insert_by key a x (sort_by key ids), elem-sort_by key a ids)

nodup-insert_by :
    (key : ℕ → ℕ) (x : ℕ) (ids : List ℕ)
    → elem x ids ≡ false
    → nodup ids ≡ true
    → nodup (insert_by key x ids) ≡ true
unfolding insert_by
nodup-insert_by key x [] h d = refl
nodup-insert_by key x (b ∷ ids) h d = ground (
  arith,
  nodup-insert_by key x ids (ground (arith, h)) (ground (arith, d)),
  elem-insert_by key b x ids,
  h,
  d,
)

nodup-sort_by : (key : ℕ → ℕ) (ids : List ℕ) → nodup ids ≡ true → nodup (sort_by key ids) ≡ true
unfolding sort_by
nodup-sort_by key [] h = refl
nodup-sort_by key (x ∷ ids) h =
    nodup-insert_by key x (sort_by key ids) (elem-sort_by key x ids ∙ ground (arith, h))
      (nodup-sort_by key ids (ground (arith, h)))

module _ (D : Database) (body : CreateBody) (w : World D) where
  abbrev ids : List ℕ
  ids = (resolve_transaction_ids D body w).0

  abbrev skipped : ℕ
  skipped = (resolve_transaction_ids D body w).1

  -- For an explicit list the job covers exactly the ids on it that name a transaction that is not
  -- deleted, each once, and `skipped` is how many different ids remain.
  pub resolve_explicit :
      body.unscored ≡ false
      → ((a : ℕ)
          → elem a ids
            ≡ (elem a body.transaction_ids && exists_live (D.transactions.find a w.transactions)))
        × (nodup ids ≡ true)
        × (length ids + skipped ≡ length (dedup body.transaction_ids))
  unfolding resolve_transaction_ids
  resolve_explicit h =
      let requested = dedup body.transaction_ids in
      let found = D.transactions.find_ids (live_among requested) w.transactions in
      let member : (a : ℕ)
          → elem a found
            ≡ (elem a body.transaction_ids && exists_live (D.transactions.find a w.transactions)) =
        λ a.
          D.transactions.elem-find_ids (live_among requested) w.transactions a
          ∙ matches-live_among requested a (D.transactions.find a w.transactions)
          ∙ (rw (elem-dedup a body.transaction_ids)) in
      let fits : length found ≤ length requested =
        length-le_of_subset found requested
          (D.transactions.nodup-find_ids (live_among requested) w.transactions)
          (λ a m. ground (arith, member a, elem-dedup a body.transaction_ids)) in
      rw h
        (member, D.transactions.nodup-find_ids (live_among requested) w.transactions, omega arith)

  unscored-facts :
      (a : ℕ)
      → matches (unscored D w) a (D.transactions.find a w.transactions) ≡ true
      → (exists_live (D.transactions.find a w.transactions) ≡ true)
        × (D.predictions.find a w.predictions ≡ none)
  unfolding unscored
  unscored-facts a h = ground arith

  -- For `filter: 'unscored'` the job covers only transactions that are not deleted and have no
  -- prediction, each once, at most `limit` of them, and skips none.
  pub resolve_unscored :
      body.unscored ≡ true
      → ((a : ℕ)
          → elem a ids ≡ true
          → (exists_live (D.transactions.find a w.transactions) ≡ true)
            × (D.predictions.find a w.predictions ≡ none))
        × (nodup ids ≡ true)
        × (length ids ≤ or_else body.limit max_transactions_per_job)
        × (skipped ≡ 0)
  unfolding resolve_transaction_ids
  resolve_unscored h =
      let n = or_else body.limit max_transactions_per_job in
      let rows = D.transactions.find_ids (unscored D w) w.transactions in
      let key = created_at D w in
      rw h (
        (λ a m. unscored-facts a (
            sym (D.transactions.elem-find_ids (unscored D w) w.transactions a)
            ∙ sym (elem-sort_by key a rows)
            ∙ elem-take n a (sort_by key rows) m)),
        nodup-take n (sort_by key rows)
            (nodup-sort_by key rows (D.transactions.nodup-find_ids (unscored D w) w.transactions)),
        length-take-le n (sort_by key rows),
        refl,
      )

-- A retry sends exactly those transactions of the job's roster that have no prediction of this job
-- and are not deleted.
pub retried_iff :
    (D : Database) (w : World D) (id : ℕ) (job : BatchJob) (a : ℕ)
    → elem a (D.transactions.find_ids (live_among (outstanding D job id w)) w.transactions) ≡ (
        elem a job.transaction_ids
        && not (scored_by id (D.predictions.find a w.predictions))
        && exists_live (D.transactions.find a w.transactions))
unfolding outstanding
retried_iff D w id job a =
    let todo = λ (t : ℕ). not (scored_by id (D.predictions.find t w.predictions)) in
    let list =
      D.transactions.elem-find_ids (live_among (outstanding D job id w)) w.transactions a in
    let live' =
      matches-live_among (outstanding D job id w) a (D.transactions.find a w.transactions) in
    list ∙ live' ∙ ground (arith, elem-filter todo a job.transaction_ids)

-- The job has stored a prediction of the transaction under its own name.
abbrev pub ScoredBy : (D : Database) → World D → ℕ → ℕ → Type 0
ScoredBy D w id a =
    (p : Prediction) × (D.predictions.find a w.predictions ≡ some p) × (p.batch_job_id ≡ some id)

pub scored_by-some :
    (id : ℕ) (o : Option Prediction)
    → scored_by id o ≡ true
    → (p : Prediction) × (o ≡ some p) × (p.batch_job_id ≡ some id)
unfolding scored_by
scored_by-some id none h = absurd (cc)
scored_by-some id (some p) h = elim (Option-cases p.batch_job_id) [
  | inl e ↦ absurd (let q = rw e at h in cc)
  | inr (j, e) ↦ let q = rw e at h in (p, refl, e ∙ ap some ((==_iff j id).0 q))
]

pub scored_by-own :
    (id : ℕ) (o : Option Prediction) (p : Prediction)
    → o ≡ some p
    → p.batch_job_id ≡ some id
    → scored_by id o ≡ true
unfolding scored_by
scored_by-own id o p e own = rw (e, own) (==_refl id)

-- What a retry of the job still has to do: each transaction once, and exactly those of the roster that
-- are not deleted and that the job has not scored.
pub record ToDo (D : Database) (w : World D) (id : ℕ) (job : BatchJob) (ids : List ℕ) : Type 0 where
  pub once : nodup ids ≡ true
  pub due :
      (a : ℕ)
      → elem a ids ≡ true
      → (elem a job.transaction_ids ≡ true)
        × (exists_live (D.transactions.find a w.transactions) ≡ true)
        × ¬ ScoredBy D w id a
  pub whole :
      (a : ℕ)
      → elem a job.transaction_ids ≡ true
      → exists_live (D.transactions.find a w.transactions) ≡ true
      → ¬ ScoredBy D w id a
      → elem a ids ≡ true

pub retried-ToDo :
    (D : Database) (w : World D) (id : ℕ) (job : BatchJob)
    → ToDo D w id job (D.transactions.find_ids (live_among (outstanding D job id w)) w.transactions)
retried-ToDo D w id job = record {
  once = D.transactions.nodup-find_ids (live_among (outstanding D job id w)) w.transactions;
  due = λ a m.
      let i = retried_iff D w id job a in
      (
        ground (arith, i, m),
        ground (arith, i, m),
        λ (p, found, own).
            let s = scored_by-own id (D.predictions.find a w.predictions) p found own in
            absurd (ground (arith, i, m, s)),
      );
  whole = λ a there alive not_yet.
      let i = retried_iff D w id job a in
      elim (Bool-cases (scored_by id (D.predictions.find a w.predictions))) [
        | inl s ↦ absurd (not_yet (scored_by-some id (D.predictions.find a w.predictions) s))
        | inr n ↦ ground (arith, i, there, alive, n)
      ];
}
