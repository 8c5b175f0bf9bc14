-- ===== src/Jobs/Counters/Run/Phases.antt =====
-- Where a run stands, and how each of its calls moves it on.
use transactguard.Prelude.{
  suc, ◌+◌, ◌≤◌, ◌<◌, ◌≡◌, refl, ap, inl, inr, true, false, Option, some, List, [], ◌∷◌, ◌++◌,
  arith, length, Bool-cases, length-append,
}
use transactguard.Schema.{Database, World, Ctx, BatchJob, BatchJobStatus, queued}
use transactguard.Jobs.{is_in_flight, outcome}
use transactguard.Jobs.Counters.{Tally, mark, count, is_last}
use transactguard.Jobs.Counters.Run.{Run, land_row, chosen, txns}

-- Work is left; or the last call is about to finalise; or it has done so.
pub data Phase (row : BatchJob) (waiting : List Tally) (finalizing : List BatchJob)
    (finals : List (Option BatchJobStatus)) : Type 0 where
  working :
      0 < length waiting
      → finalizing ≡ []
      → chosen finals ≡ []
      → is_in_flight row.status ≡ true
      → Phase row waiting finalizing finals
  closing :
      (job : BatchJob)
      → waiting ≡ []
      → finalizing ≡ job ∷ []
      → chosen finals ≡ []
      → is_in_flight row.status ≡ true
      → job.id ≡ row.id
      → job.processed_count ≡ row.processed_count
      → job.failed_count ≡ row.failed_count
      → Phase row waiting finalizing finals
  closed :
      waiting ≡ []
      → finalizing ≡ []
      → chosen finals ≡ outcome row ∷ []
      → row.status ≡ outcome row
      → Phase row waiting finalizing finals

pub nil_of_length {ℓ} : {A : Type ℓ} (xs : List A) → length xs ≡ 0 → xs ≡ []
nil_of_length [] h = refl
nil_of_length (x ∷ xs) h = absurd (omega arith)

pub length-remove {ℓ} :
    {A : Type ℓ} (xs : List A) (x : A) (ys : List A)
    → length (xs ++ (x ∷ ys)) ≡ suc (length (xs ++ ys))
length-remove xs x ys = omega (arith, length-append xs ys, length-append xs (x ∷ ys))

pub single_of_split {ℓ} :
    {A : Type ℓ} (xs : List A) (x : A) (ys : List A) (z : A)
    → z ∷ [] ≡ xs ++ (x ∷ ys)
    → (x ≡ z) × (xs ++ ys ≡ [])
single_of_split [] x ys z h = (cc, cc)
single_of_split (w ∷ xs) x ys z h = absurd (omega (arith, ap length h, length-append xs (x ∷ ys)))

is_last-le : (job : BatchJob) → is_last job ≡ true → job.total_chunks ≤ job.completed_chunks
unfolding is_last
is_last-le job h = ground arith

lt_of_not_last : (job : BatchJob) → is_last job ≡ false → job.completed_chunks < job.total_chunks
unfolding is_last
lt_of_not_last job h = ground arith

pub txns-append : (xs ys : List Tally) → txns (xs ++ ys) ≡ txns xs + txns ys
txns-append [] ys = omega arith
txns-append (x ∷ xs) ys = omega (arith, txns-append xs ys)

pub outcome-not-in_flight : (row : BatchJob) → is_in_flight (outcome row) ≡ false
unfolding outcome
outcome-not-in_flight row = ground arith

module _ (D : Database) where
  pub mark-Phase :
      (ctx : Ctx) (row : BatchJob) (waiting : List Tally) (finalizing : List BatchJob)
      (finals : List (Option BatchJobStatus))
      → row.status ≡ queued
      → Phase row waiting finalizing finals
      → Phase (mark ctx.now row) waiting finalizing finals
  unfolding mark
  mark-Phase ctx row waiting finalizing finals q (working p f c i) = working p f c refl
  mark-Phase ctx row waiting finalizing finals q (closing job wt f c i k a b) =
      closing job wt f c refl k a b
  mark-Phase ctx row waiting finalizing finals q (closed wt f c s) =
      absurd (ground (arith, outcome-not-in_flight row))

  -- Reporting with work left keeps the run at work; the last report brings it to its close.
  pub report-Phase :
      (before : List Tally) (t : Tally) (after : List Tally) (r : Run D) (row : BatchJob)
      (w : World D)
      → r.waiting ≡ before ++ (t ∷ after)
      → row.completed_chunks + length r.waiting ≡ row.total_chunks
      → Phase row r.waiting r.finalizing r.finals
      → let u = land_row D (some (count t row)) w (before ++ after) r in
        Phase (count t row) (before ++ after) u.finalizing u.finals
  unfolding land_row count
  report-Phase before t after r row w e c (working p f ch i) =
      let one_less = length-remove before t after in
      let n = ap length e in
      elim (Bool-cases (is_last (count t row))) [
        | inl last ↦ rw last (
            closing (count t row) (nil_of_length _ (omega (arith, is_last-le (count t row) last)))
              (ap (λ fs. count t row ∷ fs) f) ch i refl refl refl)
        | inr more ↦ rw more (working (omega (arith, lt_of_not_last (count t row) more)) f ch i)
      ]
  report-Phase before t after r row w e c (closing job wt f ch i k a b) =
      absurd (omega (arith, ap length wt, ap length e, length-remove before t after))
  report-Phase before t after r row w e c (closed wt f ch k) =
      absurd (omega (arith, ap length wt, ap length e, length-remove before t after))
