-- ===== src/Cases.antt =====
-- backend/src/modules/cases/cases.service.js: the review queue. Resolution has what an update of a
-- case does, Backfill the making of cases, Counts their numbers; their listing is Listing/Endpoints.
pub mod Resolution
pub mod Backfill
pub mod Counts
use transactguard.Prelude.{
  ℕ, suc, ◌+◌, Bool, true, false, not, ◌&&◌, ◌||◌, Option, none, some, List, [], ◌∷◌, String, ◌==◌,
  if◌then◌else◌, is_some, length, take, map,
}
use transactguard.Errors.{Result, ok, throw}
use transactguard.Errors.Raise
use transactguard.Schema.{
  Database, World, Ctx, Transaction, Case, CaseStatus, under_review, confirmed_fraud,
  false_positive, RiskLevel, clear, suspicious, critical, Action, record_audit,
}
use transactguard.Predictions.{is_live}

pub CaseStatus-discrete : Discrete CaseStatus
CaseStatus-discrete = hlevel

-- `===` on statuses
abbrev pub same_status : CaseStatus → CaseStatus → Bool
same_status under_review under_review = true
same_status confirmed_fraud confirmed_fraud = true
same_status false_positive false_positive = true
same_status _ _ = false

abbrev pub is_open : CaseStatus → Bool
is_open s = same_status s under_review

-- A field of the body that may be absent, null, or a value.
pub data Field (A : Type 0) : Type 0 where
  undefined : Field A
  null : Field A
  value : A → Field A

-- `updateCaseSchema`: the status cannot be null.
pub record Patch : Type 0 where
  pub status : Option CaseStatus
  pub notes : Field String
  pub assigned_to_id : Field ℕ

-- The fields that an update writes; `none` is a field that it leaves alone.
pub record Data : Type 0 where
  pub status : Option CaseStatus
  pub resolved_at : Option (Option ℕ)
  pub assigned_to_id : Option (Option ℕ)
  pub notes : Option (Option String)

abbrev pub written : {A : Type 0} → Field A → Option (Option A)
written undefined = none
written null = some none
written (value a) = some (some a)

-- The first `if` of `updateCase`: a new status stamps or clears `resolvedAt`, and makes the caller
-- the owner where the patch names none.
decided : CaseStatus → Patch → ℕ → Ctx → CaseStatus → Data
decided existing p user_id ctx s =
    if same_status s existing
    then record { status = none; resolved_at = none; assigned_to_id = none; notes = none }
    else record {
      status = some s;
      resolved_at = some (if is_open s then none else some ctx.now);
      assigned_to_id = elim p.assigned_to_id [ value a ↦ none | _ ↦ some (some user_id) ];
      notes = none;
    }

status_data : CaseStatus → Patch → ℕ → Ctx → Option CaseStatus → Data
unfolding decided
status_data existing p user_id ctx none = record {
  status = none;
  resolved_at = none;
  assigned_to_id = none;
  notes = none;
}
status_data existing p user_id ctx (some s) = decided existing p user_id ctx s

-- The later of two assignments to one field of `data`.
abbrev pub over : {A : Type 0} → Option A → Option A → Option A
over none b = b
over (some a) b = some a

unfoldable pub update_data : CaseStatus → Patch → ℕ → Ctx → Data
unfolding status_data
update_data existing p user_id ctx =
    let d = status_data existing p user_id ctx p.status in
    record d {
      notes = written p.notes;
      assigned_to_id = over (written p.assigned_to_id) d.assigned_to_id;
    }

-- `Object.keys(data).length === 0`
unfoldable pub is_empty : Data → Bool
is_empty d =
    not (is_some d.status || is_some d.resolved_at || is_some d.assigned_to_id || is_some d.notes)

abbrev pub keep : {A : Type 0} → Option A → A → A
keep none old = old
keep (some new) old = new

unfoldable pub apply : Data → Case → Case
apply d c = record c {
  status = keep d.status c.status;
  resolved_at = keep d.resolved_at c.resolved_at;
  assigned_to_id = keep d.assigned_to_id c.assigned_to_id;
  notes = keep d.notes c.notes;
}

module _ (D : Database) where
  -- `where: { id, transaction: { deletedAt: null } }`
  has_live_transaction : Option Transaction → Bool
  has_live_transaction none = false
  has_live_transaction (some t) = is_live t

  visible : Option Case → World D → Option Case
  unfolding has_live_transaction
  visible none w = none
  visible (some c) w =
      if has_live_transaction (D.transactions.find c.transaction_id w.transactions)
      then some c
      else none

  unfoldable pub find_case : ℕ → World D → Option Case
  unfolding visible
  find_case id w = visible (D.cases.find id w.cases) w

  -- `getCaseById`
  pub get_case_by_id : ℕ → World D → Result Case
  get_case_by_id id w = elim (find_case id w) [ none ↦ throw Raise.not_found | some c ↦ ok c ]

  write_case : ℕ → Case → Data → Patch → ℕ → Ctx → World D → Result Case × World D
  write_case id existing d p user_id ctx w =
      let row = apply d existing in
      (
        ok row,
        record w {
          cases = D.cases.put id row w.cases;
          audit =
              record_audit ctx.audit_up
                (record {
                  user_id = some user_id;
                  action =
                      Action.case_status_changed existing.status row.status
                        (is_some (written p.notes));
                  resource_id = some id;
                })
                w.audit;
        },
      )

  update_found : ℕ → Option Case → Patch → ℕ → Ctx → World D → Result Case × World D
  unfolding write_case
  update_found id none p user_id ctx w = (throw Raise.not_found, w)
  update_found id (some existing) p user_id ctx w =
      let d = update_data existing.status p user_id ctx in
      if is_empty d then (get_case_by_id id w, w) else write_case id existing d p user_id ctx w

  unfoldable pub update_case : ℕ → Patch → ℕ → Ctx → World D → Result Case × World D
  unfolding update_found
  update_case id p user_id ctx w = update_found id (find_case id w) p user_id ctx w
