-- ===== src/Cases/Resolution.antt =====
-- What `updateCase` writes.
use transactguard.Prelude.{
  ℕ, ◌≡◌, refl, ◌∙◌, ==_refl, inl, inr, Bool, true, false, not, Option, none, some, arith, ◌==◌,
  if◌then◌else◌, is_some, Bool-cases, String,
}
use transactguard.Errors.{ok}
use transactguard.Schema.{Database, World, Ctx, Case, CaseStatus}
use transactguard.Cases.{
  same_status, is_open, Field, undefined, null, value, Patch, Data, update_data, apply, is_empty,
  visible, find_case, get_case_by_id, update_found, update_case,
}

-- `resolvedAt` is null exactly while the case is under review.
abbrev pub IsConsistent : Case → Type 0
IsConsistent c = is_some c.resolved_at ≡ not (is_open c.status)

same_status-eq : (a b : CaseStatus) → same_status a b ≡ true → a ≡ b
same_status-eq a b h = ground arith

-- Who owns the case afterwards: the one that the patch names, nobody where it names null, the caller
-- where it is silent and the status changes, and else the owner of before.
abbrev pub new_owner : Field ℕ → Bool → ℕ → Option ℕ → Option ℕ
new_owner (value a) decides user_id old = some a
new_owner null decides user_id old = none
new_owner undefined true user_id old = some user_id
new_owner undefined false user_id old = old

abbrev pub new_notes : Field String → Option String → Option String
new_notes (value n) old = some n
new_notes null old = none
new_notes undefined old = old

-- Does the patch ask for another status?
abbrev pub decides : Option CaseStatus → CaseStatus → Bool
decides none old = false
decides (some s) old = not (same_status s old)

abbrev pub new_status : Option CaseStatus → CaseStatus → CaseStatus
new_status none old = old
new_status (some s) old = s

-- The row after an update, field by field.
pub record Updated (p : Patch) (user_id : ℕ) (ctx : Ctx) (old new : Case) : Type 0 where
  pub status_is : new.status ≡ new_status p.status old.status
  pub owner_is :
      new.assigned_to_id
      ≡ new_owner p.assigned_to_id (decides p.status old.status) user_id old.assigned_to_id
  pub notes_is : new.notes ≡ new_notes p.notes old.notes
  pub resolved_is : new.resolved_at ≡ (
      if decides p.status old.status
      then (if is_open new.status then none else some ctx.now)
      else old.resolved_at)
  pub same_transaction : new.transaction_id ≡ old.transaction_id
  pub same_id : new.id ≡ old.id

apply-Updated :
    (p : Patch) (user_id : ℕ) (ctx : Ctx) (c : Case)
    → Updated p user_id ctx c (apply (update_data c.status p user_id ctx) c)
unfolding apply update_data
apply-Updated p user_id ctx c = record {
  status_is = ground arith;
  owner_is = ground arith;
  notes_is = ground arith;
  resolved_is = ground arith;
  same_transaction = refl;
  same_id = refl;
}

Updated-IsConsistent :
    (p : Patch) (user_id : ℕ) (ctx : Ctx) (old new : Case)
    → Updated p user_id ctx old new
    → IsConsistent old
    → IsConsistent new
Updated-IsConsistent p user_id ctx old new u h = ground arith

-- An update that writes nothing is one that asks for nothing.
is_empty-apply : (d : Data) (c : Case) → is_empty d ≡ true → apply d c ≡ c
unfolding is_empty apply
is_empty-apply d c h = ground arith

module _ (D : Database) (id : ℕ) (p : Patch) (user_id : ℕ) (ctx : Ctx) (w : World D) where
  abbrev after : World D
  after = (update_case D id p user_id ctx w).1

  found_row : (o : Option Case) (c : Case) → visible D o w ≡ some c → o ≡ some c
  unfolding visible
  found_row none c e = absurd (cc)
  found_row (some x) c e = ground arith

  find_case-some : (c : Case) → find_case D id w ≡ some c → D.cases.find id w.cases ≡ some c
  unfolding find_case
  find_case-some c e = found_row (D.cases.find id w.cases) c e

  update_found-ok :
      (o : Option Case) (new : Case)
      → find_case D id w ≡ o
      → (update_found D id o p user_id ctx w).0 ≡ ok new
      → let w' = (update_found D id o p user_id ctx w).1 in
        (old : Case) × (o ≡ some old)
        × Updated p user_id ctx old new
        × (D.cases.find id w'.cases ≡ some new)
        × ((j : ℕ) → (id == j) ≡ false → D.cases.find j w'.cases ≡ D.cases.find j w.cases)
  unfolding update_found get_case_by_id
  update_found-ok none new e h = absurd (cc)
  update_found-ok (some old) new e h =
      let d = update_data old.status p user_id ctx in
      let u = apply-Updated p user_id ctx old in
      elim (Bool-cases (is_empty d)) [
        | inl empty ↦
            let same : new ≡ old = ground arith in
            let kept : apply d old ≡ old = is_empty-apply d old empty in
            (
              old,
              refl,
              (rw same (rw kept at u)),
              rw (empty, same) (find_case-some old e),
              λ j ne. rw empty,
            )
        | inr some' ↦
            let same : new ≡ apply d old = ground arith in
            let law = λ (j : ℕ). D.cases.find-put id j (apply d old) w.cases in
            (
              old,
              refl,
              (rw same u),
              rw (some', same) (law id ∙ (rw (==_refl id))),
              λ j ne. rw some' (law j ∙ (rw ne)),
            )
      ]

  -- An update that succeeds was of a case whose transaction is not deleted. It returns the row with
  -- the status, the owner, the note and the time of resolution that the patch calls for; that row
  -- stands in the table, and every other row is as it was.
  pub update_case-ok :
      (new : Case)
      → (update_case D id p user_id ctx w).0 ≡ ok new
      → (old : Case) × (find_case D id w ≡ some old)
        × Updated p user_id ctx old new
        × (D.cases.find id after.cases ≡ some new)
        × ((j : ℕ) → (id == j) ≡ false → D.cases.find j after.cases ≡ D.cases.find j w.cases)
  unfolding update_case
  update_case-ok new h = update_found-ok (find_case D id w) new refl h

  -- An update keeps a case consistent: `resolvedAt` is null exactly while it is under review.
  pub update_case-IsConsistent :
      (new : Case)
      → ((old : Case) → find_case D id w ≡ some old → IsConsistent old)
      → (update_case D id p user_id ctx w).0 ≡ ok new
      → IsConsistent new
  update_case-IsConsistent new h e =
      let (old, found, u, _, _) = update_case-ok new e in
      Updated-IsConsistent p user_id ctx old new u (h old found)
