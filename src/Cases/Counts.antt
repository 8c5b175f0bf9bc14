-- ===== src/Cases/Counts.antt =====
-- `getCaseCounts` of backend/src/modules/cases/cases.service.js: how many cases each column of the
-- board has.
use transactguard.Prelude.{
  ℕ, ◌+◌, ◌≡◌, refl, sym, ◌∙◌, ap, arith, Bool, not, ◌&&◌, Option, none, some, List, [], ◌∷◌, ltb,
  map, if◌then◌else◌, length, filter, elem-filter, nodup-filter, length-eq_of_same, Table, matches,
}
use transactguard.Schema.{
  Database, World, Case, CaseStatus, under_review, confirmed_fraud, false_positive,
}
use transactguard.Predictions.{is_live}
use transactguard.Cases.{same_status}
use transactguard.Listing.{count}

-- A row of `groupBy`.
pub record Group : Type 0 where
  pub status : CaseStatus
  pub number : ℕ

pub record CaseCounts : Type 0 where
  pub under_review : ℕ
  pub confirmed_fraud : ℕ
  pub false_positive : ℕ
  pub total : ℕ

-- `counts[row.status] = row._count._all`, over zeros.
abbrev pub entry : CaseStatus → List Group → ℕ
entry s [] = 0
entry s (g ∷ groups) = if same_status g.status s then g.number else entry s groups

module _ (D : Database) where
  -- `where: { transaction: { deletedAt: null } }`
  abbrev of_live : World D → ℕ → Case → Bool
  of_live w id c =
      matches (λ k t. is_live t) c.transaction_id
        (D.transactions.find c.transaction_id w.transactions)

  abbrev of_status : World D → CaseStatus → ℕ → Case → Bool
  of_status w s id c = of_live w id c && same_status c.status s

  abbrev group_of : World D → CaseStatus → Group
  group_of w s = record { status = s; number = count D.cases (of_status w s) w.cases }

  -- The groups that have a case.
  abbrev pub groups : World D → List Group
  groups w =
      filter (λ g. ltb 0 g.number)
        (map (group_of w) (under_review ∷ confirmed_fraud ∷ false_positive ∷ []))

  get_case_counts : World D → CaseCounts
  get_case_counts w =
      let u = entry under_review (groups w) in
      let c = entry confirmed_fraud (groups w) in
      let f = entry false_positive (groups w) in
      record { under_review = u; confirmed_fraud = c; false_positive = f; total = u + c + f }

  -- An empty group leaves its zero.
  entry-groups :
      (w : World D) (s : CaseStatus) → entry s (groups w) ≡ count D.cases (of_status w s) w.cases
  entry-groups w under_review = ground arith
  entry-groups w confirmed_fraud = ground arith
  entry-groups w false_positive = ground arith

filter_split :
    (f : ℕ → Bool) (xs : List ℕ)
    → length xs ≡ length (filter f xs) + length (filter (λ x. not (f x)) xs)
filter_split f [] = omega arith
filter_split f (x ∷ xs) = ground (arith, filter_split f xs)

module _ {R : Type 0} (T : Table R) (s : T.State) where
  -- A count depends only on which rows pass.
  count-same :
      (p q : ℕ → R → Bool) → ((id : ℕ) (r : R) → p id r ≡ q id r) → count T p s ≡ count T q s
  count-same p q h =
      length-eq_of_same (T.find_ids p s) (T.find_ids q s) (T.nodup-find_ids p s)
        (T.nodup-find_ids q s)
        (λ a. T.elem-find_ids p s a ∙ same_matches a (T.find a s) ∙ sym (T.elem-find_ids q s a))
    where
      same_matches : (a : ℕ) (o : Option R) → matches p a o ≡ matches q a o
      same_matches a none = refl
      same_matches a (some r) = h a r

  count-filter :
      (p pq : ℕ → R → Bool) (f : ℕ → Bool)
      → ((a : ℕ) → matches pq a (T.find a s) ≡ (f a && matches p a (T.find a s)))
      → count T pq s ≡ length (filter f (T.find_ids p s))
  count-filter p pq f h =
      length-eq_of_same (T.find_ids pq s) (filter f (T.find_ids p s)) (T.nodup-find_ids pq s)
        (nodup-filter f (T.find_ids p s) (T.nodup-find_ids p s))
        (λ a.
          T.elem-find_ids pq s a
          ∙ h a
          ∙ ap (λ b. f a && b) (sym (T.elem-find_ids p s a))
          ∙ sym (elem-filter f a (T.find_ids p s)))

  -- The rows that pass one test pass another as well, or not.
  count_split :
      (p q : ℕ → R → Bool)
      → count T p s
        ≡ count T (λ id r. p id r && q id r) s + count T (λ id r. p id r && not (q id r)) s
  count_split p q =
      let f : ℕ → Bool = λ a. matches q a (T.find a s) in
      let yes = count-filter p (λ id r. p id r && q id r) f (λ a. yes_at a (T.find a s)) in
      let no' =
        count-filter p (λ id r. p id r && not (q id r)) (λ a. not (f a))
          (λ a. no_at a (T.find a s)) in
      omega (arith, filter_split f (T.find_ids p s), yes, no')
    where
      yes_at :
          (a : ℕ) (o : Option R)
          → matches (λ id r. p id r && q id r) a o ≡ (matches q a o && matches p a o)
      yes_at a none = refl
      yes_at a (some r) = ground arith

      no_at :
          (a : ℕ) (o : Option R)
          → matches (λ id r. p id r && not (q id r)) a o ≡ (not (matches q a o) && matches p a o)
      no_at a none = refl
      no_at a (some r) = ground arith

-- The columns of the board hold every case of a live transaction, each once: the total is their
-- number, and a column has the cases with its status.
get_case_counts_total :
    (D : Database) (w : World D)
    → ((get_case_counts D w).total ≡ count D.cases (of_live D w) w.cases)
      × ((get_case_counts D w).under_review ≡ count D.cases (of_status D w under_review) w.cases)
      × ((get_case_counts D w).confirmed_fraud
          ≡ count D.cases (of_status D w confirmed_fraud) w.cases)
      × ((get_case_counts D w).false_positive
          ≡ count D.cases (of_status D w false_positive) w.cases)
unfolding get_case_counts
get_case_counts_total D w =
    let p = of_live D w in
    let is : CaseStatus → ℕ → Case → Bool = λ s id c. same_status c.status s in
    let rest : ℕ → Case → Bool = λ id c. p id c && not (is under_review id c) in
    let one = count_split D.cases w.cases p (is under_review) in
    let two = count_split D.cases w.cases rest (is confirmed_fraud) in
    let fraud =
      count-same D.cases w.cases (λ id c. rest id c && is confirmed_fraud id c)
        (of_status D w confirmed_fraud) (λ id c. ground arith) in
    let false' =
      count-same D.cases w.cases (λ id c. rest id c && not (is confirmed_fraud id c))
        (of_status D w false_positive) (λ id c. ground arith) in
    let u = entry-groups D w under_review in
    let c = entry-groups D w confirmed_fraud in
    let f = entry-groups D w false_positive in
    (omega (arith, one, two, fraud, false', u, c, f), u, c, f)
