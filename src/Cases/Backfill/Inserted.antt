-- ===== src/Cases/Backfill/Inserted.antt =====
-- Which transactions have no case once a backfill has inserted its own.
use transactguard.Prelude.{
  ℕ, suc, ◌≤◌, ◌<◌, ◌≡◌, inl, inr, refl, sym, ◌∙◌, ap, arith, Bool, true, false, not, ◌&&◌, Option,
  none, some, List, [], ◌∷◌, ◌==◌, ==_refl, ==_iff, if◌then◌else◌, elem, Bool-cases, matches,
}
use transactguard.Schema.{Database, Case}
use transactguard.Cases.Backfill.{is_empty, new_case, has_no_case, create_many}

is_empty-elem : (xs : List ℕ) → is_empty xs ≡ true → (a : ℕ) → elem a xs ≡ false
is_empty-elem [] h a = refl
is_empty-elem (x ∷ xs) h a = absurd (cc)

is_empty_of : (xs : List ℕ) → ((a : ℕ) → elem a xs ≡ false) → is_empty xs ≡ true
is_empty_of [] h = refl
is_empty_of (x ∷ xs) h = absurd (let k = h x in ground (arith, k))

Bool-eq : (a b : Bool) → (a ≡ true → b ≡ true) → (b ≡ true → a ≡ true) → a ≡ b
Bool-eq true b f g = sym (f refl)
Bool-eq false true f g = g refl
Bool-eq false false f g = refl

matches-if :
    {R : Type 0} (p : ℕ → R → Bool) (j : ℕ) (b : Bool) (r : R) (o : Option R)
    → matches p j (if b then some r else o) ≡ (if b then p j r else matches p j o)
matches-if p j true r o = refl
matches-if p j false r o = refl

module _ (D : Database) where
  -- The keys are new: no case has one, and they are all different.
  abbrev pub Fresh : (ℕ → ℕ) → ℕ → D.cases.State → Type 0
  Fresh fresh k s =
      ((i : ℕ) → k ≤ i → D.cases.find (fresh i) s ≡ none)
      × ((i j : ℕ) → i < j → (fresh i == fresh j) ≡ false)

  Fresh-put :
      (fresh : ℕ → ℕ) (k : ℕ) (c : Case) (s : D.cases.State)
      → Fresh fresh k s
      → Fresh fresh (suc k) (D.cases.put (fresh k) c s)
  Fresh-put fresh k c s (f, d) = (
    λ i le.
        let e = D.cases.find-put (fresh k) (fresh i) c s in
        let ne = d k i (omega (arith, le)) in
        let gone = f i (omega (arith, le)) in e ∙ (rw ne gone),
    d,
  )

  module _ (fresh : ℕ → ℕ) (k now id a : ℕ) (s : D.cases.State) where
    of_a : ℕ → Case → Bool
    of_a j c = c.transaction_id == a

    after : D.cases.State
    after = D.cases.put (fresh k) (new_case (fresh k) id now) s

    elem-after :
        (j : ℕ)
        → elem j (D.cases.find_ids of_a after)
          ≡ (if fresh k == j then id == a else elem j (D.cases.find_ids of_a s))
    unfolding after of_a new_case
    elem-after j =
        D.cases.elem-find_ids of_a after j
        ∙ ap (matches of_a j) (D.cases.find-put (fresh k) j (new_case (fresh k) id now) s)
        ∙ matches-if of_a j (fresh k == j) (new_case (fresh k) id now) (D.cases.find j s)
        ∙ ap (λ b. if fresh k == j then id == a else b) (sym (D.cases.elem-find_ids of_a s j))

    elem-new_key :
        D.cases.find (fresh k) s ≡ none → elem (fresh k) (D.cases.find_ids of_a s) ≡ false
    elem-new_key gone = D.cases.elem-find_ids of_a s (fresh k) ∙ ap (matches of_a (fresh k)) gone

    -- A new case takes its transaction off those without one, and no other.
    has_no_case-put :
        D.cases.find (fresh k) s ≡ none
        → has_no_case D after a ≡ (not (id == a) && has_no_case D s a)
    unfolding has_no_case of_a
    has_no_case-put gone =
        Bool-eq (has_no_case D after a) (not (id == a) && has_no_case D s a)
          (λ e.
            let at : (j : ℕ) → elem j (D.cases.find_ids of_a after) ≡ false =
              is_empty-elem (D.cases.find_ids of_a after) e in
            let own : (id == a) ≡ false =
              ground (arith, elem-after (fresh k), at (fresh k), ==_refl (fresh k)) in
            let old : has_no_case D s a ≡ true = is_empty_of (D.cases.find_ids of_a s) (λ j.
              elim (Bool-cases (fresh k == j)) [
                | inl same ↦
                    ap (λ i. elem i (D.cases.find_ids of_a s)) (sym ((==_iff (fresh k) j).0 same))
                    ∙ elem-new_key gone
                | inr other ↦ ground (arith, elem-after j, at j, other)
              ]) in
            ground (arith, own, old))
          (λ e.
            let own : (id == a) ≡ false = ground (arith, e) in
            let old : has_no_case D s a ≡ true = ground (arith, e) in
            is_empty_of (D.cases.find_ids of_a after) (λ j.
              let there = is_empty-elem (D.cases.find_ids of_a s) old j in
              ground (arith, elem-after j, own, there)))

  pub has_no_case-create_many :
      (fresh : ℕ → ℕ) (k now a : ℕ) (ids : List ℕ) (s : D.cases.State)
      → Fresh fresh k s
      → has_no_case D (create_many D fresh k now ids s) a ≡ (not (elem a ids) && has_no_case D s a)
  unfolding create_many after
  has_no_case-create_many fresh k now a [] s f = refl
  has_no_case-create_many fresh k now a (id ∷ ids) s f =
      let s' = D.cases.put (fresh k) (new_case (fresh k) id now) s in
      let rest =
        has_no_case-create_many fresh (suc k) now a ids s'
          (Fresh-put fresh k (new_case (fresh k) id now) s f) in
      let one : has_no_case D s' a ≡ (not (id == a) && has_no_case D s a) =
        has_no_case-put fresh k now id a s (f.0 k (omega arith)) in
      rest ∙ ap (λ b. not (elem a ids) && b) one ∙ (ground arith)
