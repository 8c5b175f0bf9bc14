-- ===== src/Cases/Backfill/Once.antt =====
-- What a backfill leaves to do, and that doing it again does nothing.
use transactguard.Prelude.{
  ℕ, suc, zero, ◌+◌, ◌≤◌, ◌<◌, min, ◌≡◌, refl, sym, ◌∙◌, ap, arith, true, not, ◌&&◌, Option, none,
  some, List, [], ◌∷◌, length, take, drop, length-take, length-drop, elem, nodup, elem-drop,
  nodup-drop, length-eq_of_same, matches,
}
use transactguard.Schema.{Database, World, Transaction}
use transactguard.Cases.Backfill.{
  Backfilled, has_no_case, flagged, missing_case, missing, create_many, created_for, backfill_cases,
}
use transactguard.Cases.Backfill.Inserted.{Fresh, has_no_case-create_many}

length-zero : (xs : List ℕ) → length xs ≡ 0 → xs ≡ []
length-zero [] h = refl
length-zero (x ∷ xs) h = absurd (omega (arith, h))

module _ (D : Database) where
  module _ (fresh : ℕ → ℕ) (now : ℕ) (w : World D) where
    -- The world with cases for these transactions.
    with_cases : List ℕ → World D
    with_cases ids = record w { cases = create_many D fresh 0 now ids w.cases }

    matches-missing :
        (ids : List ℕ) (a : ℕ) (o : Option Transaction)
        → has_no_case D (with_cases ids).cases a ≡ (not (elem a ids) && has_no_case D w.cases a)
        → matches (missing_case D (with_cases ids)) a o
          ≡ (not (elem a ids) && matches (missing_case D w) a o)
    unfolding missing_case with_cases flagged
    matches-missing ids a none h = ground arith
    matches-missing ids a (some t) h = ground (arith, h)

    elem-missing :
        (ids : List ℕ) (a : ℕ)
        → Fresh D fresh 0 w.cases
        → elem a (missing D (with_cases ids)) ≡ (not (elem a ids) && elem a (missing D w))
    unfolding missing with_cases
    elem-missing ids a f =
        let find = D.transactions.find a w.transactions in
        D.transactions.elem-find_ids (missing_case D (with_cases ids)) w.transactions a
        ∙ matches-missing ids a find (has_no_case-create_many D fresh 0 now a ids w.cases f)
        ∙ ap (λ b. not (elem a ids) && b)
            (sym (D.transactions.elem-find_ids (missing_case D w) w.transactions a))

    nodup-missing : (v : World D) → nodup (missing D v) ≡ true
    unfolding missing
    nodup-missing v = D.transactions.nodup-find_ids (missing_case D v) v.transactions

    length-missing :
        (limit : ℕ)
        → Fresh D fresh 0 w.cases
        → length (missing D (with_cases (take limit (missing D w))))
          ≡ length (drop limit (missing D w))
    length-missing limit f =
        let all = missing D w in
        length-eq_of_same (missing D (with_cases (take limit all))) (drop limit all)
          (nodup-missing (with_cases (take limit all))) (nodup-drop limit all (nodup-missing w))
          (λ a.
            ground
              (arith, elem-missing (take limit all) a f, elem-drop limit a all (nodup-missing w)))

    -- What a backfill comes to, in one line for both of its ends.
    abbrev done : List ℕ → Backfilled × World D
    done ids = (
      record { created = length ids; remaining = length (missing D (with_cases ids)) },
      with_cases ids,
    )

    created_for_lem :
        (ids : List ℕ)
        → (ids ≡ [] → length (missing D w) ≡ 0)
        → created_for D fresh now ids w ≡ done ids
    unfolding created_for create_many with_cases
    created_for_lem [] none_left =
        ap (λ n. (record { created = 0; remaining = n }, w)) (sym (none_left refl))
    created_for_lem (id ∷ ids) none_left = refl

    backfill_cases_lem :
        (limit : ℕ)
        → 0 < limit
        → backfill_cases D limit fresh now w ≡ done (take limit (missing D w))
    unfolding backfill_cases
    backfill_cases_lem limit pos = created_for_lem (take limit (missing D w)) (λ e.
        let l = ap length e in let m = length-take limit (missing D w) in omega (arith, l, m, pos))

    -- A backfill makes as many cases as its limit lets it, at most one for each flagged transaction
    -- without a case, and what it says remains is what is left to do afterwards: made and remaining
    -- together are what there was to do.
    pub backfill_cases_progress :
        (limit : ℕ)
        → 0 < limit
        → Fresh D fresh 0 w.cases
        → ((backfill_cases D limit fresh now w).0.created ≡ min limit (length (missing D w)))
          × ((backfill_cases D limit fresh now w).0.created
                + (backfill_cases D limit fresh now w).0.remaining
              ≡ length (missing D w))
          × (length (missing D (backfill_cases D limit fresh now w).1)
              ≡ (backfill_cases D limit fresh now w).0.remaining)
    backfill_cases_progress limit pos f =
        let m = length-take limit (missing D w) in
        let l = length-missing limit f in
        let d = length-drop limit (missing D w) in
        rw (backfill_cases_lem limit pos) (m, omega (arith, m, l, d), refl)

    nothing_left :
        (limit : ℕ)
        → length (missing D w) ≤ limit
        → Fresh D fresh 0 w.cases
        → missing D (with_cases (take limit (missing D w))) ≡ []
    nothing_left limit le f = length-zero (missing D (with_cases (take limit (missing D w)))) (
        let l = length-missing limit f in
        let d = length-drop limit (missing D w) in omega (arith, l, d, le))

  take_none : (n : ℕ) → take {A = ℕ} n [] ≡ []
  take_none zero = refl
  take_none (suc n) = refl

  backfill_idle :
      (limit : ℕ) (fresh : ℕ → ℕ) (now : ℕ) (v : World D)
      → missing D v ≡ []
      → backfill_cases D limit fresh now v ≡ (record { created = 0; remaining = 0 }, v)
  unfolding backfill_cases created_for
  backfill_idle limit fresh now v e =
      ap (λ ids. created_for D fresh now ids v) (ap (take limit) e ∙ take_none limit)

  -- Run a second time it makes nothing and changes nothing, if the first time did not stop at its
  -- limit; the second run may have any limit and any new keys.
  pub backfill_cases_idempotent :
      (fresh again : ℕ → ℕ) (now later limit limit' : ℕ) (w : World D)
      → 0 < limit
      → length (missing D w) ≤ limit
      → Fresh D fresh 0 w.cases
      → backfill_cases D limit' again later (backfill_cases D limit fresh now w).1
        ≡ (record { created = 0; remaining = 0 }, (backfill_cases D limit fresh now w).1)
  backfill_cases_idempotent fresh again now later limit limit' w pos le f =
      backfill_idle limit' again later (backfill_cases D limit fresh now w).1 (
        ap (λ o. missing D o.1) (backfill_cases_lem fresh now w limit pos)
        ∙ nothing_left fresh now w limit le f)
