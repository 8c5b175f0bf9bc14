-- ===== src/Examples/Store.antt =====
-- A table kept as a list of rows, and a database of such tables, which the examples run on.
use transactguard.Prelude.{
  ℕ, ◌≡◌, refl, Bool, false, Option, none, some, List, [], ◌∷◌, arith, filter, elem, dedup,
  elem-filter, nodup-filter, elem-dedup, nodup-dedup, ◌==◌, if◌then◌else◌, matches, Table,
  Bool-cases, inl, inr,
}
use transactguard.Schema.{Database}

module _ {R : Type 0} where
  abbrev rows_find : ℕ → List (ℕ × R) → Option R
  rows_find id [] = none
  rows_find id ((k, r) ∷ rest) = if k == id then some r else rows_find id rest

  abbrev keys : List (ℕ × R) → List ℕ
  keys [] = []
  keys ((k, r) ∷ rest) = k ∷ keys rest

  abbrev rows_find_ids : (ℕ → R → Bool) → List (ℕ × R) → List ℕ
  rows_find_ids p s = filter (λ id. matches p id (rows_find id s)) (dedup (keys s))

  matches-elem :
      (p : ℕ → R → Bool) (s : List (ℕ × R)) (id : ℕ)
      → elem id (keys s) ≡ false
      → rows_find id s ≡ none
  matches-elem p [] id h = refl
  matches-elem p ((k, r) ∷ rest) id h = ground (arith, matches-elem p rest id)

  pub elem-rows_find_ids :
      (p : ℕ → R → Bool) (s : List (ℕ × R)) (id : ℕ)
      → elem id (rows_find_ids p s) ≡ matches p id (rows_find id s)
  elem-rows_find_ids p s id =
      let a = elem-filter (λ i. matches p i (rows_find i s)) id (dedup (keys s)) in
      let b = elem-dedup id (keys s) in
      elim (Bool-cases (elem id (keys s))) [
        | inl e ↦ rw (a, b, e) (ground arith)
        | inr e ↦ rw (a, b, e) (rw (matches-elem p s id e) (ground arith))
      ]

  abbrev pub rows : Table R
  rows = record {
    State = List (ℕ × R);
    find = rows_find;
    put = λ id r s. (id, r) ∷ s;
    find_ids = rows_find_ids;
    find-put = λ id j r s. refl;
    elem-find_ids = elem-rows_find_ids;
    nodup-find_ids = λ p s.
        nodup-filter (λ i. matches p i (rows_find i s)) (dedup (keys s)) (nodup-dedup (keys s));
  }

abbrev pub store : Database
store = record { transactions = rows; predictions = rows; jobs = rows; cases = rows; users = rows }
