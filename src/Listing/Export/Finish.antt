-- ===== src/Listing/Export/Finish.antt =====
-- How many queries an export needs, and what it loses with its cursor's row.
use transactguard.Prelude.{
  ℕ, suc, ◌+◌, ◌<◌, ◌≤◌, ◌≡◌, refl, sym, ◌∙◌, ap, inl, inr, Bool, true, false, Option, none, some,
  List, [], ◌∷◌, arith, ltb, leb, length, take, drop, filter, elem, elem-filter, Bool-cases, Table,
  matches, elem-of_take,
}
use transactguard.Listing.Export.{
  from_cursor, last_of, Exported, matching, export_page, after_batch, stream_predictions,
}
use transactguard.Listing.Export.Ascending.{
  Above, Above-behind, from_cursor-behind, from_cursor-lost, Above-take,
}
use transactguard.Listing.Export.Complete.{elem-matching, Above-matching}

-- The keys that lie behind no cursor yet are as many as the bound, those behind `c` fewer.
abbrev rank : Option ℕ → ℕ
rank none = 0
rank (some c) = suc c

Above-rank :
    (o : Option ℕ) (x : ℕ) (xs : List ℕ) → Above o (x ∷ xs) → rank o < rank (last_of o (x ∷ xs))
Above-rank none x [] h = omega arith
Above-rank (some c) x [] h = ground (arith, h.0)
Above-rank none x (y ∷ ys) h = let r = Above-rank (some x) y ys h.1 in omega (arith, r)
Above-rank (some c) x (y ∷ ys) h =
    let r = Above-rank (some x) y ys h.1 in
    let lt : c < x = ground (arith, h.0) in omega (arith, r, lt)

Above-drop_one : (o : Option ℕ) (xs : List ℕ) → Above o xs → Above o (drop 1 xs)
Above-drop_one o [] h = tt
Above-drop_one o (x ∷ []) h = tt
Above-drop_one none (x ∷ y ∷ ys) h = (refl, h.1.1)
Above-drop_one (some c) (x ∷ y ∷ ys) h = (ground (arith, h.0, h.1.0), h.1.1)

elem-drop_one : (a : ℕ) (xs : List ℕ) → elem a (drop 1 xs) ≡ true → elem a xs ≡ true
elem-drop_one a [] h = h
elem-drop_one a (x ∷ xs) h = ground (arith, h)

-- A page lies behind its cursor, whether or not the cursor's row is still among the rows.
from_cursor-Above : (o : Option ℕ) (xs : List ℕ) → Above none xs → Above o (from_cursor o xs)
unfolding from_cursor
from_cursor-Above none xs h = h
from_cursor-Above (some c) xs h = elim (Bool-cases (elem c xs)) [
  | inl m ↦ rw (from_cursor-behind none c xs h m) (Above-behind none c xs h)
  | inr n ↦
      rw (from_cursor-lost none c xs h n)
        (Above-drop_one (some c) (filter (ltb c) xs) (Above-behind none c xs h))
]

from_cursor-elem :
    (o : Option ℕ) (a : ℕ) (xs : List ℕ) → elem a (from_cursor o xs) ≡ true → elem a xs ≡ true
unfolding from_cursor
from_cursor-elem none a xs h = h
from_cursor-elem (some c) a xs h =
    let k = elem-drop_one a (filter (leb c) xs) h in ground (arith, k, elem-filter (leb c) a xs)

last_of-bounded :
    (o : Option ℕ) (bound : ℕ) (xs : List ℕ)
    → rank o ≤ bound
    → ((id : ℕ) → elem id xs ≡ true → id < bound)
    → rank (last_of o xs) ≤ bound
last_of-bounded o bound [] r all = r
last_of-bounded o bound (x ∷ xs) r all =
    let lt = all x (ground arith) in
    last_of-bounded (some x) bound xs (omega (arith, lt)) (λ id m. all id (ground (arith, m)))

module _ {R : Type 0} (T : Table R) (p : ℕ → R → Bool) (size : ℕ) where
  -- No query of the export meets a matching row with a key of `bound` or above.
  abbrev KeysBelow : ℕ → List T.State → Type 0
  KeysBelow bound [] = Unit
  KeysBelow bound (s ∷ states) =
      ((id : ℕ) → matches p id (T.find id s) ≡ true → id < bound) × KeysBelow bound states

  export_page-Above : (o : Option ℕ) (s : T.State) → Above o (export_page T p size o s)
  unfolding export_page
  export_page-Above o s =
      Above-take o size (from_cursor o (matching T p size s))
        (from_cursor-Above o (matching T p size s) (Above-matching T p size s))

  export_page-elem :
      (o : Option ℕ) (s : T.State) (id : ℕ)
      → elem id (export_page T p size o s) ≡ true
      → matches p id (T.find id s) ≡ true
  unfolding export_page
  export_page-elem o s id m =
      sym (elem-matching T p size s id)
      ∙ from_cursor-elem o id (matching T p size s)
          (elem-of_take size id (from_cursor o (matching T p size s)) m)

  after_batch-finished :
      (o : Option ℕ) (batch : List ℕ) (rest : Exported)
      → Above o batch
      → (rank o < rank (last_of o batch) → rest.finished ≡ true)
      → (after_batch T p size batch rest).finished ≡ true
  unfolding after_batch
  after_batch-finished o [] rest h go = refl
  after_batch-finished o (x ∷ xs) rest h go =
      let done = go (Above-rank o x xs h) in
      elim (Bool-cases (ltb (length (x ∷ xs)) size)) [
        | inl short ↦ rw short refl
        | inr full ↦ rw full done
      ]

  finishes_from :
      (o : Option ℕ) (bound : ℕ) (states : List T.State)
      → KeysBelow bound states
      → rank o ≤ bound
      → bound < length states + rank o
      → (stream_predictions T p size o states).finished ≡ true
  unfolding stream_predictions
  finishes_from o bound [] k r enough = absurd (omega (arith, r, enough))
  finishes_from o bound (s ∷ states) k r enough =
      let batch = export_page T p size o s in
      after_batch-finished o batch (stream_predictions T p size (last_of o batch) states)
        (export_page-Above o s)
        (λ further.
          finishes_from (last_of o batch) bound states k.1
            (last_of-bounded o bound batch r (λ id m. k.0 id (export_page-elem o s id m)))
            (omega (arith, further, enough)))

-- An export ends, whatever is written to the table meanwhile, and whatever the size of its
-- batches: with the keys of the matching rows below a bound, it returns by the query after as many
-- queries as the bound.
pub stream_predictions_returns :
    {R : Type 0} (T : Table R) (p : ℕ → R → Bool) (size bound : ℕ) (states : List T.State)
    → KeysBelow T p size bound states
    → bound < length states
    → (stream_predictions T p size none states).finished ≡ true
stream_predictions_returns T p size bound states k enough =
    finishes_from T p size none bound states k (omega arith) (omega (arith, enough))

-- Where the row of the cursor no longer matches (its transaction was deleted since the page before),
-- the next page starts one row late: the first row behind the cursor, which matches, is left out.
export_page_after_lost_cursor :
    {R : Type 0} (T : Table R) (p : ℕ → R → Bool) (size c : ℕ) (s : T.State)
    → matches p c (T.find c s) ≡ false
    → export_page T p size (some c) s ≡ take size (drop 1 (filter (ltb c) (matching T p size s)))
unfolding export_page
export_page_after_lost_cursor T p size c s h = ap (take size) (
    from_cursor-lost none c (matching T p size s) (Above-matching T p size s)
      (elem-matching T p size s c ∙ h))
