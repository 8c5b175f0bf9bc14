-- ===== src/Listing/Pages.antt =====
-- How the pages of a listing fit together.
use native.Mathlib.Nat as Nat
use transactguard.Prelude.{
  ℕ, suc, ◌+◌, ◌-◌, ◌*◌, ◌/◌, ◌<◌, ◌≤◌, ◌≡◌, ◌↔◌, refl, sym, ◌∙◌, Bool, true, Option, none, some,
  List, [], ◌∷◌, arith, ltb, length, take, drop, length-take, All, Table, matches, elem,
  elem-of_take, elem-of_drop,
}
use transactguard.Listing.{OrderBy, ceil, paginate, page_of, with_row, rows_at, list_page}

ceil-lt :
    (total page page_size : ℕ)
    → 0 < page_size
    → (page < ceil total page_size) ↔ (page * page_size < total)
ceil-lt total page page_size pos =
    let h : (suc page ≤ (total + (page_size - 1)) / page_size)
        ↔ (suc page * page_size ≤ total + (page_size - 1)) =
      Nat.le-div_iff_mul-le pos in
    (
      λ lt. let k = h.0 (omega (arith, lt)) in omega (arith, k, pos),
      λ lt. let k = h.1 (omega (arith, lt, pos)) in omega (arith, k),
    )

-- The pages hold every row.
le-ceil : (total page_size : ℕ) → 0 < page_size → total ≤ ceil total page_size * page_size
le-ceil total page_size pos =
    let h = ceil-lt total (ceil total page_size) page_size pos in ground (arith, h)

module _ {R : Type 0} where
  length-with_row : (o : Option R) (xs : List R) → length (with_row o xs) ≤ suc (length xs)
  length-with_row none xs = omega arith
  length-with_row (some r) xs = omega arith

  with_row-All :
      (P : R → Type 0) (o : Option R) (xs : List R)
      → ((r : R) → o ≡ some r → P r)
      → All P xs
      → All P (with_row o xs)
  with_row-All P none xs h all = all
  with_row-All P (some r) xs h all = (h r refl, all)

module _ {R : Type 0} (T : Table R) where
  length-rows_at : (ids : List ℕ) (s : T.State) → length (rows_at T ids s) ≤ length ids
  length-rows_at [] s = omega arith
  length-rows_at (id ∷ ids) s =
      omega (arith, length-with_row (T.find id s) (rows_at T ids s), length-rows_at ids s)

  -- What holds of the row under every key holds of all the rows.
  pub rows_at-All :
      (P : R → Type 0) (ids : List ℕ) (s : T.State)
      → ((id : ℕ) (r : R) → elem id ids ≡ true → T.find id s ≡ some r → P r)
      → All P (rows_at T ids s)
  rows_at-All P [] s h = tt
  rows_at-All P (id ∷ ids) s h =
      with_row-All P (T.find id s) (rows_at T ids s) (λ r e. h id r (ground arith) e)
        (rows_at-All P ids s (λ i r m e. h i r (ground (arith, m)) e))

  module _ (order : OrderBy T) (p : ℕ → R → Bool) (page_size : ℕ) where
    -- In a listing with pages of at least one row, a next page is announced exactly when more rows were
    -- counted than the pages up to this one can hold, the announced number of pages is enough for all
    -- the rows that were counted, and a page has at most the rows that were asked for.
    pub list_page_bounds :
        (page total : ℕ) (s : T.State)
        → 0 < page_size
        → ((list_page T order p page page_size total s).pagination.has_next_page
            ≡ ltb (page * page_size) total)
          × (total
              ≤ (list_page T order p page page_size total s).pagination.total_pages * page_size)
          × (length (list_page T order p page page_size total s).rows ≤ page_size)
    unfolding list_page paginate page_of
    list_page_bounds page total s pos =
        let ids = drop ((page - 1) * page_size) (order.arrange s (T.find_ids p s)) in
        let h = ceil-lt total page page_size pos in
        (
          ground (arith, h),
          le-ceil total page_size pos,
          omega (arith, length-rows_at (take page_size ids) s, length-take page_size ids),
        )

    -- Every row of a page satisfies the clause.
    pub list_page-All :
        (P : R → Type 0) (page total : ℕ) (s : T.State)
        → ((id : ℕ) (r : R) → p id r ≡ true → P r)
        → All P (list_page T order p page page_size total s).rows
    unfolding list_page page_of
    list_page-All P page total s h =
        let ids = order.arrange s (T.find_ids p s) in
        rows_at-All P (take page_size (drop ((page - 1) * page_size) ids)) s (λ id r m e.
          let there =
            elem-of_drop ((page - 1) * page_size) id ids
              (elem-of_take page_size id (drop ((page - 1) * page_size) ids) m) in
          let found : matches p id (T.find id s) ≡ true =
            sym (T.elem-find_ids p s id) ∙ sym (order.elem-arrange s id (T.find_ids p s)) ∙ there in
          h id r (rw e at found))
