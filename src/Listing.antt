-- ===== src/Listing.antt =====
-- The paged listings of backend/src/modules: `listTransactions`, `listPredictions`, `listCases` and
-- `listJobs`, which count the rows that match, read one page of them, and describe the page in the
-- same words. The order of the rows is the database's: an argument, as Postgres is not in the
-- repository. Filters has the `where` clauses, Pages how the pages fit together, Export the export.
pub mod Filters
pub mod Pages
pub mod Endpoints
pub mod Visible
pub mod Export
use transactguard.Prelude.{
  ℕ, ◌+◌, ◌-◌, ◌*◌, ◌/◌, Bool, Option, none, some, List, [], ◌∷◌, ltb, length, take, drop, Table,
  ◌≡◌, elem,
}

pub record Pagination : Type 0 where
  pub total : ℕ
  pub page : ℕ
  pub page_size : ℕ
  pub total_pages : ℕ
  pub has_next_page : Bool
  pub has_previous_page : Bool

pub record Listed (R : Type 0) : Type 0 where
  pub rows : List R
  pub pagination : Pagination

-- `Math.ceil(total / query.pageSize)`
abbrev pub ceil : ℕ → ℕ → ℕ
ceil total page_size = (total + (page_size - 1)) / page_size

unfoldable pub paginate : ℕ → ℕ → ℕ → Pagination
paginate total page page_size =
    let total_pages = ceil total page_size in
    record {
      total = total;
      page = page;
      page_size = page_size;
      total_pages = total_pages;
      has_next_page = ltb page total_pages;
      has_previous_page = ltb 1 page;
    }

-- `skip, take: query.pageSize`
unfoldable pub page_of {ℓ} : {A : Type ℓ} → ℕ → ℕ → List A → List A
page_of page page_size xs = take page_size (drop ((page - 1) * page_size) xs)

-- `orderBy`: the order in which one query returns its rows, which only rearranges them. The columns
-- are not unique, and the next query may place ties otherwise: each call is given an order of its own.
pub record OrderBy {R : Type 0} (T : Table R) : Type 0 where
  pub arrange : T.State → List ℕ → List ℕ
  pub length-arrange : (s : T.State) (ids : List ℕ) → length (arrange s ids) ≡ length ids
  pub elem-arrange : (s : T.State) (id : ℕ) (ids : List ℕ) → elem id (arrange s ids) ≡ elem id ids

abbrev pub with_row : {R : Type 0} → Option R → List R → List R
with_row none rows = rows
with_row (some r) rows = r ∷ rows

module _ {R : Type 0} (T : Table R) where
  -- The rows under the keys.
  abbrev pub rows_at : List ℕ → T.State → List R
  rows_at [] s = []
  rows_at (id ∷ ids) s = with_row (T.find id s) (rows_at ids s)

  -- `count({ where })`
  abbrev pub count : (ℕ → R → Bool) → T.State → ℕ
  count where_clause s = length (T.find_ids where_clause s)

  -- The count runs beside the query for the page, and may meet another state of the tables.
  unfoldable pub list_page : OrderBy T → (ℕ → R → Bool) → ℕ → ℕ → ℕ → T.State → Listed R
  list_page order where_clause page page_size total s = record {
    rows = rows_at (page_of page page_size (order.arrange s (T.find_ids where_clause s))) s;
    pagination = paginate total page page_size;
  }
