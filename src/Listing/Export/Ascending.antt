-- ===== src/Listing/Export/Ascending.antt =====
-- Lists of keys in ascending order.
use transactguard.Prelude.{
  ℕ, suc, zero, ◌≡◌, refl, inl, inr, ◌⊎◌, Bool, true, false, ◌||◌, Option, none, some, List, [],
  ◌∷◌, ◌++◌, arith, ltb, leb, ◌==◌, length, take, drop, filter, elem, nodup, Bool-cases,
}
use transactguard.Listing.Export.{insert, sort_ids, from_cursor, last_of}

-- Does the key lie behind the cursor?
abbrev pub beyond : Option ℕ → ℕ → Bool
beyond none a = true
beyond (some c) a = ltb c a

-- Strictly ascending, and behind the cursor.
abbrev pub Above : Option ℕ → List ℕ → Type 0
Above o [] = Unit
Above o (x ∷ xs) = (beyond o x ≡ true) × Above (some x) xs

elem-insert : (a x : ℕ) (xs : List ℕ) → elem a (insert x xs) ≡ (a == x || elem a xs)
elem-insert a x [] = refl
elem-insert a x (y ∷ ys) = ground (arith, elem-insert a x ys)

pub elem-sort_ids : (a : ℕ) (xs : List ℕ) → elem a (sort_ids xs) ≡ elem a xs
elem-sort_ids a [] = refl
elem-sort_ids a (x ∷ xs) = ground (arith, elem-insert a x (sort_ids xs), elem-sort_ids a xs)

Above-insert :
    (o : Option ℕ) (x : ℕ) (xs : List ℕ)
    → beyond o x ≡ true
    → elem x xs ≡ false
    → Above o xs
    → Above o (insert x xs)
Above-insert o x [] b n h = (b, tt)
Above-insert o x (y ∷ ys) b n h = elim (Bool-cases (leb x y)) [
  | inl le ↦ rw le (b, (ground arith, h.1))
  | inr gt ↦ rw gt (h.0, Above-insert (some y) x ys (ground arith) (ground arith) h.1)
]

pub Above-sort_ids : (xs : List ℕ) → nodup xs ≡ true → Above none (sort_ids xs)
Above-sort_ids [] h = tt
Above-sort_ids (x ∷ xs) h =
    Above-insert none x (sort_ids xs) refl (ground (arith, elem-sort_ids x xs))
      (Above-sort_ids xs (ground arith))

-- A key of such a list lies behind the cursor.
pub Above-elem :
    (o : Option ℕ) (a : ℕ) (xs : List ℕ) → Above o xs → elem a xs ≡ true → beyond o a ≡ true
Above-elem o a [] h m = absurd (cc)
Above-elem none a (x ∷ xs) h m = refl
Above-elem (some c) a (x ∷ xs) h m = elim (Bool-cases (a == x)) [
  | inl same ↦ ground arith
  | inr other ↦ let later = Above-elem (some x) a xs h.1 (ground arith) in ground arith
]

Above-weaken :
    (o : Option ℕ) (x : ℕ) (xs : List ℕ) → beyond o x ≡ true → Above (some x) xs → Above o xs
Above-weaken o x [] b h = tt
Above-weaken none x (y ∷ ys) b h = (refl, h.1)
Above-weaken (some c) x (y ∷ ys) b h = (ground (arith, h.0), h.1)

Above-filter : (o : Option ℕ) (p : ℕ → Bool) (xs : List ℕ) → Above o xs → Above o (filter p xs)
Above-filter o p [] h = tt
Above-filter o p (x ∷ xs) h = elim (Bool-cases (p x)) [
  | inl t ↦ rw t (h.0, Above-filter (some x) p xs h.1)
  | inr f ↦ rw f (Above-weaken o x (filter p xs) h.0 (Above-filter (some x) p xs h.1))
]

pub Above-behind :
    (o : Option ℕ) (c : ℕ) (xs : List ℕ) → Above o xs → Above (some c) (filter (ltb c) xs)
Above-behind o c [] h = tt
Above-behind o c (x ∷ xs) h = elim (Bool-cases (ltb c x)) [
  | inl lt ↦ rw lt (lt, Above-filter (some x) (ltb c) xs h.1)
  | inr ge ↦ rw ge (Above-behind (some x) c xs h.1)
]

-- Where everything lies behind `c`, nothing is filtered out.
filter-leb_all : (c : ℕ) (xs : List ℕ) → Above (some c) xs → filter (leb c) xs ≡ filter (ltb c) xs
filter-leb_all c [] h = refl
filter-leb_all c (x ∷ xs) h =
    let rest = filter-leb_all c xs (Above-weaken (some c) x xs h.0 h.1) in ground (arith, h.0)

-- With the cursor's row among the rows, those from the cursor on but the first are those behind it.
pub from_cursor-behind :
    (o : Option ℕ) (c : ℕ) (xs : List ℕ)
    → Above o xs
    → elem c xs ≡ true
    → from_cursor (some c) xs ≡ filter (ltb c) xs
unfolding from_cursor
from_cursor-behind o c [] h m = absurd (cc)
from_cursor-behind o c (x ∷ xs) h m = elim (Bool-cases (c == x)) [
  | inl same ↦
      let e : x ≡ c = ground arith in
      let le : leb c x ≡ true = ground arith in
      let lt : ltb c x ≡ false = ground arith in rw (le, lt) (filter-leb_all c xs (rw e at h.1))
  | inr other ↦
      let later = Above-elem (some x) c xs h.1 (ground arith) in
      let le : leb c x ≡ false = ground arith in
      let lt : ltb c x ≡ false = ground arith in
      rw (le, lt) (from_cursor-behind (some x) c xs h.1 (ground arith))
]

-- Without it, the row behind the cursor is lost.
pub from_cursor-lost :
    (o : Option ℕ) (c : ℕ) (xs : List ℕ)
    → Above o xs
    → elem c xs ≡ false
    → from_cursor (some c) xs ≡ drop 1 (filter (ltb c) xs)
unfolding from_cursor
from_cursor-lost o c [] h m = refl
from_cursor-lost o c (x ∷ xs) h m = elim (Bool-cases (ltb c x)) [
  | inl lt ↦
      let le : leb c x ≡ true = ground arith in
      let all = filter-leb_all c xs (Above-weaken (some c) x xs lt h.1) in rw (le, lt) all
  | inr ge ↦
      let le : leb c x ≡ false = ground arith in
      rw (le, ge) (from_cursor-lost (some x) c xs h.1 (ground arith))
]

pub Above-take : (o : Option ℕ) (n : ℕ) (xs : List ℕ) → Above o xs → Above o (take n xs)
Above-take o zero xs h = tt
Above-take o (suc n) [] h = tt
Above-take o (suc n) (x ∷ xs) h = (h.0, Above-take (some x) n xs h.1)

-- A key is among the first `n`, or these are `n` and it lies behind the last of them.
pub elem-take :
    (o : Option ℕ) (n a : ℕ) (xs : List ℕ)
    → Above o xs
    → elem a xs ≡ true
    → (elem a (take n xs) ≡ true)
      ⊎ ((length (take n xs) ≡ n) × (beyond (last_of o (take n xs)) a ≡ true))
elem-take o zero a xs h m = inr (refl, Above-elem o a xs h m)
elem-take o (suc n) a [] h m = absurd (cc)
elem-take o (suc n) a (x ∷ xs) h m = elim (Bool-cases (a == x)) [
  | inl same ↦ inl (ground arith)
  | inr other ↦ elim (elem-take (some x) n a xs h.1 (ground arith)) [
    | inl found ↦ inl (ground arith)
    | inr (len, behind) ↦ inr (omega (arith, len), behind)
  ]
]

pub Above-append :
    (o : Option ℕ) (xs ys : List ℕ) → Above o xs → Above (last_of o xs) ys → Above o (xs ++ ys)
Above-append o [] ys h k = k
Above-append o (x ∷ xs) ys h k = (h.0, Above-append (some x) xs ys h.1 k)
