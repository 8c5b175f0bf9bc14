-- ===== src/Prelude/Sets.antt =====
-- Lists of ids as sets: membership, absence of repetitions, and `[...new Set(xs)]`.
use Prim.Native.Nat.{ℕ, zero, suc, ◌≤◌}
use mathlib.Core.Path.{◌≡◌, refl}
use mathlib.Core.Logic.{inl, inr}
use mathlib.Core.Bool.{Bool, true, false, not, ◌&&◌, ◌||◌}
use mathlib.Core.List.{List, [], ◌∷◌, ◌++◌}
use native.Mathlib.Omega.{arith}
use transactguard.Prelude.Tests.{◌==◌, ==_iff, Bool-cases}
use transactguard.Prelude.Lists.{length, filter, length-filter-le, take, drop}

-- `xs.includes(a)`, `new Set(xs).has(a)`
abbrev pub elem : ℕ → List ℕ → Bool
elem a [] = false
elem a (x ∷ xs) = a == x || elem a xs

abbrev pub nodup : List ℕ → Bool
nodup [] = true
nodup (x ∷ xs) = not (elem x xs) && nodup xs

-- A `Set` iterates in the order of first insertion.
abbrev pub dedup : List ℕ → List ℕ
dedup [] = []
dedup (x ∷ xs) = x ∷ filter (λ y. not (y == x)) (dedup xs)

pub elem-filter : (p : ℕ → Bool) (a : ℕ) (xs : List ℕ) → elem a (filter p xs) ≡ (p a && elem a xs)
elem-filter p a [] = ground arith
elem-filter p a (x ∷ xs) = elim (Bool-cases (a == x)) [
  | inl same ↦ rw ((==_iff a x).0 same) (ground (arith, elem-filter p x xs))
  | inr other ↦ ground (arith, elem-filter p a xs)
]

pub nodup-filter : (p : ℕ → Bool) (xs : List ℕ) → nodup xs ≡ true → nodup (filter p xs) ≡ true
nodup-filter p [] h = refl
nodup-filter p (x ∷ xs) h = ground (arith, elem-filter p x xs, nodup-filter p xs)

pub elem-dedup : (a : ℕ) (xs : List ℕ) → elem a (dedup xs) ≡ elem a xs
elem-dedup a [] = refl
elem-dedup a (x ∷ xs) =
    ground (arith, elem-filter (λ y. not (y == x)) a (dedup xs), elem-dedup a xs)

pub nodup-dedup : (xs : List ℕ) → nodup (dedup xs) ≡ true
nodup-dedup [] = refl
nodup-dedup (x ∷ xs) = ground (
  arith,
  elem-filter (λ y. not (y == x)) x (dedup xs),
  nodup-filter (λ y. not (y == x)) (dedup xs) (nodup-dedup xs),
)

pub length-dedup-le : (xs : List ℕ) → length (dedup xs) ≤ length xs
length-dedup-le [] = omega arith
length-dedup-le (x ∷ xs) =
    omega (arith, length-filter-le (λ y. not (y == x)) (dedup xs), length-dedup-le xs)

subset_rest :
    (a x : ℕ) (xs ys : List ℕ)
    → nodup (x ∷ xs) ≡ true
    → elem a xs ≡ true
    → elem a ys ≡ true
    → elem a (filter (λ y. not (y == x)) ys) ≡ true
subset_rest a x xs ys h m k = elim (Bool-cases (a == x)) [
  | inl same ↦ let e = (==_iff a x).0 same in let m' = rw e at m in ground arith
  | inr other ↦ rw (elem-filter (λ y. not (y == x)) a ys) (ground arith)
]

-- One list holds every element of the other: a list without repetitions is not longer than a list
-- that holds all its elements.
pub count_split :
    (a : ℕ) (ys : List ℕ)
    → elem a ys ≡ true
    → suc (length (filter (λ y. not (y == a)) ys)) ≤ length ys
count_split a [] h = cc
count_split a (y ∷ ys) h = ground (arith, length-filter-le (λ y. not (y == a)) ys, count_split a ys)

pub length-le_of_subset :
    (xs ys : List ℕ)
    → nodup xs ≡ true
    → ((a : ℕ) → elem a xs ≡ true → elem a ys ≡ true)
    → length xs ≤ length ys
length-le_of_subset [] ys h sub = omega arith
length-le_of_subset (x ∷ xs) ys h sub =
    let rest : (a : ℕ) → elem a xs ≡ true → elem a (filter (λ y. not (y == x)) ys) ≡ true =
      λ a m. subset_rest a x xs ys h m (sub a (ground arith)) in
    let ih = length-le_of_subset xs (filter (λ y. not (y == x)) ys) (ground arith) rest in
    omega (arith, ih, count_split x ys (sub x (ground arith)))

pub elem-append : (a : ℕ) (xs ys : List ℕ) → elem a (xs ++ ys) ≡ (elem a xs || elem a ys)
elem-append a [] ys = refl
elem-append a (x ∷ xs) ys = ground (arith, elem-append a xs ys)

pub elem-of_take : (n a : ℕ) (xs : List ℕ) → elem a (take n xs) ≡ true → elem a xs ≡ true
elem-of_take zero a xs h = absurd (cc)
elem-of_take (suc n) a [] h = h
elem-of_take (suc n) a (x ∷ xs) h = elim (Bool-cases (a == x)) [
  | inl same ↦ ground arith
  | inr other ↦ let deep = elem-of_take n a xs (ground arith) in ground arith
]

pub elem-of_drop : (n a : ℕ) (xs : List ℕ) → elem a (drop n xs) ≡ true → elem a xs ≡ true
elem-of_drop zero a xs h = h
elem-of_drop (suc n) a [] h = h
elem-of_drop (suc n) a (x ∷ xs) h = let deep = elem-of_drop n a xs h in ground arith

-- The keys behind the first `n` are the others.
pub elem-drop :
    (n a : ℕ) (xs : List ℕ)
    → nodup xs ≡ true
    → elem a (drop n xs) ≡ (elem a xs && not (elem a (take n xs)))
elem-drop zero a xs h = ground arith
elem-drop (suc n) a [] h = refl
elem-drop (suc n) a (x ∷ xs) h = elim (Bool-cases (a == x)) [
  | inl same ↦
      let e = (==_iff a x).0 same in
      let far : elem a xs ≡ false = rw e (ground arith) in ground (arith, elem-drop n a xs)
  | inr other ↦ ground (arith, elem-drop n a xs)
]

pub nodup-drop : (n : ℕ) (xs : List ℕ) → nodup xs ≡ true → nodup (drop n xs) ≡ true
nodup-drop zero xs h = h
nodup-drop (suc n) [] h = h
nodup-drop (suc n) (x ∷ xs) h = nodup-drop n xs (ground arith)

-- Without repetitions, the same elements are equally many.
pub length-eq_of_same :
    (xs ys : List ℕ)
    → nodup xs ≡ true
    → nodup ys ≡ true
    → ((a : ℕ) → elem a xs ≡ elem a ys)
    → length xs ≡ length ys
length-eq_of_same xs ys h k same =
    let le = length-le_of_subset xs ys h (λ a m. ground (arith, same a)) in
    let ge = length-le_of_subset ys xs k (λ a m. ground (arith, same a)) in omega (arith, le, ge)
