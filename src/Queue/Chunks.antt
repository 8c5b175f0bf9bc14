-- ===== src/Queue/Chunks.antt =====
-- What `chunk` of backend/src/config/queue.js does to a list.
use transactguard.Prelude.{
  ℕ, zero, suc, ◌+◌, ◌*◌, ◌≤◌, ◌<◌, ◌≡◌, refl, ap, ◌∙◌, List, [], ◌∷◌, ◌++◌, arith, length, take,
  drop, concat, All, length-take, length-drop, take-append-drop,
}
use transactguard.Queue.{chunk_from, chunk}

module _ {ℓ} {A : Type ℓ} where
  concat-chunk_from :
      (fuel size : ℕ) (xs : List A)
      → 0 < size
      → length xs ≤ fuel
      → concat (chunk_from fuel xs size) ≡ xs
  unfolding chunk_from
  concat-chunk_from zero size [] p h = refl
  concat-chunk_from zero size (x ∷ xs) p h = elim h [ ]
  concat-chunk_from (suc fuel) size [] p h = refl
  concat-chunk_from (suc fuel) size (x ∷ xs) p h =
      ap (λ r. take size (x ∷ xs) ++ r)
        (concat-chunk_from fuel size (drop size (x ∷ xs)) p
          (omega (arith, length-drop size (x ∷ xs))))
      ∙ take-append-drop size (x ∷ xs)

  -- Between one item and `size` items.
  abbrev pub Fits : ℕ → List A → Type 0
  Fits size c = (0 < length c) × (length c ≤ size)

  All-Fits-chunk_from :
      (fuel size : ℕ) (xs : List A) → 0 < size → All (Fits size) (chunk_from fuel xs size)
  unfolding chunk_from
  All-Fits-chunk_from zero size xs p = tt
  All-Fits-chunk_from (suc fuel) size [] p = tt
  All-Fits-chunk_from (suc fuel) size (x ∷ xs) p = (
    (omega (arith, length-take size (x ∷ xs)), omega (arith, length-take size (x ∷ xs))),
    All-Fits-chunk_from fuel size (drop size (x ∷ xs)) p,
  )

  chunk_from_nil :
      (fuel size : ℕ) (xs : List A) → length xs ≡ 0 → size * length (chunk_from fuel xs size) ≡ 0
  unfolding chunk_from
  chunk_from_nil zero size xs e = grind arith
  chunk_from_nil (suc fuel) size [] e = grind arith
  chunk_from_nil (suc fuel) size (x ∷ xs) e = absurd (omega arith)

  -- The chunks but the last are full: `n` chunks hold more than `size * (n - 1)` items.
  length-chunk_from :
      (fuel size : ℕ) (xs : List A)
      → 0 < size
      → length xs ≤ fuel
      → (length xs ≤ size * length (chunk_from fuel xs size))
        × (size * length (chunk_from fuel xs size) < length xs + size)
  unfolding chunk_from
  length-chunk_from zero size [] p h = (grind arith, grind arith)
  length-chunk_from zero size (x ∷ xs) p h = elim h [ ]
  length-chunk_from (suc fuel) size [] p h = (grind arith, grind arith)
  length-chunk_from (suc fuel) size (x ∷ xs) p h =
      let ih =
        length-chunk_from fuel size (drop size (x ∷ xs)) p
          (omega (arith, length-drop size (x ∷ xs))) in
      let none_left = chunk_from_nil fuel size (drop size (x ∷ xs)) in
      let rest = length-drop size (x ∷ xs) in
      (grind (arith, ih, rest), grind (arith, ih, rest, none_left))

  -- For a positive size the chunks put together are the list, no chunk is empty or larger than
  -- `size`, and there are no more of them than are needed.
  pub chunk_partitions :
      (xs : List A) (size : ℕ)
      → 0 < size
      → (concat (chunk xs size) ≡ xs)
        × All (Fits size) (chunk xs size)
        × (length xs ≤ size * length (chunk xs size))
        × (size * length (chunk xs size) < length xs + size)
  unfolding chunk
  chunk_partitions xs size p =
      let (enough, few) = length-chunk_from (length xs) size xs p (omega arith) in
      (
        concat-chunk_from (length xs) size xs p (omega arith),
        All-Fits-chunk_from (length xs) size xs p,
        enough,
        few,
      )
