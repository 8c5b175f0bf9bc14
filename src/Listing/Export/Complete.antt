-- ===== src/Listing/Export/Complete.antt =====
-- What an export contains, whatever is written to the table while it runs.
use transactguard.Prelude.{
  ℕ, ◌<◌, ◌≡◌, refl, sym, ◌∙◌, ap, inl, inr, ◌⊎◌, Bool, true, false, ◌&&◌, Option, none, some, List,
  [], ◌∷◌, arith, ltb, length, take, concat, filter, elem, elem-filter, Bool-cases, Table, matches,
  elem-of_take, elem-append, length-take,
}
use transactguard.Listing.Export.{
  from_cursor, last_of, Exported, matching, export_page, after_batch, stream_predictions,
}
use transactguard.Listing.Export.Ascending.{
  beyond, Above, elem-sort_ids, Above-sort_ids, Above-behind, from_cursor-behind, Above-take,
  elem-take, Above-append,
}

module _ {R : Type 0} (T : Table R) (p : ℕ → R → Bool) (size : ℕ) where
  -- Rows that match go on matching from each query of the export to the next.
  abbrev Lasting : List T.State → Type 0
  Lasting [] = Unit
  Lasting (s ∷ []) = Unit
  Lasting (s ∷ t ∷ states) =
      ((id : ℕ) → matches p id (T.find id s) ≡ true → matches p id (T.find id t) ≡ true)
      × Lasting (t ∷ states)

  pub elem-matching :
      (s : T.State) (id : ℕ) → elem id (matching T p size s) ≡ matches p id (T.find id s)
  unfolding matching
  elem-matching s id = elem-sort_ids id (T.find_ids p s) ∙ T.elem-find_ids p s id

  pub Above-matching : (s : T.State) → Above none (matching T p size s)
  unfolding matching
  Above-matching s = Above-sort_ids (T.find_ids p s) (T.nodup-find_ids p s)

  -- The cursor's row, if there is a cursor, still matches.
  abbrev Anchored : Option ℕ → T.State → Type 0
  Anchored none s = Unit
  Anchored (some c) s = matches p c (T.find c s) ≡ true

  -- What a page is taken from: the rows behind the cursor.
  behind : Option ℕ → T.State → List ℕ
  behind none s = matching T p size s
  behind (some c) s = filter (ltb c) (matching T p size s)

  export_page_lem :
      (o : Option ℕ) (s : T.State)
      → Anchored o s
      → export_page T p size o s ≡ take size (behind o s)
  unfolding export_page from_cursor behind
  export_page_lem none s a = refl
  export_page_lem (some c) s a =
      ap (take size)
        (from_cursor-behind none c (matching T p size s) (Above-matching s) (elem-matching s c ∙ a))

  Above-behind_cursor : (o : Option ℕ) (s : T.State) → Above o (behind o s)
  unfolding behind
  Above-behind_cursor none s = Above-matching s
  Above-behind_cursor (some c) s = Above-behind none c (matching T p size s) (Above-matching s)

  elem-behind :
      (o : Option ℕ) (s : T.State) (id : ℕ)
      → elem id (behind o s) ≡ (beyond o id && matches p id (T.find id s))
  unfolding behind
  elem-behind none s id = elem-matching s id
  elem-behind (some c) s id =
      elem-filter (ltb c) id (matching T p size s) ∙ ap (λ b. ltb c id && b) (elem-matching s id)

  -- From the cursor `o` on, over the table as `s`: ascending, and nothing that matches is left out.
  abbrev pub Covers : Option ℕ → T.State → List ℕ → Type 0
  Covers o s ids =
      Above o ids
      × ((id : ℕ) → beyond o id ≡ true → matches p id (T.find id s) ≡ true → elem id ids ≡ true)

  first_or_rest :
      (o : Option ℕ) (s : T.State) (id : ℕ)
      → beyond o id ≡ true
      → matches p id (T.find id s) ≡ true
      → (elem id (take size (behind o s)) ≡ true)
        ⊎ ((length (take size (behind o s)) ≡ size)
            × (beyond (last_of o (take size (behind o s))) id ≡ true))
  first_or_rest o s id b m =
      elem-take o size id (behind o s) (Above-behind_cursor o s)
        (elem-behind o s id ∙ (ground arith))

  after_batch-Covers :
      (o : Option ℕ) (s : T.State) (batch : List ℕ) (rest : Exported)
      → 0 < size
      → batch ≡ take size (behind o s)
      → (length batch ≡ size
          → rest.finished ≡ true
          → Covers (last_of o batch) s (concat rest.batches))
      → (after_batch T p size batch rest).finished ≡ true
      → Covers o s (concat (after_batch T p size batch rest).batches)
  unfolding after_batch
  after_batch-Covers o s [] rest pos e go f = (
    tt,
    λ id b m. elim (first_or_rest o s id b m) [
      | inl i ↦ absurd (let i' = rw (sym e) at i in cc)
      | inr (len, k) ↦ absurd (let l = rw (sym e) at len in omega (arith, l, pos))
    ],
  )
  after_batch-Covers o s (x ∷ xs) rest pos e go f =
      let b = x ∷ xs in
      let asc = rw (sym e) at (Above-take o size (behind o s) (Above-behind_cursor o s)) in
      elim (Bool-cases (ltb (length b) size)) [
        | inl short ↦ rw short (
          Above-append o b [] asc tt,
          λ id k m. elim (first_or_rest o s id k m) [
            | inl i ↦ elem-append id b [] ∙ (let i' = rw (sym e) at i in rw i')
            | inr (len, k') ↦ absurd (let l = rw (sym e) at len in ground (arith, l))
          ],
        )
        | inr full ↦
            let l : length b ≡ size =
              ground (arith, ap length e, length-take size (behind o s), full) in
            let (up, all) = go l (rw full at f) in
            rw full (
              Above-append o b (concat rest.batches) asc up,
              λ id k m. elem-append id b (concat rest.batches) ∙ elim (first_or_rest o s id k m) [
                | inl i ↦ (let i' = rw (sym e) at i in rw i')
                | inr (len, k') ↦ let q = all id (rw (sym e) at k') m in ground (arith, q)
              ],
            )
      ]

  -- The cursor that a page leaves is the old one or a key of the page.
  last_of-Anchored :
      (o : Option ℕ) (s : T.State) (xs : List ℕ)
      → ((id : ℕ) → elem id xs ≡ true → matches p id (T.find id s) ≡ true)
      → Anchored o s
      → Anchored (last_of o xs) s
  last_of-Anchored o s [] all a = a
  last_of-Anchored o s (x ∷ xs) all a =
      last_of-Anchored (some x) s xs (λ id m. all id (ground (arith, m))) (all x (ground arith))

  page-matches :
      (o : Option ℕ) (s : T.State) (id : ℕ)
      → elem id (take size (behind o s)) ≡ true
      → matches p id (T.find id s) ≡ true
  page-matches o s id m =
      let k = elem-of_take size id (behind o s) m in
      let both : (beyond o id && matches p id (T.find id s)) ≡ true =
        sym (elem-behind o s id) ∙ k in
      ground (arith, both)

  Anchored-step :
      (o : Option ℕ) (s t : T.State)
      → ((id : ℕ) → matches p id (T.find id s) ≡ true → matches p id (T.find id t) ≡ true)
      → Anchored o s
      → Anchored o t
  Anchored-step none s t last a = tt
  Anchored-step (some c) s t last a = last c a

  -- An export that returns has handed on every row that matched when it started, and no row twice: the
  -- keys of its batches ascend. Rows may be written meanwhile, as long as none that matches stops to
  -- (`Lasting`). From a cursor on, the same holds of the keys behind it, if its row still matches.
  pub stream_predictions-Covers :
      (o : Option ℕ) (s : T.State) (states : List T.State)
      → 0 < size
      → Lasting (s ∷ states)
      → Anchored o s
      → (stream_predictions T p size o (s ∷ states)).finished ≡ true
      → Covers o s (concat (stream_predictions T p size o (s ∷ states)).batches)
  unfolding stream_predictions
  stream_predictions-Covers o s [] pos l a f =
      after_batch-Covers o s (export_page T p size o s) (record { batches = []; finished = false })
        pos (export_page_lem o s a) (λ len e. absurd (cc)) f
  stream_predictions-Covers o s (t ∷ states) pos l a f =
      let e = export_page_lem o s a in
      let batch = export_page T p size o s in
      let a' =
        last_of-Anchored o s batch (λ id m. page-matches o s id (ap (elem id) (sym e) ∙ m)) a in
      after_batch-Covers o s batch (stream_predictions T p size (last_of o batch) (t ∷ states)) pos
        e
        (λ len done.
          let (up, all) =
            stream_predictions-Covers (last_of o batch) t states pos l.1
              (Anchored-step (last_of o batch) s t l.0 a') done in
          (up, λ id b m. all id b (l.0 id m)))
        f
