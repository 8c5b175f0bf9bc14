-- ===== src/Transactions/Create/Unique.antt =====
-- What the creation of a transaction keeps: no two transactions have one `txnId`.
use text.Mathlib.Text.{◌==◌ as str_eq}
use text.Mathlib.TextPositions.{eq_refl}
use transactguard.Prelude.{
  ℕ, ◌≡◌, ◌⊎◌, inl, inr, refl, sym, ◌∙◌, ap, String, Bool, true, false, some, List, [], ◌∷◌,
  or_else, ◌==◌, ==_iff, ==_refl, elem, Bool-cases, matches,
}
use transactguard.Errors.{Code, throw}
use transactguard.Errors.Raise
use transactguard.Schema.{Database, World, Ctx, Transaction}
use transactguard.Transactions.Create.{
  CreateInput, created_row, is_found, is_taken, insert_row, create_transaction,
}

is_found-elem : (xs : List ℕ) → is_found xs ≡ false → (a : ℕ) → elem a xs ≡ false
is_found-elem [] h a = refl
is_found-elem (x ∷ xs) h a = absurd (cc)

module _ (D : Database) where
  -- One transaction to a `txnId`.
  abbrev pub UniqueTxnIds : World D → Type 0
  UniqueTxnIds w =
      (i j : ℕ) (s t : Transaction)
      → D.transactions.find i w.transactions ≡ some s
      → D.transactions.find j w.transactions ≡ some t
      → s.txn_id ≡ t.txn_id
      → i ≡ j

  not_taken :
      (txn_id : String) (w : World D) (j : ℕ) (t : Transaction)
      → is_taken D txn_id w ≡ false
      → D.transactions.find j w.transactions ≡ some t
      → t.txn_id ≡ txn_id
      → ⊥
  unfolding is_taken
  not_taken txn_id w j t h f e =
      let p : ℕ → Transaction → Bool = λ id t. str_eq t.txn_id txn_id in
      let n = is_found-elem (D.transactions.find_ids p w.transactions) h j in
      let m : matches p j (some t) ≡ false =
        ap (matches p j) (sym f) ∙ sym (D.transactions.elem-find_ids p w.transactions j) ∙ n in
      let y = eq_refl txn_id in let m' : str_eq txn_id txn_id ≡ false = rw e at m in cc

  -- A row after the insertion is the new one or an old one.
  put-cases :
      (k j : ℕ) (r t : Transaction) (s : D.transactions.State)
      → D.transactions.find j (D.transactions.put k r s) ≡ some t
      → ((k ≡ j) × (r ≡ t)) ⊎ (D.transactions.find j s ≡ some t)
  put-cases k j r t s h =
      let law = sym (D.transactions.find-put k j r s) ∙ h in
      elim (Bool-cases (k == j)) [
        | inl same ↦ let q = rw same at law in let e : r ≡ t = cc in inl ((==_iff k j).0 same, e)
        | inr other ↦ inr (let q = rw other at law in q)
      ]

  insert-UniqueTxnIds :
      (r : Transaction) (w w' : World D)
      → w'.transactions ≡ D.transactions.put r.id r w.transactions
      → is_taken D r.txn_id w ≡ false
      → UniqueTxnIds w
      → UniqueTxnIds w'
  insert-UniqueTxnIds r w w' e free u i j s t fi fj same =
      let ci = put-cases r.id i r s w.transactions (ap (D.transactions.find i) (sym e) ∙ fi) in
      let cj = put-cases r.id j r t w.transactions (ap (D.transactions.find j) (sym e) ∙ fj) in
      elim ci [
        | inl (ki, ri) ↦ elim cj [
          | inl (kj, rj) ↦ sym ki ∙ kj
          | inr old ↦ absurd (
              not_taken r.txn_id w j t free old
                (sym same ∙ ap (λ (x : Transaction). x.txn_id) (sym ri)))
        ]
        | inr oldi ↦ elim cj [
          | inl (kj, rj) ↦ absurd (
              not_taken r.txn_id w i s free oldi
                (same ∙ ap (λ (x : Transaction). x.txn_id) (sym rj)))
          | inr oldj ↦ u i j s t oldi oldj same
        ]
      ]

  -- Creating a transaction, whether it is done or refused, keeps the `txnId`s unique. It is refused
  -- with a 409 and no change exactly where the `txnId` is taken, also by a deleted transaction, and
  -- done otherwise, with the `txnId` that was given or made up.
  pub create_transaction-UniqueTxnIds :
      (input : CreateInput) (generated : String) (user_id : ℕ) (ctx : Ctx) (w : World D)
      → UniqueTxnIds w
      → UniqueTxnIds (create_transaction D input generated user_id ctx w).1
        × (((is_taken D (or_else input.txn_id generated) w ≡ true)
              × (create_transaction D input generated user_id ctx w
                  ≡ (throw (Raise.conflict Code.txn_id_taken), w)))
            ⊎ ((is_taken D (or_else input.txn_id generated) w ≡ false)
                × (D.transactions.find ctx.new_id
                      (create_transaction D input generated user_id ctx w).1.transactions
                    ≡ some (created_row input (or_else input.txn_id generated) user_id ctx))))
  unfolding create_transaction created_row insert_row
  create_transaction-UniqueTxnIds input generated user_id ctx w u =
      let txn_id = or_else input.txn_id generated in
      let row = created_row input txn_id user_id ctx in
      elim (Bool-cases (is_taken D txn_id w)) [
        | inl taken ↦ (rw taken u, inl (taken, rw taken refl))
        | inr free ↦ (
          rw free (insert-UniqueTxnIds row w (insert_row D row user_id ctx w) refl free u),
          inr (
            free,
            rw free (
                D.transactions.find-put ctx.new_id ctx.new_id row w.transactions
                ∙ rw (==_refl ctx.new_id) refl),
          ),
        )
      ]
