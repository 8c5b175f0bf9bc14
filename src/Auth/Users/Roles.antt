-- ===== src/Auth/Users/Roles.antt =====
-- What a change of role by `updateUserRole` can do.
use transactguard.Prelude.{
  ℕ, ◌≡◌, refl, ◌∙◌, ◌⊎◌, inl, inr, ◌==◌, Bool, true, false, Option, none, some, arith, Bool-cases,
}
use transactguard.Errors.{ok}
use transactguard.Schema.{World, Ctx, Role, admin, User}
use transactguard.Auth.{Services, Principal, same_role}
use transactguard.Auth.Users.{is_assignable, change_role, update_user_role, get_user_by_id}

-- Does the key belong to an administrator?
abbrev pub holds_admin : Option User → Bool
holds_admin none = false
holds_admin (some u) = same_role u.role admin

assignable-not_admin : (r : Role) → is_assignable r ≡ true → same_role r admin ≡ false
unfolding is_assignable
assignable-not_admin r h = ground arith

module _ (S : Services) (id : ℕ) (role : Role) (actor : Principal) (ctx : Ctx)
    (w : World S.database) where
  find_user : ℕ → World S.database → Option User
  find_user j w' = S.database.users.find j w'.users

  change_role-admins :
      (o : Option User)
      → find_user id w ≡ o
      → same_role role admin ≡ false
      → (j : ℕ)
      → holds_admin (find_user j (change_role S id role actor ctx w o).1)
        ≡ holds_admin (find_user j w)
  unfolding change_role find_user
  change_role-admins none e h j = refl
  change_role-admins (some t) e h j = elim (Bool-cases (same_role t.role admin)) [
    | inl a ↦ rw a
    | inr na ↦ elim (Bool-cases (same_role t.role role)) [
      | inl s ↦ rw (na, s)
      | inr ns ↦
          let law = S.database.users.find-put id j (record t { role = role }) w.users in
          elim (Bool-cases (id == j)) [
            | inl i ↦ rw (na, ns) (ground arith)
            | inr ni ↦ rw (na, ns) (ground arith)
          ]
    ]
  ]

  -- No change of role, whoever asks for it, makes anybody an administrator or makes an administrator
  -- anything else: every account is one after the call just if it was one before.
  pub update_user_role_keeps_admins :
      (j : ℕ)
      → holds_admin (S.database.users.find j (update_user_role S id role actor ctx w).1.users)
        ≡ holds_admin (S.database.users.find j w.users)
  unfolding update_user_role find_user
  update_user_role_keeps_admins j = elim (Bool-cases (is_assignable role)) [
    | inr n ↦ rw n
    | inl a ↦ elim (Bool-cases (id == actor.id)) [
      | inl self ↦ rw (a, self)
      | inr other ↦
          rw (a, other)
            (change_role-admins (S.database.users.find id w.users) refl
              (assignable-not_admin role a) j)
    ]
  ]

  change_role-same :
      (o : Option User) (j : ℕ)
      → (id == j) ≡ false
      → S.database.users.find j (change_role S id role actor ctx w o).1.users
        ≡ S.database.users.find j w.users
  unfolding change_role
  change_role-same none j h = refl
  change_role-same (some t) j h =
      let law = S.database.users.find-put id j (record t { role = role }) w.users in
      elim (Bool-cases (same_role t.role admin)) [
        | inl a ↦ rw a
        | inr na ↦ elim (Bool-cases (same_role t.role role)) [
          | inl s ↦ rw (na, s)
          | inr ns ↦ rw (na, ns) (law ∙ (rw h))
        ]
      ]

  -- The accounts of the caller and of everybody but the one that is named stay as they are.
  pub update_user_role_keeps_others :
      (j : ℕ)
      → ((id == j) ≡ false) ⊎ (j ≡ actor.id)
      → S.database.users.find j (update_user_role S id role actor ctx w).1.users
        ≡ S.database.users.find j w.users
  unfolding update_user_role
  update_user_role_keeps_others j h = elim (Bool-cases (is_assignable role)) [
    | inr n ↦ rw n
    | inl a ↦ elim (Bool-cases (id == actor.id)) [
      | inl self ↦ rw (a, self)
      | inr other ↦
          rw (a, other)
            (change_role-same (S.database.users.find id w.users) j
              (elim h [ inl ne ↦ ne | inr e ↦ ground arith ]))
    ]
  ]

  change_role-ok :
      (o : Option User) (u : User)
      → find_user id w ≡ o
      → (change_role S id role actor ctx w o).0 ≡ ok u
      → (u.role ≡ role) × (find_user id (change_role S id role actor ctx w o).1 ≡ some u)
  unfolding change_role find_user
  change_role-ok none u e h = absurd (cc)
  change_role-ok (some t) u e h =
      let law = S.database.users.find-put id id (record t { role = role }) w.users in
      elim (Bool-cases (same_role t.role admin)) [
        | inl a ↦ absurd (let q = rw a at h in cc)
        | inr na ↦ elim (Bool-cases (same_role t.role role)) [
          | inl s ↦ ground arith
          | inr ns ↦ ground (arith, law)
        ]
      ]

  -- A change that succeeds is to a role that may be given, of another's account; it returns the
  -- account with the role asked for, which is what a lookup of the key then gives.
  pub update_user_role-ok :
      (u : User)
      → (update_user_role S id role actor ctx w).0 ≡ ok u
      → (is_assignable role ≡ true)
        × ((id == actor.id) ≡ false)
        × (u.role ≡ role)
        × (get_user_by_id S id (update_user_role S id role actor ctx w).1 ≡ ok u)
  unfolding update_user_role find_user get_user_by_id
  update_user_role-ok u h = elim (Bool-cases (is_assignable role)) [
    | inr n ↦ absurd (let q = rw n at h in cc)
    | inl a ↦ elim (Bool-cases (id == actor.id)) [
      | inl self ↦ absurd (let q = rw (a, self) at h in cc)
      | inr other ↦
          let h' = rw (a, other) at h in
          let (r, f) = change_role-ok (S.database.users.find id w.users) u refl h' in
          (a, other, r, rw (a, other) (rw f))
    ]
  ]
