-- ===== src/Auth/Gate.antt =====
-- The role gate in front of the routes.
use transactguard.Prelude.{
  ◌≡◌, refl, sym, ◌↔◌, ◌⊎◌, inl, inr, true, false, Option, none, some, List, [], ◌∷◌, arith,
  Bool-cases,
}
use transactguard.Errors.{ok}
use transactguard.Schema.{Role}
use transactguard.Auth.{Principal, same_role, includes, role_gate}

-- The role is one of those on the list.
abbrev pub Allows : Role → List Role → Type 0
Allows r [] = ⊥
Allows r (a ∷ as') = (r ≡ a) ⊎ Allows r as'

same_role-eq : (a r : Role) → same_role a r ≡ true → r ≡ a
same_role-eq a r h = ground arith

same_role_refl : (r : Role) → same_role r r ≡ true
same_role_refl r = ground arith

includes-Allows : (l : List Role) (r : Role) → includes l (some r) ≡ true → Allows r l
unfolding includes
includes-Allows [] r h = absurd (cc)
includes-Allows (a ∷ l) r h = elim (Bool-cases (same_role a r)) [
  | inl e ↦ inl (same_role-eq a r e)
  | inr n ↦ inr (includes-Allows l r (let q = rw n at h in q))
]

Allows-includes : (l : List Role) (r : Role) → Allows r l → includes l (some r) ≡ true
unfolding includes
Allows-includes [] r x = elim x [ ]
Allows-includes (a ∷ l) r (inl e) = rw e (rw (same_role_refl a))
Allows-includes (a ∷ l) r (inr m) = ground (arith, Allows-includes l r m)

includes-none : (l : List Role) → includes l none ≡ false
unfolding includes
includes-none [] = refl
includes-none (a ∷ l) = refl

-- What the gate lets through: an authenticated caller with one of the roles.
pub record Admitted (allowed : List Role) (p : Option Principal) (u : Principal) : Type 0 where
  pub caller_is : p ≡ some u
  pub role : Role
  pub role_is : u.role ≡ some role
  pub allowed_role : Allows role allowed

role_of :
    (allowed : List Role) (u : Principal) (r : Option Role)
    → u.role ≡ r
    → includes allowed r ≡ true
    → Admitted allowed (some u) u
role_of allowed u none e h = absurd (let q = includes-none allowed in cc)
role_of allowed u (some r) e h = record {
  caller_is = refl;
  role = r;
  role_is = e;
  allowed_role = includes-Allows allowed r h;
}

-- The gate lets a request through just if an authenticated caller makes it who has one of the roles
-- on its list, and then as that caller.
pub role_gate_admits :
    (allowed : List Role) (p : Option Principal) (u : Principal)
    → (role_gate allowed p ≡ ok u) ↔ Admitted allowed p u
unfolding role_gate
role_gate_admits allowed none u = (λ h. absurd (cc), λ a. absurd (let c = a.caller_is in cc))
role_gate_admits allowed (some v) u = (
  λ h. elim (Bool-cases (includes allowed v.role)) [
    | inl t ↦ let same : v ≡ u = ground arith in rw (sym same) (role_of allowed v v.role refl t)
    | inr f ↦ absurd (let q = rw f at h in cc)
  ],
  λ a.
      let same : v ≡ u = let c = a.caller_is in cc in
      let t = Allows-includes allowed a.role a.allowed_role in rw (same, a.role_is, t),
)
