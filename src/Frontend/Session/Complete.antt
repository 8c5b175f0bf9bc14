-- ===== src/Frontend/Session/Complete.antt =====
-- Logins that are answered with a refresh token, also when their request is sent twice.
use transactguard.Prelude.{ℕ, inl, inr, Option, none, some, Bool-cases, ◌==◌}
use transactguard.Frontend.Session.{
  Call, login_call, Payload, login_data, refresh_data, me_data, other_data, Server, Tab, Reply,
  received, threw, request, Answer, rejected, response, is_ok, parsed, settled, replayed, answered,
  refresh_with,
}

-- A login's body that has no refresh token is not complete.
abbrev pub Complete : Payload → Type 0
Complete (login_data user access none) = ⊥
Complete (login_data user access (some r)) = Unit
Complete (refresh_data t) = Unit
Complete (me_data u) = Unit
Complete other_data = Unit

abbrev pub CompleteBody : Option Payload → Type 0
CompleteBody none = Unit
CompleteBody (some p) = Complete p

abbrev pub CompleteAnswer : Answer → Type 0
CompleteAnswer rejected = Unit
CompleteAnswer (response status body) = CompleteBody body

abbrev pub CompleteReply : Reply (Option Payload) → Type 0
CompleteReply (threw e) = Unit
CompleteReply (received body) = CompleteBody body

parsed-Complete :
    (status : ℕ) (body : Option Payload) → CompleteBody body → CompleteReply (parsed status body)
parsed-Complete status body h = elim (Bool-cases (is_ok status)) [
  | inl y ↦ rw y h
  | inr n ↦ rw n tt
]

settled-Complete : (a : Answer) → CompleteAnswer a → CompleteReply (settled a)
settled-Complete rejected h = tt
settled-Complete (response status body) h = parsed-Complete status body h

module _ (S : Server) (call : Call)
    (complete : (access : Option ℕ) (n : S.State) → CompleteAnswer (S.answer call access n).0) where
  replayed-Complete :
      (first : Reply (Option Payload)) (x : Option ℕ × Tab × S.State)
      → CompleteReply first
      → CompleteReply (replayed S call first x).0
  unfolding replayed
  replayed-Complete first (none, tab, n) h = h
  replayed-Complete first (some t, tab, n) h =
      settled-Complete (S.answer call tab.access_token n).0 (complete tab.access_token n)

  answered-Complete :
      (a : Answer) (n : S.State) (tab : Tab)
      → CompleteAnswer a
      → CompleteReply (answered S call (a, n) tab).0
  unfolding answered
  answered-Complete rejected n tab h = tt
  answered-Complete (response status body) n tab h = elim (Bool-cases (status == 401)) [
    | inl y ↦ rw y (
        replayed-Complete (parsed status body) (refresh_with S tab.refresh_token tab n)
          (parsed-Complete status body h))
    | inr no' ↦ rw no' (parsed-Complete status body h)
  ]

  pub request-Complete : (tab : Tab) (n : S.State) → CompleteReply (request S call tab n).0
  unfolding request
  request-Complete tab n =
      answered-Complete (S.answer call tab.access_token n).0 (S.answer call tab.access_token n).1
        tab (complete tab.access_token n)

-- The server answers a login with a refresh token, or with a body of another shape or an error.
abbrev pub LoginsComplete : Server → Type 0
LoginsComplete S =
    (email password : ℕ) (access : Option ℕ) (n : S.State)
    → CompleteAnswer (S.answer (login_call email password) access n).0
