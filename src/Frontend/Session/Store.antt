-- ===== src/Frontend/Session/Store.antt =====
-- What holds of the session of a tab after any sequence of its actions.
use transactguard.Prelude.{
  ℕ, ◌≡◌, inl, inr, refl, ◌∙◌, ap, arith, true, false, Option, none, some, List, [], ◌∷◌, is_some,
  Bool-cases,
}
use transactguard.Frontend.Session.{
  Call, login_call, logout_call, refresh_call, me_call, Payload, login_data, refresh_data, me_data,
  other_data, Server, Tab, Reply, received, threw, clear_tokens, logged_out, token_of, request,
  login, logged_in, logout, restore, restore_with, exchanged, confirmed,
}
use transactguard.Frontend.Session.Requests.{Kept, Outcome, request-Outcome}
use transactguard.Frontend.Session.Complete.{CompleteReply, LoginsComplete, request-Complete}

-- A tab that is signed in holds a refresh token; one that is not shows no user.
abbrev pub Coherent : Tab → Type 0
Coherent tab =
    ((tab.is_authenticated ≡ true) → is_some tab.refresh_token ≡ true)
    × ((tab.is_authenticated ≡ false) → tab.user ≡ none)

-- The tab as it is loaded: the refresh token may have been left by the tab before a reload.
abbrev pub loaded : Option ℕ → Tab
loaded r = record {
  access_token = none;
  refresh_token = r;
  user = none;
  initialising = true;
  is_authenticated = false;
}

-- The actions of the store, and any other request.
pub data Action : Type 0 where
  login_action : (email password : ℕ) → Action
  logout_action restore_action : Action
  request_action : Call → Action

Coherent-logged_out : (tab : Tab) → Coherent (logged_out (clear_tokens tab))
Coherent-logged_out tab = (λ h. absurd (cc), λ h. refl)

Coherent-Kept : (S : Server) (tab after : Tab) → Coherent tab → Kept S tab after → Coherent after
Coherent-Kept S tab after h (inl e) = rw e h
Coherent-Kept S tab after h (inr (t, e)) = rw e h

Coherent-Outcome :
    (S : Server) (tab : Tab) (o : Reply (Option Payload) × Tab × S.State)
    → Coherent tab
    → Outcome S tab o
    → Coherent o.1
Coherent-Outcome S tab o h (inl k) = Coherent-Kept S tab o.1 h k
Coherent-Outcome S tab o h (inr (e, l)) = rw l (Coherent-logged_out tab)

module _ (S : Server) where
  act : Action → Tab × S.State → Tab × S.State
  act (login_action email password) (tab, n) = let o = login S email password tab n in (o.1, o.2)
  act logout_action (tab, n) = logout S tab n
  act restore_action (tab, n) = restore S tab n
  act (request_action call) (tab, n) = let o = request S call tab n in (o.1, o.2)

  pub act_all : List Action → Tab × S.State → Tab × S.State
  act_all [] s = s
  act_all (a ∷ rest) s = act_all rest (act a s)

  -- A request that returned has left the refresh token alone.
  received-refresh_token :
      (tab : Tab) (b : Option Payload) (after : Tab) (n : S.State)
      → Outcome S tab (received b, after, n)
      → after.refresh_token ≡ tab.refresh_token
  received-refresh_token tab b after n (inl (inl e)) = rw e refl
  received-refresh_token tab b after n (inl (inr (t, e))) = rw e refl
  received-refresh_token tab b after n (inr (e, l)) = absurd (cc)

  logged_in-Coherent :
      (r : Reply (Option Payload)) (tab : Tab) (n : S.State)
      → CompleteReply r
      → Coherent tab
      → Coherent (logged_in S (r, tab, n)).1
  unfolding logged_in
  logged_in-Coherent (threw e) tab n c h = h
  logged_in-Coherent (received none) tab n c h = h
  logged_in-Coherent (received (some (login_data u a none))) tab n c h = absurd c
  logged_in-Coherent (received (some (login_data u a (some r)))) tab n c h =
      (λ s. refl, λ s. absurd (cc))
  logged_in-Coherent (received (some (refresh_data t))) tab n c h = h
  logged_in-Coherent (received (some (me_data u))) tab n c h = h
  logged_in-Coherent (received (some other_data)) tab n c h = h

  confirmed-Coherent :
      (r : Reply (Option Payload)) (tab : Tab) (n : S.State)
      → is_some tab.refresh_token ≡ true
      → Coherent (confirmed S (r, tab, n)).0
  unfolding confirmed
  confirmed-Coherent (threw e) tab n h = Coherent-logged_out tab
  confirmed-Coherent (received none) tab n h = Coherent-logged_out tab
  confirmed-Coherent (received (some p)) tab n h = (λ s. h, λ s. absurd (cc))

  confirmed_after :
      (tab : Tab) (o : Reply (Option Payload) × Tab × S.State)
      → is_some tab.refresh_token ≡ true
      → Outcome S tab o
      → Coherent (confirmed S o).0
  unfolding confirmed
  confirmed_after tab (threw e, after, n) h k = Coherent-logged_out after
  confirmed_after tab (received b, after, n) h k =
      confirmed-Coherent (received b) after n
        (ap is_some (received-refresh_token tab b after n k) ∙ h)

  exchanged-Coherent :
      (r : Reply (Option Payload)) (tab : Tab) (n : S.State)
      → is_some tab.refresh_token ≡ true
      → Coherent (exchanged S (r, tab, n)).0
  unfolding exchanged
  exchanged-Coherent (threw e) tab n h = Coherent-logged_out tab
  exchanged-Coherent (received none) tab n h = Coherent-logged_out tab
  exchanged-Coherent (received (some p)) tab n h =
      let tab' : Tab = record tab { access_token = token_of p } in
      confirmed_after tab' (request S me_call tab' n) h (request-Outcome S me_call tab' n)

  exchanged_after :
      (tab : Tab) (o : Reply (Option Payload) × Tab × S.State)
      → is_some tab.refresh_token ≡ true
      → Outcome S tab o
      → Coherent (exchanged S o).0
  unfolding exchanged
  exchanged_after tab (threw e, after, n) h k = Coherent-logged_out after
  exchanged_after tab (received b, after, n) h k =
      exchanged-Coherent (received b) after n
        (ap is_some (received-refresh_token tab b after n k) ∙ h)

  signed_out_user : (tab : Tab) → tab.refresh_token ≡ none → Coherent tab → tab.user ≡ none
  signed_out_user tab e h = elim (Bool-cases tab.is_authenticated) [
    | inl s ↦ absurd (let k = h.0 s in ground (arith, k, e))
    | inr s ↦ h.1 s
  ]

  restore_with-Coherent :
      (r : Option ℕ) (tab : Tab) (n : S.State)
      → tab.refresh_token ≡ r
      → Coherent tab
      → Coherent (restore_with S r tab n).0
  unfolding restore_with
  restore_with-Coherent none tab n e h = (λ s. absurd (cc), λ s. signed_out_user tab e h)
  restore_with-Coherent (some k) tab n e h =
      exchanged_after tab (request S (refresh_call k) tab n) (rw e refl)
        (request-Outcome S (refresh_call k) tab n)

  act-Coherent :
      (a : Action) (s : Tab × S.State) → LoginsComplete S → Coherent s.0 → Coherent (act a s).0
  unfolding act login logout restore
  act-Coherent (login_action email password) (tab, n) c h =
      let o = request S (login_call email password) tab n in
      logged_in-Coherent o.0 o.1 o.2
        (request-Complete S (login_call email password) (c email password) tab n)
        (Coherent-Outcome S tab o h (request-Outcome S (login_call email password) tab n))
  act-Coherent logout_action (tab, n) c h =
      Coherent-logged_out (request S (logout_call tab.refresh_token) tab n).1
  act-Coherent restore_action (tab, n) c h = restore_with-Coherent tab.refresh_token tab n refl h
  act-Coherent (request_action call) (tab, n) c h =
      Coherent-Outcome S tab (request S call tab n) h (request-Outcome S call tab n)

  act_all-from :
      (actions : List Action) (s : Tab × S.State)
      → LoginsComplete S
      → Coherent s.0
      → Coherent (act_all actions s).0
  unfolding act_all
  act_all-from [] s c h = h
  act_all-from (a ∷ rest) s c h = act_all-from rest (act a s) c (act-Coherent a s c h)

  -- With a server that answers no login with a body that lacks the refresh token, and whatever else it
  -- answers: from the loading of the page on, after any logins, logouts, restores and requests, a tab
  -- that is signed in holds a refresh token, and a tab that is not shows no user.
  pub act_all-Coherent :
      (actions : List Action) (r : Option ℕ) (n : S.State)
      → LoginsComplete S
      → Coherent (act_all actions (loaded r, n)).0
  act_all-Coherent actions r n c =
      act_all-from actions (loaded r, n) c (λ s. absurd (cc), λ s. refl)

  -- A logout ends the session whatever its call comes to: no token and no user are left.
  logout_clears :
      (tab : Tab) (n : S.State)
      → ((logout S tab n).0.access_token ≡ none)
        × ((logout S tab n).0.refresh_token ≡ none)
        × ((logout S tab n).0.user ≡ none)
        × ((logout S tab n).0.is_authenticated ≡ false)
  unfolding logout
  logout_clears tab n = (refl, refl, refl, refl)
