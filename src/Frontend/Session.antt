-- ===== src/Frontend/Session.antt =====
-- frontend/src/lib/api.js and frontend/src/store/auth.js: the tokens and the user of one tab, the
-- request that renews its access token once, and `login`, `logout` and `restore`.
-- The server at the other end of `fetch` is a parameter.
pub mod Requests
pub mod Store
pub mod Complete
use transactguard.Prelude.{
  ℕ, Bool, true, false, not, ◌&&◌, Option, none, some, ltb, leb, ◌==◌, if◌then◌else◌,
}

-- A token and a user are known here by a number each.
pub data Call : Type 0 where
  login_call : (email password : ℕ) → Call
  logout_call : (refresh_token : Option ℕ) → Call
  refresh_call : (refresh_token : ℕ) → Call
  me_call : Call
  other_call : ℕ → Call

-- The body of a response, as far as the store reads it; `none` is a field that the body does not have.
pub data Payload : Type 0 where
  login_data : (user access_token refresh_token : Option ℕ) → Payload
  refresh_data : (access_token : ℕ) → Payload
  me_data : (user : ℕ) → Payload
  other_data : Payload

-- What a `fetch` comes to: it is rejected, or there is a response, with or without a body.
pub data Answer : Type 0 where
  rejected : Answer
  response : (status : ℕ) → (body : Option Payload) → Answer

pub record Server : Type 1 where
  pub State : Type 0
  pub answer : Call → (access_token : Option ℕ) → State → Answer × State

pub record Tab : Type 0 where
  pub access_token : Option ℕ
  pub refresh_token : Option ℕ
  pub user : Option ℕ
  pub initialising : Bool
  pub is_authenticated : Bool

-- What is thrown: by `fetch`, for a response that is not ok, or on a body of another shape.
pub data Failure : Type 0 where
  network_error type_error : Failure
  api_error : (status : ℕ) → Failure

pub data Reply (A : Type 0) : Type 0 where
  received : A → Reply A
  threw : Failure → Reply A

-- `res.ok`
abbrev pub is_ok : ℕ → Bool
is_ok status = leb 200 status && ltb status 300

-- From `parse(res)` on.
abbrev pub parsed : ℕ → Option Payload → Reply (Option Payload)
parsed status body = if is_ok status then received body else threw (api_error status)

abbrev settled : Answer → Reply (Option Payload)
settled rejected = threw network_error
settled (response status body) = parsed status body

abbrev pub clear_tokens : Tab → Tab
clear_tokens tab = record tab { access_token = none; refresh_token = none }

-- The handler that the store gives to `onAuthenticationLost`, and the last line of `logout`.
abbrev pub logged_out : Tab → Tab
logged_out tab = record tab { user = none; is_authenticated = false; initialising = false }

-- `refreshed.accessToken`, and the `user` of a body.
abbrev pub token_of : Payload → Option ℕ
token_of (refresh_data t) = some t
token_of _ = none

abbrev user_of : Payload → Option ℕ
user_of (login_data user access refresh) = user
user_of (me_data user) = some user
user_of _ = none

module _ (S : Server) where
  -- What the refresh call is answered with: the new token, and the tab with it.
  renewed : Answer → Tab → Option ℕ × Tab
  renewed rejected tab = (none, tab)
  renewed (response status none) tab = (none, tab)
  renewed (response status (some p)) tab =
      if is_ok status then (token_of p, record tab { access_token = token_of p }) else (none, tab)

  renewed_by : Answer × S.State → Tab → Option ℕ × Tab × S.State
  unfolding renewed
  renewed_by (a, n) tab = let (t, tab') = renewed a tab in (t, tab', n)

  -- `refreshAccessToken`, where no other refresh is under way.
  refresh_with : Option ℕ → Tab → S.State → Option ℕ × Tab × S.State
  unfolding renewed_by
  refresh_with none tab n = (none, tab, n)
  refresh_with (some r) tab n = renewed_by (S.answer (refresh_call r) none n) tab

  -- The replay with the new token, or the loss of the session.
  replayed :
      Call
      → Reply (Option Payload)
      → Option ℕ × Tab × S.State
      → Reply (Option Payload) × Tab × S.State
  replayed call first (some t, tab, n) =
      let (a, n') = S.answer call tab.access_token n in (settled a, tab, n')
  replayed call first (none, tab, n) = (first, logged_out (clear_tokens tab), n)

  answered : Call → Answer × S.State → Tab → Reply (Option Payload) × Tab × S.State
  unfolding replayed refresh_with
  answered call (rejected, n) tab = (threw network_error, tab, n)
  answered call (response status body, n) tab =
      let again = replayed call (parsed status body) (refresh_with tab.refresh_token tab n) in
      if status == 401 then again else (parsed status body, tab, n)

  -- `request`, as `api.get`, `api.post`, `api.patch` and `api.del` call it.
  unfoldable pub request : Call → Tab → S.State → Reply (Option Payload) × Tab × S.State
  unfolding answered
  request call tab n = answered call (S.answer call tab.access_token n) tab

  -- `login`: the tokens and the user of the answer. A token that it does not have removes the old one.
  logged_in : Reply (Option Payload) × Tab × S.State → Reply (Option ℕ) × Tab × S.State
  logged_in (threw e, tab, n) = (threw e, tab, n)
  logged_in (received (some (login_data user access refresh)), tab, n) = (
    received user,
    record {
      access_token = access;
      refresh_token = refresh;
      user = user;
      initialising = false;
      is_authenticated = true;
    },
    n,
  )
  logged_in (received _, tab, n) = (threw type_error, tab, n)

  unfoldable pub login : ℕ → ℕ → Tab → S.State → Reply (Option ℕ) × Tab × S.State
  unfolding logged_in
  login email password tab n = logged_in (request (login_call email password) tab n)

  -- `logout`: whatever the call comes to.
  unfoldable pub logout : Tab → S.State → Tab × S.State
  logout tab n =
      let (r, tab', n') = request (logout_call tab.refresh_token) tab n in
      (logged_out (clear_tokens tab'), n')

  -- The second call of `restore`; a body without a `user` leaves `undefined` there.
  confirmed : Reply (Option Payload) × Tab × S.State → Tab × S.State
  confirmed (received (some p), tab, n) =
      (record tab { user = user_of p; is_authenticated = true; initialising = false }, n)
  confirmed (_, tab, n) = (logged_out (clear_tokens tab), n)

  -- The first.
  exchanged : Reply (Option Payload) × Tab × S.State → Tab × S.State
  unfolding confirmed
  exchanged (received (some p), tab, n) =
      confirmed (request me_call (record tab { access_token = token_of p }) n)
  exchanged (_, tab, n) = (logged_out (clear_tokens tab), n)

  restore_with : Option ℕ → Tab → S.State → Tab × S.State
  unfolding exchanged
  restore_with none tab n = (record tab { initialising = false; is_authenticated = false }, n)
  restore_with (some r) tab n = exchanged (request (refresh_call r) tab n)

  unfoldable pub restore : Tab → S.State → Tab × S.State
  unfolding restore_with
  restore tab n = restore_with tab.refresh_token tab n
