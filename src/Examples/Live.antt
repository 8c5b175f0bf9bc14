-- ===== src/Examples/Live.antt =====
-- Sockets, published events and the session of a tab.
use transactguard.Prelude.{
  ℕ, ◌≡◌, refl, Bool, true, false, not, ◌&&◌, ◌||◌, String, Option, none, some, List, [], ◌∷◌, ◌++◌,
  ◌==◌, ◌≢◌, ◌⊎◌, All, length,
}
use transactguard.Tokens.{Secret, Claims, sign_access_token}
use transactguard.Tokens.Bearer.{IsPlain, is_bearer, extract_bearer_token}
use transactguard.Realtime.{Room, job_room}
use transactguard.Realtime.Rooms.{
  SocketIo, same_room, Request, uuid, subscribe_job, unsubscribe_job, subscribe_feed, serve,
  last_word, serve_refines,
}
use transactguard.Realtime.Handshake.{
  authenticate_header, authenticate_socket, as_response, as_socket_user, authenticate_socket_agrees,
}
use transactguard.Frontend.Session.{
  Call, other_call, refresh_call, refresh_data, me_data, Answer, response, Server, Tab, request,
}
use transactguard.Frontend.Session.Requests.{Outcome, request-Outcome}
use transactguard.Frontend.Session.Complete.{CompleteAnswer, LoginsComplete}
use transactguard.Frontend.Session.Store.{
  Coherent, loaded, Action, logout_action, restore_action, request_action, act_all,
  act_all-Coherent,
}
use transactguard.Examples.Accounts.{services, ann}

abbrev sockets : SocketIo
sockets = record {
  Rooms = ℕ → Room → Bool;
  in_room = λ a r s. s a r;
  join = λ a r s b q. (a == b && same_room r q) || s b q;
  leave = λ a r s b q. not (a == b && same_room r q) && s b q;
  in_room-join = λ a b r q s. refl;
  in_room-leave = λ a b r q s. refl;
}

abbrev no_uuid : String → Bool
no_uuid t = false

abbrev nobody : ℕ → Room → Bool
nobody socket room = false

abbrev asked : List (ℕ × Request)
asked =
    (1, subscribe_job (uuid 7))
    ∷ (2, subscribe_feed)
    ∷ (1, unsubscribe_job (uuid 7))
    ∷ (1, subscribe_job (uuid 8))
    ∷ []

serve_refines_example :
    sockets.in_room 1 (job_room 8) (serve sockets no_uuid asked nobody)
    ≡ last_word sockets no_uuid 1 (job_room 8) asked false
serve_refines_example = serve_refines sockets no_uuid 1 (job_room 8) asked nobody

abbrev as_text : List ℕ → Secret × Claims
as_text s = sign_access_token services.jwt ann 60 (length s)

authenticate_socket_agrees_example :
    ((h t : List ℕ)
      → extract_bearer_token (some h) ≡ some t
      → as_response (authenticate_socket services as_text (some h) 5 true [])
        ≡ as_socket_user (authenticate_header services as_text (some h) 5 true []))
    × ((scheme' raw : List ℕ)
        → All IsPlain scheme'
        → is_bearer scheme' ≡ true
        → All IsPlain raw
        → raw ≢ []
        → as_response (authenticate_socket services as_text (some raw) 5 true [])
          ≡ as_socket_user
              (authenticate_header services as_text (some (scheme' ++ (32 ∷ raw))) 5 true []))
    × ((given : Option (List ℕ))
        → (given ≡ none) ⊎ (given ≡ some [])
        → as_response (authenticate_socket services as_text given 5 true [])
          ≡ as_socket_user (authenticate_header services as_text none 5 true []))
authenticate_socket_agrees_example = authenticate_socket_agrees services as_text 5 true []

-- A server that takes only the access token 2, which it gives for any refresh token.
abbrev answers : Call → Option ℕ → ℕ → Answer × ℕ
answers (refresh_call r) token n = (response 200 (some (refresh_data 2)), n)
answers call none n = (response 401 none, n)
answers call (some t) n =
    (elim (t == 2) [ true ↦ response 200 (some (me_data 4)) | false ↦ response 401 none ], n)

abbrev server : Server
server = record { State = ℕ; answer = answers }

abbrev tab : Tab
tab = record {
  access_token = some 1;
  refresh_token = some 9;
  user = some 4;
  initialising = false;
  is_authenticated = true;
}

request-Outcome_example : Outcome server tab (request server (other_call 3) tab 0)
request-Outcome_example = request-Outcome server (other_call 3) tab 0

abbrev actions : List Action
actions = restore_action ∷ request_action (other_call 3) ∷ logout_action ∷ []

server-LoginsComplete : LoginsComplete server
server-LoginsComplete email password none n = tt
server-LoginsComplete email password (some t) n =
    elim (t == 2)
      as (λ b. CompleteAnswer (elim b as (λ x. Answer) [
        | true ↦ response 200 (some (me_data 4))
        | false ↦ response 401 none
      ])) [ true ↦ tt | false ↦ tt ]

act_all-Coherent_example : Coherent (act_all server actions (loaded (some 9), 0)).0
act_all-Coherent_example = act_all-Coherent server actions (some 9) 0 server-LoginsComplete
