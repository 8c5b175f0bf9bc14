-- ===== src/Realtime/Rooms.antt =====
-- `registerHandlers` of backend/src/config/socket.js: which rooms a socket is in. Socket.IO is not in
-- the repository: what the code relies on of its rooms is `SocketIo`.
use text.Mathlib.Text.{◌==◌ as str_eq}
use transactguard.Prelude.{
  ℕ, ◌≡◌, refl, ◌∙◌, ap, String, Bool, true, false, not, ◌&&◌, ◌||◌, Option, none, some, List, [],
  ◌∷◌, ◌==◌, arith, if◌then◌else◌, inl, inr, Bool-cases,
}
use transactguard.Realtime.{Room, feed_room, job_room, text_room}

-- Equal rooms; the name of a job's room is none of another's.
abbrev pub same_room : Room → Room → Bool
same_room feed_room feed_room = true
same_room (job_room a) (job_room b) = a == b
same_room (text_room a) (text_room b) = str_eq a b
same_room _ _ = false

pub record SocketIo : Type 1 where
  pub Rooms : Type 0
  pub in_room : (socket : ℕ) → Room → Rooms → Bool
  pub join : (socket : ℕ) → Room → Rooms → Rooms
  pub leave : (socket : ℕ) → Room → Rooms → Rooms
  pub in_room-join :
      (a b : ℕ) (r q : Room) (s : Rooms)
      → in_room b q (join a r s) ≡ ((a == b && same_room r q) || in_room b q s)
  pub in_room-leave :
      (a b : ℕ) (r q : Room) (s : Rooms)
      → in_room b q (leave a r s) ≡ (not (a == b && same_room r q) && in_room b q s)

-- The job that a client names: nothing, a UUID as the database spells it, or another text.
pub data Named : Type 0 where
  unnamed : Named
  uuid : (job_id : ℕ) → Named
  other_text : String → Named

-- The four messages of a client.
pub data Request : Type 0 where
  subscribe_job unsubscribe_job : Named → Request
  subscribe_feed unsubscribe_feed : Request

-- What a handler answers to the `ack`, and whether it emits `error:subscription` before.
pub record Ack : Type 0 where
  pub ok : Bool
  pub room : Option Room
  pub subscription_error : Bool

refused : Bool → Ack
refused emitted = record { ok = false; room = none; subscription_error = emitted }

accepted : Option Room → Ack
accepted room = record { ok = true; room = room; subscription_error = false }

-- `uuid_re` is `UUID_RE` on a text that is no key of the database.
module _ (IO : SocketIo) (uuid_re : String → Bool) where
  handle : ℕ → Request → IO.Rooms → Ack × IO.Rooms
  unfolding refused accepted
  handle socket (subscribe_job unnamed) s = (refused true, s)
  handle socket (subscribe_job (uuid id)) s =
      (accepted (some (job_room id)), IO.join socket (job_room id) s)
  handle socket (subscribe_job (other_text t)) s =
      if uuid_re t
      then (accepted (some (text_room t)), IO.join socket (text_room t) s)
      else (refused true, s)
  handle socket (unsubscribe_job unnamed) s = (refused false, s)
  handle socket (unsubscribe_job (uuid id)) s = (accepted none, IO.leave socket (job_room id) s)
  handle socket (unsubscribe_job (other_text t)) s =
      (accepted none, IO.leave socket (text_room t) s)
  handle socket subscribe_feed s = (accepted (some feed_room), IO.join socket feed_room s)
  handle socket unsubscribe_feed s = (accepted none, IO.leave socket feed_room s)

  -- The requests of all sockets, in the order in which the server handles them.
  pub serve : List (ℕ × Request) → IO.Rooms → IO.Rooms
  serve [] s = s
  serve ((socket, r) ∷ rest) s = serve rest (handle socket r s).1

  -- What a request asks for: that its socket be, or not be, in a room.
  abbrev wants : Request → Option (Room × Bool)
  wants (subscribe_job unnamed) = none
  wants (subscribe_job (uuid id)) = some (job_room id, true)
  wants (subscribe_job (other_text t)) = if uuid_re t then some (text_room t, true) else none
  wants (unsubscribe_job unnamed) = none
  wants (unsubscribe_job (uuid id)) = some (job_room id, false)
  wants (unsubscribe_job (other_text t)) = some (text_room t, false)
  wants subscribe_feed = some (feed_room, true)
  wants unsubscribe_feed = some (feed_room, false)

  -- The abstract room: a socket is in it as its last request about the room said.
  abbrev decided_by : ℕ → Room → Option (Room × Bool) → ℕ → Bool → Bool
  decided_by socket room none by now = now
  decided_by socket room (some (r, b)) by now = if by == socket && same_room r room then b else now

  abbrev pub last_word : ℕ → Room → List (ℕ × Request) → Bool → Bool
  last_word socket room [] now = now
  last_word socket room ((by, r) ∷ rest) now =
      last_word socket room rest (decided_by socket room (wants r) by now)

  join-decided_by :
      (socket by : ℕ) (room r : Room) (s : IO.Rooms)
      → IO.in_room socket room (IO.join by r s)
        ≡ decided_by socket room (some (r, true)) by (IO.in_room socket room s)
  join-decided_by socket by room r s = ground (arith, IO.in_room-join by socket r room s)

  leave-decided_by :
      (socket by : ℕ) (room r : Room) (s : IO.Rooms)
      → IO.in_room socket room (IO.leave by r s)
        ≡ decided_by socket room (some (r, false)) by (IO.in_room socket room s)
  leave-decided_by socket by room r s = ground (arith, IO.in_room-leave by socket r room s)

  handle-decided_by :
      (socket by : ℕ) (room : Room) (r : Request) (s : IO.Rooms)
      → IO.in_room socket room (handle by r s).1
        ≡ decided_by socket room (wants r) by (IO.in_room socket room s)
  unfolding handle
  handle-decided_by socket by room (subscribe_job unnamed) s = refl
  handle-decided_by socket by room (subscribe_job (uuid id)) s =
      join-decided_by socket by room (job_room id) s
  handle-decided_by socket by room (subscribe_job (other_text t)) s =
      elim (Bool-cases (uuid_re t)) [
        | inl fits ↦ rw fits (join-decided_by socket by room (text_room t) s)
        | inr other ↦ rw other refl
      ]
  handle-decided_by socket by room (unsubscribe_job unnamed) s = refl
  handle-decided_by socket by room (unsubscribe_job (uuid id)) s =
      leave-decided_by socket by room (job_room id) s
  handle-decided_by socket by room (unsubscribe_job (other_text t)) s =
      leave-decided_by socket by room (text_room t) s
  handle-decided_by socket by room subscribe_feed s = join-decided_by socket by room feed_room s
  handle-decided_by socket by room unsubscribe_feed s = leave-decided_by socket by room feed_room s

  -- The handlers refine the abstract room: whatever the sockets ask for, in whatever order, a socket
  -- is in a room exactly if its last request about that room put it there, or if it was in the room
  -- at the start and made none.
  pub serve_refines :
      (socket : ℕ) (room : Room) (requests : List (ℕ × Request)) (s : IO.Rooms)
      → IO.in_room socket room (serve requests s)
        ≡ last_word socket room requests (IO.in_room socket room s)
  unfolding serve
  serve_refines socket room [] s = refl
  serve_refines socket room ((by, r) ∷ rest) s =
      serve_refines socket room rest (handle by r s).1
      ∙ ap (last_word socket room rest) (handle-decided_by socket by room r s)
