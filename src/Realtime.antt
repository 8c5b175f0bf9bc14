-- ===== src/Realtime.antt =====
-- backend/src/realtime: what the worker and the simulator publish (publisher.js), and how the API
-- process hands it on to the rooms of Socket.IO (subscriber.js). Rooms is backend/src/config/socket.js.
pub mod Rooms
pub mod Handshake
use transactguard.Prelude.{
  ℕ, ℤ, String, Bool, true, false, Option, none, some, List, [], ◌∷◌, ◌++◌, if◌then◌else◌,
}
use transactguard.Schema.{Transaction, Prediction, BatchJob, BatchJobStatus, RiskLevel}
use transactguard.Worker.{Published, job_progress, job_completed}

-- `jobChannel(jobId)` and `FEED_CHANNEL`
pub data Channel : Type 0 where
  job_channel : (job_id : ℕ) → Channel
  feed_channel : Channel

-- `EVENTS`, and the name of any other event.
pub data Event : Type 0 where
  job_progress_event job_completed_event feed_prediction_event : Event
  other_event : String → Event

-- `data` of the three payloads; only a progress event carries the total.
pub record JobData : Type 0 where
  pub job_id : ℕ
  pub processed_count : ℕ
  pub failed_count : ℕ
  pub total_txns : Option ℕ
  pub status : BatchJobStatus

pub record FeedData : Type 0 where
  pub transaction_id : ℕ
  pub txn_id : String
  pub amount : ℤ
  pub txn_type : String
  pub risk_score : ℕ
  pub risk_level : RiskLevel
  pub explanation_summary : String

pub data Data : Type 0 where
  job_data : JobData → Data
  feed_data : FeedData → Data

-- What a subscriber receives: a text that is no JSON, or an object whose keys may be absent.
pub data Incoming : Type 0 where
  unparseable : Incoming
  message : (event : Option Event) → (payload : Option Data) → Incoming

-- The messages on the wire, in the order of their publication.
abbrev pub Wire : Type 0
Wire = List (Channel × Incoming)

-- `publish`: whether Redis took the message; a failure is logged and swallowed.
unfoldable pub publish : Bool → Channel → Event → Data → Wire → Bool × Wire
publish up channel event payload wire =
    if up
    then (true, wire ++ ((channel, message (some event) (some payload)) ∷ []))
    else (false, wire)

unfoldable pub publish_job_progress : Bool → BatchJob → BatchJobStatus → Wire → Bool × Wire
publish_job_progress up job status wire =
    publish up (job_channel job.id) job_progress_event
      (job_data (record {
        job_id = job.id;
        processed_count = job.processed_count;
        failed_count = job.failed_count;
        total_txns = some job.total_txns;
        status = status;
      }))
      wire

unfoldable pub publish_job_completed : Bool → BatchJob → BatchJobStatus → Wire → Bool × Wire
publish_job_completed up job status wire =
    publish up (job_channel job.id) job_completed_event
      (job_data (record {
        job_id = job.id;
        processed_count = job.processed_count;
        failed_count = job.failed_count;
        total_txns = none;
        status = status;
      }))
      wire

publish_feed_prediction : Bool → Transaction → Prediction → Wire → Bool × Wire
publish_feed_prediction up t p wire =
    publish up feed_channel feed_prediction_event
      (feed_data (record {
        transaction_id = t.id;
        txn_id = t.txn_id;
        amount = t.amount;
        txn_type = t.txn_type;
        risk_score = p.risk_score;
        risk_level = p.risk_level;
        explanation_summary = p.explanation_summary;
      }))
      wire

-- A room of Socket.IO: the feed's, or one for a text that was given as the key of a job.
pub data Room : Type 0 where
  feed_room : Room
  job_room : (job_id : ℕ) → Room
  text_room : String → Room

pub record Emission : Type 0 where
  pub room : Room
  pub event : Event
  pub payload : Data

-- `data.jobId`, which a message about the feed does not have.
abbrev room_of : Data → Room
room_of (job_data d) = job_room d.job_id
room_of (feed_data d) = text_room "undefined"

-- The `switch` of `handleMessage`.
relayed : Event → Data → List Emission
relayed job_progress_event d =
    record { room = room_of d; event = job_progress_event; payload = d } ∷ []
relayed job_completed_event d =
    record { room = room_of d; event = job_completed_event; payload = d } ∷ []
relayed feed_prediction_event d =
    record { room = feed_room; event = feed_prediction_event; payload = d } ∷ []
relayed (other_event name) d = []

unfoldable pub handle_message : Incoming → List Emission
unfolding relayed
handle_message unparseable = []
handle_message (message none d) = []
handle_message (message (some e) none) = []
handle_message (message (some e) (some d)) = relayed e d
