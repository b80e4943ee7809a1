-- ===== src/Events.antt =====
-- app/api/routes/bulk_actions.py, `stream_progress`: the server-sent events of one action. A tick is
-- what one round of the loop meets: the client has hung up, no message came within the 15 seconds, or a
-- message. Redis delivers to a subscriber what is published while it is subscribed; the ticks are given.
-- A frame is its event and its data.
pub mod Stream
pub mod Closing
mod Tests
use bulk_action_platform.Prelude.{
  Bool, true, false, Option, none, some, List, [], ◌∷◌, if◌then◌else◌,
}
use bulk_action_platform.Enums.{is_terminal}
use bulk_action_platform.Errors.{Result, ok, ◌>>=◌}
use bulk_action_platform.Progress.{Payload, progress_payload}
use bulk_action_platform.Store.{Slice}
use bulk_action_platform.Tasks.{Reply, completed, World}
use bulk_action_platform.Queries.{get_bulk_action}

pub data Tick : Type 0 where
  disconnected timeout : Tick
  message : Payload → Tick

pub data Frame : Type 0 where
  progress : Payload → Frame
  heartbeat : Frame
  done : Payload → Frame

-- The `while True`, on the ticks to come: the frames that are sent for them.
unfoldable pub event_loop : List Tick → List Frame
event_loop [] = []
event_loop (disconnected ∷ ticks) = []
event_loop (timeout ∷ ticks) = heartbeat ∷ event_loop ticks
event_loop (message p ∷ ticks) =
    let rest = event_loop ticks in
    if is_terminal p.status then progress p ∷ done p ∷ [] else progress p ∷ rest

-- `event_stream`, from the initial payload on.
unfoldable pub event_stream : Payload → List Tick → List Frame
unfolding event_loop
event_stream initial ticks =
    progress initial ∷ (if is_terminal initial.status then [] else event_loop ticks)

unfoldable pub stream_progress : Slice → List Tick → Result (List Frame)
unfolding event_stream progress_payload
stream_progress s ticks = get_bulk_action s >>= λ a. ok (event_stream (progress_payload a) ticks)

abbrev pub is_completed_reply : Reply → Bool
is_completed_reply (completed s f k) = true
is_completed_reply _ = false

-- What a batch job publishes: the payload of the row as it leaves it, if it ran its batch.
unfoldable pub published : Reply × World → Option Payload
unfolding progress_payload
published (reply, w) =
    if is_completed_reply reply
    then (elim w.slice.action [ none ↦ none | some a ↦ some (progress_payload a) ])
    else none
