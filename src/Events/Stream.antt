-- ===== src/Events/Stream.antt =====
-- What a client of the stream sees.
use bulk_action_platform.Prelude.{
  ◌≡◌, refl, ap, ◌∙◌, Bool, true, false, List, [], ◌∷◌, ◌++◌, arith, if◌then◌else◌, All, map, count,
}
use bulk_action_platform.Enums.{is_terminal}
use bulk_action_platform.Progress.{Payload}
use bulk_action_platform.Events.{
  Tick, disconnected, timeout, message, Frame, progress, heartbeat, done, event_loop, event_stream,
}

-- A tick after which the stream goes on.
abbrev pub goes_on : Tick → Bool
goes_on disconnected = false
goes_on timeout = true
goes_on (message p) = if is_terminal p.status then false else true

-- Its frame.
abbrev pub frame_of : Tick → Frame
frame_of (message p) = progress p
frame_of _ = heartbeat

abbrev pub is_done : Frame → Bool
is_done (done p) = true
is_done _ = false

pub event_loop-append :
    (before rest : List Tick)
    → All (λ t. goes_on t ≡ true) before
    → event_loop (before ++ rest) ≡ map frame_of before ++ event_loop rest
unfolding event_loop
event_loop-append [] rest h = refl
event_loop-append (disconnected ∷ before) rest h = cc
event_loop-append (timeout ∷ before) rest h = ap (◌∷◌ heartbeat) (event_loop-append before rest h.1)
event_loop-append (message p ∷ before) rest h =
    ground (arith, h.0, event_loop-append before rest h.1)

event_loop-quiet :
    (ticks : List Tick) → All (λ t. goes_on t ≡ true) ticks → event_loop ticks ≡ map frame_of ticks
unfolding event_loop
event_loop-quiet [] h = refl
event_loop-quiet (disconnected ∷ ticks) h = cc
event_loop-quiet (timeout ∷ ticks) h = ap (◌∷◌ heartbeat) (event_loop-quiet ticks h.1)
event_loop-quiet (message p ∷ ticks) h = ground (arith, h.0, event_loop-quiet ticks h.1)

count-done : (ticks : List Tick) → count is_done (map frame_of ticks) ≡ 0
count-done [] = refl
count-done (disconnected ∷ ticks) = count-done ticks
count-done (timeout ∷ ticks) = count-done ticks
count-done (message p ∷ ticks) = count-done ticks

-- The relay. For an action that is not terminal when the client connects, and as long as it does not
-- hang up, every message is passed on once and in order, with a heartbeat for every silent period. The
-- first message with a terminal status is passed on, followed by the one `done` frame with the same data,
-- and the stream ends there, whatever comes after; and before such a message there is no `done` frame.
pub event_stream_relays :
    (initial p : Payload) (before after : List Tick)
    → is_terminal initial.status ≡ false
    → All (λ t. goes_on t ≡ true) before
    → is_terminal p.status ≡ true
    → (event_stream initial (before ++ message p ∷ after)
        ≡ progress initial ∷ (map frame_of before ++ progress p ∷ done p ∷ []))
      × (event_stream initial before ≡ progress initial ∷ map frame_of before)
      × (count is_done (event_stream initial before) ≡ 0)
unfolding event_stream
event_stream_relays initial p before after live quiet ends =
    let last : event_loop (message p ∷ after) ≡ progress p ∷ done p ∷ [] =
      rw (ends, event_loop) refl in
    let silent : event_loop before ≡ map frame_of before = event_loop-quiet before quiet in
    (
      rw live (
          ap (◌∷◌ (progress initial)) (
            event_loop-append before (message p ∷ after) quiet
            ∙ ap (◌++◌ (map frame_of before)) last)),
      rw live (ap (◌∷◌ (progress initial)) silent),
      rw live (ap (count is_done) silent ∙ count-done before),
    )
