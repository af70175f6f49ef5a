-- ===== src/Coordinator/Round.antt =====
-- neursafe_fl/python/coordinator/round_controller.py: the class `RoundController`. Its coroutine `run` is
-- cut where it awaits; messages, the timer and a stop come in between. What a round's `on_aggregate`
-- does is an outcome that comes in with the message: in the rounds at hand it never suspends. The
-- retries of the calls that stop the clients are `stop_clients`.
pub mod Waiting
use yanshi_shield.Base.{
  ℕ, zero, suc, Bool, true, false, not, ◌&&◌, ◌||◌, Option, none, some, List, [], ◌∷◌,
  if◌then◌else◌, ltb, nat_beq, filterb, countb, length,
}

-- `ErrorCode`, and 0 for none
pub data ErrorCode : Type 0 where
  no_code force_stop extend_failed : ErrorCode

pub data Phase : Type 0 where
  selecting broadcasting waiting : Phase
  -- `__finish` awaits `__stop_clients`, or `on_finish`.
  stopping finishing : Phase
  -- `run` has returned the status of its result and its code.
  ended : Bool → ErrorCode → Phase

pub record RoundController : Type 0 where
  pub max_num : ℕ
  pub threshold_num : ℕ
  pub phase : Phase
  pub clients : List ℕ
  pub event : Bool
  -- whether `__timer` is not None
  pub timer : Bool
  pub received_reply : ℕ
  pub success_reply : ℕ
  pub failed_reply : ℕ
  pub accept_updates : Bool
  pub stopped : Bool
  pub error_code : ErrorCode

-- `__init__`
abbrev pub new_controller : (client_num threshold_client_num : ℕ) → RoundController
new_controller client_num threshold_client_num = record {
  max_num = client_num;
  threshold_num = threshold_client_num;
  phase = selecting;
  clients = [];
  event = false;
  timer = false;
  received_reply = 0;
  success_reply = 0;
  failed_reply = 0;
  accept_updates = true;
  stopped = false;
  error_code = no_code;
}

-- The `except` branch of `run`
abbrev pub fail_round : RoundController → RoundController
fail_round self = record self { phase = ended false self.error_code }

-- `__select_clients`; `none` is a DeviceNotEnoughError.
unfoldable pub select_clients : Option (List ℕ) → RoundController → RoundController
select_clients none self = fail_round self
select_clients (some clients) self = record self { clients = clients; phase = broadcasting }

-- `__wait_updates`: the test of its loop
unfoldable pub keeps_waiting : RoundController → Bool
keeps_waiting self =
    (ltb self.success_reply self.threshold_num
      && ltb self.received_reply self.max_num
      && self.timer)
    && not self.stopped

-- `__finish` up to where it awaits: its tests are made at once, before any other event. A stopped round
-- stops its clients first.
unfoldable pub finish_begin : RoundController → RoundController
finish_begin self =
    if self.stopped
    then record self { phase = stopping }
    else if not self.timer || ltb self.success_reply self.threshold_num
    then fail_round self
    else record self { phase = finishing }

-- `__wait_updates` from the head of its loop. Where it ends, the timer is cancelled, which leaves
-- `__timer` as it is, and `run` goes on into `__finish`.
unfoldable pub wait_updates : RoundController → RoundController
unfolding keeps_waiting finish_begin
wait_updates self =
    if keeps_waiting self
    then record self { phase = waiting }
    else finish_begin (record self { accept_updates = false })

-- `__broadcast_task_to_client` once all sends are done, `__start_monitor_timer`, and the wait
unfoldable pub broadcast_done : List Bool → RoundController → RoundController
unfolding wait_updates
broadcast_done sent self =
    let started = wait_updates (record self { timer = true }) in
    if ltb (countb (λ ok. ok) sent) self.threshold_num then fail_round self else started

-- `await self.__event.wait()` returns.
unfoldable pub wake : RoundController → RoundController
unfolding wait_updates
wake self = if self.event then wait_updates (record self { event = false }) else self

-- `__timeout_handler`
abbrev pub timeout_handler : RoundController → RoundController
timeout_handler self = record self { timer = false; event = true }

-- `__stop`
abbrev pub stop_round : ErrorCode → RoundController → RoundController
stop_round code self = record self { error_code = code; stopped = true; event = true }

pub data Outcome : Type 0 where
  aggregated extension_failed aggregation_error : Outcome

-- `__try_to_aggregate`
unfoldable pub try_to_aggregate : Outcome → RoundController → RoundController
try_to_aggregate aggregated self = record self { success_reply = suc self.success_reply }
try_to_aggregate extension_failed self = stop_round extend_failed self
try_to_aggregate aggregation_error self = record self { failed_reply = suc self.failed_reply }

-- `process_msg`, of a message with the client's status and what aggregating it comes to
unfoldable pub process_msg : Bool → Outcome → RoundController → RoundController
unfolding try_to_aggregate
process_msg success outcome self =
    let refused = record self { failed_reply = suc self.failed_reply } in
    let handled =
      if success
      then (if self.accept_updates then try_to_aggregate outcome self else refused)
      else refused in
    record handled { received_reply = suc handled.received_reply; event = true }

-- The rest of `__finish` once `on_finish` is done, and the end of `run`; `finished` is whether it gives
-- a result. A stop that comes in meanwhile is not looked at.
unfoldable pub finish_round : Bool → RoundController → RoundController
finish_round finished self =
    if finished then record self { phase = ended true no_code } else fail_round self

pub data RoundEvent : Type 0 where
  selection : Option (List ℕ) → RoundEvent
  broadcasts : List Bool → RoundEvent
  message : Bool → Outcome → RoundEvent
  timeout stop_command wakes : RoundEvent
  clients_stopped : RoundEvent
  finishes : Bool → RoundEvent

-- An event reaches the coroutine of `run` only where that waits for it, and the timer runs only
-- during the wait.
unfoldable pub handle_round : RoundEvent → RoundController → RoundController
unfolding select_clients broadcast_done wake process_msg finish_round
handle_round (selection clients) self = elim self.phase [
  | selecting ↦ select_clients clients self
  | _ ↦ self
]
handle_round (broadcasts sent) self = elim self.phase [
  | broadcasting ↦ broadcast_done sent self
  | _ ↦ self
]
handle_round (message success outcome) self = process_msg success outcome self
handle_round timeout self = elim self.phase [ waiting ↦ timeout_handler self | _ ↦ self ]
handle_round stop_command self = stop_round force_stop self
handle_round wakes self = elim self.phase [ waiting ↦ wake self | _ ↦ self ]
handle_round clients_stopped self = elim self.phase [ stopping ↦ fail_round self | _ ↦ self ]
handle_round (finishes finished) self = elim self.phase [
  | finishing ↦ finish_round finished self
  | _ ↦ self
]

unfoldable pub handle_events : List RoundEvent → RoundController → RoundController
unfolding handle_round
handle_events [] self = self
handle_events (event ∷ events) self = handle_events events (handle_round event self)

-- `__stop_clients`: the clients are called, those that fail again, up to a number of times. `fails`
-- is whether the call of a client fails at a try; the clients left at the end come back.
unfoldable pub stop_clients :
    (max_retry_times : ℕ) (fails : ℕ → ℕ → Bool) (fuel retry_times : ℕ) → List ℕ → List ℕ
stop_clients max_retry_times fails zero retry_times clients = clients
stop_clients max_retry_times fails (suc fuel) retry_times clients =
    let failed = filterb (fails retry_times) clients in
    let again = stop_clients max_retry_times fails fuel (suc retry_times) failed in
    if ltb 0 (length failed) && ltb retry_times max_retry_times then again else failed
