-- ===== src/Coordinator/Round/Waiting.antt =====
-- How the wait of a round ends, and with what (neursafe_fl/python/coordinator/round_controller.py).
use yanshi_shield.Base.{
  suc, ◌+◌, ◌≤◌, ◌<◌, ◌≡◌, refl, ◌∙◌, Bool, true, false, not, List, [], ◌∷◌, arith, if◌then◌else◌,
  countb, Bool-cases, inl, inr, ◌⊎◌,
}
use yanshi_shield.Coordinator.Round.{
  Phase, selecting, broadcasting, waiting, stopping, finishing, ended, RoundController,
  select_clients, keeps_waiting, finish_begin, wait_updates, broadcast_done, wake, try_to_aggregate,
  process_msg, finish_round, RoundEvent, message, timeout, stop_command, wakes, handle_round,
  handle_events,
}

abbrev pub is_waiting : Phase → Bool
is_waiting waiting = true
is_waiting _ = false

-- The round has had enough updates when its wait ended.
abbrev pub is_normal : Phase → Bool
is_normal finishing = true
is_normal (ended true _) = true
is_normal _ = false

abbrev pub has_left : Phase → Bool
has_left stopping = true
has_left finishing = true
has_left (ended true _) = true
has_left _ = false

-- The counts of a round, and what its phases have seen to.
pub record IsSound (self : RoundController) : Type 0 where
  pub counted : self.success_reply + self.failed_reply ≤ self.received_reply
  pub all_counted :
      self.stopped ≡ false → self.received_reply ≡ self.success_reply + self.failed_reply
  -- who has a reason to go on is woken.
  pub awake : is_waiting self.phase ≡ true → keeps_waiting self ≡ false → self.event ≡ true
  pub closed : has_left self.phase ≡ true → self.accept_updates ≡ false
  pub enough : is_normal self.phase ≡ true → self.threshold_num ≤ self.success_reply

handle_round-IsSound :
    (event : RoundEvent) (self : RoundController) → IsSound self → IsSound (handle_round event self)
unfolding handle_round select_clients broadcast_done wake wait_updates finish_begin keeps_waiting
    process_msg try_to_aggregate finish_round
handle_round-IsSound event self h = record {
  counted = ground (arith, h.counted);
  all_counted = ground (arith, h.all_counted);
  awake = ground (arith, h.awake);
  closed = ground (arith, h.closed);
  enough = ground (arith, h.enough);
}

-- Whatever comes to a round, in whatever order: its counts stay right (every reply is counted as a
-- success or a failure as long as the round is not stopped), whoever waits and has a reason to go on
-- has been woken, no updates are accepted after the wait, and a round that calls `on_finish` or has
-- ended well has as many successful replies as its threshold, whatever has come in since its wait.
pub handle_events-IsSound :
    (events : List RoundEvent) (self : RoundController)
    → IsSound self
    → IsSound (handle_events events self)
unfolding handle_events
handle_events-IsSound [] self h = h
handle_events-IsSound (event ∷ events) self h =
    handle_events-IsSound events _ (handle_round-IsSound event self h)

-- The wait is over, or has a reason to be.
abbrev pub is_over : RoundController → Bool
is_over self = elim self.phase [
  | waiting ↦ not (keeps_waiting self)
  | stopping ↦ true
  | finishing ↦ true
  | ended _ _ ↦ true
  | _ ↦ false
]

abbrev pub is_begun : Phase → Bool
is_begun selecting = false
is_begun broadcasting = false
is_begun _ = true

is_over-handle_round :
    (event : RoundEvent) (self : RoundController)
    → is_over self ≡ true
    → is_over (handle_round event self) ≡ true
unfolding handle_round select_clients broadcast_done wake wait_updates finish_begin keeps_waiting
    process_msg try_to_aggregate finish_round
is_over-handle_round event self h = ground (arith, h)

-- What gives a reason at once, and what counts towards one.
abbrev pub is_reason : RoundEvent → Bool
is_reason timeout = true
is_reason stop_command = true
is_reason _ = false

abbrev pub is_message : RoundEvent → Bool
is_message (message _ _) = true
is_message _ = false

is_over-reason :
    (event : RoundEvent) (self : RoundController)
    → is_begun self.phase ≡ true
    → is_reason event ≡ true
    → is_over (handle_round event self) ≡ true
unfolding handle_round keeps_waiting
is_over-reason event self begun h = ground (arith, begun, h)

is_begun-handle_round :
    (event : RoundEvent) (self : RoundController)
    → is_begun self.phase ≡ true
    → is_begun (handle_round event self).phase ≡ true
unfolding handle_round select_clients broadcast_done wake wait_updates finish_begin keeps_waiting
    process_msg try_to_aggregate finish_round
is_begun-handle_round event self h = ground (arith, h)

max_num-handle_round :
    (event : RoundEvent) (self : RoundController) → (handle_round event self).max_num ≡ self.max_num
unfolding handle_round select_clients broadcast_done wake wait_updates finish_begin keeps_waiting
    process_msg try_to_aggregate finish_round
max_num-handle_round event self = ground arith

received_reply-handle_round :
    (event : RoundEvent) (self : RoundController)
    → (handle_round event self).received_reply
      ≡ (if is_message event then suc self.received_reply else self.received_reply)
unfolding handle_round select_clients broadcast_done wake wait_updates finish_begin keeps_waiting
    process_msg try_to_aggregate finish_round
received_reply-handle_round event self = ground arith

is_over-received :
    (self : RoundController)
    → is_begun self.phase ≡ true
    → self.max_num ≤ self.received_reply
    → is_over self ≡ true
unfolding keeps_waiting
is_over-received self begun h = ground (arith, begun)

is_over-handle_events :
    (events : List RoundEvent) (self : RoundController)
    → is_over self ≡ true
    → is_over (handle_events events self) ≡ true
unfolding handle_events
is_over-handle_events [] self h = h
is_over-handle_events (event ∷ events) self h =
    is_over-handle_events events _ (is_over-handle_round event self h)

-- Replies of all the clients give a reason.
is_over-messages :
    (events : List RoundEvent) (self : RoundController)
    → is_begun self.phase ≡ true
    → self.max_num ≤ self.received_reply + countb is_message events
    → is_over (handle_events events self) ≡ true
unfolding handle_events
is_over-messages [] self begun h = is_over-received self begun (omega arith)
is_over-messages (event ∷ events) self begun h =
    is_over-messages events (handle_round event self) (is_begun-handle_round event self begun)
      (ground (arith, max_num-handle_round event self, received_reply-handle_round event self, h))

is_over-reasons :
    (events : List RoundEvent) (self : RoundController)
    → is_begun self.phase ≡ true
    → 0 < countb is_reason events
    → is_over (handle_events events self) ≡ true
unfolding handle_events
is_over-reasons [] self begun h = absurd (omega arith)
is_over-reasons (event ∷ events) self begun h = elim (Bool-cases (is_reason event)) [
  | inl now ↦
      is_over-handle_events events (handle_round event self) (is_over-reason event self begun now)
  | inr later ↦
      is_over-reasons events (handle_round event self) (is_begun-handle_round event self begun)
        (ground (arith, h, later))
]

-- Who is woken with a reason to go on leaves the wait.
is_waiting-wakes :
    (self : RoundController)
    → IsSound self
    → is_over self ≡ true
    → is_waiting (handle_round wakes self).phase ≡ false
unfolding handle_round wake wait_updates finish_begin keeps_waiting
is_waiting-wakes self h over = ground (arith, h.awake, over)

-- The wait of a round ends: once the timer has run out, a stop has been asked for, or as many replies
-- have come in as there are clients, successful or not, the next time that the waiting coroutine is
-- resumed it goes on. No wake-up is lost in between.
pub wait_ends :
    (events : List RoundEvent) (self : RoundController)
    → IsSound self
    → is_waiting self.phase ≡ true
    → (0 < countb is_reason events)
      ⊎ (self.max_num ≤ self.received_reply + countb is_message events)
    → is_waiting (handle_round wakes (handle_events events self)).phase ≡ false
wait_ends events self h at_wait reason =
    let begun : is_begun self.phase ≡ true = ground (arith, at_wait) in
    is_waiting-wakes (handle_events events self) (handle_events-IsSound events self h)
      (elim reason [
        | inl r ↦ is_over-reasons events self begun r
        | inr r ↦ is_over-messages events self begun r
      ])

closed-handle_round :
    (event : RoundEvent) (self : RoundController)
    → self.accept_updates ≡ false
    → ((handle_round event self).success_reply ≡ self.success_reply)
      × ((handle_round event self).accept_updates ≡ false)
unfolding handle_round select_clients broadcast_done wake wait_updates finish_begin keeps_waiting
    process_msg try_to_aggregate finish_round
closed-handle_round event self closed = ground (arith, closed)

closed-handle_events :
    (events : List RoundEvent) (self : RoundController)
    → self.accept_updates ≡ false
    → (handle_events events self).success_reply ≡ self.success_reply
unfolding handle_events
closed-handle_events [] self closed = refl
closed-handle_events (event ∷ events) self closed =
    let (same, still) = closed-handle_round event self closed in
    closed-handle_events events (handle_round event self) still ∙ same

-- Once the wait of a round is over, no update that comes in late is aggregated: the count of the
-- successful replies stays as it is.
late_updates :
    (events : List RoundEvent) (self : RoundController)
    → IsSound self
    → has_left self.phase ≡ true
    → (handle_events events self).success_reply ≡ self.success_reply
late_updates events self h left = closed-handle_events events self (h.closed left)
