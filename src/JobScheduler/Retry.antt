-- ===== src/JobScheduler/Retry.antt =====
-- neursafe_fl/python/job_scheduler/util/operation_retry.py: an operation is tried again while it
-- fails with an error of a list, a bounded number of times. What the tries give is a sequence.
use yanshi_shield.Base.{
  ℕ, zero, suc, ◌+◌, ◌≤◌, ◌<◌, ◌≡◌, refl, Bool, true, false, arith, if◌then◌else◌, leb, ltb, Result,
  ok, raise, Bool-cases, inl, inr, ap, ◌∙◌, Result-cases,
}

-- What a retried call comes to: its value, an error that is not of the list, or `RetryError`.
pub data Outcome (E A : Type 0) : Type 0 where
  returned : A → Outcome E A
  failed_with : E → Outcome E A
  retry_error : Outcome E A

module _ {E A : Type 0} (in_error_list : E → Bool) (max_retry_times : ℕ)
    (attempt : ℕ → Result E A) where
  -- The loop of `__retry` and `__async_retry`; `fuel` bounds its rounds.
  unfoldable pub retry_loop : (fuel retry_time : ℕ) → Outcome E A
  retry_loop zero retry_time = retry_error
  retry_loop (suc fuel) retry_time =
      let again = retry_loop fuel (suc retry_time) in
      if leb retry_time max_retry_times
      then (elim (attempt retry_time) [
        | ok a ↦ returned a
        | raise e ↦ if in_error_list e then again else failed_with e
      ])
      else retry_error

  unfoldable pub retry : Outcome E A
  unfolding retry_loop
  retry = retry_loop (suc (suc max_retry_times)) 0

  -- All tries up to a number fail with an error of the list.
  abbrev pub FailsBelow : ℕ → Type 0
  FailsBelow n = (i : ℕ) → i < n → (e : E) × (attempt i ≡ raise e) × (in_error_list e ≡ true)

  -- The loop comes to its round `n`.
  reach :
      (fuel k n : ℕ)
      → FailsBelow n
      → k ≤ n
      → n ≤ suc max_retry_times
      → n < k + fuel
      → (rest : ℕ) × (retry_loop fuel k ≡ retry_loop (suc rest) n)
  unfolding retry_loop
  reach zero k n fails below bound enough = absurd (omega arith)
  reach (suc fuel) k n fails below bound enough = elim (Bool-cases (ltb k n)) [
    | inl before ↦
        let (e, raised, listed) = fails k (ground arith) in
        let (rest, same) = reach fuel (suc k) n fails (ground arith) bound (omega arith) in
        let left : leb k max_retry_times ≡ true = ground arith in
        (rest, rw (left, raised, listed) same)
    | inr here ↦ let at_n : k ≡ n = ground arith in (fuel, ap (λ i. retry_loop (suc fuel) i) at_n)
  ]

  -- A try that succeeds after fewer failures than may be retried gives its value.
  retry-returned :
      (n : ℕ) (a : A) → n ≤ max_retry_times → FailsBelow n → attempt n ≡ ok a → retry ≡ returned a
  unfolding retry retry_loop
  retry-returned n a bound fails done =
      let (rest, same) =
        reach (suc (suc max_retry_times)) 0 n fails (omega arith) (omega arith) (omega arith) in
      let left : leb n max_retry_times ≡ true = ground arith in same ∙ rw (left, done) refl

  -- After one more failure than may be retried it gives up.
  retry-retry_error : FailsBelow (suc max_retry_times) → retry ≡ retry_error
  unfolding retry retry_loop
  retry-retry_error fails =
      let (rest, same) =
        reach (suc (suc max_retry_times)) 0 (suc max_retry_times) fails (omega arith) (omega arith)
          (omega arith) in
      let over : leb (suc max_retry_times) max_retry_times ≡ false = ground arith in
      same ∙ rw over refl

  loop_listed : (fuel k : ℕ) (e : E) → retry_loop fuel k ≡ failed_with e → in_error_list e ≡ false
  unfolding retry_loop
  loop_listed zero k e h = absurd cc
  loop_listed (suc fuel) k e h = elim (Bool-cases (leb k max_retry_times)) [
    | inr over ↦ absurd (cc (rw over at h))
    | inl left ↦ elim (Result-cases (attempt k)) [
      | inl (a, done) ↦ absurd (cc (rw (left, done) at h))
      | inr (failure, raised) ↦ elim (Bool-cases (in_error_list failure)) [
        | inl listed ↦ loop_listed fuel (suc k) e (rw (left, raised, listed) at h)
        | inr other ↦
            let same : failed_with failure ≡ failed_with e = rw (left, raised, other) at h in
            let as_e : failure ≡ e = cc in rw as_e at other
      ]
    ]
  ]

  -- An error that a retried call raises is none of its list.
  retry-failed_with : (e : E) → retry ≡ failed_with e → in_error_list e ≡ false
  unfolding retry
  retry-failed_with e h = loop_listed (suc (suc max_retry_times)) 0 e h

-- The errors that the wrappers retry on, and others
pub data SystemError : Type 0 where
  coordinator_create_failed coordinator_delete_failed coordinator_get_failed : SystemError
  proxy_failed database_failed : SystemError
  not_retried : ℕ → SystemError

-- What a wrapped call comes to: after the last retry the program exits.
pub data Ended (A : Type 0) : Type 0 where
  value : A → Ended A
  error : SystemError → Ended A
  exited : Ended A

abbrev pub exit_on_retry_error : {A : Type 0} → Outcome SystemError A → Ended A
exit_on_retry_error (returned a) = value a
exit_on_retry_error (failed_with e) = error e
exit_on_retry_error retry_error = exited

abbrev pub is_coordinator_error : SystemError → Bool
is_coordinator_error coordinator_create_failed = true
is_coordinator_error coordinator_delete_failed = true
is_coordinator_error coordinator_get_failed = true
is_coordinator_error _ = false

abbrev pub is_proxy_error : SystemError → Bool
is_proxy_error proxy_failed = true
is_proxy_error _ = false

abbrev pub is_database_error : SystemError → Bool
is_database_error database_failed = true
is_database_error _ = false

module _ {A : Type 0} (max_retry_times : ℕ) (attempt : ℕ → Result SystemError A) where
  unfoldable pub coordinator_operation_retry : Ended A
  unfolding retry
  coordinator_operation_retry =
      exit_on_retry_error (retry is_coordinator_error max_retry_times attempt)

  unfoldable pub route_operation_retry : Ended A
  unfolding retry
  route_operation_retry = exit_on_retry_error (retry is_proxy_error max_retry_times attempt)

  unfoldable pub db_operation_retry : Ended A
  unfolding retry
  db_operation_retry = exit_on_retry_error (retry is_database_error max_retry_times attempt)

  ended_error :
      (outcome : Outcome SystemError A) (e : SystemError)
      → exit_on_retry_error outcome ≡ error e
      → outcome ≡ failed_with e
  ended_error (returned a) e h = absurd cc
  ended_error (failed_with failure) e h = let same : failure ≡ e = cc in ap failed_with same
  ended_error retry_error e h = absurd cc

  -- No error that the coordinator's calls are retried on gets through their wrapper: it ends in a
  -- value, in another error, or with the program.
  coordinator_operation_retry-error :
      (e : SystemError) → coordinator_operation_retry ≡ error e → is_coordinator_error e ≡ false
  unfolding coordinator_operation_retry
  coordinator_operation_retry-error e h =
      retry-failed_with is_coordinator_error max_retry_times attempt e
        (ended_error (retry is_coordinator_error max_retry_times attempt) e h)

  -- The same for the calls of the proxy.
  pub route_operation_retry-error :
      (e : SystemError) → route_operation_retry ≡ error e → is_proxy_error e ≡ false
  unfolding route_operation_retry
  route_operation_retry-error e h =
      retry-failed_with is_proxy_error max_retry_times attempt e
        (ended_error (retry is_proxy_error max_retry_times attempt) e h)

  -- No error of the database gets through the wrapper of its calls.
  pub db_operation_retry-error :
      (e : SystemError) → db_operation_retry ≡ error e → is_database_error e ≡ false
  unfolding db_operation_retry
  db_operation_retry-error e h =
      retry-failed_with is_database_error max_retry_times attempt e
        (ended_error (retry is_database_error max_retry_times attempt) e h)
