-- ===== src/Selector/Manager/Untrained.antt =====
-- The order in which the selector prefers clients that have not trained a task yet
-- (neursafe_fl/python/selector/client_manager.py).
use yanshi_shield.Base.{
  ℕ, zero, suc, ◌≤◌, ◌<◌, ◌≡◌, refl, Bool, true, not, List, [], ◌∷◌, ◌++◌, take, filterb, countb,
  arith,
}
use yanshi_shield.Selector.Client.{Client, Condition}
use yanshi_shield.Selector.Manager.{ClientManager}
use yanshi_shield.Selector.Manager.Selection.{
  Requirements, Scaling, calc_redundancy, insert_by_score, prioritize_clients,
  try_sort_unused_clients, is_trained, pick_optimal,
}

module _ (p : ℕ → Bool) where
  abbrev fails_test : ℕ → Bool
  fails_test x = not (p x)

  countb-filterb_fails : (xs : List ℕ) → countb p (filterb fails_test xs) ≡ 0
  countb-filterb_fails [] = refl
  countb-filterb_fails (x ∷ xs) = ground (arith, countb-filterb_fails xs)

  countb_fails-filterb :
      (xs : List ℕ) → countb fails_test (filterb fails_test xs) ≡ countb fails_test xs
  countb_fails-filterb [] = refl
  countb_fails-filterb (x ∷ xs) = ground (arith, countb_fails-filterb xs)

  -- Whoever takes one that passes has taken all those before that fail.
  countb-take_first :
      (n : ℕ) (first others : List ℕ)
      → countb p first ≡ 0
      → 0 < countb p (take n (first ++ others))
      → countb fails_test first ≤ countb fails_test (take n (first ++ others))
  countb-take_first n [] others none_pass some_pass = omega arith
  countb-take_first zero (x ∷ first) others none_pass some_pass = omega (arith, some_pass)
  countb-take_first (suc n) (x ∷ first) others none_pass some_pass =
      ground (arith, countb-take_first n first others, none_pass, some_pass)

  countb-insert_by_score :
      (score : ℕ → ℕ) (ref : ℕ) (refs : List ℕ)
      → countb p (insert_by_score score ref refs) ≡ countb p (ref ∷ refs)
  unfolding insert_by_score
  countb-insert_by_score score ref [] = refl
  countb-insert_by_score score ref (other ∷ others) =
      ground (arith, countb-insert_by_score score ref others)

  -- Sorting keeps each client as often as it was.
  countb-prioritize_clients :
      (score : ℕ → ℕ) (refs : List ℕ) → countb p (prioritize_clients score refs) ≡ countb p refs
  unfolding prioritize_clients
  countb-prioritize_clients score [] = refl
  countb-prioritize_clients score (ref ∷ refs) = ground (
    arith,
    countb-insert_by_score score ref (prioritize_clients score refs),
    countb-prioritize_clients score refs,
  )

-- Where untrained clients come first, a strategy picks a client that has trained the task already only
-- if it picks every candidate that has not.
pick_optimal_untrained :
    (scaling : Scaling) (score : Client → List Condition → ℕ) (requirements : Requirements)
    (self : ClientManager) (clients : List ℕ)
    → requirements.untrained_first ≡ true
    → let chosen = pick_optimal scaling score requirements self clients in
      let is_untrained : ℕ → Bool = λ ref. not (is_trained requirements.job_name self ref) in
      0 < countb (is_trained requirements.job_name self) chosen
      → countb is_untrained clients ≤ countb is_untrained chosen
unfolding pick_optimal try_sort_unused_clients
pick_optimal_untrained scaling score requirements self clients first some_trained =
    let by_score = λ (ref : ℕ). score (self.objects ref) requirements.conditions in
    let sorted_clients = prioritize_clients by_score clients in
    let trained = is_trained requirements.job_name self in
    ground (
      arith,
      first,
      some_trained,
      countb-filterb_fails trained sorted_clients,
      countb_fails-filterb trained sorted_clients,
      countb-prioritize_clients (fails_test trained) by_score clients,
      countb-take_first trained (calc_redundancy scaling requirements)
          (filterb (fails_test trained) sorted_clients) (filterb trained sorted_clients),
    )
