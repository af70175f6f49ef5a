-- ===== src/Selector/Manager/Choosing.antt =====
-- Which clients the selector picks, and how many (neursafe_fl/python/selector/client_manager.py).
use yanshi_shield.Base.{
  ℕ, suc, ◌+◌, ◌*◌, ◌≤◌, ◌≡◌, refl, sym, subst, Bool, not, Option, none, some, List, [], ◌∷◌, ltb,
  leb, nat_beq, ok, >>=-eq-ok, length, filterb, All, arith, length-take, length-append, if_holds,
  Bool-cases, inl, inr, ◌⊎◌,
}
use yanshi_shield.Selector.Client.{Client, Condition}
use yanshi_shield.Selector.Manager.{ClientManager}
use yanshi_shield.Selector.Manager.Selection.{
  Requirements, Scaling, Selecting, calc_redundancy, insert_by_score, prioritize_clients,
  try_sort_unused_clients, is_trained, candidates, pick_optimal, pick_by, pick, select_among,
  select_client,
}

-- What floats promise: the products by one and by two are exact, and rounding keeps the order.
pub record IsScaling (scaling : Scaling) : Type 0 where
  pub times_one : (n : ℕ) → scaling.ceil_times scaling.one n ≡ n
  pub times_two : (n : ℕ) → scaling.ceil_times (2 * scaling.one) n ≡ 2 * n
  pub monotone : (a b n : ℕ) → a ≤ b → scaling.ceil_times a n ≤ scaling.ceil_times b n

-- What a redundancy allows: the number itself without one, twice the number for a large one, and the
-- rounded product in between.
pub record IsAllowed (scaling : Scaling) (redundancy number picked : ℕ) : Type 0 where
  pub at_least : number ≤ picked
  pub at_most_twice : picked ≤ 2 * number
  pub no_redundancy : redundancy ≤ scaling.one → picked ≡ number
  pub at_most_product : scaling.one ≤ redundancy → picked ≤ scaling.ceil_times redundancy number

module _ {scaling : Scaling} (laws : IsScaling scaling) where
  calc_redundancy_cases :
      (requirements : Requirements)
      → ((requirements.redundancy ≤ scaling.one)
          × (calc_redundancy scaling requirements
              ≡ scaling.ceil_times scaling.one requirements.number))
        ⊎ ((scaling.one ≤ requirements.redundancy)
            × (requirements.redundancy ≤ 2 * scaling.one)
            × (calc_redundancy scaling requirements
                ≡ scaling.ceil_times requirements.redundancy requirements.number))
        ⊎ ((2 * scaling.one ≤ requirements.redundancy)
            × (calc_redundancy scaling requirements
                ≡ scaling.ceil_times (2 * scaling.one) requirements.number))
  unfolding calc_redundancy
  calc_redundancy_cases requirements =
      elim (Bool-cases (ltb (2 * scaling.one) requirements.redundancy)) [
        | inl over ↦ inr (inr (ground (arith, over), ground (arith, over)))
        | inr under ↦ elim (Bool-cases (ltb requirements.redundancy scaling.one)) [
          | inl low ↦ inl (ground (arith, low), ground (arith, under, low))
          | inr high ↦ elim (Bool-cases (nat_beq requirements.redundancy 0)) [
            | inl none_given ↦ inl (ground (arith, none_given), ground (arith, under, none_given))
            | inr given ↦ inr (
                inl
                  (ground (arith, high), ground (arith, under), ground (arith, under, high, given)))
          ]
        ]
      ]

  IsAllowed-calc_redundancy :
      (requirements : Requirements) (picked : ℕ)
      → requirements.number ≤ picked
      → picked ≤ calc_redundancy scaling requirements
      → IsAllowed scaling requirements.redundancy requirements.number picked
  IsAllowed-calc_redundancy requirements picked enough few =
      let n = requirements.number in
      let r = requirements.redundancy in
      let one_n = laws.times_one n in
      let two_n = laws.times_two n in
      elim (calc_redundancy_cases requirements) [
        | inl (low, e) ↦ record {
          at_least = enough;
          at_most_twice = omega (arith, e, one_n);
          no_redundancy = λ _. omega (arith, e, one_n);
          at_most_product = λ h. omega (arith, e, laws.monotone scaling.one r n h);
        }
        | inr (inl (high, under, e)) ↦ record {
          at_least = enough;
          at_most_twice = omega (arith, e, two_n, laws.monotone r (2 * scaling.one) n under);
          no_redundancy = λ h. omega (arith, e, one_n, laws.monotone r scaling.one n h);
          at_most_product = λ _. omega (arith, e);
        }
        | inr (inr (over, e)) ↦ record {
          at_least = enough;
          at_most_twice = omega (arith, e, two_n);
          no_redundancy = λ h.
              omega (arith, e, one_n, laws.monotone (2 * scaling.one) scaling.one n (omega arith));
          at_most_product = λ _. omega (arith, e, laws.monotone (2 * scaling.one) r n over);
        }
      ]

  number-le-calc_redundancy :
      (requirements : Requirements) → requirements.number ≤ calc_redundancy scaling requirements
  number-le-calc_redundancy requirements =
      let n = requirements.number in
      let one_n = laws.times_one n in
      elim (calc_redundancy_cases requirements) [
        | inl (low, e) ↦ omega (arith, e, one_n)
        | inr (inl (high, under, e)) ↦
            omega (arith, e, one_n, laws.monotone scaling.one requirements.redundancy n high)
        | inr (inr (over, e)) ↦ omega (arith, e, laws.times_two n)
      ]

length-insert_by_score :
    (score : ℕ → ℕ) (ref : ℕ) (refs : List ℕ)
    → length (insert_by_score score ref refs) ≡ suc (length refs)
unfolding insert_by_score
length-insert_by_score score ref [] = refl
length-insert_by_score score ref (other ∷ others) =
    ground (arith, length-insert_by_score score ref others)

length-prioritize_clients :
    (score : ℕ → ℕ) (refs : List ℕ) → length (prioritize_clients score refs) ≡ length refs
unfolding prioritize_clients
length-prioritize_clients score [] = refl
length-prioritize_clients score (ref ∷ refs) = omega (
  arith,
  length-insert_by_score score ref (prioritize_clients score refs),
  length-prioritize_clients score refs,
)

length-split :
    (p : ℕ → Bool) (xs : List ℕ)
    → length (filterb (λ x. not (p x)) xs) + length (filterb p xs) ≡ length xs
length-split p [] = omega arith
length-split p (x ∷ xs) = ground (arith, length-split p xs)

module _ {κ} (P : ℕ → Type κ) where
  All-insert_by_score :
      (score : ℕ → ℕ) (ref : ℕ) (refs : List ℕ)
      → P ref
      → All P refs
      → All P (insert_by_score score ref refs)
  unfolding insert_by_score
  All-insert_by_score score ref [] h hs = (h, tt)
  All-insert_by_score score ref (other ∷ others) h hs =
      if_holds (All P) (leb (score other) (score ref)) (λ _. (h, hs))
        (λ _. (hs.0, All-insert_by_score score ref others h hs.1))

  All-prioritize_clients :
      (score : ℕ → ℕ) (refs : List ℕ) → All P refs → All P (prioritize_clients score refs)
  unfolding prioritize_clients
  All-prioritize_clients score [] hs = tt
  All-prioritize_clients score (ref ∷ refs) hs =
      All-insert_by_score score ref (prioritize_clients score refs) hs.0
        (All-prioritize_clients score refs hs.1)

-- What `random.sample` promises: as many elements as asked for, of those that are there.
pub record IsSampling (sample : List ℕ → ℕ → List ℕ) : Type 1 where
  pub length-sample : (xs : List ℕ) (k : ℕ) → k ≤ length xs → length (sample xs k) ≡ k
  pub All-sample : (P : ℕ → Type 0) (xs : List ℕ) (k : ℕ) → All P xs → All P (sample xs k)

length-pick_optimal :
    (scaling : Scaling) (score : Client → List Condition → ℕ) (requirements : Requirements)
    (self : ClientManager) (clients : List ℕ)
    → calc_redundancy scaling requirements ≤ length clients
    → length (pick_optimal scaling score requirements self clients)
      ≡ calc_redundancy scaling requirements
unfolding pick_optimal try_sort_unused_clients
length-pick_optimal scaling score requirements self clients enough =
    let sorted_clients =
      prioritize_clients (λ ref. score (self.objects ref) requirements.conditions) clients in
    ground (
      arith,
      enough,
      length-prioritize_clients (λ ref. score (self.objects ref) requirements.conditions) clients,
      length-take (calc_redundancy scaling requirements) sorted_clients,
      length-take (calc_redundancy scaling requirements)
          (try_sort_unused_clients requirements.job_name self sorted_clients),
      length-append
          (filterb (λ ref. not (is_trained requirements.job_name self ref)) sorted_clients)
          (filterb (is_trained requirements.job_name self) sorted_clients),
      length-split (is_trained requirements.job_name self) sorted_clients,
    )

module _ (config : Selecting) (sampling : IsSampling config.sample)
    (laws : IsScaling config.scaling) where
  length-pick_by :
      (strategy : Option (Client → List Condition → ℕ)) (requirements : Requirements)
      (self : ClientManager) (clients : List ℕ)
      → calc_redundancy config.scaling requirements ≤ length clients
      → length (pick_by config.scaling strategy config.sample requirements self clients)
        ≡ calc_redundancy config.scaling requirements
  unfolding pick_by
  length-pick_by none requirements self clients enough =
      sampling.length-sample clients (calc_redundancy config.scaling requirements) enough
  length-pick_by (some score) requirements self clients enough =
      if_holds (λ (refs : List ℕ). length refs ≡ calc_redundancy config.scaling requirements)
        requirements.random_client
        (λ _. sampling.length-sample clients (calc_redundancy config.scaling requirements) enough)
        (λ _. length-pick_optimal config.scaling score requirements self clients enough)

  length-pick :
      (requirements : Requirements) (self : ClientManager) (clients : List ℕ)
      → requirements.number ≤ length clients
      → (requirements.number ≤ length (pick config requirements self clients))
        × (length (pick config requirements self clients)
            ≤ calc_redundancy config.scaling requirements)
  unfolding pick
  length-pick requirements self clients enough =
      elim (Bool-cases (leb (length clients) (calc_redundancy config.scaling requirements))) [
        | inl fits ↦ ground (arith, fits, enough)
        | inr many ↦ ground (
          arith,
          many,
          number-le-calc_redundancy laws requirements,
          length-pick_by config.score requirements self clients (ground (arith, many)),
        )
      ]

select_among_lem :
    (config : Selecting) (requirements : Requirements) (self after : ClientManager)
    (clients chosen : List ℕ)
    → select_among config requirements self clients ≡ ok (chosen, after)
    → (requirements.number ≤ length clients) × (chosen ≡ pick config requirements self clients)
unfolding select_among
select_among_lem config requirements self after clients chosen h =
    elim (Bool-cases (ltb (length clients) requirements.number)) [
      | inl few ↦ ground (arith, few, h)
      | inr enough ↦ ground (arith, enough, h)
    ]

-- A selection that succeeds returns a list of clients, at least as many as are required: exactly as many
-- where the redundancy is no more than one, otherwise no more than the rounded product of the redundancy
-- and the number, and never more than twice the number. The products of floats by one and by two are
-- exact and keep the order, and a sample has the length asked for. A client whose address is given
-- twice counts twice.
pub select_client_bounds :
    (config : Selecting)
    → IsSampling config.sample
    → IsScaling config.scaling
    → (now : ℕ) (requirements : Requirements) (self after : ClientManager) (chosen : List ℕ)
    → select_client config now requirements self ≡ ok (chosen, after)
    → IsAllowed config.scaling requirements.redundancy requirements.number (length chosen)
unfolding select_client
select_client_bounds config sampling laws now requirements self after chosen h =
    let (clients, found, rest) =
      >>=-eq-ok (candidates config now requirements self) (select_among config requirements self)
        h in
    let (enough, same) = select_among_lem config requirements self after clients chosen rest in
    let picked = length-pick config sampling laws requirements self clients enough in
    subst
      (λ refs. IsAllowed config.scaling requirements.redundancy requirements.number (length refs))
      (sym same) (IsAllowed-calc_redundancy laws requirements _ picked.0 picked.1)
