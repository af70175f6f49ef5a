-- ===== src/SecureAggregate/Unmasking/Cancelling.antt =====
-- Why the masks go away: one array of the weights, with the values of the generators fixed.
use yanshi_shield.Base.{
  ℕ, ◌≡◌, ◌≢◌, refl, sym, ap, ap₂, ◌∙◌, Bool, true, false, not, ◌||◌, List, [], ◌∷◌, arith,
  if◌then◌else◌, filterb, countb, All, Bool-cases, inl, inr, ltb, nat_beq, nat_beq_iff,
}
use yanshi_shield.SecureAggregate.Arrays.{ArrayLib}
use yanshi_shield.SecureAggregate.Arrays.Sums

-- `x in xs`
unfoldable pub memb : ℕ → List ℕ → Bool
memb x [] = false
memb x (y ∷ ys) = nat_beq x y || memb x ys

-- The clients that reported no masked weights.
abbrev pub dropped : List ℕ → List ℕ → List ℕ
dropped alive all_clients = filterb (λ d. not (memb d alive)) all_clients

-- `alive` names clients of `all_clients`, each once, where each stands once.
abbrev pub IsRoster : List ℕ → List ℕ → Type 0
IsRoster all_clients [] = Unit
IsRoster all_clients (a ∷ alive) =
    (countb (λ x. nat_beq x a) all_clients ≡ 1)
    × (memb a alive ≡ false)
    × IsRoster all_clients alive

All-memb :
    (xs ys : List ℕ)
    → All (λ x. memb x ys ≡ true) xs
    → (y : ℕ) → All (λ x. memb x (y ∷ ys) ≡ true) xs
unfolding memb
All-memb [] ys h y = tt
All-memb (x ∷ xs) ys h y = (ground (arith, h.0), All-memb xs ys h.1 y)

All-memb_self : (xs : List ℕ) → All (λ x. memb x xs ≡ true) xs
unfolding memb
All-memb_self [] = tt
All-memb_self (x ∷ xs) = (ground arith, All-memb xs xs (All-memb_self xs) x)

module _ (lib : ArrayLib) (s : lib.Shape) where
  open lib use {Array}

  abbrev sum : (ℕ → Array s) → List ℕ → Array s
  sum = Sums.sum lib s

  infixl 65 ◌⊕◌
  abbrev ◌⊕◌ : Array s → Array s → Array s
  ◌⊕◌ = lib.add s

  abbrev null : Array s
  null = lib.zeros s

  sum-ext_All : (f g : ℕ → Array s) (xs : List ℕ) → All (λ x. f x ≡ g x) xs → sum f xs ≡ sum g xs
  unfolding Sums.sum
  sum-ext_All f g [] h = refl
  sum-ext_All f g (x ∷ xs) h = ap₂ ◌⊕◌ h.0 (sum-ext_All f g xs h.1)

  -- The term of one index out of a list.
  sum_absent :
      (f : ℕ → Array s) (a : ℕ) (xs : List ℕ)
      → countb (λ x. nat_beq x a) xs ≡ 0
      → sum (λ x. if nat_beq x a then f x else null) xs ≡ null
  unfolding Sums.sum
  sum_absent f a [] h = refl
  sum_absent f a (x ∷ xs) h = elim (Bool-cases (nat_beq x a)) [
    | inl same ↦ absurd (ground arith)
    | inr other ↦ rw other (Sums.null_left lib s _ ∙ sum_absent f a xs (ground arith))
  ]

  sum_once :
      (f : ℕ → Array s) (a : ℕ) (xs : List ℕ)
      → countb (λ x. nat_beq x a) xs ≡ 1
      → sum (λ x. if nat_beq x a then f x else null) xs ≡ f a
  unfolding Sums.sum
  sum_once f a [] h = absurd (omega arith)
  sum_once f a (x ∷ xs) h = elim (Bool-cases (nat_beq x a)) [
    | inl same ↦ rw same (
        ap₂ ◌⊕◌ (ap f ((nat_beq_iff x a).0 same)) (sum_absent f a xs (ground arith))
        ∙ Sums.null_right lib s _)
    | inr other ↦ rw other (Sums.null_left lib s _ ∙ sum_once f a xs (ground arith))
  ]

  split_member :
      (f : ℕ → Array s) (a : ℕ) (alive : List ℕ)
      → memb a alive ≡ false
      → (x : ℕ)
      → (if memb x (a ∷ alive) then f x else null)
        ≡ (if nat_beq x a then f x else null) ⊕ (if memb x alive then f x else null)
  unfolding memb
  split_member f a alive fresh x = elim (Bool-cases (nat_beq x a)) [
    | inl same ↦
        let absent : memb x alive ≡ false = rw ((nat_beq_iff x a).0 same) fresh in
        rw (same, absent) (sym (Sums.null_right lib s _))
    | inr other ↦ rw other (sym (Sums.null_left lib s _))
  ]

  -- The terms of the clients alive, out of all.
  sum_members :
      (f : ℕ → Array s) (all_clients alive : List ℕ)
      → IsRoster all_clients alive
      → sum (λ x. if memb x alive then f x else null) all_clients ≡ sum f alive
  unfolding Sums.sum memb
  sum_members f all_clients [] h = Sums.sum-zero lib s all_clients
  sum_members f all_clients (a ∷ alive) (once, fresh, rest) =
      Sums.sum-ext lib s _ _ all_clients (split_member f a alive fresh)
      ∙ Sums.sum-add lib s _ _ all_clients
      ∙ ap₂ ◌⊕◌ (sum_once f a all_clients once) (sum_members f all_clients alive rest)

module _ (lib : ArrayLib) (s : lib.Shape) (r : ℕ → ℕ → lib.Array s)
    (symm : (u v : ℕ) → r u v ≡ r v u) where
  open lib use {Array}

  -- What client `u` adds for client `v`, and nothing for itself.
  abbrev pub pair_term : ℕ → ℕ → Array s
  pair_term u v =
      if nat_beq v u then null lib s else if ltb v u then r u v else Sums.negate lib s (r u v)

  -- What the server adds for a dropped client and one alive.
  abbrev pub drop_term : ℕ → ℕ → Array s
  drop_term drop_id alive_id =
      if ltb alive_id drop_id then r drop_id alive_id else Sums.negate lib s (r drop_id alive_id)

  pair_diagonal : (u : ℕ) → pair_term u u ≡ null lib s
  pair_diagonal u = ground arith

  opposite_terms : (u v : ℕ) → u ≢ v → ◌⊕◌ lib s (pair_term u v) (drop_term v u) ≡ null lib s
  opposite_terms u v h =
      let other : nat_beq v u ≡ false = ground arith in
      elim (Bool-cases (ltb v u)) [
        | inl below ↦
            let converse : ltb u v ≡ false = ground arith in
            rw (other, below, converse, symm v u) (Sums.negate_right lib s (r u v))
        | inr above ↦
            let converse : ltb u v ≡ true = ground arith in
            rw (other, above, converse, symm v u) (Sums.negate_left lib s (r u v))
      ]

  opposite_pairs : (u v : ℕ) → ◌⊕◌ lib s (pair_term u v) (pair_term v u) ≡ null lib s
  opposite_pairs u v = elim (Bool-cases (nat_beq v u)) [
    | inl same ↦
        let same' : nat_beq u v ≡ true = ground arith in rw (same, same') (Sums.null_left lib s _)
    | inr other ↦
        let other' : nat_beq u v ≡ false = ground arith in
        ap (λ x. ◌⊕◌ lib s (pair_term u v) x) (rw other' refl)
        ∙ opposite_terms u v (λ e. ground (arith, e))
  ]

  abbrev kept_term : List ℕ → ℕ → ℕ → Array s
  kept_term alive u v = if memb v alive then pair_term u v else null lib s

  abbrev lost_term : List ℕ → ℕ → ℕ → Array s
  lost_term alive u v = if not (memb v alive) then pair_term u v else null lib s

  abbrev taken_term : List ℕ → ℕ → ℕ → Array s
  taken_term alive u v = if not (memb v alive) then drop_term v u else null lib s

  split_term :
      (alive : List ℕ) (u v : ℕ)
      → pair_term u v ≡ ◌⊕◌ lib s (kept_term alive u v) (lost_term alive u v)
  split_term alive u v = elim (Bool-cases (memb v alive)) [
    | inl e ↦ rw e (sym (Sums.null_right lib s _))
    | inr e ↦ rw e (sym (Sums.null_left lib s _))
  ]

  lost-taken :
      (alive : List ℕ) (u : ℕ)
      → memb u alive ≡ true
      → (v : ℕ) → ◌⊕◌ lib s (lost_term alive u v) (taken_term alive u v) ≡ null lib s
  lost-taken alive u h v = elim (Bool-cases (memb v alive)) [
    | inl e ↦ rw e (Sums.null_left lib s _)
    | inr e ↦ rw e (opposite_terms u v (λ same. cc))
  ]

  -- For one client alive, what the server adds leaves the terms for the others alive.
  client_terms :
      (all_clients alive : List ℕ)
      → IsRoster all_clients alive
      → (u : ℕ) → memb u alive ≡ true
      → ◌⊕◌ lib s
          (sum lib s (pair_term u) all_clients)
          (sum lib s (λ d. drop_term d u) (dropped alive all_clients))
        ≡ sum lib s (pair_term u) alive
  client_terms all_clients alive roster u h =
      let kept = kept_term alive u in
      let lost = lost_term alive u in
      let taken = taken_term alive u in
      let split : sum lib s (pair_term u) all_clients
          ≡ ◌⊕◌ lib s (sum lib s kept all_clients) (sum lib s lost all_clients) =
        Sums.sum-ext lib s _ _ all_clients (split_term alive u)
        ∙ Sums.sum-add lib s kept lost all_clients in
      let gone : ◌⊕◌ lib s (sum lib s lost all_clients) (sum lib s taken all_clients) ≡ null lib s =
        sym (Sums.sum-add lib s lost taken all_clients)
        ∙ Sums.sum-ext lib s _ _ all_clients (lost-taken alive u h)
        ∙ Sums.sum-zero lib s all_clients in
      ap₂ (◌⊕◌ lib s) split (Sums.sum-filterb lib s (λ d. drop_term d u) _ all_clients)
      ∙ Sums.assoc lib s _ _ _
      ∙ ap₂ (◌⊕◌ lib s) (sum_members lib s (pair_term u) all_clients alive roster) gone
      ∙ Sums.null_right lib s _

  All-client_terms :
      (all_clients alive us : List ℕ)
      → IsRoster all_clients alive
      → All (λ u. memb u alive ≡ true) us
      → All
          (λ u.
            ◌⊕◌ lib s
              (sum lib s (pair_term u) all_clients)
              (sum lib s (λ d. drop_term d u) (dropped alive all_clients))
            ≡ sum lib s (pair_term u) alive)
          us
  All-client_terms all_clients alive [] roster h = tt
  All-client_terms all_clients alive (u ∷ us) roster h = (
    client_terms all_clients alive roster u h.0,
    All-client_terms all_clients alive us roster h.1,
  )

  -- Over all pairs the terms of the clients and those of the server cancel.
  pub terms_cancel :
      (all_clients alive : List ℕ)
      → IsRoster all_clients alive
      → ◌⊕◌ lib s
          (sum lib s (λ u. sum lib s (pair_term u) all_clients) alive)
          (sum lib s (λ a. sum lib s (λ d. drop_term d a) (dropped alive all_clients)) alive)
        ≡ null lib s
  terms_cancel all_clients alive roster =
      sym (Sums.sum-add lib s _ _ alive)
      ∙ sum-ext_All lib s _ _ alive
          (All-client_terms all_clients alive alive roster (All-memb_self alive))
      ∙ Sums.sum_pairs lib s pair_term alive pair_diagonal opposite_pairs
