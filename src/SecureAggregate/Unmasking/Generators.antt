-- ===== src/SecureAggregate/Unmasking/Generators.antt =====
-- What the mask loops of client and server add up to, in terms of the values of the generators.
use yanshi_shield.Base.{
  ℕ, ◌≡◌, sym, ap, ap₂, ◌∙◌, not, none, some, List, [], ◌∷◌, ◌++◌, map, filterb, Bool-cases, inl,
  inr, ltb, nat_beq,
}
use yanshi_shield.SecureAggregate.Arrays.{ArrayLib}
use yanshi_shield.SecureAggregate.Arrays.Sums
use yanshi_shield.SecureAggregate.Protector.{Pairs, mask_from, generate_mask}
use yanshi_shield.SecureAggregate.Unmasking.{PairMasks, s_total_from, b_total_from, server_mask}
use yanshi_shield.SecureAggregate.Unmasking.Cancelling.{pair_term, drop_term}

-- The clients that `u` shares a generator with.
abbrev pub peers : ℕ → List ℕ → List ℕ
peers u all_clients = filterb (λ v. not (nat_beq v u)) all_clients

module _ (lib : ArrayLib) where
  open lib use {Array, Generator, random, zeros}

  abbrev pub pairs_of : (ℕ → ℕ → Generator) → ℕ → List ℕ → Pairs lib
  pairs_of g u [] = []
  pairs_of g u (v ∷ vs) = (v, g u v) ∷ pairs_of g u vs

  -- The server's generators of one client alive, and of all.
  abbrev pub masks_for : (ℕ → ℕ → Generator) → ℕ → List ℕ → PairMasks lib
  masks_for g a [] = []
  masks_for g a (d ∷ ds) = (d, a, g d a) ∷ masks_for g a ds

  abbrev pub pair_masks : (ℕ → ℕ → Generator) → List ℕ → List ℕ → PairMasks lib
  pair_masks g [] ds = []
  pair_masks g (a ∷ as_) ds = masks_for g a ds ++ pair_masks g as_ ds

module _ (lib : ArrayLib) (s : lib.Shape) (g : ℕ → ℕ → lib.Generator) where
  open lib use {Array, Generator, random, zeros, add, subtract}

  abbrev pub value : ℕ → ℕ → Array s
  value u v = (random (g u v) s).0

  abbrev pub moved : ℕ → ℕ → Generator
  moved u v = (random (g u v) s).1

  pub mask_from_lem :
      (symm : (u v : ℕ) → value u v ≡ value v u) (u : ℕ) (vs : List ℕ) (mask : Array s)
      → mask_from lib u s (pairs_of lib g u (peers u vs)) mask ≡ (
        add s mask (Sums.sum lib s (pair_term lib s value symm u) vs),
        pairs_of lib moved u (peers u vs),
      )
  unfolding mask_from Sums.sum
  mask_from_lem symm u [] mask = ap (λ x. (x, [])) (sym (Sums.null_right lib s mask))
  mask_from_lem symm u (v ∷ vs) mask = elim (Bool-cases (nat_beq v u)) [
    | inl same ↦ rw same (
        mask_from_lem symm u vs mask
        ∙ ap (λ x. (add s mask x, pairs_of lib moved u (peers u vs)))
            (sym (Sums.null_left lib s _)))
    | inr other ↦ elim (Bool-cases (ltb v u)) [
      | inl below ↦
          rw (other, below)
            (ap (λ x. (x.0, (v, moved u v) ∷ x.1))
                (mask_from_lem symm u vs (add s mask (value u v)))
              ∙ ap (λ x. (x, (v, moved u v) ∷ pairs_of lib moved u (peers u vs)))
                  (Sums.assoc lib s mask (value u v) _))
      | inr above ↦
          rw (other, above)
            (ap (λ x. (x.0, (v, moved u v) ∷ x.1))
                (mask_from_lem symm u vs (subtract s mask (value u v)))
              ∙ ap (λ x. (x, (v, moved u v) ∷ pairs_of lib moved u (peers u vs)))
                  (ap (λ x. add s x (Sums.sum lib s (pair_term lib s value symm u) vs))
                      (Sums.subtract-eq-negate lib s mask (value u v))
                    ∙ Sums.assoc lib s mask _ _))
    ]
  ]

  s_total_for :
      (symm : (u v : ℕ) → value u v ≡ value v u) (a : ℕ) (ds : List ℕ) (rest : PairMasks lib)
      (total : Array s)
      → s_total_from lib s (masks_for lib g a ds ++ rest) total ≡ (
          let (t, rest') =
            s_total_from lib s rest
              (add s total (Sums.sum lib s (λ d. drop_term lib s value symm d a) ds)) in
          (t, masks_for lib moved a ds ++ rest'))
  unfolding s_total_from Sums.sum
  s_total_for symm a [] rest total =
      ap (λ x. s_total_from lib s rest x) (sym (Sums.null_right lib s total))
  s_total_for symm a (d ∷ ds) rest total = elim (Bool-cases (ltb a d)) [
    | inl below ↦ rw below (
        ap (λ x. (x.0, (d, a, moved d a) ∷ x.1))
          (s_total_for symm a ds rest (add s total (value d a)))
        ∙ ap
            (λ x. (
              (s_total_from lib s rest x).0,
              (d, a, moved d a) ∷ masks_for lib moved a ds ++ (s_total_from lib s rest x).1,
            ))
            (Sums.assoc lib s total _ _))
    | inr above ↦ rw above (
        ap (λ x. (x.0, (d, a, moved d a) ∷ x.1))
          (s_total_for symm a ds rest (subtract s total (value d a)))
        ∙ ap
            (λ x. (
              (s_total_from lib s rest x).0,
              (d, a, moved d a) ∷ masks_for lib moved a ds ++ (s_total_from lib s rest x).1,
            ))
            (ap (λ y. add s y (Sums.sum lib s (λ d'. drop_term lib s value symm d' a) ds))
                (Sums.subtract-eq-negate lib s total (value d a))
              ∙ Sums.assoc lib s total _ _))
  ]

  pub s_total_from_lem :
      (symm : (u v : ℕ) → value u v ≡ value v u) (as_ ds : List ℕ) (total : Array s)
      → s_total_from lib s (pair_masks lib g as_ ds) total ≡ (
        add s total
            (Sums.sum lib s (λ a. Sums.sum lib s (λ d. drop_term lib s value symm d a) ds) as_),
        pair_masks lib moved as_ ds,
      )
  unfolding s_total_from Sums.sum
  s_total_from_lem symm [] ds total = ap (λ x. (x, [])) (sym (Sums.null_right lib s total))
  s_total_from_lem symm (a ∷ as_) ds total =
      s_total_for symm a ds (pair_masks lib g as_ ds) total
      ∙ ap (λ x. (x.0, masks_for lib moved a ds ++ x.1)) (s_total_from_lem symm as_ ds _)
      ∙ ap (λ x. (x, masks_for lib moved a ds ++ pair_masks lib moved as_ ds))
          (Sums.assoc lib s total _ _)

module _ (lib : ArrayLib) (s : lib.Shape) (h : ℕ → lib.Generator) where
  open lib use {Array, Generator, random, zeros, add, subtract}

  abbrev pub own_value : ℕ → Array s
  own_value u = (random (h u) s).0

  abbrev pub own_moved : ℕ → Generator
  own_moved u = (random (h u) s).1

  pub b_total_from_lem :
      (as_ : List ℕ) (total : Array s)
      → b_total_from lib s (map h as_) total
        ≡ (add s total (Sums.sum lib s own_value as_), map own_moved as_)
  unfolding b_total_from Sums.sum
  b_total_from_lem [] total = ap (λ x. (x, [])) (sym (Sums.null_right lib s total))
  b_total_from_lem (a ∷ as_) total =
      ap (λ x. (x.0, own_moved a ∷ x.1)) (b_total_from_lem as_ (add s total (own_value a)))
      ∙ ap (λ x. (x, own_moved a ∷ map own_moved as_)) (Sums.assoc lib s total _ _)

module _ (lib : ArrayLib) (s : lib.Shape) (g : ℕ → ℕ → lib.Generator) (h : ℕ → lib.Generator)
    (symm : (u v : ℕ) → value lib s g u v ≡ value lib s g v u) where
  open lib use {Array, add, subtract}

  -- The terms of a client for all the others, and those of the server for the dropped ones.
  abbrev pub client_sum : List ℕ → ℕ → Array s
  client_sum all_clients u = Sums.sum lib s (pair_term lib s (value lib s g) symm u) all_clients

  abbrev pub server_sum : List ℕ → List ℕ → Array s
  server_sum as_ ds =
      Sums.sum lib s (λ a. Sums.sum lib s (λ d. drop_term lib s (value lib s g) symm d a) ds) as_

  pub generate_mask_lem :
      (u : ℕ) (all_clients : List ℕ)
      → generate_mask lib u s (pairs_of lib g u (peers u all_clients)) (some (h u)) ≡ (
        add s (client_sum all_clients u) (own_value lib s h u),
        pairs_of lib (moved lib s g) u (peers u all_clients),
        some (own_moved lib s h u),
      )
  unfolding generate_mask
  generate_mask_lem u all_clients =
      ap (λ x. (add s x.0 (own_value lib s h u), x.1, some (own_moved lib s h u)))
        (mask_from_lem lib s g symm u all_clients (lib.zeros s)
          ∙ ap (λ x. (x, pairs_of lib (moved lib s g) u (peers u all_clients)))
              (Sums.null_left lib s _))

  -- The same for a client with no mask of its own.
  pub generate_mask-none :
      (u : ℕ) (all_clients : List ℕ)
      → generate_mask lib u s (pairs_of lib g u (peers u all_clients)) none
        ≡ (client_sum all_clients u, pairs_of lib (moved lib s g) u (peers u all_clients), none)
  unfolding generate_mask
  generate_mask-none u all_clients =
      ap (λ x. (x.0, x.1, none))
        (mask_from_lem lib s g symm u all_clients (lib.zeros s)
          ∙ ap (λ x. (x, pairs_of lib (moved lib s g) u (peers u all_clients)))
              (Sums.null_left lib s _))

  pub server_mask_lem :
      (as_ ds : List ℕ)
      → server_mask lib s (pair_masks lib g as_ ds) (map h as_) ≡ (
        subtract s (server_sum as_ ds) (Sums.sum lib s (own_value lib s h) as_),
        pair_masks lib (moved lib s g) as_ ds,
        map (own_moved lib s h) as_,
      )
  unfolding server_mask
  server_mask_lem as_ ds =
      ap₂ (λ x y. (subtract s x.0 y.0, x.1, y.1))
        (s_total_from_lem lib s g symm as_ ds (lib.zeros s)
          ∙ ap (λ x. (x, pair_masks lib (moved lib s g) as_ ds)) (Sums.null_left lib s _))
        (b_total_from_lem lib s h as_ (lib.zeros s)
          ∙ ap (λ x. (x, map (own_moved lib s h) as_)) (Sums.null_left lib s _))
