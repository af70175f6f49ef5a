-- ===== src/SecureAggregate/Protector.antt =====
-- neursafe_fl/python/libs/secure/secure_aggregate/ssa_protector.py: the client's masks. Weights are
-- a list of arrays with the shapes `ss`; a mask of shape (1,) is taken as it is where the source
-- takes its only element. The file by which the secrets reach the protector is left out.
use yanshi_shield.Base.{ℕ, Option, none, some, List, [], ◌∷◌, ltb, if◌then◌else◌, nat_beq}
use yanshi_shield.SecureAggregate.Arrays.{ArrayLib}

module _ (lib : ArrayLib) where
  open lib use {Shape, Array, zeros, add, subtract, Generator, default_rng, random}

  -- Weights of given shapes, one array for each.
  abbrev pub Weights : List Shape → Type 0
  Weights [] = Unit
  Weights (s ∷ ss) = Array s × Weights ss

  -- `self.s_uv_s`: the other clients, each with the generator shared with it.
  abbrev pub Pairs : Type 0
  Pairs = List (ℕ × Generator)

  pub record SsaProtector : Type 0 where
    pub b : Option ℕ
    pub s_uv_s : Pairs
    pub id_ : ℕ

  -- The loop of `__generate_mask`: the mask, and the generators moved on.
  unfoldable pub mask_from : ℕ → (s : Shape) → Pairs → Array s → Array s × Pairs
  mask_from id_ s [] mask = (mask, [])
  mask_from id_ s ((v_id, prg) ∷ rest) mask =
      let (value, prg') = random prg s in
      let (mask', rest') =
        mask_from id_ s rest (if ltb v_id id_ then add s mask value else subtract s mask value) in
      (mask', (v_id, prg') ∷ rest')

  -- `__generate_mask`, with the generator of the client's own mask where it has one
  unfoldable pub generate_mask :
      ℕ → (s : Shape) → Pairs → Option Generator → Array s × Pairs × Option Generator
  unfolding mask_from
  generate_mask id_ s pairs none =
      let (mask, pairs') = mask_from id_ s pairs (zeros s) in (mask, pairs', none)
  generate_mask id_ s pairs (some b_prg) =
      let (mask, pairs') = mask_from id_ s pairs (zeros s) in
      let (value, b_prg') = random b_prg s in (add s mask value, pairs', some b_prg')

  -- `__gen_b_prg`: no generator for no `b`, and none for 0
  abbrev pub gen_b_prg : Option ℕ → Option Generator
  gen_b_prg none = none
  gen_b_prg (some b) = if nat_beq b 0 then none else some (default_rng b)

  -- The loop of `__encrypt_list`
  unfoldable pub encrypt_from :
      ℕ → (ss : List Shape) → Pairs → Option Generator → Weights ss → Weights ss
  unfolding generate_mask
  encrypt_from id_ [] pairs b_prg data_ = tt
  encrypt_from id_ (s ∷ ss) pairs b_prg (item, items) =
      let (mask, pairs', b_prg') = generate_mask id_ s pairs b_prg in
      (add s item mask, encrypt_from id_ ss pairs' b_prg' items)

  -- `encrypt`, of a list
  unfoldable pub encrypt : (ss : List Shape) → SsaProtector → Weights ss → Weights ss
  unfolding encrypt_from
  encrypt ss self data_ = encrypt_from self.id_ ss self.s_uv_s (gen_b_prg self.b) data_
