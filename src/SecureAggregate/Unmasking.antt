-- ===== src/SecureAggregate/Unmasking.antt =====
-- neursafe_fl/python/libs/secure/secure_aggregate/ssa_server.py: how the servers add up what the
-- clients report (`SSABaseServer`), and how `SSAServer` takes the masks off (`__do_decrypt`).
pub mod Cancelling
pub mod Generators
pub mod Recovery
use yanshi_shield.Base.{ℕ, Bool, Option, none, some, List, [], ◌∷◌, ltb, if◌then◌else◌}
use yanshi_shield.SecureAggregate.Arrays.{ArrayLib}
use yanshi_shield.SecureAggregate.Protector.{Weights}

module _ (lib : ArrayLib) where
  open lib use {Shape, Array, zeros, add, subtract, Generator, random}

  -- `self._s_uv_masks`: the id of a dropped client, that of one alive, and their generator.
  abbrev pub PairMasks : Type 0
  PairMasks = List (ℕ × ℕ × Generator)

  unfoldable pub add_weights : (ss : List Shape) → Weights lib ss → Weights lib ss → Weights lib ss
  add_weights [] a b = tt
  add_weights (s ∷ ss) (a, as_) (b, bs) = (add s a b, add_weights ss as_ bs)

  -- `_accumulate_list`; the total is `none` before the first report.
  unfoldable pub accumulate_list :
      (ss : List Shape) → Option (Weights lib ss) → Weights lib ss → Weights lib ss
  unfolding add_weights
  accumulate_list ss none data_ = data_
  accumulate_list ss (some total) data_ = add_weights ss total data_

  -- The two loops of `__generate_mask`
  unfoldable pub s_total_from : (s : Shape) → PairMasks → Array s → Array s × PairMasks
  s_total_from s [] s_total = (s_total, [])
  s_total_from s ((drop_id, alive_id, prg) ∷ rest) s_total =
      let (value, prg') = random prg s in
      let (s_total', rest') =
        s_total_from s rest
          (if ltb alive_id drop_id then add s s_total value else subtract s s_total value) in
      (s_total', (drop_id, alive_id, prg') ∷ rest')

  unfoldable pub b_total_from : (s : Shape) → List Generator → Array s → Array s × List Generator
  b_total_from s [] b_total = (b_total, [])
  b_total_from s (prg ∷ rest) b_total =
      let (value, prg') = random prg s in
      let (b_total', rest') = b_total_from s rest (add s b_total value) in (b_total', prg' ∷ rest')

  unfoldable pub server_mask :
      (s : Shape) → PairMasks → List Generator → Array s × PairMasks × List Generator
  unfolding s_total_from b_total_from
  server_mask s s_uv_masks b_masks =
      let (s_total, s_uv_masks') = s_total_from s s_uv_masks (zeros s) in
      let (b_total, b_masks') = b_total_from s b_masks (zeros s) in
      (subtract s s_total b_total, s_uv_masks', b_masks')

  -- `__decrypt_list`
  unfoldable pub decrypt_list :
      (ss : List Shape) → PairMasks → List Generator → Weights lib ss → Weights lib ss
  unfolding server_mask
  decrypt_list [] s_uv_masks b_masks total = tt
  decrypt_list (s ∷ ss) s_uv_masks b_masks (value, values) =
      let (mask, s_uv_masks', b_masks') = server_mask s s_uv_masks b_masks in
      (add s value mask, decrypt_list ss s_uv_masks' b_masks' values)
