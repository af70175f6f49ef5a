-- ===== src/SecureAggregate/Arrays.antt =====
-- numpy, as far as secure aggregation uses it: arrays of a shape with their sums, and generators of
-- pseudorandom arrays. The laws are those of exact arithmetic, as of integers and of weights in fixed
-- point. Arrays of floats, which the generators give, obey them up to rounding only: what is proved from
-- these laws is that the masks cancel, not what the roundings add up to.
pub mod Sums
use yanshi_shield.Base.{ℕ, ◌≡◌}

pub record ArrayLib : Type 1 where
  pub Shape : Type 0
  pub Array : Shape → Type 0
  pub zeros : (s : Shape) → Array s
  pub add : (s : Shape) → Array s → Array s → Array s
  pub subtract : (s : Shape) → Array s → Array s → Array s
  pub add_comm : (s : Shape) (a b : Array s) → add s a b ≡ add s b a
  pub add_assoc : (s : Shape) (a b c : Array s) → add s (add s a b) c ≡ add s a (add s b c)
  pub zeros-add : (s : Shape) (a : Array s) → add s (zeros s) a ≡ a
  pub subtract-add : (s : Shape) (a b : Array s) → subtract s (add s a b) b ≡ a
  pub add-subtract : (s : Shape) (a b : Array s) → add s (subtract s a b) b ≡ a
  -- `np.random.default_rng(seed)`, and `random(shape)`, which moves the generator on
  pub Generator : Type 0
  pub default_rng : ℕ → Generator
  pub random : Generator → (s : Shape) → Array s × Generator
