-- ===== src/SecureAggregate/DiffieHellman.antt =====
-- neursafe_fl/python/libs/secure/secure_aggregate/dh.py: Diffie-Hellman over a generator `g` and a
-- modulus `p`, which come from the library's table `PRIMES`. A secret key is any number.
use native.Mathlib.Nat.{pow-zero, pow-suc, mul_comm, div-add-mod, add-mul-mod_self_left}
use yanshi_shield.Base.{ℕ, zero, suc, ◌+◌, ◌*◌, ◌/◌, ◌%◌, ◌^◌, ◌≡◌, sym, ap, ◌∙◌, arith}

module _ (g p : ℕ) where
  -- the public key that `generate` makes for a secret key
  unfoldable pub public_key : ℕ → ℕ
  public_key sk = g ^ sk % p

  unfoldable pub agree : ℕ → ℕ → ℕ
  agree sk pk = pk ^ sk % p

pow_add : (x a b : ℕ) → x ^ (a + b) ≡ x ^ b * x ^ a
pow_add x zero b = let e : 0 + b ≡ b = omega arith in rw (pow-zero x, e) (omega arith)
pow_add x (suc a) b =
    ap (λ t. x ^ t) (omega arith)
    ∙ pow-suc x (a + b)
    ∙ rw (pow_add x a b, pow-suc x a) (omega arith)

pow_pow : (x a b : ℕ) → (x ^ a) ^ b ≡ x ^ (a * b)
pow_pow x a zero = pow-zero (x ^ a) ∙ sym (ap (λ t. x ^ t) (omega arith) ∙ pow-zero x)
pow_pow x a (suc b) =
    pow-suc (x ^ a) b
    ∙ ap (λ t. t * x ^ a) (pow_pow x a b)
    ∙ sym (pow_add x a (a * b))
    ∙ ap (λ t. x ^ t) (omega arith)

-- A factor may be reduced before the product is.
mod-mul : (a b p : ℕ) → a % p * b % p ≡ a * b % p
mod-mul a b p =
    sym (add-mul-mod_self_left (a % p * b) p (a / p * b))
    ∙ ap (λ t. t % p) (omega (arith, ap (λ (t : ℕ). t * b) (div-add-mod a p)))

pow-mod : (x n p : ℕ) → (x % p) ^ n % p ≡ x ^ n % p
pow-mod x zero p = ap (λ t. t % p) (pow-zero (x % p) ∙ sym (pow-zero x))
pow-mod x (suc n) p =
    ap (λ t. t % p) (pow-suc (x % p) n ∙ mul_comm _ (x % p))
    ∙ mod-mul x ((x % p) ^ n) p
    ∙ ap (λ t. t % p) (mul_comm x _)
    ∙ sym (mod-mul ((x % p) ^ n) x p)
    ∙ ap (λ t. t * x % p) (pow-mod x n p)
    ∙ mod-mul (x ^ n) x p
    ∙ ap (λ t. t % p) (sym (pow-suc x n))

-- Two parties agree on the same secret, each from its own secret key and the other's public key.
pub agree_symm : (g p a b : ℕ) → agree g p a (public_key g p b) ≡ agree g p b (public_key g p a)
unfolding agree public_key
agree_symm g p a b =
    pow-mod (g ^ b) a p
    ∙ ap (λ x. x % p) (pow_pow g b a ∙ ap (λ x. g ^ x) (mul_comm b a) ∙ sym (pow_pow g a b))
    ∙ sym (pow-mod (g ^ a) b p)
