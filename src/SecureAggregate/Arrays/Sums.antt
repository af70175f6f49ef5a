-- ===== src/SecureAggregate/Arrays/Sums.antt =====
-- Sums of arrays of one shape.
use yanshi_shield.Base.{
  ℕ, ◌≡◌, refl, sym, ap, ap₂, ◌∙◌, Bool, List, [], ◌∷◌, if◌then◌else◌, filterb, Bool-cases, inl,
  inr,
}
use yanshi_shield.SecureAggregate.Arrays.{ArrayLib}

module _ (lib : ArrayLib) (s : lib.Shape) where
  open lib use {Array}

  infixl 65 ◌⊕◌ ◌⊖◌
  abbrev pub ◌⊕◌ : Array s → Array s → Array s
  a ⊕ b = lib.add s a b

  abbrev pub ◌⊖◌ : Array s → Array s → Array s
  a ⊖ b = lib.subtract s a b

  abbrev pub null : Array s
  null = lib.zeros s

  abbrev pub negate : Array s → Array s
  negate a = null ⊖ a

  pub comm : (a b : Array s) → a ⊕ b ≡ b ⊕ a
  comm a b = lib.add_comm s a b

  pub assoc : (a b c : Array s) → a ⊕ b ⊕ c ≡ a ⊕ (b ⊕ c)
  assoc a b c = lib.add_assoc s a b c

  pub null_left : (a : Array s) → null ⊕ a ≡ a
  null_left a = lib.zeros-add s a

  pub null_right : (a : Array s) → a ⊕ null ≡ a
  null_right a = comm a null ∙ null_left a

  pub negate_left : (a : Array s) → negate a ⊕ a ≡ null
  negate_left a = lib.add-subtract s null a

  pub negate_right : (a : Array s) → a ⊕ negate a ≡ null
  negate_right a = comm a (negate a) ∙ negate_left a

  pub cancel_right : (a b c : Array s) → a ⊕ c ≡ b ⊕ c → a ≡ b
  cancel_right a b c h = sym (lib.subtract-add s a c) ∙ ap (λ x. x ⊖ c) h ∙ lib.subtract-add s b c

  pub subtract-eq-negate : (a b : Array s) → a ⊖ b ≡ a ⊕ negate b
  subtract-eq-negate a b = cancel_right (a ⊖ b) (a ⊕ negate b) b (
      lib.add-subtract s a b
      ∙ sym (assoc a (negate b) b ∙ ap (λ x. a ⊕ x) (negate_left b) ∙ null_right a))

  pub exchange : (a b c d : Array s) → (a ⊕ b) ⊕ (c ⊕ d) ≡ (a ⊕ c) ⊕ (b ⊕ d)
  exchange a b c d =
      assoc a b (c ⊕ d)
      ∙ ap (λ x. a ⊕ x) (sym (assoc b c d) ∙ ap (λ x. x ⊕ d) (comm b c) ∙ assoc c b d)
      ∙ sym (assoc a c (b ⊕ d))

  unfoldable pub sum : (ℕ → Array s) → List ℕ → Array s
  sum f [] = null
  sum f (x ∷ xs) = f x ⊕ sum f xs

  pub sum-zero : (xs : List ℕ) → sum (λ _. null) xs ≡ null
  unfolding sum
  sum-zero [] = refl
  sum-zero (x ∷ xs) = null_left _ ∙ sum-zero xs

  pub sum-ext : (f g : ℕ → Array s) (xs : List ℕ) → ((x : ℕ) → f x ≡ g x) → sum f xs ≡ sum g xs
  unfolding sum
  sum-ext f g [] h = refl
  sum-ext f g (x ∷ xs) h = ap₂ (λ a b. a ⊕ b) (h x) (sum-ext f g xs h)

  pub sum-add : (f g : ℕ → Array s) (xs : List ℕ) → sum (λ x. f x ⊕ g x) xs ≡ sum f xs ⊕ sum g xs
  unfolding sum
  sum-add f g [] = sym (null_left null)
  sum-add f g (x ∷ xs) =
      ap (λ y. (f x ⊕ g x) ⊕ y) (sum-add f g xs) ∙ exchange (f x) (g x) (sum f xs) (sum g xs)

  pub sum-swap :
      (f : ℕ → ℕ → Array s) (xs ys : List ℕ)
      → sum (λ x. sum (f x) ys) xs ≡ sum (λ y. sum (λ x. f x y) xs) ys
  unfolding sum
  sum-swap f [] ys = sym (sum-zero ys)
  sum-swap f (x ∷ xs) ys =
      ap (λ z. sum (f x) ys ⊕ z) (sum-swap f xs ys)
      ∙ sym (sum-add (f x) (λ y. sum (λ z. f z y) xs) ys)

  -- A sum over a filter is a sum of the terms that pass.
  pub sum-filterb :
      (f : ℕ → Array s) (p : ℕ → Bool) (xs : List ℕ)
      → sum f (filterb p xs) ≡ sum (λ x. if p x then f x else null) xs
  unfolding sum
  sum-filterb f p [] = refl
  sum-filterb f p (x ∷ xs) = elim (Bool-cases (p x)) [
    | inl h ↦ rw h (ap (λ y. f x ⊕ y) (sum-filterb f p xs))
    | inr h ↦ rw h (sum-filterb f p xs ∙ sym (null_left _))
  ]

  -- What cancels in pairs, and is null on the diagonal, sums up to null over all pairs.
  pub sum_pairs :
      (t : ℕ → ℕ → Array s) (xs : List ℕ)
      → ((x : ℕ) → t x x ≡ null)
      → ((x y : ℕ) → t x y ⊕ t y x ≡ null)
      → sum (λ x. sum (t x) xs) xs ≡ null
  unfolding sum
  sum_pairs t [] diagonal opposite = refl
  sum_pairs t (x ∷ xs) diagonal opposite =
      let rest = sum_pairs t xs diagonal opposite in
      let crossed : sum (t x) xs ⊕ sum (λ y. t y x) xs ≡ null =
        sym (sum-add (t x) (λ y. t y x) xs) ∙ sum-ext _ _ xs (opposite x) ∙ sum-zero xs in
      ap₂ (λ a b. (a ⊕ sum (t x) xs) ⊕ b) (diagonal x)
        (sum-add (λ y. t y x) (λ y. sum (t y) xs) xs
          ∙ ap (λ z. sum (λ y. t y x) xs ⊕ z) rest
          ∙ null_right _)
      ∙ ap (λ z. z ⊕ sum (λ y. t y x) xs) (null_left _)
      ∙ crossed
