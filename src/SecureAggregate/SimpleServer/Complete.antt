-- ===== src/SecureAggregate/SimpleServer/Complete.antt =====
-- When the server with one mask gives its total away
-- (neursafe_fl/python/libs/secure/secure_aggregate/ssa_simple_server.py).
use yanshi_shield.Base.{
  ℕ, suc, ◌≤◌, ◌≡◌, refl, sym, ◌∙◌, subst, Bool, true, false, Option, List, [], ◌∷◌, if◌then◌else◌,
  nat_beq, nat_beq_iff, length, ok, arith, Bool-cases, inl, inr,
}
use yanshi_shield.SecureAggregate.SimpleServer.{
  SimpleServer, is_in, common_number, assert_client_not_drop, decrypt_simple,
}

-- No client stands in the list twice.
abbrev pub IsDistinct : List ℕ → Type 0
IsDistinct [] = Unit
IsDistinct (x ∷ xs) = (is_in x xs ≡ false) × IsDistinct xs

common_number-le : (xs ys : List ℕ) → common_number xs ys ≤ length ys
unfolding common_number
common_number-le xs [] = omega arith
common_number-le xs (y ∷ ys) = ground (arith, common_number-le xs ys)

-- As many common elements as there are places: each stands once, and in both lists.
common_number_full :
    (xs ys : List ℕ)
    → common_number xs ys ≡ length ys
    → IsDistinct ys × ((z : ℕ) → is_in z ys ≡ true → is_in z xs ≡ true)
unfolding common_number
common_number_full xs [] h = (tt, λ z own. cc)
common_number_full xs (y ∷ ys) h =
    let bound = common_number-le xs ys in
    let fresh : is_in y ys ≡ false = ground (arith, h, bound) in
    let shared : is_in y xs ≡ true = ground (arith, h, bound) in
    let full : common_number xs ys ≡ length ys = ground (arith, h, bound) in
    let (distinct, others) = common_number_full xs ys full in
    (
      (fresh, distinct),
      λ z own. elim (Bool-cases (nat_beq z y)) [
        | inl same ↦ subst (λ w. is_in w xs ≡ true) (sym ((nat_beq_iff z y).0 same)) shared
        | inr differs ↦ others z (ground (arith, differs, own))
      ],
    )

abbrev take_out : ℕ → List ℕ → List ℕ
take_out x [] = []
take_out x (y ∷ ys) = if nat_beq x y then ys else y ∷ take_out x ys

length-take_out :
    (x : ℕ) (xs : List ℕ) → is_in x xs ≡ true → suc (length (take_out x xs)) ≡ length xs
length-take_out x [] h = cc
length-take_out x (y ∷ ys) h = ground (arith, length-take_out x ys, h)

is_in-take_out :
    (x z : ℕ) (xs : List ℕ) → nat_beq z x ≡ false → is_in z (take_out x xs) ≡ is_in z xs
is_in-take_out x z [] h = refl
is_in-take_out x z (y ∷ ys) h = ground (arith, is_in-take_out x z ys, h)

stays :
    (y w : ℕ) (ys xs : List ℕ)
    → is_in y ys ≡ false
    → ((z : ℕ) → is_in z (y ∷ ys) ≡ true → is_in z xs ≡ true)
    → is_in w ys ≡ true
    → is_in w (take_out y xs) ≡ true
stays y w ys xs fresh within own = elim (Bool-cases (nat_beq w y)) [
  | inl same ↦
      absurd (gone (sym (subst (λ v. is_in v ys ≡ true) ((nat_beq_iff w y).0 same) own) ∙ fresh))
  | inr differs ↦ is_in-take_out y w xs differs ∙ within w (ground (arith, own))
]
  where
    gone : ¬ (true ≡ false)
    gone h = cc

-- Distinct elements that are all in a list no longer than themselves are all of it.
fills :
    (ys xs : List ℕ)
    → IsDistinct ys
    → ((z : ℕ) → is_in z ys ≡ true → is_in z xs ≡ true)
    → length xs ≤ length ys
    → (z : ℕ) → is_in z xs ≡ true
    → is_in z ys ≡ true
fills [] [] distinct within short z own = own
fills [] (x ∷ xs) distinct within short z own = absurd (omega (arith, short))
fills (y ∷ ys) xs (fresh, distinct) within short z own = elim (Bool-cases (nat_beq z y)) [
  | inl same ↦ ground (arith, same)
  | inr differs ↦
      let found = within y (ground arith) in
      let rest =
        fills ys (take_out y xs) distinct (λ w. stays y w ys xs fresh within)
          (omega (arith, short, length-take_out y xs found)) z
          (is_in-take_out y z xs differs ∙ own) in
      ground (arith, rest)
]

same_truth : (a b : Bool) → (a ≡ true → b ≡ true) → (b ≡ true → a ≡ true) → a ≡ b
same_truth true b there back = sym (there refl)
same_truth false true there back = back refl
same_truth false false there back = refl

-- The server gives its total away only if each client that reported did so once, these are the very
-- clients that have given a public key, and there are as many as are needed at least.
pub decrypt_simple_complete :
    {Key Weight : Type 0} (self : SimpleServer Key Weight) (result : Option Weight)
    → (decrypt_simple self).1 ≡ ok result
    → (result ≡ self.total_data)
      × IsDistinct self.rpt_masked_result_clients
      × ((z : ℕ) → is_in z self.rpt_masked_result_clients ≡ is_in z self.rpt_public_key_clients)
      × (self.min_client_num ≤ length self.rpt_masked_result_clients)
unfolding decrypt_simple assert_client_not_drop
decrypt_simple_complete self result h =
    let keyed = self.rpt_public_key_clients in
    let reported = self.rpt_masked_result_clients in
    let all_reported : common_number keyed reported ≡ length reported = ground (arith, h) in
    let all_keyed : common_number keyed reported ≡ length keyed = ground (arith, h) in
    let enough : self.min_client_num ≤ common_number keyed reported = ground (arith, h) in
    let (distinct, within) = common_number_full keyed reported all_reported in
    (
      ground (arith, h),
      distinct,
      λ z.
          same_truth (is_in z reported) (is_in z keyed) (within z)
            (fills reported keyed distinct within (omega (arith, all_reported, all_keyed)) z),
      omega (arith, enough, all_reported),
    )
