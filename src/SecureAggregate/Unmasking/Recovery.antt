-- ===== src/SecureAggregate/Unmasking/Recovery.antt =====
-- The server recovers the sum of the clients' weights from their masked reports.
use mathlib.Core.Path.{fun_ext}
use yanshi_shield.Base.{ℕ, ◌≡◌, refl, sym, ap, ap₂, ◌∙◌, Option, some, List, [], ◌∷◌, map}
use yanshi_shield.SecureAggregate.Arrays.{ArrayLib}
use yanshi_shield.SecureAggregate.Arrays.Sums
use yanshi_shield.SecureAggregate.Protector.{Weights, encrypt_from}
use yanshi_shield.SecureAggregate.Unmasking.{add_weights, accumulate_list, decrypt_list}
use yanshi_shield.SecureAggregate.Unmasking.Cancelling.{IsRoster, dropped, terms_cancel}
use yanshi_shield.SecureAggregate.Unmasking.Generators.{
  peers, pairs_of, pair_masks, value, moved, own_value, own_moved, client_sum, server_sum,
  generate_mask_lem, server_mask_lem,
}

module _ (lib : ArrayLib) where
  open lib use {Shape, Array, Generator, random, add, subtract}

  -- The reports of the clients are accumulated in their order.
  unfoldable pub accumulate_all :
      (ss : List Shape)
      → Option (Weights lib ss)
      → (ℕ → Weights lib ss)
      → List ℕ
      → Option (Weights lib ss)
  accumulate_all ss total report [] = total
  accumulate_all ss total report (u ∷ us) =
      accumulate_all ss (some (accumulate_list lib ss total (report u))) report us

  -- The same from a first report on.
  pub add_all : (ss : List Shape) → Weights lib ss → (ℕ → Weights lib ss) → List ℕ → Weights lib ss
  add_all ss total report [] = total
  add_all ss total report (u ∷ us) = add_all ss (add_weights lib ss total (report u)) report us

  pub accumulate_all-some :
      (ss : List Shape) (total : Weights lib ss) (report : ℕ → Weights lib ss) (us : List ℕ)
      → accumulate_all ss (some total) report us ≡ some (add_all ss total report us)
  unfolding accumulate_all add_all accumulate_list
  accumulate_all-some ss total report [] = refl
  accumulate_all-some ss total report (u ∷ us) =
      accumulate_all-some ss (add_weights lib ss total (report u)) report us

  -- Weights are added array by array.
  add_all-cons :
      (s : Shape) (ss : List Shape) (t : Array s) (ts : Weights lib ss) (f : ℕ → Array s)
      (fs : ℕ → Weights lib ss) (us : List ℕ)
      → add_all (s ∷ ss) (t, ts) (λ u. (f u, fs u)) us
        ≡ (add s t (Sums.sum lib s f us), add_all ss ts fs us)
  unfolding add_all add_weights Sums.sum
  add_all-cons s ss t ts f fs [] = ap (λ x. (x, ts)) (sym (Sums.null_right lib s t))
  add_all-cons s ss t ts f fs (u ∷ us) =
      add_all-cons s ss (add s t (f u)) (add_weights lib ss ts (fs u)) f fs us
      ∙ ap (λ x. (x, add_all ss (add_weights lib ss ts (fs u)) fs us)) (Sums.assoc lib s t _ _)

  -- One array: what the server adds takes all masks off.
  unmask :
      (s : Shape) (p b z x m : Array s)
      → add s p z ≡ lib.zeros s
      → m ≡ add s p b
      → add s (add s x m) (subtract s z b) ≡ x
  unmask s p b z x m cancels e =
      ap₂ (λ y w. add s (add s x y) w) e (Sums.subtract-eq-negate lib s z b)
      ∙ Sums.assoc lib s x (add s p b) _
      ∙ ap (λ y. add s x y)
          (Sums.exchange lib s p b z _
            ∙ ap₂ (add s) cancels (Sums.negate_right lib s b)
            ∙ Sums.null_left lib s _)
      ∙ Sums.null_right lib s x

  moved_symm :
      (s : Shape) (g : ℕ → ℕ → Generator)
      → ((u v : ℕ) → g u v ≡ g v u)
      → (u v : ℕ) → moved lib s g u v ≡ moved lib s g v u
  moved_symm s g symm u v = ap (λ x. (random x s).1) (symm u v)

  abbrev value_symm :
      (s : Shape) (g : ℕ → ℕ → Generator)
      → ((u v : ℕ) → g u v ≡ g v u)
      → (u v : ℕ) → value lib s g u v ≡ value lib s g v u
  value_symm s g symm u v = ap (λ x. (random x s).0) (symm u v)

  -- What client `u` reports of its weights, masked for all the clients and by its own mask.
  abbrev pub masked :
      (ss : List Shape)
      → (ℕ → ℕ → Generator)
      → (ℕ → Generator)
      → List ℕ
      → (ℕ → Weights lib ss)
      → ℕ
      → Weights lib ss
  masked ss g h all_clients x u =
      encrypt_from lib u ss (pairs_of lib g u (peers u all_clients)) (some (h u)) (x u)

  module _ (s : Shape) (ss : List Shape) (g : ℕ → ℕ → Generator) (h : ℕ → Generator)
      (symm : (u v : ℕ) → g u v ≡ g v u) (all_clients : List ℕ) (x : ℕ → Weights lib (s ∷ ss)) where
    abbrev mask_of : ℕ → Array s
    mask_of u =
        add s (client_sum lib s g h (value_symm s g symm) all_clients u) (own_value lib s h u)

    masked_cons :
        (u : ℕ)
        → masked (s ∷ ss) g h all_clients x u ≡ (
          add s (x u).0 (mask_of u),
          masked ss (moved lib s g) (own_moved lib s h) all_clients (λ v. (x v).1) u,
        )
    unfolding encrypt_from
    masked_cons u =
        ap (λ t. (add s (x u).0 t.0, encrypt_from lib u ss t.1 t.2 (x u).1))
          (generate_mask_lem lib s g h (value_symm s g symm) u all_clients)

    -- The first array of the decrypted total.
    first_array :
        (alive : List ℕ)
        → IsRoster all_clients alive
        → add s (Sums.sum lib s (λ u. add s (x u).0 (mask_of u)) alive) (
            subtract s
              (server_sum lib s g h (value_symm s g symm) alive (dropped alive all_clients))
              (Sums.sum lib s (own_value lib s h) alive))
          ≡ Sums.sum lib s (λ u. (x u).0) alive
    first_array alive roster =
        let off =
          subtract s (server_sum lib s g h (value_symm s g symm) alive (dropped alive all_clients))
            (Sums.sum lib s (own_value lib s h) alive) in
        ap (λ y. add s y off) (Sums.sum-add lib s (λ u. (x u).0) mask_of alive)
        ∙ unmask s (Sums.sum lib s (client_sum lib s g h (value_symm s g symm) all_clients) alive)
            (Sums.sum lib s (own_value lib s h) alive) _ _ _
            (terms_cancel lib s (value lib s g) (value_symm s g symm) all_clients alive roster)
            (Sums.sum-add lib s _ _ alive)

  pub recover :
      (ss : List Shape) (g : ℕ → ℕ → Generator) (h : ℕ → Generator)
      (symm : (u v : ℕ) → g u v ≡ g v u) (all_clients : List ℕ) (a : ℕ) (us : List ℕ)
      (x : ℕ → Weights lib ss)
      → IsRoster all_clients (a ∷ us)
      → decrypt_list lib ss
          (pair_masks lib g (a ∷ us) (dropped (a ∷ us) all_clients))
          (map h (a ∷ us))
          (add_all ss (masked ss g h all_clients x a) (masked ss g h all_clients x) us)
        ≡ add_all ss (x a) x us
  unfolding decrypt_list Sums.sum
  recover [] g h symm all_clients a us x roster = refl
  recover (s ∷ ss) g h symm all_clients a us x roster =
      let alive = a ∷ us in
      let lost = dropped alive all_clients in
      let rest = λ (u : ℕ). (x u).1 in
      let total =
        ap (λ f. add_all (s ∷ ss) (f a) f us) (fun_ext (masked_cons s ss g h symm all_clients x))
        ∙ add_all-cons s ss _ _ _ _ us in
      ap (decrypt_list lib (s ∷ ss) (pair_masks lib g alive lost) (map h alive)) total
      ∙ ap
          (λ t. (
            add s
                (Sums.sum lib s (λ u. add s (x u).0 (mask_of s ss g h symm all_clients x u)) alive)
                t.0,
            decrypt_list lib ss t.1 t.2 (
                add_all ss (masked ss (moved lib s g) (own_moved lib s h) all_clients rest a)
                  (masked ss (moved lib s g) (own_moved lib s h) all_clients rest) us),
          ))
          (server_mask_lem lib s g h (value_symm s g symm) alive lost)
      ∙ ap₂ (λ y ys. (y, ys)) (first_array s ss g h symm all_clients x alive roster)
          (recover ss (moved lib s g) (own_moved lib s h) (moved_symm s g symm) all_clients a us
            rest roster)
      ∙ sym (add_all-cons s ss (x a).0 (rest a) (λ u. (x u).0) rest us)
