-- ===== src/SecureAggregate/Shares.antt =====
-- neursafe_fl/python/libs/secure/secure_aggregate/ssa_server.py: how `SSAServer` sorts the shares that
-- clients send. A share carries the id of a client and data.
use yanshi_shield.Base.{
  ℕ, ◌≡◌, refl, sym, ap, ◌∙◌, not, ◌&&◌, Option, none, some, List, [], ◌∷◌, ◌++◌, arith,
  if◌then◌else◌, nat_beq, nat_eq, nat_beq_iff, Bool-cases, inl, inr,
}
use mathlib.Core.List.{append-nil, append_assoc}
use yanshi_shield.Base.Dict.{Dict, lookup, insert, lookup-insert}

module _ {Data : Type 0} where
  abbrev or_empty : Option (List Data) → List Data
  or_empty none = []
  or_empty (some xs) = xs

  -- The list under a key, empty where there is none
  unfoldable pub entries : ℕ → Dict ℕ (List Data) → List Data
  entries key d = or_empty (lookup key d)

  -- `d[key].append(x)`, or `d[key] = [x]` where there is no such key yet
  unfoldable pub append_to : ℕ → Data → Dict ℕ (List Data) → Dict ℕ (List Data)
  unfolding entries
  append_to key x d = insert key (entries key d ++ x ∷ []) d

  entries-insert :
      (v key : ℕ) (xs : List Data) (d : Dict ℕ (List Data))
      → entries v (insert key xs d) ≡ (if nat_beq key v then xs else entries v d)
  unfolding entries
  entries-insert v key xs d =
      ap or_empty (lookup-insert v key xs d)
      ∙ elim (Bool-cases (nat_beq key v)) [ inl same ↦ rw same refl | inr other ↦ rw other refl ]

  entries-append_to :
      (v key : ℕ) (x : Data) (d : Dict ℕ (List Data))
      → entries v (append_to key x d)
        ≡ (if nat_beq key v then entries v d ++ x ∷ [] else entries v d)
  unfolding append_to
  entries-append_to v key x d =
      entries-insert v key (entries key d ++ x ∷ []) d ∙ elim (Bool-cases (nat_beq key v)) [
        | inl same ↦ rw same (ap (λ k. entries k d ++ x ∷ []) ((nat_beq_iff key v).0 same))
        | inr other ↦ rw other refl
      ]

  -- What is filed under keys, one after the other
  unfoldable pub file_all : List (ℕ × Data) → Dict ℕ (List Data) → Dict ℕ (List Data)
  unfolding append_to
  file_all [] d = d
  file_all ((key, x) ∷ rest) d = file_all rest (append_to key x d)

  -- The data that a list has for a key, in its order
  abbrev pub data_for : ℕ → List (ℕ × Data) → List Data
  data_for v [] = []
  data_for v ((key, x) ∷ rest) = if nat_beq key v then x ∷ data_for v rest else data_for v rest

  pub entries-file_all :
      (v : ℕ) (shares : List (ℕ × Data)) (d : Dict ℕ (List Data))
      → entries v (file_all shares d) ≡ entries v d ++ data_for v shares
  unfolding file_all
  entries-file_all v [] d = sym (append-nil _)
  entries-file_all v ((key, x) ∷ rest) d = elim (Bool-cases (nat_beq key v)) [
    | inl same ↦
        let step = entries-append_to v key x d in
        entries-file_all v rest (append_to key x d)
        ∙ rw (step, same) (append_assoc (entries v d) (x ∷ []) (data_for v rest))
    | inr other ↦
        let step = entries-append_to v key x d in
        entries-file_all v rest (append_to key x d) ∙ rw (step, other) refl
  ]

  -- `__reconstruct_secret_shares`, for the shares of one of the two kinds that the clients report
  unfoldable pub reconstruct_secret_shares :
      List (List (ℕ × Data)) → Dict ℕ (List Data) → Dict ℕ (List Data)
  unfolding file_all
  reconstruct_secret_shares [] all_shares = all_shares
  reconstruct_secret_shares (shares ∷ reports) all_shares =
      reconstruct_secret_shares reports (file_all shares all_shares)

  -- All shares of one client, in the order in which they were reported
  abbrev pub reported_for : ℕ → List (List (ℕ × Data)) → List Data
  reported_for v [] = []
  reported_for v (shares ∷ reports) = data_for v shares ++ reported_for v reports

  entries-reconstruct_secret_shares :
      (v : ℕ) (reports : List (List (ℕ × Data))) (d : Dict ℕ (List Data))
      → entries v (reconstruct_secret_shares reports d) ≡ entries v d ++ reported_for v reports
  unfolding reconstruct_secret_shares
  entries-reconstruct_secret_shares v [] d = sym (append-nil _)
  entries-reconstruct_secret_shares v (shares ∷ reports) d =
      entries-reconstruct_secret_shares v reports (file_all shares d)
      ∙ ap (λ xs. xs ++ reported_for v reports) (entries-file_all v shares d)
      ∙ append_assoc (entries v d) (data_for v shares) (reported_for v reports)

  -- The server puts together, for each client, exactly the shares that were reported for it, in the
  -- order in which they came in.
  reconstruct_secret_shares_lem :
      (v : ℕ) (reports : List (List (ℕ × Data)))
      → entries v (reconstruct_secret_shares reports []) ≡ reported_for v reports
  unfolding entries lookup
  reconstruct_secret_shares_lem v reports = entries-reconstruct_secret_shares v reports []

module _ {Data : Type 0} where
  -- The inner loop of `__reconstruct_encrypted_shares`, for the shares that one client sent
  unfoldable pub sort_shares :
      ℕ → List (ℕ × Data) → Dict ℕ (List (ℕ × Data)) → Dict ℕ (List (ℕ × Data))
  unfolding append_to
  sort_shares client_id_u [] new_shares = new_shares
  sort_shares client_id_u ((client_id_v, x) ∷ shares) new_shares = sort_shares client_id_u shares (
      if nat_beq client_id_u client_id_v
      then new_shares
      else append_to client_id_v (client_id_u, x) new_shares)

  -- The outer loop
  unfoldable pub reconstruct_encrypted_shares :
      List (ℕ × List (ℕ × Data)) → Dict ℕ (List (ℕ × Data)) → Dict ℕ (List (ℕ × Data))
  unfolding sort_shares
  reconstruct_encrypted_shares [] new_shares = new_shares
  reconstruct_encrypted_shares ((client_id_u, shares) ∷ rest) new_shares =
      reconstruct_encrypted_shares rest (sort_shares client_id_u shares new_shares)

  -- What `u` sent to `v`, under the name of `u`, and nothing to itself
  abbrev pub sent_to : ℕ → ℕ → List (ℕ × Data) → List (ℕ × Data)
  sent_to v u [] = []
  sent_to v u ((w, x) ∷ shares) =
      if nat_beq w v && not (nat_beq u v) then (u, x) ∷ sent_to v u shares else sent_to v u shares

  abbrev pub addressed_to : ℕ → List (ℕ × List (ℕ × Data)) → List (ℕ × Data)
  addressed_to v [] = []
  addressed_to v ((u, shares) ∷ rest) = sent_to v u shares ++ addressed_to v rest

  entries-sort_shares :
      (v u : ℕ) (shares : List (ℕ × Data)) (d : Dict ℕ (List (ℕ × Data)))
      → entries v (sort_shares u shares d) ≡ entries v d ++ sent_to v u shares
  unfolding sort_shares
  entries-sort_shares v u [] d = sym (append-nil _)
  entries-sort_shares v u ((w, x) ∷ shares) d =
      let step = entries-append_to v w (u, x) d in
      let assoc = append_assoc (entries v d) ((u, x) ∷ []) (sent_to v u shares) in
      entries-sort_shares v u shares (if nat_beq u w then d else append_to w (u, x) d)
      ∙ grind (arith, step, assoc)

  entries-reconstruct_encrypted_shares :
      (v : ℕ) (sent : List (ℕ × List (ℕ × Data))) (d : Dict ℕ (List (ℕ × Data)))
      → entries v (reconstruct_encrypted_shares sent d) ≡ entries v d ++ addressed_to v sent
  unfolding reconstruct_encrypted_shares
  entries-reconstruct_encrypted_shares v [] d = sym (append-nil _)
  entries-reconstruct_encrypted_shares v ((u, shares) ∷ rest) d =
      entries-reconstruct_encrypted_shares v rest (sort_shares u shares d)
      ∙ ap (λ xs. xs ++ addressed_to v rest) (entries-sort_shares v u shares d)
      ∙ append_assoc (entries v d) (sent_to v u shares) (addressed_to v rest)

  -- The server passes on to each client exactly the shares that the others sent for it, each under
  -- the name of the client it comes from.
  reconstruct_encrypted_shares_lem :
      (v : ℕ) (sent : List (ℕ × List (ℕ × Data)))
      → entries v (reconstruct_encrypted_shares sent []) ≡ addressed_to v sent
  unfolding entries lookup
  reconstruct_encrypted_shares_lem v sent = entries-reconstruct_encrypted_shares v sent []
