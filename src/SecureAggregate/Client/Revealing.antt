-- ===== src/SecureAggregate/Client/Revealing.antt =====
-- What a client of secure aggregation reveals of the secrets of others, and to whom
-- (neursafe_fl/python/libs/secure/secure_aggregate/ssa_client.py).
use yanshi_shield.Base.{
  ℕ, ◌≡◌, refl, sym, ap, ◌∙◌, subst, not, Option, none, some, List, [], ◌∷◌, ◌++◌, map, nat_eq,
  filterb, ok, >>=-eq-ok, ok_injective, arith, inl, inr, beq-cases,
}
use yanshi_shield.Base.Dict.{Dict, lookup}
use yanshi_shield.SecureAggregate.DiffieHellman.{agree, public_key, agree_symm}
use yanshi_shield.SecureAggregate.Client.{
  PublicKey, ShareMessage, SecretShares, Cryptography, SsaClient, is_alive,
}
use yanshi_shield.SecureAggregate.Client.Secrets.{
  encrypt_shares, decrypt_shares, add_my_b_share, take_out_from, take_out_shares,
}

module _ {Share Data : Type 0} (crypto : Cryptography Share Data) where
  -- What the encrypted shares that a client holds are when it has decrypted them, in order
  pub data Opened (self : SsaClient Share Data)
      : List (ℕ × Data) → Dict ℕ (ShareMessage Share) → Type 0 where
    done : Opened self [] []
    next :
        {client_id : ℕ} {share : Data} {message : ShareMessage Share} {shares : List (ℕ × Data)}
        {messages : Dict ℕ (ShareMessage Share)}
        → decrypt_shares crypto self (client_id, share) ≡ ok message
        → Opened self shares messages
        → Opened self ((client_id, share) ∷ shares) ((client_id, message) ∷ messages)

  -- The shares of the numbers `b` of those alive, and the shares of the keys of the others
  abbrev pub b_shares_of : List ℕ → Dict ℕ (ShareMessage Share) → Dict ℕ Share
  b_shares_of alive messages =
      map (λ m. (m.0, m.1.b_share)) (filterb (λ m. is_alive m.0 alive) messages)

  abbrev pub key_shares_of : List ℕ → Dict ℕ (ShareMessage Share) → Dict ℕ Share
  key_shares_of alive messages =
      map (λ m. (m.0, m.1.s_sk_share)) (filterb (λ m. not (is_alive m.0 alive)) messages)

  -- What a client reveals: of the messages that it holds, exactly one share each, and its own.
  pub record Reveals (self : SsaClient Share Data) (alive : List ℕ)
      (secret_shares : SecretShares Share) : Type 0 where
    pub messages : Dict ℕ (ShareMessage Share)
    pub own : Share
    pub opened : Opened self self.encrypted_shares messages
    pub owned : self.my_b_share ≡ some own
    pub of_alive : secret_shares.b_share ≡ b_shares_of alive messages ++ ((self.my_id, own) ∷ [])
    pub of_others : secret_shares.s_sk_share ≡ key_shares_of alive messages

  -- The same before the client's own share goes in
  record Taken (self : SsaClient Share Data) (alive : List ℕ) (shares : List (ℕ × Data))
      (secret_shares : SecretShares Share) : Type 0 where
    messages : Dict ℕ (ShareMessage Share)
    opened : Opened self shares messages
    of_alive : secret_shares.b_share ≡ b_shares_of alive messages
    of_others : secret_shares.s_sk_share ≡ key_shares_of alive messages

  take_out_from-Taken :
      (self : SsaClient Share Data) (alive : List ℕ) (shares : List (ℕ × Data))
      (secret_shares : SecretShares Share)
      → take_out_from crypto self alive shares ≡ ok secret_shares
      → Taken self alive shares secret_shares
  unfolding take_out_from
  take_out_from-Taken self alive [] secret_shares h =
      subst (Taken self alive []) (ok_injective h)
        (record { messages = []; opened = done; of_alive = refl; of_others = refl })
  take_out_from-Taken self alive ((client_id, share) ∷ shares) secret_shares h =
      let (message, decrypted, h') =
        >>=-eq-ok (decrypt_shares crypto self (client_id, share)) _ h in
      let (rest, found, same) = >>=-eq-ok (take_out_from crypto self alive shares) _ h' in
      let taken = take_out_from-Taken self alive shares rest found in
      subst (Taken self alive ((client_id, share) ∷ shares)) (ok_injective same) (record {
        messages = (client_id, message) ∷ taken.messages;
        opened = next decrypted taken.opened;
        of_alive = ground (arith, taken.of_alive);
        of_others = ground (arith, taken.of_others);
      })

  with_own :
      (self : SsaClient Share Data) (alive : List ℕ) (others secret_shares : SecretShares Share)
      (own : Option Share)
      → Taken self alive self.encrypted_shares others
      → self.my_b_share ≡ own
      → add_my_b_share own self.my_id others ≡ ok secret_shares
      → Reveals self alive secret_shares
  with_own self alive others secret_shares none taken known h = absurd cc
  with_own self alive others secret_shares (some share) taken known h =
      subst (Reveals self alive) (ok_injective h) (record {
        messages = taken.messages;
        own = share;
        opened = taken.opened;
        owned = known;
        of_alive = ap (λ l. l ++ ((self.my_id, share) ∷ [])) taken.of_alive;
        of_others = taken.of_others;
      })

  -- A client that answers has decrypted all the messages that it holds, and reveals exactly one share of
  -- each: the share of the number `b` of those alive, the share of the key of the others, under the ids of
  -- their senders. Of its own secrets it reveals the share of its `b`.
  pub take_out_shares-Reveals :
      (self : SsaClient Share Data) (alive : List ℕ) (secret_shares : SecretShares Share)
      → take_out_shares crypto self alive ≡ ok secret_shares
      → Reveals self alive secret_shares
  unfolding take_out_shares
  take_out_shares-Reveals self alive secret_shares h =
      let (others, found, same) =
        >>=-eq-ok (take_out_from crypto self alive self.encrypted_shares) _ h in
      with_own self alive others secret_shares self.my_b_share
        (take_out_from-Taken self alive self.encrypted_shares others found) refl same

-- The entries of a list of shares by the clients that they are meant for
abbrev pair_up : {Share : Type 0} → Dict ℕ PublicKey → List Share → Dict ℕ Share
pair_up [] shares = []
pair_up (peer ∷ peers) [] = []
pair_up (peer ∷ peers) (share ∷ shares) = (peer.0, share) ∷ pair_up peers shares

module _ {Share Data : Type 0} (crypto : Cryptography Share Data) where
  -- The cipher is right: what was encrypted is decrypted with the same key and sender.
  abbrev pub IsRight : Type 0
  IsRight =
      (aes_key sender : ℕ) (message : ShareMessage Share)
      → crypto.decrypt aes_key (crypto.encrypt aes_key message sender) sender ≡ some message

  decrypt_shares_lem :
      IsRight
      → (sender c_sk : ℕ) (receiver : SsaClient Share Data) (key_of_sender : PublicKey)
        (message : ShareMessage Share)
      → lookup sender receiver.dh_public_keys ≡ some key_of_sender
      → key_of_sender.c_pk ≡ public_key crypto.g crypto.p c_sk
      → decrypt_shares crypto receiver (
        sender,
        crypto.encrypt
            (agree crypto.g crypto.p c_sk (public_key crypto.g crypto.p receiver.c_sk))
            message
            sender,
      )
        ≡ ok message
  unfolding decrypt_shares
  decrypt_shares_lem right sender c_sk receiver key_of_sender message known' key' =
      let same = agree_symm crypto.g crypto.p c_sk receiver.c_sk in
      ground (
        arith,
        known',
        key',
        same,
        right (agree crypto.g crypto.p receiver.c_sk (public_key crypto.g crypto.p c_sk)) sender
            message,
      )

  -- What a receiver gets of the shares that were dealt out
  abbrev pub IsReceived :
      (sender : ℕ)
      → SsaClient Share Data
      → Dict ℕ PublicKey
      → (s_sk_shares b_shares : List Share) → Data
      → ShareMessage Share
      → Type 0
  IsReceived sender receiver peers s_sk_shares b_shares share message =
      (decrypt_shares crypto receiver (sender, share) ≡ ok message)
      × (message.sender ≡ sender)
      × (message.receiver ≡ receiver.my_id)
      × (lookup receiver.my_id (pair_up peers s_sk_shares) ≡ some message.s_sk_share)
      × (lookup receiver.my_id (pair_up peers b_shares) ≡ some message.b_share)

  -- What one client encrypts for another, the other decrypts, if each has the other's public key and
  -- the cipher is right: the shares at the place of the receiver, under both their names.
  pub decrypt_shares-encrypt_shares :
      IsRight
      → (sender c_sk : ℕ) (peers : Dict ℕ PublicKey) (s_sk_shares b_shares : List Share)
        (sent : List (ℕ × Data)) (receiver : SsaClient Share Data)
        (key_of_sender key_of_receiver : PublicKey) (share : Data)
      → encrypt_shares crypto sender c_sk peers s_sk_shares b_shares ≡ ok sent
      → lookup receiver.my_id peers ≡ some key_of_receiver
      → key_of_receiver.c_pk ≡ public_key crypto.g crypto.p receiver.c_sk
      → lookup sender receiver.dh_public_keys ≡ some key_of_sender
      → key_of_sender.c_pk ≡ public_key crypto.g crypto.p c_sk
      → lookup receiver.my_id sent ≡ some share
      → (message : ShareMessage Share) × IsReceived sender receiver peers s_sk_shares b_shares share
          message
  unfolding encrypt_shares lookup
  decrypt_shares-encrypt_shares right sender c_sk [] s_sk_shares b_shares sent receiver
        key_of_sender key_of_receiver share encrypted known key known' key' got =
      absurd cc
  decrypt_shares-encrypt_shares right sender c_sk (peer ∷ peers) [] b_shares sent receiver
        key_of_sender key_of_receiver share encrypted known key known' key' got =
      absurd cc
  decrypt_shares-encrypt_shares right sender c_sk (peer ∷ peers) (s ∷ ss) [] sent receiver
        key_of_sender key_of_receiver share encrypted known key known' key' got =
      absurd cc
  decrypt_shares-encrypt_shares right sender c_sk ((client_id, peer_key) ∷ peers) (s ∷ ss) (b ∷ bs)
        sent receiver key_of_sender key_of_receiver share encrypted known key known' key' got =
      let message : ShareMessage Share = record {
        sender = sender;
        receiver = client_id;
        s_sk_share = s;
        b_share = b;
      } in
      let cipher = crypto.encrypt (agree crypto.g crypto.p c_sk peer_key.c_pk) message sender in
      let (rest, of_rest, same) =
        >>=-eq-ok (encrypt_shares crypto sender c_sk peers ss bs) _ encrypted in
      let got' : lookup receiver.my_id ((client_id, cipher) ∷ rest) ≡ some share =
        subst (λ l. lookup receiver.my_id l ≡ some share) (sym (ok_injective same)) got in
      elim (beq-cases client_id receiver.my_id) [
        | inl (equal, its) ↦
            let decrypted =
              decrypt_shares_lem right sender c_sk receiver key_of_sender message known' key' in
            let its_key : peer_key.c_pk ≡ public_key crypto.g crypto.p receiver.c_sk =
              ground (arith, equal, known, key) in
            let its_share : cipher ≡ share = ground (arith, equal, got') in
            let its_cipher =
              ap (λ k. crypto.encrypt (agree crypto.g crypto.p c_sk k) message sender) (sym its_key)
              ∙ its_share in
            (
              message,
              (
                ap (λ d. decrypt_shares crypto receiver (sender, d)) (sym its_cipher) ∙ decrypted,
                refl,
                its,
                ground (arith, equal),
                ground (arith, equal),
              ),
            )
        | inr (differs, _) ↦
            let (message, (decrypted, from, its, s_h, b_h)) =
              decrypt_shares-encrypt_shares right sender c_sk peers ss bs rest receiver
                key_of_sender key_of_receiver share of_rest (ground (arith, differs, known)) key
                known' key' (ground (arith, differs, got')) in
            (
              message,
              (decrypted, from, its, ground (arith, differs, s_h), ground (arith, differs, b_h)),
            )
      ]
