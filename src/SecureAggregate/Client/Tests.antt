-- ===== src/SecureAggregate/Client/Tests.antt =====
-- Clients of secure aggregation that exchange shares, on small inputs
-- (neursafe_fl/python/libs/secure/secure_aggregate/ssa_client.py).
use yanshi_shield.Base.{
  ℕ, ◌≡◌, refl, Option, none, some, [], ◌∷◌, if◌then◌else◌, nat_beq, nat_eq, replicate, ok, ◌&&◌,
  arith,
}
use yanshi_shield.Base.Dict.{Dict, lookup}
use yanshi_shield.SecureAggregate.DiffieHellman.{agree, public_key}
use yanshi_shield.SecureAggregate.Client.{
  PublicKey, ShareMessage, Cryptography, SsaClient, initialized,
}
use yanshi_shield.SecureAggregate.Client.Secrets.{
  encrypt_shares, decrypt_shares, take_out_from, take_out_shares,
}
use yanshi_shield.SecureAggregate.Client.Revealing.{
  Reveals, IsRight, IsReceived, take_out_shares-Reveals, decrypt_shares-encrypt_shares,
}

-- A ciphertext keeps its key, its message and its sender; a share is the secret itself.
abbrev Cipher : Type 0
Cipher = ℕ × ShareMessage ℕ × ℕ

abbrev open_cipher : ℕ → Cipher → ℕ → Option (ShareMessage ℕ)
open_cipher aes_key cipher sender =
    if nat_beq aes_key cipher.0 && nat_beq sender cipher.2 then some cipher.1 else none

abbrev toy : Cryptography ℕ Cipher
toy = record {
  g = 2;
  p = 23;
  split_secret = λ secret threshold number. replicate number secret;
  encrypt = λ aes_key message sender. (aes_key, message, sender);
  decrypt = open_cipher;
}

toy-IsRight : IsRight toy
toy-IsRight aes_key sender message = ground arith

-- The client 1 with the key of the client 2, and the other way round
abbrev known_keys : (client_id c_sk : ℕ) → Dict ℕ PublicKey
known_keys client_id c_sk = (client_id, record { s_pk = 0; c_pk = public_key 2 23 c_sk }) ∷ []

-- What the first client encrypts for the second
abbrev to_second : Cipher
to_second = (
  agree 2 23 5 (public_key 2 23 6),
  record { sender = 1; receiver = 2; s_sk_share = 9; b_share = 11 },
  1,
)

abbrev second : SsaClient ℕ Cipher
second = record (initialized 2 2 2 8 6) {
  dh_public_keys = known_keys 1 5;
  my_b_share = some 77;
  encrypted_shares = (1, to_second) ∷ [];
}

sent : encrypt_shares toy 1 5 (known_keys 2 6) (9 ∷ []) (11 ∷ []) ≡ ok ((2, to_second) ∷ [])
unfolding encrypt_shares
sent = refl

decrypt_shares-encrypt_shares_example :
    (message : ShareMessage ℕ) × IsReceived toy 1 second
      (known_keys 2 6)
      (9 ∷ [])
      (11 ∷ [])
      to_second
      message
unfolding lookup
decrypt_shares-encrypt_shares_example =
    decrypt_shares-encrypt_shares toy toy-IsRight 1 5 (known_keys 2 6) (9 ∷ []) (11 ∷ [])
      ((2, to_second) ∷ []) second (record { s_pk = 0; c_pk = public_key 2 23 5 })
      (record { s_pk = 0; c_pk = public_key 2 23 6 }) to_second sent refl refl refl refl refl

-- The client 1 is gone: its key share is revealed, and only that.
revealed :
    take_out_shares toy second (2 ∷ [])
    ≡ ok (record { b_share = (2, 77) ∷ []; s_sk_share = (1, 9) ∷ [] })
unfolding take_out_shares take_out_from decrypt_shares lookup agree public_key
revealed = refl

take_out_shares-Reveals_example :
    Reveals toy second (2 ∷ []) (record { b_share = (2, 77) ∷ []; s_sk_share = (1, 9) ∷ [] })
take_out_shares-Reveals_example = take_out_shares-Reveals toy second (2 ∷ []) _ revealed
