-- ===== src/E2ee/Keys/Agreement.antt =====
-- Both sides of the key agreement get the same key.
use vimla_ai.Common.{
  ℕ, ◌≡◌, refl, ap, ◌∙◌, true, Option, none, some, List, [], ◌∷◌, ◌++◌, length, arith,
}
use vimla_ai.Billing.Result.{ok}
use vimla_ai.E2ee.Bytes.{Bytes}
use vimla_ai.E2ee.Crypto.{KeyPair, Crypto, Texts, zeros, x3dh_label}
use vimla_ai.E2ee.Keys.{
  encoded_one_time, IdentityKeyPair, OneTimePreKeyPair, X3dhInitiation, X3dhResponse, key_id_of,
  generate_signed_prekey, public_bundle_from, decode_public_key, decode_fixed, one_time_part,
  x3dh_secret, one_time_secret_part, x3dh_initiate, x3dh_respond, signed_prekey_message,
}

module _ (c : Crypto) (texts : Texts) where
  abbrev pub IsPair : Bytes → Bytes → Type 0
  IsPair secret public = public ≡ c.public_of secret

  pub record IsIdentity (i : IdentityKeyPair) : Type 0 where
    pub signing : i.ed25519_public ≡ c.sign_public_of i.ed25519_secret
    pub agreement : IsPair i.x25519_secret i.x25519_public

  abbrev pub IsOneTime : Option OneTimePreKeyPair → Type 0
  IsOneTime none = Unit
  IsOneTime (some k) = IsPair k.secret k.public_key

  abbrev pub secret_of : Option OneTimePreKeyPair → Option Bytes
  secret_of none = none
  secret_of (some k) = some k.secret

  decode-encode :
      (bytes : Bytes) → length bytes ≡ 32 → decode_public_key c texts (texts.btoa bytes) ≡ ok bytes
  unfolding decode_public_key
  decode-encode bytes long = ground (arith, texts.atob-btoa bytes)

  decode-pair :
      (secret public : Bytes)
      → IsPair secret public
      → decode_public_key c texts (texts.btoa public) ≡ ok public
  decode-pair secret public pair = decode-encode public (ap length pair ∙ c.length-public_of secret)

  decode-identity :
      (i : IdentityKeyPair)
      → IsIdentity i
      → decode_public_key c texts (texts.btoa i.ed25519_public) ≡ ok i.ed25519_public
  decode-identity i k =
      decode-encode i.ed25519_public
        (ap length k.signing ∙ c.length-sign_public_of i.ed25519_secret)

  decode_fixed-encode :
      (bytes : Bytes) → length bytes ≡ 64 → decode_fixed c texts (texts.btoa bytes) 64 ≡ ok bytes
  unfolding decode_fixed
  decode_fixed-encode bytes long = ground (arith, texts.atob-btoa bytes)

  -- Both ends of a key agreement compute the same secret.
  shared :
      (a public_a b public_b : Bytes)
      → IsPair a public_a
      → IsPair b public_b
      → c.get_shared_secret a public_b ≡ c.get_shared_secret b public_a
  shared a public_a b public_b pa pb = rw (pa, pb) (c.shared_comm a b)

  part_of_decoded :
      (ephemeral : Bytes) (value : List ℕ) (public : Bytes)
      → decode_public_key c texts value ≡ ok public
      → one_time_part c texts ephemeral (some value) ≡ ok (c.get_shared_secret ephemeral public)
  unfolding one_time_part decode_public_key
  part_of_decoded ephemeral [] public h = absurd (ground (arith, texts.atob-empty))
  part_of_decoded ephemeral (x ∷ xs) public h = rw h refl

  one_time_agrees :
      (one_time : Option OneTimePreKeyPair) (ephemeral : KeyPair)
      → IsOneTime one_time
      → IsPair ephemeral.secret_key ephemeral.public_key
      → one_time_part c texts ephemeral.secret_key (encoded_one_time c texts one_time)
        ≡ ok (one_time_secret_part c texts (secret_of one_time) ephemeral.public_key)
  unfolding one_time_part
  one_time_agrees none ephemeral k pair = refl
  one_time_agrees (some k) ephemeral known pair =
      part_of_decoded ephemeral.secret_key (texts.btoa k.public_key) k.public_key
        (decode-pair k.secret k.public_key known)
      ∙ ap ok (shared ephemeral.secret_key ephemeral.public_key k.secret k.public_key pair known)

  -- With a bundle that its owner published, both sides of the agreement succeed, and they get the
  -- same shared key and associated data; the ratchet starts from the signed key.
  pub x3dh_agrees :
      (alice bob : IdentityKeyPair) (key_id : ℕ) (x : KeyPair) (one_time : Option OneTimePreKeyPair)
      (ephemeral : KeyPair)
      → IsIdentity alice
      → IsIdentity bob
      → IsPair x.secret_key x.public_key
      → IsOneTime one_time
      → IsPair ephemeral.secret_key ephemeral.public_key
      → let signed = generate_signed_prekey c texts bob key_id x in
        (i : X3dhInitiation) × (r : X3dhResponse) × (x3dh_initiate c texts alice
            (public_bundle_from c texts bob signed one_time)
            ephemeral
          ≡ ok i)
        × (x3dh_respond c texts bob signed.secret (secret_of one_time) i.init_header ≡ ok r)
        × (i.shared_key ≡ r.shared_key)
        × (i.associated_data ≡ r.associated_data)
        × (i.remote_ratchet_public ≡ signed.public_key)
  unfolding x3dh_initiate x3dh_respond generate_signed_prekey public_bundle_from
  x3dh_agrees alice bob key_id x one_time ephemeral a b px po pe =
      let message = signed_prekey_message c texts key_id x.public_key in
      let signature = c.sign bob.ed25519_secret message in
      let dh4 = one_time_secret_part c texts (secret_of one_time) ephemeral.public_key in
      let i : X3dhInitiation = record {
        shared_key =
            x3dh_secret c texts (c.get_shared_secret alice.x25519_secret x.public_key)
              (c.get_shared_secret ephemeral.secret_key bob.x25519_public)
              (c.get_shared_secret ephemeral.secret_key x.public_key) dh4;
        associated_data = alice.ed25519_public ++ bob.ed25519_public;
        init_header = record {
          identity_ed25519_public = texts.btoa alice.ed25519_public;
          identity_x25519_public = texts.btoa alice.x25519_public;
          ephemeral_public = texts.btoa ephemeral.public_key;
          signed_prekey_id = key_id;
          one_time_prekey_id = key_id_of one_time;
        };
        remote_ratchet_public = x.public_key;
      } in
      let r : X3dhResponse = record {
        shared_key =
            x3dh_secret c texts (c.get_shared_secret x.secret_key alice.x25519_public)
              (c.get_shared_secret bob.x25519_secret ephemeral.public_key)
              (c.get_shared_secret x.secret_key ephemeral.public_key) dh4;
        associated_data = alice.ed25519_public ++ bob.ed25519_public;
      } in
      let verified : c.verify bob.ed25519_public message signature ≡ true =
        rw b.signing (c.verify-sign bob.ed25519_secret message) in
      (
        i,
        r,
        rw (decode-identity bob b) (
            rw (decode-pair bob.x25519_secret bob.x25519_public b.agreement) (
              rw (decode-pair x.secret_key x.public_key px) (
                rw (decode_fixed-encode signature (c.length-sign bob.ed25519_secret message))
                  (rw verified (rw (one_time_agrees one_time ephemeral po pe) refl))))),
        rw (decode-identity alice a) (
            rw (decode-pair alice.x25519_secret alice.x25519_public a.agreement)
              (rw (decode-pair ephemeral.secret_key ephemeral.public_key pe) refl)),
        ap (λ l. c.hkdf_sha256 l (zeros 32) x3dh_label 32)
            (rw
              (
                shared alice.x25519_secret alice.x25519_public x.secret_key x.public_key a.agreement
                    px,
                shared ephemeral.secret_key ephemeral.public_key bob.x25519_secret bob.x25519_public
                    pe b.agreement,
                shared ephemeral.secret_key ephemeral.public_key x.secret_key x.public_key pe px,
              )
              refl),
        refl,
        refl,
      )
