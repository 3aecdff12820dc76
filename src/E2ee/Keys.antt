-- ===== src/E2ee/Keys.antt =====
-- packages/e2ee/src/keys.ts and x3dh.ts: the key agreement. What `x25519.keygen` gives for the
-- ephemeral key is an argument.
pub mod Agreement
use vimla_ai.Common.{
  ℕ, Bool, true, false, not, Option, none, some, List, [], ◌∷◌, ◌++◌, length, ◌==◌, if◌then◌else◌,
}
use vimla_ai.Billing.Result.{Result, ok, err, ◌>>=◌, ◌>>◌, throw_if, or_throw}
use vimla_ai.E2ee.Bytes.{Bytes}
use vimla_ai.E2ee.Crypto.{KeyPair, Crypto, Texts, zeros, x3dh_label}

pub data KeyError : Type 0 where
  invalid_base64 invalid_public_key_length invalid_key_material_length : KeyError
  signed_prekey_failed : KeyError

pub record IdentityKeyPair : Type 0 where
  pub ed25519_secret : Bytes
  pub ed25519_public : Bytes
  pub x25519_secret : Bytes
  pub x25519_public : Bytes

pub record SignedPreKeyPair : Type 0 where
  pub key_id : ℕ
  pub secret : Bytes
  pub public_key : Bytes
  pub signature : Bytes

pub record OneTimePreKeyPair : Type 0 where
  pub key_id : ℕ
  pub secret : Bytes
  pub public_key : Bytes

-- Public keys stand in base 64.
pub record PublicPreKeyBundle : Type 0 where
  pub identity_ed25519_public : List ℕ
  pub identity_x25519_public : List ℕ
  pub signed_prekey_id : ℕ
  pub signed_prekey_public : List ℕ
  pub signed_prekey_signature : List ℕ
  pub one_time_prekey_id : Option ℕ
  pub one_time_prekey_public : Option (List ℕ)

pub record X3dhInitHeader : Type 0 where
  pub identity_ed25519_public : List ℕ
  pub identity_x25519_public : List ℕ
  pub ephemeral_public : List ℕ
  pub signed_prekey_id : ℕ
  pub one_time_prekey_id : Option ℕ

pub record X3dhInitiation : Type 0 where
  pub shared_key : Bytes
  pub associated_data : Bytes
  pub init_header : X3dhInitHeader
  pub remote_ratchet_public : Bytes

pub record X3dhResponse : Type 0 where
  pub shared_key : Bytes
  pub associated_data : Bytes

-- "VimlaSignedPreKeyV1:"
abbrev pub signed_prekey_prefix : List ℕ
signed_prekey_prefix =
    b'V' ∷ b'i' ∷ b'm' ∷ b'l' ∷ b'a' ∷ b'S' ∷ b'i' ∷ b'g' ∷ b'n' ∷ b'e' ∷ b'd' ∷ b'P' ∷ b'r' ∷ b'e'
    ∷ b'K' ∷ b'e' ∷ b'y' ∷ b'V' ∷ b'1' ∷ b':' ∷ []

abbrev pub key_id_of : Option OneTimePreKeyPair → Option ℕ
key_id_of none = none
key_id_of (some k) = some k.key_id

module _ (c : Crypto) (texts : Texts) where
  abbrev pub signed_prekey_message : ℕ → Bytes → Bytes
  signed_prekey_message key_id public =
      signed_prekey_prefix ++ (texts.number_text key_id ++ (b':' ∷ texts.btoa public))

  -- The signature is made with the key of the identity.
  unfoldable pub generate_signed_prekey : IdentityKeyPair → ℕ → KeyPair → SignedPreKeyPair
  generate_signed_prekey identity key_id x = record {
    key_id = key_id;
    secret = x.secret_key;
    public_key = x.public_key;
    signature = c.sign identity.ed25519_secret (signed_prekey_message key_id x.public_key);
  }

  abbrev pub verify_signed_prekey : Bytes → ℕ → Bytes → Bytes → Bool
  verify_signed_prekey identity key_id public signature =
      c.verify identity (signed_prekey_message key_id public) signature

  abbrev pub encoded_one_time : Option OneTimePreKeyPair → Option (List ℕ)
  encoded_one_time none = none
  encoded_one_time (some k) = some (texts.btoa k.public_key)

  unfoldable pub public_bundle_from :
      IdentityKeyPair → SignedPreKeyPair → Option OneTimePreKeyPair → PublicPreKeyBundle
  public_bundle_from identity signed one_time = record {
    identity_ed25519_public = texts.btoa identity.ed25519_public;
    identity_x25519_public = texts.btoa identity.x25519_public;
    signed_prekey_id = signed.key_id;
    signed_prekey_public = texts.btoa signed.public_key;
    signed_prekey_signature = texts.btoa signed.signature;
    one_time_prekey_id = key_id_of one_time;
    one_time_prekey_public = encoded_one_time one_time;
  }

  unfoldable pub decode_public_key : List ℕ → Result KeyError Bytes
  decode_public_key value = do
    bytes ← or_throw (texts.atob value) invalid_base64
    if length bytes == 32 then ok bytes else err invalid_public_key_length

  unfoldable pub decode_fixed : List ℕ → ℕ → Result KeyError Bytes
  decode_fixed value n = do
    bytes ← or_throw (texts.atob value) invalid_base64
    if length bytes == n then ok bytes else err invalid_key_material_length

  -- The fourth part of the secret. An empty text counts as an absent key.
  unfoldable pub one_time_part : Bytes → Option (List ℕ) → Result KeyError Bytes
  one_time_part ephemeral none = ok []
  one_time_part ephemeral (some []) = ok []
  one_time_part ephemeral (some (x ∷ xs)) = do
    public ← decode_public_key (x ∷ xs)
    ok (c.get_shared_secret ephemeral public)

  abbrev pub x3dh_secret : Bytes → Bytes → Bytes → Bytes → Bytes
  x3dh_secret dh1 dh2 dh3 dh4 =
      c.hkdf_sha256 (dh1 ++ (dh2 ++ (dh3 ++ dh4))) (zeros 32) x3dh_label 32

  unfoldable pub x3dh_initiate :
      IdentityKeyPair → PublicPreKeyBundle → KeyPair → Result KeyError X3dhInitiation
  x3dh_initiate local remote ephemeral = do
    remote_ed ← decode_public_key remote.identity_ed25519_public
    remote_x ← decode_public_key remote.identity_x25519_public
    remote_signed ← decode_public_key remote.signed_prekey_public
    signature ← decode_fixed remote.signed_prekey_signature 64
    throw_if (not (verify_signed_prekey remote_ed remote.signed_prekey_id remote_signed signature))
        signed_prekey_failed
    dh4 ← one_time_part ephemeral.secret_key remote.one_time_prekey_public
    ok (record {
      shared_key =
          x3dh_secret (c.get_shared_secret local.x25519_secret remote_signed)
            (c.get_shared_secret ephemeral.secret_key remote_x)
            (c.get_shared_secret ephemeral.secret_key remote_signed) dh4;
      associated_data = local.ed25519_public ++ remote_ed;
      init_header = record {
        identity_ed25519_public = texts.btoa local.ed25519_public;
        identity_x25519_public = texts.btoa local.x25519_public;
        ephemeral_public = texts.btoa ephemeral.public_key;
        signed_prekey_id = remote.signed_prekey_id;
        one_time_prekey_id = remote.one_time_prekey_id;
      };
      remote_ratchet_public = remote_signed;
    })

  abbrev pub one_time_secret_part : Option Bytes → Bytes → Bytes
  one_time_secret_part none ephemeral = []
  one_time_secret_part (some secret) ephemeral = c.get_shared_secret secret ephemeral

  unfoldable pub x3dh_respond :
      IdentityKeyPair → Bytes → Option Bytes → X3dhInitHeader → Result KeyError X3dhResponse
  x3dh_respond local signed_secret one_time_secret init = do
    remote_ed ← decode_public_key init.identity_ed25519_public
    remote_x ← decode_public_key init.identity_x25519_public
    ephemeral ← decode_public_key init.ephemeral_public
    ok (record {
      shared_key =
          x3dh_secret (c.get_shared_secret signed_secret remote_x)
            (c.get_shared_secret local.x25519_secret ephemeral)
            (c.get_shared_secret signed_secret ephemeral)
            (one_time_secret_part one_time_secret ephemeral);
      associated_data = remote_ed ++ local.ed25519_public;
    })
