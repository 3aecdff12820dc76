-- ===== src/E2ee/Crypto.antt =====
-- What packages/e2ee takes from @noble/curves, @noble/hashes and @noble/ciphers, with the properties
-- that it relies on, and packages/e2ee/src/kdf.ts.
use vimla_ai.Common.{ℕ, zero, suc, Bool, true, ◌≡◌, length, List, [], ◌∷◌, Option, some}
use vimla_ai.E2ee.Bytes.{Bytes, slice}

pub record KeyPair : Type 0 where
  pub secret_key : Bytes
  pub public_key : Bytes

pub record Crypto : Type 0 where
  pub get_shared_secret : Bytes → Bytes → Bytes
  pub public_of : Bytes → Bytes
  -- `hkdf(sha256, ikm, salt, utf8(info), length)` by its input, salt, info and length.
  pub hkdf_sha256 : Bytes → Bytes → ℕ → ℕ → Bytes
  pub hmac_sha256 : Bytes → Bytes → Bytes
  -- `chacha20poly1305` by its key, nonce, associated data and text; a failed check is `none`.
  pub seal : Bytes → Bytes → Bytes → Bytes → Bytes
  pub unseal : Bytes → Bytes → Bytes → Bytes → Option Bytes
  pub sign : Bytes → Bytes → Bytes
  pub verify : Bytes → Bytes → Bytes → Bool
  pub sign_public_of : Bytes → Bytes
  pub length-public_of : (secret : Bytes) → length (public_of secret) ≡ 32
  pub length-sign_public_of : (secret : Bytes) → length (sign_public_of secret) ≡ 32
  pub length-sign : (secret message : Bytes) → length (sign secret message) ≡ 64
  pub unseal-seal :
      (key nonce associated text : Bytes)
      → unseal key nonce associated (seal key nonce associated text) ≡ some text
  pub shared_comm :
      (a b : Bytes) → get_shared_secret a (public_of b) ≡ get_shared_secret b (public_of a)
  pub verify-sign :
      (secret message : Bytes) → verify (sign_public_of secret) message (sign secret message) ≡ true

-- The labels of the derivations.
abbrev pub root_label : ℕ
root_label = 1

abbrev pub nonce_label : ℕ
nonce_label = 2

abbrev pub x3dh_label : ℕ
x3dh_label = 3

abbrev pub zeros : ℕ → Bytes
zeros zero = []
zeros (suc n) = 0 ∷ zeros n

pub record RootKeys : Type 0 where
  pub root_key : Bytes
  pub chain_key : Bytes

module _ (c : Crypto) where
  abbrev pub kdf_root : Bytes → Bytes → RootKeys
  kdf_root root dh_out =
      let material = c.hkdf_sha256 dh_out root root_label 64 in
      record { root_key = slice 0 32 material; chain_key = slice 32 64 material }

  -- The two results of `kdfChain`.
  abbrev pub next_chain_key : Bytes → Bytes
  next_chain_key chain_key = c.hmac_sha256 chain_key (2 ∷ [])

  abbrev pub message_key : Bytes → Bytes
  message_key chain_key = c.hmac_sha256 chain_key (1 ∷ [])

  abbrev pub message_nonce : Bytes → Bytes
  message_nonce key = c.hkdf_sha256 key (zeros 32) nonce_label 12

-- What the language gives for texts; a text is the list of its code units.
pub record Texts : Type 0 where
  pub btoa : List ℕ → List ℕ
  -- `none` is a text that is no base 64.
  pub atob : List ℕ → Option (List ℕ)
  pub number_text : ℕ → List ℕ
  pub atob-btoa : (binary : List ℕ) → atob (btoa binary) ≡ some binary
  pub atob-empty : atob [] ≡ some []
