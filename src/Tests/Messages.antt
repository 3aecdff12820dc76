-- ===== src/Tests/Messages.antt =====
-- The encryption of messages with a toy cryptography that has the assumed properties.
use vimla_ai.Common.{
  ℕ, ◌+◌, ◌≡◌, refl, inl, true, Option, none, some, [], ◌∷◌, ◌==◌, if◌then◌else◌, arith,
}
use vimla_ai.Billing.Result.{Result, ok, err}
use vimla_ai.E2ee.Bytes.{Bytes}
use vimla_ai.E2ee.Crypto.{KeyPair, Crypto, Texts, zeros}
use vimla_ai.E2ee.Ratchet.{
  RatchetError, RatchetState, Encrypted, get_skipped, init_ratchet_initiator,
  init_ratchet_responder, ratchet_encrypt, ratchet_decrypt,
}
use vimla_ai.E2ee.Ratchet.Skipping.{IsSynced}
use vimla_ai.E2ee.Ratchet.Reading.{ChainMessage, decrypt_all, decrypt_all_in_any_order}
use vimla_ai.E2ee.Ratchet.Session.{session_opens}
use vimla_ai.E2ee.Keys.{
  IdentityKeyPair, SignedPreKeyPair, OneTimePreKeyPair, X3dhInitiation, X3dhResponse,
  generate_signed_prekey, public_bundle_from, x3dh_initiate, x3dh_respond,
}
use vimla_ai.E2ee.Keys.Agreement.{IsIdentity, x3dh_agrees}
use vimla_ai.E2ee.Envelope.{
  WireEnvelope, encrypt_envelope, decrypt_envelope, seal_envelope, as_envelope_error,
}
use vimla_ai.E2ee.Envelope.Opening.{IsWireHeader, decrypt_envelope-encrypt}

abbrev sum : Bytes → ℕ
sum [] = 0
sum (x ∷ xs) = x + sum xs

abbrev toy_unseal : Bytes → Bytes → Bytes → Bytes → Option Bytes
toy_unseal key nonce associated [] = none
toy_unseal key nonce associated (tag ∷ text) =
    if tag == sum key + sum nonce + sum associated then some text else none

abbrev toy_public : Bytes → Bytes
toy_public secret = sum secret ∷ zeros 31

toy_unseal-seal :
    (key nonce associated text : Bytes)
    → toy_unseal key nonce associated ((sum key + sum nonce + sum associated) ∷ text) ≡ some text
toy_unseal-seal key nonce associated text = ground arith

toy_shared_comm :
    (a b : Bytes)
    → ◌≡◌ {A = Bytes} ((sum a + sum (toy_public b)) ∷ []) ((sum b + sum (toy_public a)) ∷ [])
toy_shared_comm a b = ground arith

abbrev toy : Crypto
toy = record {
  get_shared_secret = λ a public. (sum a + sum public) ∷ [];
  public_of = toy_public;
  hkdf_sha256 = λ ikm salt label n. (sum ikm + sum salt + label) ∷ zeros 40;
  hmac_sha256 = λ key text. (sum key + sum text) ∷ [];
  seal = λ key nonce associated text. (sum key + sum nonce + sum associated) ∷ text;
  unseal = toy_unseal;
  sign = λ secret message. zeros 64;
  verify = λ public message signature. true;
  sign_public_of = λ secret. zeros 32;
  length-public_of = λ secret. refl;
  length-sign_public_of = λ secret. refl;
  length-sign = λ secret message. refl;
  unseal-seal = toy_unseal-seal;
  shared_comm = toy_shared_comm;
  verify-sign = λ secret message. refl;
}

abbrev toy_texts : Texts
toy_texts = record {
  btoa = λ binary. binary;
  atob = λ text. some text;
  number_text = λ n. n ∷ [];
  atob-btoa = λ binary. refl;
  atob-empty = refl;
}

abbrev pair : ℕ → KeyPair
pair n = record { secret_key = n ∷ []; public_key = toy_public (n ∷ []) }

abbrev receiver : RatchetState
receiver = record {
  dhs_secret = [];
  dhs_public = [];
  dhr_public = some (5 ∷ []);
  root_key = [];
  sending_chain_key = none;
  receiving_chain_key = some (7 ∷ []);
  ns = 0;
  nr = 0;
  pn = 0;
  skipped = [];
}

receiver-IsSynced : IsSynced toy (7 ∷ []) (5 ∷ []) receiver
unfolding get_skipped
receiver-IsSynced = record { remote = refl; chain = refl; ahead = λ j le. refl }

abbrev message : ℕ → ChainMessage
message n = record { n = n; pn = 0; text = n ∷ 1 ∷ []; associated = 3 ∷ []; next = pair 9 }

decrypt_all_in_any_order_example :
    decrypt_all toy (7 ∷ []) (5 ∷ []) receiver (message 2 ∷ message 0 ∷ message 1 ∷ [])
    ≡ ok (2 ∷ 1 ∷ []) ∷ ok (0 ∷ 1 ∷ []) ∷ ok (1 ∷ 1 ∷ []) ∷ []
decrypt_all_in_any_order_example =
    decrypt_all_in_any_order toy (7 ∷ []) (5 ∷ []) receiver (message 2 ∷ message 0 ∷ message 1 ∷ [])
      receiver-IsSynced (omega arith)
      (
        (inl (omega arith), omega arith),
        ((inl (omega arith), omega arith), ((inl (omega arith), omega arith), tt)),
      )

abbrev alice : RatchetState
alice = init_ratchet_initiator toy (11 ∷ []) (pair 2).public_key (pair 3)

abbrev bob : RatchetState
bob = init_ratchet_responder toy (11 ∷ []) (pair 2)

session_opens_example :
    let alice' = (ratchet_encrypt toy alice (6 ∷ []) []).0 in
    (e : Encrypted) × (answer : Encrypted) × ((ratchet_encrypt toy alice (6 ∷ []) []).1 ≡ ok e)
    × ((ratchet_decrypt toy bob e.header e.ciphertext [] (pair 4)).1 ≡ ok (6 ∷ []))
    × ((ratchet_encrypt toy
          (ratchet_decrypt toy bob e.header e.ciphertext [] (pair 4)).0
          (8 ∷ [])
          (1 ∷ [])).1
        ≡ ok answer)
    × ((ratchet_decrypt toy alice' answer.header answer.ciphertext (1 ∷ []) (pair 5)).1
        ≡ ok (8 ∷ []))
session_opens_example =
    session_opens toy (11 ∷ []) (pair 2) (pair 3) (6 ∷ []) [] (pair 4) (pair 5) (8 ∷ []) (1 ∷ [])
      refl refl refl refl

abbrev identity : ℕ → IdentityKeyPair
identity n = record {
  ed25519_secret = n ∷ [];
  ed25519_public = zeros 32;
  x25519_secret = n ∷ [];
  x25519_public = toy_public (n ∷ []);
}

identity-IsIdentity : (n : ℕ) → IsIdentity toy toy_texts (identity n)
identity-IsIdentity n = record { signing = refl; agreement = refl }

abbrev one_time : Option OneTimePreKeyPair
one_time = some (record { key_id = 6; secret = 13 ∷ []; public_key = toy_public (13 ∷ []) })

abbrev signed : SignedPreKeyPair
signed = generate_signed_prekey toy toy_texts (identity 2) 5 (pair 12)

x3dh_agrees_example :
    (i : X3dhInitiation) × (r : X3dhResponse) × (x3dh_initiate toy toy_texts
        (identity 1)
        (public_bundle_from toy toy_texts (identity 2) signed one_time)
        (pair 14)
      ≡ ok i)
    × (x3dh_respond toy toy_texts (identity 2) signed.secret (some (13 ∷ [])) i.init_header ≡ ok r)
    × (i.shared_key ≡ r.shared_key)
    × (i.associated_data ≡ r.associated_data)
    × (i.remote_ratchet_public ≡ signed.public_key)
x3dh_agrees_example =
    x3dh_agrees toy toy_texts (identity 1) (identity 2) 5 (pair 12) one_time (pair 14)
      (identity-IsIdentity 1) (identity-IsIdentity 2) refl refl refl

abbrev or_nothing : Result RatchetError Encrypted → Encrypted
or_nothing (ok e) = e
or_nothing (err _) = record { header = record { dh_public = []; n = 0; pn = 0 }; ciphertext = [] }

abbrev sent : Encrypted
sent = or_nothing (ratchet_encrypt toy alice (6 ∷ []) (1 ∷ [])).1

abbrev after_sent : RatchetState
after_sent = (ratchet_encrypt toy alice (6 ∷ []) (1 ∷ [])).0

sent_ok : ratchet_encrypt toy alice (6 ∷ []) (1 ∷ []) ≡ (after_sent, ok sent)
unfolding ratchet_encrypt init_ratchet_initiator
sent_ok = refl

sent-IsWireHeader : IsWireHeader sent.header
unfolding ratchet_encrypt init_ratchet_initiator
sent-IsWireHeader = record { long = refl; n_fits = omega arith; pn_fits = omega arith }

abbrev envelope : WireEnvelope
envelope = seal_envelope toy toy_texts (λ _. []) (identity 1) (1 ∷ []) none sent

envelope_ok :
    encrypt_envelope toy toy_texts (λ _. []) (identity 1) alice (6 ∷ []) (1 ∷ []) none
    ≡ (after_sent, ok envelope)
unfolding encrypt_envelope ratchet_encrypt init_ratchet_initiator
envelope_ok = refl

decrypt_envelope-encrypt_example :
    decrypt_envelope toy toy_texts (λ _. []) (zeros 32) bob envelope (1 ∷ []) (pair 4) ≡ (
      let (r', result) = ratchet_decrypt toy bob sent.header sent.ciphertext (1 ∷ []) (pair 4) in
      (r', as_envelope_error toy toy_texts (λ _. []) result))
decrypt_envelope-encrypt_example =
    decrypt_envelope-encrypt toy toy_texts (λ _. []) (identity 1) alice after_sent bob (6 ∷ [])
      (1 ∷ []) none (pair 4) envelope sent refl sent_ok sent-IsWireHeader envelope_ok
