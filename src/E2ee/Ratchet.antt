-- ===== src/E2ee/Ratchet.antt =====
-- packages/e2ee/src/ratchet.ts: the double ratchet. The code changes its state in place, so an
-- operation returns the state also when it throws. What `x25519.keygen` gives is an argument.
pub mod Skipping
pub mod Reading
pub mod Session
use vimla_ai.Common.{
  ℕ, zero, suc, ◌+◌, ◌-◌, Bool, true, false, not, ◌&&◌, Option, none, some, List, [], ◌∷◌, ◌++◌,
  length, ltb, ◌==◌, if◌then◌else◌,
}
use vimla_ai.Billing.Result.{Result, ok, err}
use vimla_ai.E2ee.Bytes.{Bytes, constant_time_equal, slice, u32be, read_u32be}
use vimla_ai.E2ee.Crypto.{KeyPair, Crypto, kdf_root, next_chain_key, message_key, message_nonce}

pub data RatchetError : Type 0 where
  sending_not_initialized receiving_not_initialized invalid_header : RatchetError
  too_many_skipped no_remote_key authentication_failed : RatchetError

abbrev pub max_skip : ℕ
max_skip = 200

pub record RatchetHeader : Type 0 where
  pub dh_public : Bytes
  pub n : ℕ
  pub pn : ℕ

-- `skippedKey` joins a public key in base 64 and a number by a colon, which tells the parts apart.
pub record SkippedKey : Type 0 where
  pub of_public : Bytes
  pub of_number : ℕ
  pub key : Bytes

abbrev pub has_key : Bytes → ℕ → SkippedKey → Bool
has_key public n entry = constant_time_equal entry.of_public public && entry.of_number == n

unfoldable pub get_skipped : Bytes → ℕ → List SkippedKey → Option Bytes
get_skipped public n [] = none
get_skipped public n (e ∷ es) = if has_key public n e then some e.key else get_skipped public n es

-- `Map.set`, which replaces an entry in its place.
unfoldable pub set_skipped : Bytes → ℕ → Bytes → List SkippedKey → List SkippedKey
set_skipped public n key [] = record { of_public = public; of_number = n; key = key } ∷ []
set_skipped public n key (e ∷ es) =
    if has_key public n e then record e { key = key } ∷ es else e ∷ set_skipped public n key es

unfoldable pub delete_skipped : Bytes → ℕ → List SkippedKey → List SkippedKey
delete_skipped public n [] = []
delete_skipped public n (e ∷ es) =
    let rest = delete_skipped public n es in if has_key public n e then rest else e ∷ rest

pub record RatchetState : Type 0 where
  pub dhs_secret : Bytes
  pub dhs_public : Bytes
  pub dhr_public : Option Bytes
  pub root_key : Bytes
  pub sending_chain_key : Option Bytes
  pub receiving_chain_key : Option Bytes
  pub ns : ℕ
  pub nr : ℕ
  pub pn : ℕ
  pub skipped : List SkippedKey

abbrev pub Outcome : Type 0 → Type 0
Outcome A = RatchetState × Result RatchetError A

unfoldable pub encode_header : RatchetHeader → Bytes
encode_header h = h.dh_public ++ (u32be h.pn ++ u32be h.n)

unfoldable pub decode_header : Bytes → Result RatchetError RatchetHeader
decode_header bytes =
    if length bytes == 40
    then ok
        (record { dh_public = slice 0 32 bytes; pn = read_u32be bytes 32; n = read_u32be bytes 36 })
    else err invalid_header

pub record Encrypted : Type 0 where
  pub header : RatchetHeader
  pub ciphertext : Bytes

module _ (c : Crypto) where
  unfoldable pub init_ratchet_initiator : Bytes → Bytes → KeyPair → RatchetState
  init_ratchet_initiator shared_key remote_public local =
      let keys = kdf_root c shared_key (c.get_shared_secret local.secret_key remote_public) in
      record {
        dhs_secret = local.secret_key;
        dhs_public = local.public_key;
        dhr_public = some remote_public;
        root_key = keys.root_key;
        sending_chain_key = some keys.chain_key;
        receiving_chain_key = none;
        ns = 0;
        nr = 0;
        pn = 0;
        skipped = [];
      }

  unfoldable pub init_ratchet_responder : Bytes → KeyPair → RatchetState
  init_ratchet_responder shared_key local = record {
    dhs_secret = local.secret_key;
    dhs_public = local.public_key;
    dhr_public = none;
    root_key = shared_key;
    sending_chain_key = none;
    receiving_chain_key = none;
    ns = 0;
    nr = 0;
    pn = 0;
    skipped = [];
  }

  abbrev pub aead_encrypt : Bytes → Bytes → Bytes → Bytes
  aead_encrypt key text associated = c.seal key (message_nonce c key) associated text

  abbrev pub aead_decrypt : Bytes → Bytes → Bytes → Result RatchetError Bytes
  aead_decrypt key ciphertext associated =
      elim (c.unseal key (message_nonce c key) associated ciphertext) [
        | none ↦ err authentication_failed
        | some text ↦ ok text
      ]

  unfoldable pub ratchet_encrypt : RatchetState → Bytes → Bytes → Outcome Encrypted
  ratchet_encrypt s text associated = elim s.sending_chain_key [
    | none ↦ (s, err sending_not_initialized)
    | some chain_key ↦
        let header : RatchetHeader = record { dh_public = s.dhs_public; n = s.ns; pn = s.pn } in
        (
          record s { sending_chain_key = some (next_chain_key c chain_key); ns = s.ns + 1 },
          ok (record {
            header = header;
            ciphertext =
                aead_encrypt (message_key c chain_key) text (associated ++ encode_header header);
          }),
        )
  ]

  -- The loop of `skipMessageKeys` for the rounds that are left, with the receiving chain's key.
  unfoldable pub skip_rounds : ℕ → Bytes → RatchetState → Outcome (Unit {0})
  skip_rounds zero chain_key s = (s, ok tt)
  skip_rounds (suc rounds) chain_key s = elim s.dhr_public [
    | none ↦
        (record s { receiving_chain_key = some (next_chain_key c chain_key) }, err no_remote_key)
    | some public ↦ skip_rounds rounds (next_chain_key c chain_key) (record s {
      receiving_chain_key = some (next_chain_key c chain_key);
      skipped = set_skipped public s.nr (message_key c chain_key) s.skipped;
      nr = s.nr + 1;
    })
  ]

  unfoldable pub skip_message_keys : RatchetState → ℕ → Outcome (Unit {0})
  skip_message_keys s until = elim s.receiving_chain_key [
    | none ↦ (s, ok tt)
    | some chain_key ↦
        if ltb (s.nr + max_skip) until
        then (s, err too_many_skipped)
        else skip_rounds (until - s.nr) chain_key s
  ]

  unfoldable pub dh_ratchet : RatchetState → RatchetHeader → KeyPair → RatchetState
  dh_ratchet s h next =
      let recv = kdf_root c s.root_key (c.get_shared_secret s.dhs_secret h.dh_public) in
      let send = kdf_root c recv.root_key (c.get_shared_secret next.secret_key h.dh_public) in
      record {
        dhs_secret = next.secret_key;
        dhs_public = next.public_key;
        dhr_public = some h.dh_public;
        root_key = send.root_key;
        sending_chain_key = some send.chain_key;
        receiving_chain_key = some recv.chain_key;
        ns = 0;
        nr = 0;
        pn = s.ns;
        skipped = s.skipped;
      }

  -- From `skipMessageKeys(state, header.n)` to the end.
  abbrev pub read_with_chain : Bytes → Bytes → RatchetHeader → Outcome (Unit {0}) → Outcome Bytes
  read_with_chain ciphertext associated h (s, err e) = (s, err e)
  read_with_chain ciphertext associated h (s, ok _) = elim s.receiving_chain_key [
    | none ↦ (s, err receiving_not_initialized)
    | some chain_key ↦ (
      record s { receiving_chain_key = some (next_chain_key c chain_key); nr = s.nr + 1 },
      aead_decrypt (message_key c chain_key) ciphertext (associated ++ encode_header h),
    )
  ]

  abbrev pub is_remote : Option Bytes → Bytes → Bool
  is_remote none public = false
  is_remote (some known) public = constant_time_equal public known

  abbrev pub then_ratchet : RatchetHeader → KeyPair → Outcome (Unit {0}) → Outcome (Unit {0})
  then_ratchet h next (s, err e) = (s, err e)
  then_ratchet h next (s, ok _) = (dh_ratchet s h next, ok tt)

  abbrev pub then_skip : RatchetHeader → Outcome (Unit {0}) → Outcome (Unit {0})
  then_skip h (s, err e) = (s, err e)
  then_skip h (s, ok _) = skip_message_keys s h.n

  unfoldable pub ratchet_decrypt :
      RatchetState → RatchetHeader → Bytes → Bytes → KeyPair → Outcome Bytes
  ratchet_decrypt s h ciphertext associated next = elim (get_skipped h.dh_public h.n s.skipped) [
    | some key ↦ (
      record s { skipped = delete_skipped h.dh_public h.n s.skipped },
      aead_decrypt key ciphertext (associated ++ encode_header h),
    )
    | none ↦
        let turned =
          if is_remote s.dhr_public h.dh_public
          then (s, ok tt)
          else then_ratchet h next (skip_message_keys s h.pn) in
        read_with_chain ciphertext associated h (then_skip h turned)
  ]
