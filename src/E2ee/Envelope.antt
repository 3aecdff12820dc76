-- ===== src/E2ee/Envelope.antt =====
-- packages/e2ee/src/envelope.ts: the envelope of a direct message. The associated data and the text
-- of the first header, which `JSON.stringify` makes, are arguments.
pub mod Opening
use vimla_ai.Common.{ℕ, Bool, true, false, not, Option, none, some, List, [], ◌∷◌, ◌++◌}
use vimla_ai.Billing.Result.{Result, ok, err, ◌>>=◌, or_throw}
use vimla_ai.E2ee.Bytes.{Bytes}
use vimla_ai.E2ee.Crypto.{KeyPair, Crypto, Texts}
use vimla_ai.E2ee.Keys.{IdentityKeyPair, X3dhInitHeader}
use vimla_ai.E2ee.Ratchet.{
  RatchetError, RatchetHeader, RatchetState, Outcome, Encrypted, encode_header, decode_header,
  ratchet_encrypt, ratchet_decrypt,
}

pub data EnvelopeError : Type 0 where
  ratchet : RatchetError → EnvelopeError
  invalid_base64 invalid_signature : EnvelopeError

pub record WireEnvelope : Type 0 where
  pub header_b64 : List ℕ
  pub ciphertext_b64 : List ℕ
  pub dh_public_b64 : List ℕ
  pub message_number : ℕ
  pub previous_chain_length : ℕ
  pub sender_signature_b64 : List ℕ
  pub x3dh_init : Option X3dhInitHeader

abbrev pub EnvelopeOutcome : Type 0 → Type 0
EnvelopeOutcome A = RatchetState × Result EnvelopeError A

-- "VimlaDirectV1"
abbrev pub signature_prefix : Bytes
signature_prefix =
    b'V' ∷ b'i' ∷ b'm' ∷ b'l' ∷ b'a' ∷ b'D' ∷ b'i' ∷ b'r' ∷ b'e' ∷ b'c' ∷ b't' ∷ b'V' ∷ b'1' ∷ []

module _ (c : Crypto) (texts : Texts) (init_text : X3dhInitHeader → Bytes) where
  abbrev pub text_of_init : Option X3dhInitHeader → Bytes
  text_of_init none = []
  text_of_init (some init) = init_text init

  unfoldable pub signature_payload : Bytes → Bytes → Bytes → Option X3dhInitHeader → Bytes
  signature_payload header ciphertext associated init =
      signature_prefix ++ (header ++ (ciphertext ++ (associated ++ text_of_init init)))

  unfoldable pub seal_envelope :
      IdentityKeyPair → Bytes → Option X3dhInitHeader → Encrypted → WireEnvelope
  seal_envelope identity associated init sent =
      let header_bytes = encode_header sent.header in
      record {
        header_b64 = texts.btoa header_bytes;
        ciphertext_b64 = texts.btoa sent.ciphertext;
        dh_public_b64 = texts.btoa sent.header.dh_public;
        message_number = sent.header.n;
        previous_chain_length = sent.header.pn;
        sender_signature_b64 = texts.btoa (
            c.sign identity.ed25519_secret
              (signature_payload header_bytes sent.ciphertext associated init));
        x3dh_init = init;
      }

  abbrev pub then_seal :
      IdentityKeyPair
      → Bytes
      → Option X3dhInitHeader
      → Outcome Encrypted
      → EnvelopeOutcome WireEnvelope
  then_seal identity associated init (s, err e) = (s, err (ratchet e))
  then_seal identity associated init (s, ok sent) =
      (s, ok (seal_envelope identity associated init sent))

  unfoldable pub encrypt_envelope :
      IdentityKeyPair
      → RatchetState
      → Bytes
      → Bytes
      → Option X3dhInitHeader
      → EnvelopeOutcome WireEnvelope
  encrypt_envelope identity s text associated init =
      then_seal identity associated init (ratchet_encrypt c s text associated)

  pub record Opened : Type 0 where
    pub header : RatchetHeader
    pub ciphertext : Bytes

  abbrev pub as_envelope_error : {A : Type 0} → Result RatchetError A → Result EnvelopeError A
  as_envelope_error (ok a) = ok a
  as_envelope_error (err e) = err (ratchet e)

  abbrev pub verified_header : Bool → Bytes → Result EnvelopeError RatchetHeader
  verified_header true header_bytes = as_envelope_error (decode_header header_bytes)
  verified_header false header_bytes = err invalid_signature

  -- What is done before the state is touched.
  unfoldable pub open_envelope : Bytes → WireEnvelope → Bytes → Result EnvelopeError Opened
  open_envelope sender_public e associated = do
    header_bytes ← or_throw (texts.atob e.header_b64) invalid_base64
    ciphertext ← or_throw (texts.atob e.ciphertext_b64) invalid_base64
    signature ← or_throw (texts.atob e.sender_signature_b64) invalid_base64
    header ←
        verified_header
          (c.verify sender_public (signature_payload header_bytes ciphertext associated e.x3dh_init)
            signature)
          header_bytes
    ok (record { header = header; ciphertext = ciphertext })

  abbrev pub then_decrypt :
      RatchetState → Bytes → KeyPair → Result EnvelopeError Opened → EnvelopeOutcome Bytes
  then_decrypt s associated next (err e) = (s, err e)
  then_decrypt s associated next (ok opened) =
      let (s', result) = ratchet_decrypt c s opened.header opened.ciphertext associated next in
      (s', as_envelope_error result)

  unfoldable pub decrypt_envelope :
      Bytes → RatchetState → WireEnvelope → Bytes → KeyPair → EnvelopeOutcome Bytes
  decrypt_envelope sender_public s e associated next =
      then_decrypt s associated next (open_envelope sender_public e associated)
