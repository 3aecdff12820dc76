-- ===== src/E2ee/Envelope/Opening.antt =====
-- An envelope is opened to what was sealed.
use mathlib.Core.List.{append-nil, append_assoc}
use vimla_ai.Common.{
  ℕ, ◌+◌, ◌^◌, ◌<◌, ◌≡◌, refl, sym, ap, ◌∙◌, true, Option, [], ◌∷◌, ◌++◌, length, arith,
}
use vimla_ai.Billing.Result.{ok}
use vimla_ai.E2ee.Bytes.{
  Bytes, take, drop, u32be, read_u32be, read_number, read_number-u32be, take-append, drop-append,
}
use vimla_ai.E2ee.Crypto.{KeyPair, Crypto, Texts}
use vimla_ai.E2ee.Keys.{IdentityKeyPair, X3dhInitHeader}
use vimla_ai.E2ee.Ratchet.{
  RatchetHeader, RatchetState, Encrypted, encode_header, decode_header, ratchet_encrypt,
  ratchet_decrypt,
}
use vimla_ai.E2ee.Envelope.{
  WireEnvelope, seal_envelope, encrypt_envelope, open_envelope, decrypt_envelope, signature_payload,
  as_envelope_error,
}

-- A header whose numbers fit in 32 bits.
pub record IsWireHeader (h : RatchetHeader) : Type 0 where
  pub long : length h.dh_public ≡ 32
  pub n_fits : h.n < 2 ^ 32
  pub pn_fits : h.pn < 2 ^ 32

length-append : (xs ys : Bytes) → length (xs ++ ys) ≡ length xs + length ys
length-append [] ys = omega arith
length-append (x ∷ xs) ys = omega (arith, length-append xs ys)

length-encode_header : (h : RatchetHeader) → IsWireHeader h → length (encode_header h) ≡ 40
unfolding encode_header u32be
length-encode_header h w =
    ground (arith, length-append h.dh_public (u32be h.pn ++ u32be h.n), w.long)

take-encode_header : (h : RatchetHeader) → take (length h.dh_public) (encode_header h) ≡ h.dh_public
unfolding encode_header
take-encode_header h = take-append h.dh_public (u32be h.pn ++ u32be h.n)

drop-encode_header :
    (h : RatchetHeader) → drop (length h.dh_public) (encode_header h) ≡ u32be h.pn ++ u32be h.n
unfolding encode_header
drop-encode_header h = drop-append h.dh_public (u32be h.pn ++ u32be h.n)

length-u32be : (v : ℕ) → length (u32be v) ≡ 4
unfolding u32be
length-u32be v = omega arith

drop_36-encode_header : (h : RatchetHeader) → IsWireHeader h → drop 36 (encode_header h) ≡ u32be h.n
unfolding encode_header
drop_36-encode_header h w =
    let front = h.dh_public ++ u32be h.pn in
    let long : length front ≡ 36 =
      ground (arith, length-append h.dh_public (u32be h.pn), w.long, length-u32be h.pn) in
    ap (drop 36) (sym (append_assoc h.dh_public (u32be h.pn) (u32be h.n)))
    ∙ ap (λ k. drop k (front ++ u32be h.n)) (sym long)
    ∙ drop-append front (u32be h.n)

-- The numbers of a header survive the 40 bytes.
pub decode_header-encode :
    (h : RatchetHeader) → IsWireHeader h → decode_header (encode_header h) ≡ ok h
unfolding decode_header read_u32be
decode_header-encode h w =
    let public = h.dh_public in
    let tail = u32be h.pn ++ u32be h.n in
    let front : take 32 (encode_header h) ≡ public =
      ap (λ k. take k (encode_header h)) (sym w.long) ∙ take-encode_header h in
    let rest : drop 32 (encode_header h) ≡ tail =
      ap (λ k. drop k (encode_header h)) (sym w.long) ∙ drop-encode_header h in
    let last = drop_36-encode_header h w in
    let pn : read_number tail ≡ h.pn = read_number-u32be h.pn (u32be h.n) w.pn_fits in
    let n : read_number (u32be h.n) ≡ h.n =
      sym (ap read_number (append-nil (u32be h.n))) ∙ read_number-u32be h.n [] w.n_fits in
    rw (length-encode_header h w) (rw (front, rest, last) (rw (pn, n) refl))

module _ (c : Crypto) (texts : Texts) (init_text : X3dhInitHeader → Bytes) where
  open_envelope-seal :
      (identity : IdentityKeyPair) (associated : Bytes) (init : Option X3dhInitHeader)
      (sent : Encrypted)
      → identity.ed25519_public ≡ c.sign_public_of identity.ed25519_secret
      → IsWireHeader sent.header
      → open_envelope c texts init_text identity.ed25519_public
          (seal_envelope c texts init_text identity associated init sent)
          associated
        ≡ ok (record { header = sent.header; ciphertext = sent.ciphertext })
  unfolding open_envelope seal_envelope
  open_envelope-seal identity associated init sent own w =
      let header_bytes = encode_header sent.header in
      let payload =
        signature_payload c texts init_text header_bytes sent.ciphertext associated init in
      let signature = c.sign identity.ed25519_secret payload in
      let verified : c.verify identity.ed25519_public payload signature ≡ true =
        rw own (c.verify-sign identity.ed25519_secret payload) in
      rw (texts.atob-btoa header_bytes) (
        rw (texts.atob-btoa sent.ciphertext) (
          rw (texts.atob-btoa signature)
            (rw verified (rw (decode_header-encode sent.header w) refl))))

  -- What a sender encrypts and seals, a receiver that can decrypt it opens, with the same text.
  pub decrypt_envelope-encrypt :
      (identity : IdentityKeyPair) (s s' r : RatchetState) (text associated : Bytes)
      (init : Option X3dhInitHeader) (next : KeyPair) (e : WireEnvelope) (sent : Encrypted)
      → identity.ed25519_public ≡ c.sign_public_of identity.ed25519_secret
      → ratchet_encrypt c s text associated ≡ (s', ok sent)
      → IsWireHeader sent.header
      → encrypt_envelope c texts init_text identity s text associated init ≡ (s', ok e)
      → decrypt_envelope c texts init_text identity.ed25519_public r e associated next ≡ (
          let (r', result) = ratchet_decrypt c r sent.header sent.ciphertext associated next in
          (r', as_envelope_error c texts init_text result))
  unfolding encrypt_envelope decrypt_envelope
  decrypt_envelope-encrypt identity s s' r text associated init next e sent own encrypted w h =
      let h' = rw encrypted at h in
      let sealed = seal_envelope c texts init_text identity associated init sent in
      let same : sealed ≡ e = ground arith in
      rw (← same) (rw (open_envelope-seal identity associated init sent own w) refl)
