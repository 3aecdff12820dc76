-- ===== src/E2ee/Ratchet/Reading.antt =====
-- The messages of a chain are read in any order.
use vimla_ai.Common.{
  ℕ, ◌+◌, ◌-◌, ◌≤◌, ◌<◌, ◌≡◌, ◌≢◌, refl, sym, ap, ◌∙◌, ◌⊎◌, true, none, some, map, List, [], ◌∷◌,
  ◌++◌, arith, inl, inr, All,
}
use vimla_ai.Billing.Result.{Result, ok}
use vimla_ai.E2ee.Bytes.{Bytes, constant_time_equal_refl}
use vimla_ai.E2ee.Crypto.{Crypto, KeyPair, next_chain_key, message_key, message_nonce}
use vimla_ai.E2ee.Ratchet.{
  RatchetError, get_skipped, delete_skipped, RatchetState, RatchetHeader, encode_header,
  skip_rounds, skip_message_keys, Outcome, aead_encrypt, aead_decrypt, read_with_chain, then_skip,
  is_remote, ratchet_decrypt,
}
use vimla_ai.E2ee.Ratchet.Skipping.{
  chain_at, IsSynced, skipped_key, skip_rounds_effect, get-delete_skipped, chain_at-next,
}

-- A message of the chain that starts with `first`, and what is needed to read it.
pub record ChainMessage : Type 0 where
  pub n : ℕ
  pub pn : ℕ
  pub text : Bytes
  pub associated : Bytes
  pub next : KeyPair

module _ (c : Crypto) (first public : Bytes) where
  abbrev pub header_of : ChainMessage → RatchetHeader
  header_of m = record { dh_public = public; n = m.n; pn = m.pn }

  abbrev pub key_at : ℕ → Bytes
  key_at n = message_key c (chain_at c n first)

  abbrev pub ciphertext_of : ChainMessage → Bytes
  ciphertext_of m = aead_encrypt c (key_at m.n) m.text (m.associated ++ encode_header (header_of m))

  abbrev pub decrypt_message : RatchetState → ChainMessage → Outcome Bytes
  decrypt_message s m = ratchet_decrypt c s (header_of m) (ciphertext_of m) m.associated m.next

  -- A message is still to come, or its key is kept.
  abbrev pub CanRead : RatchetState → ℕ → Type 0
  CanRead s n = (s.nr ≤ n) ⊎ (get_skipped public n s.skipped ≡ some (key_at n))

  decrypt-encrypt :
      (key text associated : Bytes)
      → aead_decrypt c key (aead_encrypt c key text associated) associated ≡ ok text
  decrypt-encrypt key text associated =
      rw (c.unseal-seal key (message_nonce c key) associated text, aead_decrypt) refl

  read_step :
      (s : RatchetState) (chain_key ciphertext associated : Bytes) (h : RatchetHeader)
      (text : Bytes)
      → s.receiving_chain_key ≡ some chain_key
      → aead_decrypt c (message_key c chain_key) ciphertext (associated ++ encode_header h)
        ≡ ok text
      → read_with_chain c ciphertext associated h (s, ok tt) ≡ (
        record s { receiving_chain_key = some (next_chain_key c chain_key); nr = s.nr + 1 },
        ok text,
      )
  read_step s chain_key ciphertext associated h text known opened = ground arith

  skip_to :
      (s : RatchetState) (until : ℕ)
      → IsSynced c first public s
      → s.nr ≤ until
      → until ≤ s.nr + 200
      → skip_message_keys c s until ≡ skip_rounds c (until - s.nr) (chain_at c s.nr first) s
  unfolding skip_message_keys
  skip_to s until k le near = ground (arith, k.chain)

  pub read_ahead :
      (s : RatchetState) (m : ChainMessage)
      → IsSynced c first public s
      → s.nr ≤ m.n
      → m.n ≤ s.nr + 200
      → (s' : RatchetState) × (read_with_chain c
            (ciphertext_of m)
            m.associated
            (header_of m)
            (then_skip c (header_of m) (s, ok tt))
          ≡ (s', ok m.text))
        × IsSynced c first public s'
        × (s'.nr ≡ m.n + 1)
        × ((j : ℕ) → get_skipped public j s'.skipped ≡ skipped_key c first public s (m.n - s.nr) j)
  read_ahead s m k le near =
      let (s1, run, k1, count, keys) = skip_rounds_effect c first public (m.n - s.nr) s k in
      let here : s1.nr ≡ m.n = omega arith in
      let s' : RatchetState = record s1 {
        receiving_chain_key = some (next_chain_key c (chain_at c s1.nr first));
        nr = s1.nr + 1;
      } in
      let skipped : then_skip c (header_of m) (s, ok tt) ≡ (s1, ok tt) =
        skip_to s m.n k le near ∙ run in
      let opened : aead_decrypt c (key_at s1.nr) (ciphertext_of m)
            (m.associated ++ encode_header (header_of m))
          ≡ ok m.text =
        rw here
          (decrypt-encrypt (key_at m.n) m.text (m.associated ++ encode_header (header_of m))) in
      (
        s',
        rw skipped (read_step s1 _ _ _ _ m.text k1.chain opened),
        record {
          remote = k1.remote;
          chain = ap some (sym (chain_at-next c s1.nr first));
          ahead = λ j le. k1.ahead j (omega arith);
        },
        omega arith,
        keys,
      )

  is_remote_self : is_remote c (some public) public ≡ true
  is_remote_self = constant_time_equal_refl public

  remote_self :
      (s : RatchetState) → IsSynced c first public s → is_remote c s.dhr_public public ≡ true
  remote_self s k = ap (λ r. is_remote c r public) k.remote ∙ is_remote_self

  -- Reading a message gives its text, keeps the receiver on the chain and uses the key up.
  read_message :
      (s : RatchetState) (m : ChainMessage)
      → IsSynced c first public s
      → CanRead s m.n
      → m.n ≤ s.nr + 200
      → (s' : RatchetState) × (decrypt_message s m ≡ (s', ok m.text))
        × IsSynced c first public s'
        × (s.nr ≤ s'.nr)
        × ((j : ℕ) → j ≢ m.n → CanRead s j → CanRead s' j)
        × (get_skipped public m.n s'.skipped ≡ none)
        × (m.n < s'.nr)
  unfolding ratchet_decrypt
  read_message s m k (inl le) near =
      let (s', run, k', count, keys) = read_ahead s m k le near in
      (
        s',
        rw (k.ahead m.n le, ratchet_decrypt) (rw (remote_self s k) run),
        k',
        omega arith,
        λ j other can. ground (arith, keys j),
        keys m.n ∙ ground (arith, k.ahead m.n le),
        omega arith,
      )
  read_message s m k (inr kept) near =
      let s' : RatchetState = record s { skipped = delete_skipped public m.n s.skipped } in
      (
        s',
        rw (kept, ratchet_decrypt) (ap (λ r. (s', r)) (decrypt-encrypt (key_at m.n) m.text _)),
        record {
          remote = k.remote;
          chain = k.chain;
          ahead = λ j le. get-delete_skipped public m.n j s.skipped ∙ ground (arith, k.ahead j);
        },
        omega arith,
        λ j other can. ground (arith, get-delete_skipped public m.n j s.skipped),
        get-delete_skipped public m.n m.n s.skipped ∙ ground arith,
        ground (arith, k.ahead m.n),
      )

  abbrev pub AllDistinct : List ChainMessage → Type 0
  AllDistinct [] = Unit
  AllDistinct (m ∷ ms) = All (λ later. later.n ≢ m.n) ms × AllDistinct ms

  -- Each message is decrypted with the state that the ones before it leave.
  pub decrypt_all : RatchetState → List ChainMessage → List (Result RatchetError Bytes)
  decrypt_all s [] = []
  decrypt_all s (m ∷ ms) = let (s', result) = decrypt_message s m in result ∷ decrypt_all s' ms

  abbrev pub IsReadable : RatchetState → ChainMessage → Type 0
  IsReadable s m = CanRead s m.n × (m.n ≤ s.nr + 200)

  IsReadable-kept :
      (s s' : RatchetState) (n : ℕ) (ms : List ChainMessage)
      → s.nr ≤ s'.nr
      → ((j : ℕ) → j ≢ n → CanRead s j → CanRead s' j)
      → All (λ later. later.n ≢ n) ms
      → All (IsReadable s) ms
      → All (IsReadable s') ms
  IsReadable-kept s s' n [] le keep other can = tt
  IsReadable-kept s s' n (m ∷ ms) le keep other can = (
    (keep m.n other.0 can.0.0, omega (arith, can.0.1)),
    IsReadable-kept s s' n ms le keep other.1 can.1,
  )

  -- Messages of one chain are decrypted in whatever order they arrive, when each is still to come or
  -- was skipped, and none is more than 200 ahead: every one of them gives its text.
  pub decrypt_all_in_any_order :
      (s : RatchetState) (ms : List ChainMessage)
      → IsSynced c first public s
      → AllDistinct ms
      → All (IsReadable s) ms
      → decrypt_all s ms ≡ map (λ m. ok m.text) ms
  unfolding decrypt_all
  decrypt_all_in_any_order s [] k distinct can = refl
  decrypt_all_in_any_order s (m ∷ ms) k distinct can =
      let (s', run, k', grown, keep, _, _) = read_message s m k can.0.0 can.0.1 in
      let rest =
        decrypt_all_in_any_order s' ms k' distinct.1
          (IsReadable-kept s s' m.n ms grown keep distinct.0 can.1) in
      rw run (ap (λ l. ok m.text ∷ l) rest)
