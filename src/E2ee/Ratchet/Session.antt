-- ===== src/E2ee/Ratchet/Session.antt =====
-- The beginning of a session: the first messages, and the first answers.
use vimla_ai.Common.{
  ℕ, zero, suc, ◌+◌, ◌≤◌, ◌≡◌, refl, sym, ap, ◌∙◌, false, Option, none, some, ltb, Bool-cases,
  arith, inl, inr, Option-cases,
}
use vimla_ai.Billing.Result.{ok, err}
use vimla_ai.E2ee.Bytes.{Bytes, constant_time_equal}
use vimla_ai.E2ee.Crypto.{Crypto, KeyPair, kdf_root}
use vimla_ai.E2ee.Ratchet.{
  get_skipped, RatchetState, RatchetHeader, Outcome, is_remote, skip_message_keys, dh_ratchet,
  then_skip, read_with_chain, init_ratchet_initiator, init_ratchet_responder, ratchet_decrypt,
}
use vimla_ai.E2ee.Ratchet.{skip_rounds, max_skip, Encrypted, ratchet_encrypt}
use vimla_ai.E2ee.Ratchet.Skipping.{IsSynced, chain_at}
use vimla_ai.E2ee.Ratchet.Reading.{
  ChainMessage, header_of, ciphertext_of, decrypt_message, read_ahead,
}

module _ (c : Crypto) where
  -- The chain on which a state reads what comes from a new remote key.
  abbrev pub next_chain : RatchetState → Bytes → Bytes
  next_chain s public = (kdf_root c s.root_key (c.get_shared_secret s.dhs_secret public)).chain_key

  turn-IsSynced :
      (s : RatchetState) (h : RatchetHeader) (next : KeyPair)
      → ((j : ℕ) → get_skipped h.dh_public j s.skipped ≡ none)
      → IsSynced c (next_chain s h.dh_public) h.dh_public (dh_ratchet c s h next)
  unfolding dh_ratchet
  turn-IsSynced s h next fresh = record { remote = refl; chain = refl; ahead = λ j le. fresh j }

  dh_ratchet-nr :
      (s : RatchetState) (h : RatchetHeader) (next : KeyPair) → (dh_ratchet c s h next).nr ≡ 0
  unfolding dh_ratchet
  dh_ratchet-nr s h next = refl

  nothing_to_skip :
      (s : RatchetState) (until : ℕ)
      → s.receiving_chain_key ≡ none
      → skip_message_keys c s until ≡ (s, ok tt)
  unfolding skip_message_keys
  nothing_to_skip s until h = ground arith

  -- A state that has not received yet turns to the new key and reads.
  pub read_first :
      (s : RatchetState) (public : Bytes) (m : ChainMessage)
      → s.receiving_chain_key ≡ none
      → is_remote c s.dhr_public public ≡ false
      → ((j : ℕ) → get_skipped public j s.skipped ≡ none)
      → m.n ≤ 200
      → (s' : RatchetState) × (decrypt_message c (next_chain s public) public s m ≡ (s', ok m.text))
        × IsSynced c (next_chain s public) public s'
  unfolding ratchet_decrypt
  read_first s public m silent other fresh near =
      let first = next_chain s public in
      let h = header_of c first public m in
      let turned = dh_ratchet c s h m.next in
      let at_zero = dh_ratchet-nr s h m.next in
      let (s', run, k, _, _) =
        read_ahead c first public turned m (turn-IsSynced s h m.next fresh) (ground arith)
          (ground arith) in
      (s', rw (fresh m.n, ratchet_decrypt) (rw other (rw (nothing_to_skip s m.pn silent) run)), k)

  abbrev pub initiator : Bytes → KeyPair → KeyPair → RatchetState
  initiator shared_key remote local = init_ratchet_initiator c shared_key remote.public_key local

  abbrev pub responder : Bytes → KeyPair → RatchetState
  responder shared_key remote = init_ratchet_responder c shared_key remote

  -- What sending needs of a state.
  abbrev sending_side : RatchetState → Bytes × Option Bytes × ℕ × ℕ
  sending_side s = (s.dhs_public, s.sending_chain_key, s.ns, s.pn)

  skip_rounds-sending :
      (rounds : ℕ) (chain_key : Bytes) (s : RatchetState)
      → sending_side (skip_rounds c rounds chain_key s).0 ≡ sending_side s
  unfolding skip_rounds
  skip_rounds-sending zero chain_key s = refl
  skip_rounds-sending (suc rounds) chain_key s = elim (Option-cases s.dhr_public) [
    | inl absent ↦ rw (absent, skip_rounds) refl
    | inr (public, known) ↦ rw (known, skip_rounds) (skip_rounds-sending rounds _ _)
  ]

  then_skip-sending :
      (h : RatchetHeader) (s : RatchetState)
      → sending_side (then_skip c h (s, ok tt)).0 ≡ sending_side s
  unfolding skip_message_keys
  then_skip-sending h s = elim (Option-cases s.receiving_chain_key) [
    | inl absent ↦ rw (absent, skip_message_keys) refl
    | inr (key, known) ↦
        rw (known, skip_message_keys)
          (elim (Bool-cases (ltb (s.nr + max_skip) h.n)) [
            | inl far ↦ rw far refl
            | inr near ↦ rw near (skip_rounds-sending _ key s)
          ])
  ]

  read_with_chain-sending :
      (ciphertext associated : Bytes) (h : RatchetHeader) (o : Outcome (Unit {0}))
      → sending_side (read_with_chain c ciphertext associated h o).0 ≡ sending_side o.0
  read_with_chain-sending ciphertext associated h (s, err e) = refl
  read_with_chain-sending ciphertext associated h (s, ok _) =
      elim (Option-cases s.receiving_chain_key) [
        | inl absent ↦ rw (absent, read_with_chain) refl
        | inr (key, known) ↦ rw (known, read_with_chain) refl
      ]

  -- The next message of a sender on a chain.
  pub ratchet_encrypt_lem :
      (s : RatchetState) (first public : Bytes) (m : ChainMessage)
      → s.dhs_public ≡ public
      → s.sending_chain_key ≡ some (chain_at c m.n first)
      → m.n ≡ s.ns
      → m.pn ≡ s.pn
      → (ratchet_encrypt c s m.text m.associated).1
        ≡ ok (record {
          header = header_of c first public m;
          ciphertext = ciphertext_of c first public m;
        })
  unfolding ratchet_encrypt
  ratchet_encrypt_lem s first public m own known here before =
      rw (known, ratchet_encrypt) (rw (← own) (rw (← here) (rw (← before) refl)))

  read_first-sending :
      (s : RatchetState) (public : Bytes) (m : ChainMessage)
      → s.receiving_chain_key ≡ none
      → is_remote c s.dhr_public public ≡ false
      → get_skipped public m.n s.skipped ≡ none
      → sending_side (decrypt_message c (next_chain s public) public s m).0
        ≡ sending_side (dh_ratchet c s (header_of c (next_chain s public) public m) m.next)
  unfolding ratchet_decrypt
  read_first-sending s public m silent other fresh =
      let first = next_chain s public in
      let h = header_of c first public m in
      rw (fresh, ratchet_decrypt)
        (rw other (
          rw (nothing_to_skip s m.pn silent) (
            read_with_chain-sending (ciphertext_of c first public m) m.associated h
              (then_skip c h (dh_ratchet c s h m.next, ok tt))
            ∙ then_skip-sending h (dh_ratchet c s h m.next))))

  abbrev pub IsPair : KeyPair → Type 0
  IsPair k = k.public_key ≡ c.public_of k.secret_key

  shared_pair :
      (a b : KeyPair)
      → IsPair a
      → IsPair b
      → c.get_shared_secret a.secret_key b.public_key
        ≡ c.get_shared_secret b.secret_key a.public_key
  shared_pair a b pa pb = rw (pa, pb) (c.shared_comm a.secret_key b.secret_key)

  module _ (shared_key : Bytes) (remote local : KeyPair) (text associated : Bytes) where
    abbrev pub first_message : KeyPair → ChainMessage
    first_message next = record { n = 0; pn = 0; text = text; associated = associated; next = next }

    initiator-chain :
        IsPair remote
        → IsPair local
        → (initiator shared_key remote local).sending_chain_key
          ≡ some (next_chain (responder shared_key remote) local.public_key)
    unfolding init_ratchet_initiator init_ratchet_responder
    initiator-chain pr pl =
        ap (λ z. some (kdf_root c shared_key z).chain_key) (shared_pair local remote pl pr)

    -- The sending chain of the responder is the one on which the initiator will read.
    answer-chain :
        (next : KeyPair) (h : RatchetHeader)
        → IsPair remote
        → IsPair local
        → IsPair next
        → h.dh_public ≡ local.public_key
        → (dh_ratchet c (responder shared_key remote) h next).sending_chain_key
          ≡ some (
              next_chain
                (ratchet_encrypt c (initiator shared_key remote local) text associated).0
                next.public_key)
    unfolding dh_ratchet init_ratchet_initiator init_ratchet_responder ratchet_encrypt
    answer-chain next h pr pl pn from =
        rw (from, shared_pair remote local pr pl, shared_pair next local pn pl) refl

    after_sending :
        (public : Bytes)
        → let alice' = (ratchet_encrypt c (initiator shared_key remote local) text associated).0 in
          (alice'.receiving_chain_key ≡ none)
          × (alice'.dhr_public ≡ some remote.public_key)
          × ((j : ℕ) → get_skipped public j alice'.skipped ≡ none)
    unfolding init_ratchet_initiator ratchet_encrypt get_skipped
    after_sending public = (refl, refl, λ j. refl)

    fresh_responder :
        (public : Bytes) (j : ℕ) → get_skipped public j (responder shared_key remote).skipped ≡ none
    unfolding init_ratchet_responder get_skipped
    fresh_responder public j = refl

    turned_side :
        (h : RatchetHeader) (next : KeyPair)
        → let s = dh_ratchet c (responder shared_key remote) h next in
          (s.dhs_public ≡ next.public_key) × (s.ns ≡ 0) × (s.pn ≡ 0)
    unfolding dh_ratchet init_ratchet_responder
    turned_side h next = (refl, refl, refl)

    -- The other side reads the first message, and the answer to it is read too.
    pub session_opens :
        (next answer_next : KeyPair) (reply reply_associated : Bytes)
        → IsPair remote
        → IsPair local
        → IsPair next
        → constant_time_equal next.public_key remote.public_key ≡ false
        → let alice = initiator shared_key remote local in
          let bob = responder shared_key remote in
          let alice' = (ratchet_encrypt c alice text associated).0 in
          (e : Encrypted) × (answer : Encrypted) × ((ratchet_encrypt c alice text associated).1
            ≡ ok e)
          × ((ratchet_decrypt c bob e.header e.ciphertext associated next).1 ≡ ok text)
          × ((ratchet_encrypt c
                (ratchet_decrypt c bob e.header e.ciphertext associated next).0
                reply
                reply_associated).1
              ≡ ok answer)
          × ((ratchet_decrypt c alice' answer.header answer.ciphertext reply_associated
                answer_next).1
              ≡ ok reply)
    unfolding init_ratchet_initiator init_ratchet_responder
    session_opens next answer_next reply reply_associated pr pl pn other =
        let alice = initiator shared_key remote local in
        let bob = responder shared_key remote in
        let alice' = (ratchet_encrypt c alice text associated).0 in
        let first = next_chain bob local.public_key in
        let m = first_message next in
        let h = header_of c first local.public_key m in
        let bob' = (decrypt_message c first local.public_key bob m).0 in
        let first' = next_chain alice' next.public_key in
        let answer : ChainMessage = record {
          n = 0;
          pn = 0;
          text = reply;
          associated = reply_associated;
          next = answer_next;
        } in
        let (s', run, k) =
          read_first bob local.public_key m refl refl (fresh_responder local.public_key)
            (omega arith) in
        let side =
          read_first-sending bob local.public_key m refl refl
            (fresh_responder local.public_key 0) in
        let (silent, known, empty) = after_sending next.public_key in
        let (s2, run2, k2) =
          read_first alice' next.public_key answer silent
            (ap (λ r. is_remote c r next.public_key) known ∙ other) empty (omega arith) in
        let (own, count, before) = turned_side h next in
        (
          record { header = h; ciphertext = ciphertext_of c first local.public_key m },
          record {
            header = header_of c first' next.public_key answer;
            ciphertext = ciphertext_of c first' next.public_key answer;
          },
          ratchet_encrypt_lem alice first local.public_key m refl (initiator-chain pr pl) refl refl,
          ap (λ o. o.1) run,
          ratchet_encrypt_lem bob' first' next.public_key answer (ap (λ p. p.0) side ∙ own)
              (ap (λ p. p.1) side ∙ answer-chain next h pr pl pn refl)
              (sym (ap (λ p. p.2) side ∙ count)) (sym (ap (λ p. p.3) side ∙ before)),
          ap (λ o. o.1) run2,
        )
