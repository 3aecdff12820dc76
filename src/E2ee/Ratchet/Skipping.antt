-- ===== src/E2ee/Ratchet/Skipping.antt =====
-- The keys of skipped messages.
use vimla_ai.Common.{
  ℕ, zero, suc, ◌+◌, ◌≤◌, ◌≡◌, refl, sym, ap, ◌∙◌, ◌⊎◌, false, ◌&&◌, Option, none, some, List, [],
  ◌∷◌, leb, ltb, ◌==◌, if◌then◌else◌, arith, Bool-cases, inl, inr, ==_iff,
}
use vimla_ai.Billing.Result.{ok}
use vimla_ai.E2ee.Bytes.{Bytes, constant_time_equal_refl}
use vimla_ai.E2ee.Crypto.{Crypto, next_chain_key, message_key}
use vimla_ai.E2ee.Ratchet.{
  SkippedKey, get_skipped, set_skipped, delete_skipped, RatchetState, skip_rounds,
}

pub get-set_skipped :
    (public : Bytes) (n j : ℕ) (key : Bytes) (es : List SkippedKey)
    → get_skipped public j (set_skipped public n key es)
      ≡ (if n == j then some key else get_skipped public j es)
unfolding get_skipped set_skipped
get-set_skipped public n j key [] = ground (arith, constant_time_equal_refl public)
get-set_skipped public n j key (e ∷ es) = ground (arith, get-set_skipped public n j key es)

pub get-delete_skipped :
    (public : Bytes) (n j : ℕ) (es : List SkippedKey)
    → get_skipped public j (delete_skipped public n es)
      ≡ (if n == j then none else get_skipped public j es)
unfolding get_skipped delete_skipped
get-delete_skipped public n j [] = ground arith
get-delete_skipped public n j (e ∷ es) = ground (arith, get-delete_skipped public n j es)

module _ (c : Crypto) where
  -- The key of a chain after so many messages.
  abbrev pub chain_at : ℕ → Bytes → Bytes
  chain_at zero chain_key = chain_key
  chain_at (suc n) chain_key = next_chain_key c (chain_at n chain_key)

  pub chain_at-next :
      (n : ℕ) (first : Bytes) → chain_at (n + 1) first ≡ next_chain_key c (chain_at n first)
  chain_at-next n first = let next : n + 1 ≡ suc n = omega arith in ap (λ m. chain_at m first) next

  -- A receiver that follows the chain from `first` of the owner of `public`.
  pub record IsSynced (first public : Bytes) (s : RatchetState) : Type 0 where
    pub remote : s.dhr_public ≡ some public
    pub chain : s.receiving_chain_key ≡ some (chain_at s.nr first)
    pub ahead : (j : ℕ) → s.nr ≤ j → get_skipped public j s.skipped ≡ none

  abbrev pub after_skip : Bytes → Bytes → RatchetState → RatchetState
  after_skip chain_key public s = record s {
    receiving_chain_key = some (next_chain_key c chain_key);
    skipped = set_skipped public s.nr (message_key c chain_key) s.skipped;
    nr = s.nr + 1;
  }

  after_skip-IsSynced :
      (first public : Bytes) (s : RatchetState)
      → IsSynced first public s
      → IsSynced first public (after_skip (chain_at s.nr first) public s)
  after_skip-IsSynced first public s k = record {
    remote = k.remote;
    chain = ap some (sym (chain_at-next s.nr first));
    ahead = λ j le. get-set_skipped public s.nr j _ s.skipped ∙ ground (arith, k.ahead j);
  }

  abbrev pub skipped_key : (first public : Bytes) (s : RatchetState) (rounds j : ℕ) → Option Bytes
  skipped_key first public s rounds j =
      if leb s.nr j && ltb j (s.nr + rounds)
      then some (message_key c (chain_at j first))
      else get_skipped public j s.skipped

  skipped_now :
      (first : Bytes) (n j : ℕ)
      → ((n == j) ≡ false) ⊎ (message_key c (chain_at n first) ≡ message_key c (chain_at j first))
  skipped_now first n j = elim (Bool-cases (n == j)) [
    | inl same ↦ inr (ap (λ m. message_key c (chain_at m first)) ((==_iff n j).0 same))
    | inr other ↦ inl other
  ]

  -- What a receiver has after the loop.
  pub skip_rounds_effect :
      (first public : Bytes) (rounds : ℕ) (s : RatchetState)
      → IsSynced first public s
      → (s' : RatchetState) × (skip_rounds c rounds (chain_at s.nr first) s ≡ (s', ok tt))
        × IsSynced first public s'
        × (s'.nr ≡ s.nr + rounds)
        × ((j : ℕ) → get_skipped public j s'.skipped ≡ skipped_key first public s rounds j)
  unfolding skip_rounds
  skip_rounds_effect first public zero s k = (s, refl, k, omega arith, λ j. ground arith)
  skip_rounds_effect first public (suc rounds) s k =
      let s1 = after_skip (chain_at s.nr first) public s in
      let (s', run, k', count, keys) =
        skip_rounds_effect first public rounds s1 (after_skip-IsSynced first public s k) in
      let run' : skip_rounds c rounds (next_chain_key c (chain_at s.nr first)) s1 ≡ (s', ok tt) =
        rw chain_at-next at run in
      (
        s',
        ground (arith, k.remote),
        k',
        omega arith,
        λ j.
            keys j
            ∙ ground (
              arith,
              get-set_skipped public s.nr j (message_key c (chain_at s.nr first)) s.skipped,
              skipped_now first s.nr j,
            ),
      )
