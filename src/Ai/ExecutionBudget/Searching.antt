-- ===== src/Ai/ExecutionBudget/Searching.antt =====
-- What the binary search for an execution budget finds.
use Prim.Native.Nat.{zero}
use vimla_ai.Common.{
  ℕ, zero, suc, ◌+◌, ◌-◌, ◌/◌, ◌≤◌, ◌<◌, ◌≡◌, refl, sym, ◌∙◌, ◌⊎◌, inl, inr, false, Bool-cases, leb,
  ◌==◌, arith,
}
use vimla_ai.Common.Int.{◌≤ℤ◌, ◌<ℤ◌, leb_ℤ}
use vimla_ai.Billing.Result.{Result, ok, >>=-returns, ok-injective}
use vimla_ai.Billing.Money.{MicroRub}
use vimla_ai.Ai.Cost.{AiError}
use vimla_ai.Ai.ExecutionBudget.{search_budget}

-- What more would cost than the ceiling, or all that is preferred.
abbrev pub IsBound : (ℕ → Result AiError MicroRub) → MicroRub → ℕ → ℕ → Type 0
IsBound cost ceiling preferred n =
    (n ≡ preferred)
    ⊎ ((n < preferred) × ((more : MicroRub) × (cost (suc n) ≡ ok more) × (ceiling <ℤ more)))

-- The number is affordable at its cost, and one more is not, unless it is the preferred one.
abbrev pub IsBest : (ℕ → Result AiError MicroRub) → MicroRub → ℕ → ℕ → ℕ → MicroRub → Type 0
IsBest cost ceiling minimum preferred n spent =
    (cost n ≡ ok spent) × (spent ≤ℤ ceiling) × (minimum ≤ n) × IsBound cost ceiling preferred n

middle :
    (low high : ℕ) → low ≤ high → (low ≤ low + (high - low) / 2) × (low + (high - low) / 2 ≤ high)
middle low high le = omega arith

module _ (cost : ℕ → Result AiError MicroRub) (ceiling : MicroRub) (minimum preferred : ℕ) where
  ended :
      (low high selected : ℕ) (spent : MicroRub)
      → cost selected ≡ ok spent
      → spent ≤ℤ ceiling
      → minimum ≤ selected
      → selected ≤ high
      → (low ≡ suc selected) ⊎ (low ≡ selected)
      → high < low
      → IsBound cost ceiling preferred high
      → IsBest cost ceiling minimum preferred selected spent
  ended low high selected spent c affordable above within at over bound =
      let same : high ≡ selected = ground arith in (c, affordable, above, rw same at bound)

  -- A number whose cost is too high is not the one that has been selected.
  apart :
      (candidate selected low : ℕ) (candidate_cost spent : MicroRub)
      → cost candidate ≡ ok candidate_cost
      → cost selected ≡ ok spent
      → spent ≤ℤ ceiling
      → leb_ℤ candidate_cost ceiling ≡ false
      → low ≤ candidate
      → (low ≡ suc selected) ⊎ (low ≡ selected)
      → selected < candidate
  apart candidate selected low candidate_cost spent priced c affordable exceeds lower at =
      elim (Bool-cases (selected == candidate)) [
        | inl same ↦
            let equal : selected ≡ candidate = ground arith in
            let spent_same : spent ≡ candidate_cost = ok-injective (sym (rw equal at c) ∙ priced) in
            ground (arith, spent_same, affordable, exceeds)
        | inr different ↦ ground arith
      ]

  pub search_budget-IsBest :
      (fuel low high selected : ℕ) (spent : MicroRub) (found : ℕ × MicroRub)
      → cost selected ≡ ok spent
      → spent ≤ℤ ceiling
      → minimum ≤ selected
      → 1 ≤ minimum
      → selected ≤ high
      → (low ≡ suc selected) ⊎ (low ≡ selected)
      → high < low + fuel
      → high ≤ preferred
      → IsBound cost ceiling preferred high
      → search_budget cost ceiling fuel low high selected spent ≡ ok found
      → IsBest cost ceiling minimum preferred found.0 found.1
  unfolding search_budget
  search_budget-IsBest zero low high selected spent found c affordable above positive within at
        fuelled below bound r =
      let last : (selected, spent) ≡ found = ok-injective r in
      rw (← last) (ended low high selected spent c affordable above within at (omega arith) bound)
  search_budget-IsBest (suc fuel) low high selected spent found c affordable above positive within
        at fuelled below bound r =
      elim (Bool-cases (leb low high)) [
        | inr over ↦
            let last : (selected, spent) ≡ found = ok-injective (rw (over, search_budget) at r) in
            let past : high < low = ground arith in
            rw (← last) (ended low high selected spent c affordable above within at past bound)
        | inl going ↦
            let le : low ≤ high = ground arith in
            let candidate = low + (high - low) / 2 in
            let (lower, upper) = middle low high le in
            let (candidate_cost, priced, after) =
              >>=-returns (cost candidate) _ (rw (going, search_budget) at r) in
            elim (Bool-cases (leb_ℤ candidate_cost ceiling)) [
              | inl fits ↦
                  search_budget-IsBest fuel (suc candidate) high candidate candidate_cost found
                    priced (ground arith) (ground arith) positive upper (inl refl) (omega arith)
                    below bound (rw fits at after)
              | inr exceeds ↦
                  let past =
                    apart candidate selected low candidate_cost spent priced c affordable exceeds
                      lower at in
                  let next : suc (candidate - 1) ≡ candidate = omega arith in
                  search_budget-IsBest fuel low (candidate - 1) selected spent found c affordable
                    above positive (omega arith) at (omega arith) (omega arith)
                    (inr (omega arith, (candidate_cost, rw next priced, ground arith)))
                    (rw exceeds at after)
            ]
      ]
