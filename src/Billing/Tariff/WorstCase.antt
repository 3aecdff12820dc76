-- ===== src/Billing/Tariff/WorstCase.antt =====
-- The worst case of a simulation.
use vimla_ai.Common.{◌≡◌, refl, ◌⊎◌, inl, Option, none, some, List, [], ◌∷◌, All, arith}
use vimla_ai.Common.Int.{◌≤ℤ◌}
use vimla_ai.Billing.Result.{ok, >>=-returns, ok-injective}
use vimla_ai.Billing.Tariff.{
  TariffSimulationAssumptions, TariffSimulationResult, PaymentMethodSimulation, simulate_methods,
  worse, worst_from, worst_of, simulate_tariff_economics,
}

abbrev pub NoBetter : PaymentMethodSimulation → PaymentMethodSimulation → Type 0
NoBetter w m = w.conservative_contribution_micro_rub ≤ℤ m.conservative_contribution_micro_rub

-- The simulation is one of the list.
abbrev pub IsAmong : PaymentMethodSimulation → List PaymentMethodSimulation → Type 0
IsAmong w [] = ⊥
IsAmong w (m ∷ later) = (w ≡ m) ⊎ IsAmong w later

worse_below : (w m : PaymentMethodSimulation) → NoBetter (worse w m) w × NoBetter (worse w m) m
worse_below w m = (ground arith, ground arith)

worst_from-NoBetter :
    (w : PaymentMethodSimulation) (later : List PaymentMethodSimulation)
    → NoBetter (worst_from w later) w × All (NoBetter (worst_from w later)) later
unfolding worst_from
worst_from-NoBetter w [] = (omega arith, tt)
worst_from-NoBetter w (m ∷ later) =
    let (below, others) = worst_from-NoBetter (worse w m) later in
    let (first, second) = worse_below w m in (omega arith, (omega arith, others))

worst_from-IsAmong :
    (w : PaymentMethodSimulation) (later : List PaymentMethodSimulation)
    → (worst_from w later ≡ w) ⊎ IsAmong (worst_from w later) later
unfolding worst_from
worst_from-IsAmong w [] = inl refl
worst_from-IsAmong w (m ∷ later) = ground (arith, worst_from-IsAmong (worse w m) later)

-- One of the methods with the smallest contribution, or none of no methods.
abbrev pub IsWorstOf : List PaymentMethodSimulation → Option PaymentMethodSimulation → Type 0
IsWorstOf methods none = methods ≡ []
IsWorstOf methods (some w) = IsAmong w methods × All (NoBetter w) methods

worst_of-IsWorstOf : (methods : List PaymentMethodSimulation) → IsWorstOf methods (worst_of methods)
worst_of-IsWorstOf [] = refl
worst_of-IsWorstOf (first ∷ later) =
    let (below, others) = worst_from-NoBetter first later in
    (worst_from-IsAmong first later, (below, others))

-- The worst case that a simulation reports is one of its methods, and no method leaves a smaller
-- contribution; none is reported only when no method is simulated.
pub simulate_tariff_economics-IsWorstOf :
    (input : TariffSimulationAssumptions) (result : TariffSimulationResult)
    → simulate_tariff_economics input ≡ ok result
    → IsWorstOf result.methods result.worst_case
unfolding simulate_tariff_economics
simulate_tariff_economics-IsWorstOf input result h =
    let (methods, simulated, done) = >>=-returns (simulate_methods _ input) _ h in
    let same : record { methods = methods; worst_case = worst_of methods } ≡ result =
      ok-injective done in
    rw (← same) (worst_of-IsWorstOf methods)
