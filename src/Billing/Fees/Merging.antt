-- ===== src/Billing/Fees/Merging.antt =====
-- When a merged figure is called actual.
use vimla_ai.Common.{◌≡◌, ◌≢◌, ◌↔◌, refl, true, false, List, [], ◌∷◌, All, arith}
use vimla_ai.Billing.Fees.{Quality, actual, estimated, partial, unknown, has, merge_quality}

-- Nothing but actual figures.
abbrev OnlyActual : List Quality → Type 0
OnlyActual qualities =
    (has estimated qualities ≡ false)
    × (has partial qualities ≡ false)
    × (has unknown qualities ≡ false)

OnlyActual-All : (qualities : List Quality) → OnlyActual qualities → All (λ x. x ≡ actual) qualities
OnlyActual-All [] h = tt
OnlyActual-All (actual ∷ later) h = (refl, OnlyActual-All later h)
OnlyActual-All (estimated ∷ later) h = cc
OnlyActual-All (partial ∷ later) h = cc
OnlyActual-All (unknown ∷ later) h = cc

All-OnlyActual : (qualities : List Quality) → All (λ x. x ≡ actual) qualities → OnlyActual qualities
All-OnlyActual [] h = (refl, refl, refl)
All-OnlyActual (actual ∷ later) h = All-OnlyActual later h.1
All-OnlyActual (estimated ∷ later) h = cc
All-OnlyActual (partial ∷ later) h = cc
All-OnlyActual (unknown ∷ later) h = cc

has_actual : (q : Quality) (later : List Quality) → q ≡ actual → has actual (q ∷ later) ≡ true
has_actual q later h = rw h refl

merge_tests :
    (qualities : List Quality)
    → (merge_quality qualities ≡ actual) ↔ ((has actual qualities ≡ true) × OnlyActual qualities)
unfolding merge_quality
merge_tests qualities =
    (λ h. (ground arith, (ground arith, ground arith, ground arith)), λ h. ground arith)

-- A merged figure is called actual exactly when it is made of something, and of actual figures only.
pub merge_quality-actual :
    (qualities : List Quality)
    → (merge_quality qualities ≡ actual) ↔ ((qualities ≢ []) × All (λ x. x ≡ actual) qualities)
merge_quality-actual [] = (λ h. cc (((merge_tests []).0 h).0), λ h. absurd (h.0 refl))
merge_quality-actual (q ∷ later) = (
  λ h. (λ e. cc, OnlyActual-All (q ∷ later) ((merge_tests (q ∷ later)).0 h).1),
  λ h. (merge_tests (q ∷ later)).1 (has_actual q later h.1.0, All-OnlyActual (q ∷ later) h.1),
)
