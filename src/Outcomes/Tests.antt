-- ===== src/Outcomes/Tests.antt =====
-- kestrel_sdk/resources.py: `observed_outcome_unknown` on a concrete graph of exceptions.
use kestrel_sovereign_sdk.Prelude.{ℕ, true, false, none, some, List, [], ◌∷◌, ◌≡◌, ◌↔◌, refl}
use kestrel_sovereign_sdk.Outcomes.{ErrorGraph, object, member, observed_outcome_unknown}
use kestrel_sovereign_sdk.Outcomes.Reached.{Reached, IsDistinct}
use kestrel_sovereign_sdk.Outcomes.Observed.{observed_outcome_unknown-Reached}

-- A group of an unknown outcome and an error caused by another one, which is caused by the group.
abbrev cyclic : ErrorGraph
unfolding ErrorGraph
cyclic =
    record { outcome_unknown = false; cause = none; exceptions = some (1 ∷ 2 ∷ []) }
    ∷ record { outcome_unknown = true; cause = none; exceptions = none }
    ∷ record { outcome_unknown = false; cause = some 3; exceptions = none }
    ∷ record { outcome_unknown = true; cause = some 0; exceptions = none }
    ∷ record { outcome_unknown = true; cause = none; exceptions = none }
    ∷ []

-- The stack is popped at its end, so the last member is first.
cyclic_result : observed_outcome_unknown cyclic (some 0) ≡ some (3 ∷ 1 ∷ [])
unfolding observed_outcome_unknown
cyclic_result = refl

no_error : observed_outcome_unknown cyclic none ≡ some []
unfolding observed_outcome_unknown
no_error = refl

observed_outcome_unknown-Reached_example :
    (os : List ℕ) × (observed_outcome_unknown cyclic (some 0) ≡ some os)
    × IsDistinct os
    × ((u : ℕ)
        → (member os u ≡ true)
          ↔ (Reached cyclic (some 0) u × ((object cyclic u).outcome_unknown ≡ true)))
observed_outcome_unknown-Reached_example = observed_outcome_unknown-Reached cyclic (some 0)
