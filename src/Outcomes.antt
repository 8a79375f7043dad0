-- ===== src/Outcomes.antt =====
-- kestrel_sdk/resources.py: `observed_outcome_unknown`, the search for unknown outcomes in the
-- graph of an exception's causes and group members. The heap lists the exception objects, and the
-- identity of an object, `id(current)`, is its index. A Python list that is popped at its end is a
-- list whose head is that end.
pub mod Reached
mod Loop
pub mod Observed
mod Tests
use kestrel_sovereign_sdk.Prelude.{
  ℕ, zero, suc, ◌+◌, Bool, true, false, ◌||◌, Option, none, some, List, [], ◌∷◌, ◌++◌, ◌==◌,
  if◌then◌else◌, length,
}

pub record Raised : Type 0 where
  -- `issubclass(type(current), ResourceOutcomeUnknown)`
  pub outcome_unknown : Bool
  -- `__cause__`
  pub cause : Option ℕ
  -- `exceptions`, of a `BaseExceptionGroup`
  pub exceptions : Option (List ℕ)

pub ErrorGraph : Type 0
ErrorGraph = List Raised

-- An object outside the heap is an exception without a cause.
abbrev pub unrelated : Raised
unrelated = record { outcome_unknown = false; cause = none; exceptions = none }

unfoldable pub object : ErrorGraph → ℕ → Raised
unfolding ErrorGraph
object [] i = unrelated
object (e ∷ h) zero = e
object (e ∷ h) (suc i) = object h i

-- `id(current) in seen`
unfoldable pub member : List ℕ → ℕ → Bool
member [] x = false
member (y ∷ ys) x = y == x || member ys x

-- `pending.extend(xs)`
unfoldable pub extend : List ℕ → List ℕ → List ℕ
extend [] pending = pending
extend (x ∷ xs) pending = extend xs (x ∷ pending)

-- `if cause is not None: pending.append(cause)`
unfoldable pub push_cause : Raised → List ℕ → List ℕ
push_cause e pending = elim e.cause [ none ↦ pending | some c ↦ c ∷ pending ]

unfoldable pub push_group : Raised → List ℕ → List ℕ
unfolding extend
push_group e pending = elim e.exceptions [ none ↦ pending | some es ↦ extend es pending ]

pub record Search : Type 0 where
  pub pending : List ℕ
  pub seen : List ℕ
  pub observed : List ℕ

-- The body of the loop, after `current` was popped.
unfoldable pub visit : ErrorGraph → Search → ℕ → List ℕ → Search
unfolding object member push_cause push_group
visit h s current rest = if member s.seen current then record s { pending = rest } else record {
  pending = push_group (object h current) (push_cause (object h current) rest);
  seen = current ∷ s.seen;
  observed = if (object h current).outcome_unknown then s.observed ++ current ∷ [] else s.observed;
}

-- `none` is a loop that is still running when the fuel is used up.
unfoldable pub search_loop : ErrorGraph → ℕ → Search → Option (List ℕ)
unfolding visit
search_loop h zero s = elim s.pending [ [] ↦ some s.observed | _ ∷ _ ↦ none ]
search_loop h (suc fuel) s = elim s.pending [
  | [] ↦ some s.observed
  | u ∷ rest ↦ search_loop h fuel (visit h s u rest)
]

-- The references that an exception holds.
unfoldable pub references : Raised → ℕ
references e =
    elim e.cause [ none ↦ 0 | some _ ↦ 1 ] + elim e.exceptions [ none ↦ 0 | some es ↦ length es ]

unfoldable pub all_references : ErrorGraph → ℕ
unfolding ErrorGraph references
all_references [] = 0
all_references (e ∷ h) = references e + all_references h

abbrev pub first_search : Option ℕ → Search
first_search error = record {
  pending = elim error [ none ↦ [] | some e ↦ e ∷ [] ];
  seen = [];
  observed = [];
}

-- Each reference is pushed at most once.
unfoldable pub observed_outcome_unknown : ErrorGraph → Option ℕ → Option (List ℕ)
unfolding search_loop all_references
observed_outcome_unknown h error = search_loop h (suc (all_references h)) (first_search error)
