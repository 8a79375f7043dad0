-- ===== src/Outcomes/Loop.antt =====
-- kestrel_sdk/resources.py: the loop of `observed_outcome_unknown` ends, and what each of its
-- rounds keeps holds of the result.
use kestrel_sovereign_sdk.Prelude.{
  ℕ, zero, suc, ◌+◌, ◌≤◌, ◌<◌, false, Bool-cases, Option, Option-cases, none, some, List, [], ◌∷◌,
  ◌≡◌, refl, ◌⊎◌, inl, inr, arith, length, if◌then◌else◌, ap,
}
use kestrel_sovereign_sdk.Outcomes.{
  ErrorGraph, Raised, object, member, extend, push_cause, push_group, Search, visit, search_loop,
  references, all_references, first_search, observed_outcome_unknown,
}

pub List-cases {ℓ} :
    {A : Type ℓ} (xs : List A) → (xs ≡ []) ⊎ ((x : A) × (rest : List A) × (xs ≡ x ∷ rest))
List-cases [] = inl refl
List-cases (x ∷ xs) = inr (x, xs, refl)

length-extend : (xs s : List ℕ) → length (extend xs s) ≡ length xs + length s
unfolding extend
length-extend [] s = omega arith
length-extend (x ∷ xs) s = omega (arith, length-extend xs (x ∷ s))

length-push_group :
    (e : Raised) (s : List ℕ) → length (push_group e (push_cause e s)) ≡ references e + length s
unfolding push_cause push_group references
length-push_group e s = elim (Option-cases e.exceptions) [
  | inl alone ↦ ground (arith, alone)
  | inr (es, group) ↦ ground (arith, length-extend es (push_cause e s))
]

-- The references of the objects not seen yet, from the index `i` on.
unfoldable open_references : List ℕ → ℕ → ErrorGraph → ℕ
unfolding ErrorGraph references member
open_references seen i [] = 0
open_references seen i (e ∷ h) =
    (if member seen i then 0 else references e) + open_references seen (suc i) h

open-none : (i : ℕ) (h : ErrorGraph) → open_references [] i h ≡ all_references h
unfolding ErrorGraph open_references all_references member
open-none i [] = refl
open-none i (e ∷ h) = omega (arith, open-none (suc i) h)

-- An index before the start counts for nothing.
-- An index before the start counts for nothing.
open-before :
    (u i : ℕ) (seen : List ℕ) (h : ErrorGraph)
    → u < i
    → open_references (u ∷ seen) i h ≡ open_references seen i h
unfolding ErrorGraph open_references member
open-before u i seen [] lt = refl
open-before u i seen (e ∷ h) lt = ground (arith, open-before u (suc i) seen h)

open-seen :
    (k i u : ℕ) (seen : List ℕ) (h : ErrorGraph)
    → u ≡ i + k
    → member seen u ≡ false
    → open_references seen i h ≡ references (object h k) + open_references (u ∷ seen) i h
unfolding ErrorGraph open_references member object references
open-seen k i u seen [] at_u new = omega arith
open-seen zero i u seen (e ∷ h) at_u new = ground (arith, open-before u (suc i) seen h)
open-seen (suc k) i u seen (e ∷ h) at_u new = ground (arith, open-seen k (suc i) u seen h)

-- What is left of the loop: each round takes one entry away or moves references to `pending`.
abbrev remaining : ErrorGraph → Search → ℕ
unfolding open_references ErrorGraph
remaining h s = length s.pending + open_references s.seen 0 h

remaining-visit :
    (h : ErrorGraph) (s : Search) (u : ℕ) (rest : List ℕ)
    → s.pending ≡ u ∷ rest
    → suc (remaining h (visit h s u rest)) ≡ remaining h s
unfolding visit remaining
remaining-visit h s u rest popped = elim (Bool-cases (member s.seen u)) [
  | inl again ↦ ground (arith, ap length popped)
  | inr new ↦ ground (
    arith,
    open-seen u 0 u s.seen h (omega arith) new,
    length-push_group (object h u) rest,
    ap length popped,
  )
]

loop_ends :
    (h : ErrorGraph) (fuel : ℕ) (s : Search)
    → remaining h s ≤ fuel
    → (os : List ℕ) × (search_loop h fuel s ≡ some os)
unfolding search_loop remaining
loop_ends h zero s enough = elim (List-cases s.pending) [
  | inl empty ↦ (s.observed, ground (arith, empty))
  | inr (u, rest, popped) ↦ absurd (omega (arith, ap length popped))
]
loop_ends h (suc fuel) s enough = elim (List-cases s.pending) [
  | inl empty ↦ (s.observed, ground (arith, empty))
  | inr (u, rest, popped) ↦
      let (os, ends) =
        loop_ends h fuel (visit h s u rest) (omega (arith, remaining-visit h s u rest popped)) in
      (os, ground (arith, popped, ends))
]

pub observed_returns :
    (h : ErrorGraph) (error : Option ℕ)
    → (os : List ℕ) × (observed_outcome_unknown h error ≡ some os)
unfolding observed_outcome_unknown remaining
observed_returns h error =
    loop_ends h (suc (all_references h)) (first_search error)
      (elim error as (λ o. remaining h (first_search o) ≤ suc (all_references h)) [
        | none ↦ omega (arith, open-none 0 h)
        | some e ↦ omega (arith, open-none 0 h)
      ])

-- What every round keeps holds when nothing is pending, and its list is the result.
pub loop_rule {ℓ} :
    (h : ErrorGraph) (P : Search → Type ℓ)
    → ((s : Search) (u : ℕ) (rest : List ℕ) → s.pending ≡ u ∷ rest → P s → P (visit h s u rest))
    → (fuel : ℕ) (s : Search) (os : List ℕ) → P s
    → search_loop h fuel s ≡ some os
    → (t : Search) × P t × (t.pending ≡ []) × (t.observed ≡ os)
unfolding search_loop
loop_rule h P keep zero s os p ends = elim (List-cases s.pending) [
  | inl empty ↦ (s, p, empty, ground (arith, empty))
  | inr (u, rest, popped) ↦ ground (arith, popped)
]
loop_rule h P keep (suc fuel) s os p ends = elim (List-cases s.pending) [
  | inl empty ↦ (s, p, empty, ground (arith, empty))
  | inr (u, rest, popped) ↦
      loop_rule h P keep fuel (visit h s u rest) os (keep s u rest popped p)
        (rw (popped, search_loop) at ends)
]
