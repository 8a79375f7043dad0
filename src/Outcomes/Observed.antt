-- ===== src/Outcomes/Observed.antt =====
-- kestrel_sdk/resources.py: `observed_outcome_unknown` finds the unknown outcomes of the graph.
use kestrel_sovereign_sdk.Prelude.{
  ℕ, suc, subst, sym, Bool, true, false, Bool-cases, Option, Option-cases, none, some, List, [],
  ◌∷◌, ◌++◌, ◌≡◌, refl, ◌⊎◌, inl, inr, ◌↔◌, arith, if◌then◌else◌,
}
use mathlib.Core.Logic.{⊎_elim}
use kestrel_sovereign_sdk.Outcomes.{
  ErrorGraph, Raised, object, member, extend, push_cause, push_group, Search, visit, first_search,
  all_references, observed_outcome_unknown,
}
use kestrel_sovereign_sdk.Outcomes.Reached.{Reached, raised, caused, grouped, IsDistinct}
use kestrel_sovereign_sdk.Outcomes.Loop.{observed_returns, loop_rule}

member-extend :
    (xs s : List ℕ) (v : ℕ)
    → (member (extend xs s) v ≡ true) ↔ ((member xs v ≡ true) ⊎ (member s v ≡ true))
unfolding extend member
member-extend [] s v = ground arith
member-extend (x ∷ xs) s v = ground (arith, member-extend xs (x ∷ s) v)

member-append :
    (xs s : List ℕ) (v : ℕ)
    → (member (xs ++ s) v ≡ true) ↔ ((member xs v ≡ true) ⊎ (member s v ≡ true))
unfolding member
member-append [] s v = ground arith
member-append (x ∷ xs) s v = ground (arith, member-append xs s v)

IsDistinct-append :
    (xs : List ℕ) (u : ℕ) → IsDistinct xs → ¬ (member xs u ≡ true) → IsDistinct (xs ++ u ∷ [])
unfolding IsDistinct member
IsDistinct-append [] u d new = (λ m. cc, tt)
IsDistinct-append (x ∷ xs) u d new =
    (ground (arith, member-append xs (u ∷ []) x, d.0), IsDistinct-append xs u d.1 (ground arith))

-- The references of an object: its cause and its group members.
Held : Raised → ℕ → Type 0
Held e v = (e.cause ≡ some v) ⊎ ((es : List ℕ) × (e.exceptions ≡ some es) × (member es v ≡ true))

-- What is pending after the references of `e` were pushed.
member-push_cause :
    (e : Raised) (s : List ℕ) (v : ℕ)
    → (member (push_cause e s) v ≡ true) ↔ ((e.cause ≡ some v) ⊎ (member s v ≡ true))
unfolding push_cause member
member-push_cause e s v = elim (Option-cases e.cause) [
  | inl bare ↦ ground (arith, bare)
  | inr (c, because) ↦ ground (arith, because)
]

member-push_group :
    (e : Raised) (s : List ℕ) (v : ℕ)
    → (member (push_group e (push_cause e s)) v ≡ true) ↔ (Held e v ⊎ (member s v ≡ true))
unfolding push_group Held member
member-push_group e s v = elim (Option-cases e.exceptions) [
  | inl alone ↦ ground (arith, alone, member-push_cause e s v)
  | inr (es, group) ↦
      ground (arith, group, member-push_cause e s v, member-extend es (push_cause e s) v)
]

-- The two branches of a round.
opened : ErrorGraph → Search → ℕ → List ℕ → Search
opened h s u rest = record {
  pending = push_group (object h u) (push_cause (object h u) rest);
  seen = u ∷ s.seen;
  observed = if (object h u).outcome_unknown then s.observed ++ u ∷ [] else s.observed;
}

visit-again :
    (h : ErrorGraph) (s : Search) (u : ℕ) (rest : List ℕ)
    → member s.seen u ≡ true
    → visit h s u rest ≡ record s { pending = rest }
unfolding visit
visit-again h s u rest again = simp again

visit-new :
    (h : ErrorGraph) (s : Search) (u : ℕ) (rest : List ℕ)
    → member s.seen u ≡ false
    → visit h s u rest ≡ opened h s u rest
unfolding visit opened
visit-new h s u rest new = simp new

seen-cases :
    (u : ℕ) (seen : List ℕ) (v : ℕ) → member (u ∷ seen) v ≡ true → (u ≡ v) ⊎ (member seen v ≡ true)
unfolding member
seen-cases u seen v m = ground arith

-- The list of observed outcomes after a new object.
abbrev noted : Bool → List ℕ → ℕ → List ℕ
noted unknown os u = if unknown then os ++ u ∷ [] else os

member-found :
    (unknown : Bool) (os : List ℕ) (u v : ℕ)
    → (member (noted unknown os u) v ≡ true) ↔ ((member os v ≡ true) ⊎ ((unknown ≡ true) × (u ≡ v)))
unfolding member
member-found true os u v = ground (arith, member-append os (u ∷ []) v)
member-found false os u v = ground arith

IsDistinct-found :
    (unknown : Bool) (os : List ℕ) (u : ℕ)
    → IsDistinct os
    → ¬ (member os u ≡ true)
    → IsDistinct (noted unknown os u)
IsDistinct-found true os u d new = IsDistinct-append os u d new
IsDistinct-found false os u d new = d

module _ (h : ErrorGraph) (error : Option ℕ) where
  record Inv (s : Search) : Type 0 where
    source : (u : ℕ) → error ≡ some u → (member s.seen u ≡ true) ⊎ (member s.pending u ≡ true)
    sound_pending : (v : ℕ) → member s.pending v ≡ true → Reached h error v
    sound_seen : (v : ℕ) → member s.seen v ≡ true → Reached h error v
    closed :
        (u v : ℕ)
        → member s.seen u ≡ true
        → Held (object h u) v
        → (member s.seen v ≡ true) ⊎ (member s.pending v ≡ true)
    exact :
        (v : ℕ)
        → (member s.observed v ≡ true)
          ↔ ((member s.seen v ≡ true) × ((object h v).outcome_unknown ≡ true))
    distinct : IsDistinct s.observed

  Reached-Held : (u v : ℕ) → Reached h error u → Held (object h u) v → Reached h error v
  unfolding Held
  Reached-Held u v to_u (inl c) = caused to_u c
  Reached-Held u v to_u (inr (es, g, m)) = grouped to_u g m

  Inv-first_search : Inv (first_search error)
  unfolding member IsDistinct
  Inv-first_search =
      elim error as (λ o. (o ≡ error) → Inv (first_search o)) [
        | none ↦ λ e. record {
          source = λ u r. cc;
          sound_pending = λ v m. cc;
          sound_seen = λ v m. cc;
          closed = λ u v m held. cc;
          exact = λ v. ground arith;
          distinct = tt;
        }
        | some r ↦ λ e. record {
          source = λ u r. ground arith;
          sound_pending = λ v m. raised (ground arith);
          sound_seen = λ v m. cc;
          closed = λ u v m held. cc;
          exact = λ v. ground arith;
          distinct = tt;
        }
      ]
        refl

  member-popped :
      (s : Search) (u : ℕ) (rest : List ℕ) (v : ℕ)
      → s.pending ≡ u ∷ rest
      → (member s.pending v ≡ true) ↔ ((u ≡ v) ⊎ (member rest v ≡ true))
  unfolding member
  member-popped s u rest v popped = rw popped (ground arith)

  Inv-again :
      (s : Search) (u : ℕ) (rest : List ℕ)
      → s.pending ≡ u ∷ rest
      → member s.seen u ≡ true
      → Inv s
      → Inv (record s { pending = rest })
  Inv-again s u rest popped again inv =
      let old = λ (v : ℕ). member-popped s u rest v popped in
      record {
        source = λ v r. ground (arith, inv.source v r, old v);
        sound_pending = λ v m. inv.sound_pending v ((old v).1 (inr m));
        sound_seen = inv.sound_seen;
        closed = λ w v m held. ground (arith, inv.closed w v m held, old v);
        exact = inv.exact;
        distinct = inv.distinct;
      }

  Inv-new :
      (s : Search) (u : ℕ) (rest : List ℕ)
      → s.pending ≡ u ∷ rest
      → member s.seen u ≡ false
      → Inv s
      → Inv (opened h s u rest)
  unfolding opened member
  Inv-new s u rest popped new inv =
      let old = λ (v : ℕ). member-popped s u rest v popped in
      let pushed = member-push_group (object h u) rest in
      let found = member-found (object h u).outcome_unknown s.observed u in
      let to_u = inv.sound_pending u ((old u).1 (inl refl)) in
      record {
        source = λ v r. ground (arith, inv.source v r, old v, pushed v);
        sound_pending = λ v m.
            ⊎_elim (Reached-Held u v to_u) (λ n. inv.sound_pending v ((old v).1 (inr n)))
              ((pushed v).0 m);
        sound_seen = λ v m.
            ⊎_elim (λ e. subst (Reached h error) e to_u) (inv.sound_seen v)
              (seen-cases u s.seen v m);
        closed = λ w v m held.
            ⊎_elim (λ e. inr ((pushed v).1 (inl (subst (λ x. Held (object h x) v) (sym e) held))))
              (λ n. ground (arith, inv.closed w v n held, old v, pushed v))
              (seen-cases u s.seen w m);
        exact = λ v. ground (arith, inv.exact v, found v);
        distinct =
            IsDistinct-found (object h u).outcome_unknown s.observed u inv.distinct
              (λ m. ground (arith, inv.exact u));
      }

  settled :
      (t : Search) (v : ℕ)
      → t.pending ≡ []
      → (member t.seen v ≡ true) ⊎ (member t.pending v ≡ true)
      → member t.seen v ≡ true
  unfolding member
  settled t v empty (inl m) = m
  settled t v empty (inr m) = cc (rw empty at m)

  Inv-visit :
      (s : Search) (u : ℕ) (rest : List ℕ) → s.pending ≡ u ∷ rest → Inv s → Inv (visit h s u rest)
  Inv-visit s u rest popped inv = elim (Bool-cases (member s.seen u)) [
    | inl again ↦ rw (visit-again h s u rest again) (Inv-again s u rest popped again inv)
    | inr new ↦ rw (visit-new h s u rest new) (Inv-new s u rest popped new inv)
  ]

  -- With nothing pending, what was seen is closed under references.
  complete :
      (t : Search) → Inv t → t.pending ≡ [] → {v : ℕ} → Reached h error v → member t.seen v ≡ true
  unfolding Held
  complete t inv empty (raised {u} e) = settled t u empty (inv.source u e)
  complete t inv empty (caused {u} {v} to_u c) =
      settled t v empty (inv.closed u v (complete t inv empty to_u) (inl c))
  complete t inv empty (grouped {u} {v} {es} to_u g m) =
      settled t v empty (inv.closed u v (complete t inv empty to_u) (inr (es, g, m)))

-- The search of an error's explicit cause and group graph returns. Its result lists exactly the
-- unknown outcomes that a chain of causes and group members reaches from the error, each once.
pub observed_outcome_unknown-Reached :
    (h : ErrorGraph) (error : Option ℕ)
    → (os : List ℕ) × (observed_outcome_unknown h error ≡ some os)
      × IsDistinct os
      × ((u : ℕ)
          → (member os u ≡ true) ↔ (Reached h error u × ((object h u).outcome_unknown ≡ true)))
unfolding observed_outcome_unknown
observed_outcome_unknown-Reached h error =
    let (os, ends) = observed_returns h error in
    let (t, inv, empty, e) =
      loop_rule h (Inv h error) (Inv-visit h error) (suc (all_references h)) (first_search error) os
        (Inv-first_search h error) ends in
    (
      os,
      ends,
      subst IsDistinct e inv.distinct,
      λ u.
          subst
            (λ x. (member x u ≡ true) ↔ (Reached h error u × ((object h u).outcome_unknown ≡ true)))
            e
            (
              λ m. let (s, b) = (inv.exact u).0 m in (inv.sound_seen u s, b),
              λ r. (inv.exact u).1 (complete h error t inv empty r.0, r.1),
            ),
    )
