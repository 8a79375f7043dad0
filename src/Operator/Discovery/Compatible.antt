-- ===== src/Operator/Discovery/Compatible.antt =====
-- kestrel_sdk/operator/discovery.py: what `accepts` means, and lookups by a registration's key.
use kestrel_sovereign_sdk.Prelude.{
  ℕ, Bool, true, false, Bool-cases, Option-cases, none, Text, text_eq, text_eq_iff, Result, ok,
  ◌>>◌, >>=-eq-ok, ◌≡◌, ◌↔◌, refl, arith, ok-injective, subst, not, ◌||◌, if◌then◌else◌, inl, inr,
  leb, length, sym, ◌∙◌, ap,
}
use kestrel_sovereign_sdk.Validation.Tokens.{stable_token}
use kestrel_sovereign_sdk.Validation.Versions.{
  match_version, accept_match, semantic_version, release_of, semantic_version_parts,
}
use kestrel_sovereign_sdk.Operator.Discovery.{
  ServiceScope, scope_is, ServiceDescriptor, check_descriptor, ServiceRequirement,
  check_requirement, compatible, has_dash, version_accepts, accepts,
}

compatible_trans :
    (p q r : ℕ × ℕ × ℕ) → compatible q p ≡ true → compatible r q ≡ true → compatible r p ≡ true
unfolding compatible
compatible_trans (a, b, c) (d, e, f) (x, y, z) h k = ground arith

scope_is_iff : (a b : ServiceScope) → (scope_is a b ≡ true) ↔ (a ≡ b)
unfolding scope_is
scope_is_iff a b = ground arith

rejected_by :
    (s : Text) (pre build : Bool) {t : Text}
    → match_version s ≡ none
    → semantic_version s pre build ≡ ok t
    → true ≡ false
unfolding semantic_version accept_match
rejected_by s pre build absent h = elim (Bool-cases (leb (length s) 128)) [
  | inl short ↦ cc (rw (short, absent) at h)
  | inr long ↦ cc (rw long at h)
]

-- A version that was accepted has a release tuple.
semantic_version-parts :
    (s t : Text) (pre build : Bool)
    → semantic_version s pre build ≡ ok t
    → (p : ℕ × ℕ × ℕ) × (semantic_version_parts s ≡ ok p)
unfolding semantic_version accept_match semantic_version_parts release_of
semantic_version-parts s t pre build h = elim (Option-cases (match_version s)) [
  | inl absent ↦ cc (rejected_by s pre build absent h)
  | inr (m, found) ↦ ((m.major, m.minor, m.patch), simp found)
]

-- What an accepted candidate is.
record Accepted (r : ServiceRequirement) (d : ServiceDescriptor) : Type 0 where
  same_name : d.name ≡ r.name
  same_scope : d.scope ≡ r.scope
  stable : has_dash d.version ≡ false
  required : ℕ × ℕ × ℕ
  candidate : ℕ × ℕ × ℕ
  required_parts : semantic_version_parts r.minimum_version ≡ ok required
  candidate_parts : semantic_version_parts d.version ≡ ok candidate
  later : compatible candidate required ≡ true

guards :
    (n s p : Bool) (m : Result Bool)
    → (if not n || not s then ok false else if p then ok false else m) ≡ ok true
    → (n ≡ true) × (s ≡ true) × (p ≡ false) × (m ≡ ok true)
guards true true false m h = (refl, refl, refl, h)
guards true true true m h = cc
guards true false p m h = cc
guards false s p m h = cc

accepts-Accepted :
    (r : ServiceRequirement) (d : ServiceDescriptor) → accepts r d ≡ ok true → Accepted r d
unfolding accepts version_accepts
accepts-Accepted r d h =
    let (name, scope, dash, compared) =
      guards (text_eq d.name r.name) (scope_is d.scope r.scope) (has_dash d.version)
        (version_accepts r.minimum_version d.version) h in
    let (required, rp, next) = >>=-eq-ok (semantic_version_parts r.minimum_version) _ compared in
    let (candidate, cp, last) = >>=-eq-ok (semantic_version_parts d.version) _ next in
    record {
      same_name = (text_eq_iff d.name r.name).0 name;
      same_scope = (scope_is_iff d.scope r.scope).0 scope;
      stable = dash;
      required = required;
      candidate = candidate;
      required_parts = rp;
      candidate_parts = cp;
      later = ok-injective last;
    }

Accepted-accepts :
    (r : ServiceRequirement) (d : ServiceDescriptor) → Accepted r d → accepts r d ≡ ok true
unfolding accepts version_accepts
Accepted-accepts r d h = simp (
  (text_eq_iff d.name r.name).1 h.same_name,
  (scope_is_iff d.scope r.scope).1 h.same_scope,
  h.stable,
  h.required_parts,
  h.candidate_parts,
  h.later,
)

-- Compatibility composes: if a requirement accepts a service, and the requirement of that service's
-- version, of any agent, accepts another service, then the first requirement accepts the other one.
pub accepts-accepts :
    (r s : ServiceRequirement) (d e : ServiceDescriptor)
    → s.name ≡ d.name
    → s.scope ≡ d.scope
    → s.minimum_version ≡ d.version
    → accepts r d ≡ ok true
    → accepts s e ≡ ok true
    → accepts r e ≡ ok true
accepts-accepts r s d e name scope version h k =
    let first = accepts-Accepted r d h in
    let second = accepts-Accepted s e k in
    let middle =
      ok-injective
        (sym second.required_parts ∙ ap semantic_version_parts version ∙ first.candidate_parts) in
    Accepted-accepts r e (record {
      same_name = second.same_name ∙ name ∙ first.same_name;
      same_scope = second.same_scope ∙ scope ∙ first.same_scope;
      stable = second.stable;
      required = first.required;
      candidate = second.candidate;
      required_parts = first.required_parts;
      candidate_parts = second.candidate_parts;
      later =
          compatible_trans first.required first.candidate second.candidate first.later
            (subst (λ x. compatible second.candidate x ≡ true) middle second.later);
    })

guards_return :
    (n s p : Bool) (m : Result Bool) (x : Bool)
    → m ≡ ok x
    → (b : Bool) × ((if not n || not s then ok false else if p then ok false else m) ≡ ok b)
guards_return true true false m x e = (x, e)
guards_return true true true m x e = (false, refl)
guards_return true false p m x e = (false, refl)
guards_return false s p m x e = (false, refl)

version_accepts_returns :
    (minimum_version version : Text) (p q : ℕ × ℕ × ℕ)
    → semantic_version_parts minimum_version ≡ ok p
    → semantic_version_parts version ≡ ok q
    → version_accepts minimum_version version ≡ ok (compatible q p)
unfolding version_accepts
version_accepts_returns minimum_version version p q e f = simp (e, f)

-- A requirement and a descriptor that their constructors accept are always compared: `accepts` does
-- not raise on them.
pub accepts_returns :
    (r : ServiceRequirement) (d : ServiceDescriptor)
    → check_requirement r ≡ ok tt
    → check_descriptor d ≡ ok tt
    → (b : Bool) × (accepts r d ≡ ok b)
unfolding accepts check_requirement check_descriptor
accepts_returns r d rc dc =
    let (_, first, _) =
      >>=-eq-ok (stable_token r.name "name" >> semantic_version r.minimum_version false false) _
        rc in
    let (v, _, minimum) = >>=-eq-ok (stable_token r.name "name") _ first in
    let (_, second, _) =
      >>=-eq-ok (stable_token d.name "name" >> semantic_version d.version true false) _ dc in
    let (w, _, version) = >>=-eq-ok (stable_token d.name "name") _ second in
    let (p, e) = semantic_version-parts r.minimum_version _ false false minimum in
    let (q, f) = semantic_version-parts d.version _ true false version in
    guards_return (text_eq d.name r.name) (scope_is d.scope r.scope) (has_dash d.version)
      (version_accepts r.minimum_version d.version) (compatible q p)
      (version_accepts_returns r.minimum_version d.version p q e f)
