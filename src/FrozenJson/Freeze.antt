-- ===== src/FrozenJson/Freeze.antt =====
-- kestrel_sdk/_frozen_json.py, `freeze_json` as its callers see it.
use kestrel_sovereign_sdk.Prelude.{
  ℕ, ◌+◌, ◌≤◌, ◌<◌, Option, some, ok, recursion_error, err, >>=-eq-ok, returns_by, ◌≡◌, ◌≢◌, refl,
  sym, ◌∙◌, ap, arith, get_elem?, length, subst, [],
}
use kestrel_sovereign_sdk.FrozenJson.Values.{Value, Heap, Config}
use kestrel_sovereign_sdk.FrozenJson.Canonical.{JsonDumps, canonical_json_bytes, thaw_json}
use kestrel_sovereign_sdk.FrozenJson.Walk.{start, start_size, FrozenJson, freeze, freeze_json}
use kestrel_sovereign_sdk.FrozenJson.Walk.Size.{EncodesTo}
use kestrel_sovereign_sdk.FrozenJson.Walk.Exact.{HasDistinctKeys, exact-freeze}
use kestrel_sovereign_sdk.FrozenJson.Walk.Keeps.{IsWithin, freeze-IsWithin, SizeAtMost}
use kestrel_sovereign_sdk.FrozenJson.Walk.Terminates.{
  Returns-bind, ValidatorsReturn, free-le, freeze-Returns, freeze-Returns_of_depth,
}

some_zero_add : (n : ℕ) → some (0 + n) ≡ some n
some_zero_add n = ap some (omega arith)

within_budget :
    (o limit : Option ℕ) (n budget : ℕ)
    → o ≡ some n
    → limit ≡ some budget
    → SizeAtMost o limit
    → n ≤ budget
within_budget o limit n budget p q h = ground arith

module _ {N : Type 0} (c : Config N) (heap : Heap N) where
  -- The measured size of an accepted value: `canonical_json_bytes` succeeds with so many bytes.
  pub record Measured (json : JsonDumps c.dumps_scalar) (budget : ℕ) (r : FrozenJson N)
      : Type 0 where
    pub size : ℕ
    pub reported : r.encoded_bytes ≡ some size
    pub exact : EncodesTo (canonical_json_bytes json r.value) size
    pub fits : size ≤ budget

  start-IsWithin : IsWithin c (start c)
  start-IsWithin = ground arith

  -- With a byte budget, and where no two keys of one mapping are stored under the same text,
  -- whatever `freeze_json` accepts has a canonical encoding, `encoded_bytes` is its exact length,
  -- and that is within the budget.
  pub freeze_json-Measured :
      (json : JsonDumps c.dumps_scalar) (fuel budget : ℕ) (v : Value N) {r : FrozenJson N}
      → ((a : ℕ) → HasDistinctKeys c (get_elem? heap a))
      → c.limits.max_encoded_bytes ≡ some budget
      → freeze_json c heap fuel v ≡ ok r
      → Measured json budget r
  unfolding freeze_json canonical_json_bytes
  freeze_json-Measured json fuel budget v {r} distinct limited h =
      let (p, walked, returned) = >>=-eq-ok (freeze c heap fuel 0 v (start c)) _ h in
      let (n, sized, exact) =
        exact-freeze c heap distinct fuel 0 v (start c) walked (ap start_size limited) in
      let within = freeze-IsWithin c heap fuel 0 v (start c) walked start-IsWithin in
      returns_by (Measured json budget) returned (record {
        size = n;
        reported = sized ∙ some_zero_add n;
        exact = subst (λ e. EncodesTo e n) (sym (json.dumps_compact (thaw_json p.0))) exact;
        fits =
            within_budget p.1.size c.limits.max_encoded_bytes n budget (sized ∙ some_zero_add n)
              limited within.size;
      })

  -- If no validator raises RecursionError and the stack has room for more nested calls than there are
  -- containers, `freeze_json` raises no RecursionError on any graph of containers, cyclic or not.
  pub freeze_json_returns :
      (fuel : ℕ) (v : Value N)
      → ValidatorsReturn c
      → length heap < fuel
      → freeze_json c heap fuel v ≢ err recursion_error
  unfolding freeze_json
  freeze_json_returns fuel v validators enough =
      Returns-bind (freeze c heap fuel 0 v (start c)) _
        (freeze-Returns c validators heap fuel 0 [] v (start c)
          (omega (arith, free-le (length heap) [])) refl)
        (λ _ _ e. cc)

  -- If no validator raises RecursionError, there is a depth limit and the stack has room for two more
  -- nested calls than the limit, `freeze_json` raises no RecursionError on any value.
  pub freeze_json_returns_of_depth :
      (limit fuel : ℕ) (v : Value N)
      → ValidatorsReturn c
      → c.limits.max_depth ≡ some limit
      → limit + 2 ≤ fuel
      → freeze_json c heap fuel v ≢ err recursion_error
  unfolding freeze_json
  freeze_json_returns_of_depth limit fuel v validators bound enough =
      Returns-bind (freeze c heap fuel 0 v (start c)) _
        (freeze-Returns_of_depth c validators heap limit fuel 0 [] v (start c) bound (omega arith)
          (omega arith) refl)
        (λ _ _ e. cc)
