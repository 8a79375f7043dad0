-- ===== src/FrozenJson/Walk/Ancestors.antt =====
-- kestrel_sdk/_frozen_json.py: a freeze leaves the set of ancestors as it found it.
use kestrel_sovereign_sdk.Prelude.{
  ℕ, zero, suc, true, false, Option, none, some, List, [], ◌∷◌, Result, ok, raise_if, >>=-eq-ok,
  returns_by, ◌≡◌, refl, ap, ◌∙◌, arith, get_elem?,
}
use kestrel_sovereign_sdk.FrozenJson.Values.{
  Value, scalar, ref, Container, mapping, sequence, Heap, Frozen, nil, end, Config,
}
use kestrel_sovereign_sdk.FrozenJson.Walk.{
  State, add_bytes, add_node, add_key, enter, leave, discard, mem, freeze_items, freeze_entries,
  freeze_container, freeze, dispatch, exceeds,
}
use kestrel_sovereign_sdk.FrozenJson.Walk.Keeps.{
  Kept, Kept-freeze_scalar, Kept-freeze_items, Kept-freeze_entries,
}

discard-of_not_mem : (a : ℕ) (above : List ℕ) → mem a above ≡ false → discard a above ≡ above
unfolding discard
discard-of_not_mem a [] h = refl
discard-of_not_mem a (b ∷ bs) h = ground (arith, discard-of_not_mem a bs)

discard-cons_self : (a : ℕ) (above : List ℕ) → mem a above ≡ false → discard a (a ∷ above) ≡ above
unfolding discard
discard-cons_self a above h = ground (arith, discard-of_not_mem a above)

module _ {N : Type 0} (c : Config N) where
  abbrev pub HasAncestors : List ℕ → State → Type 0
  HasAncestors above w = w.ancestors ≡ above

  pub HasAncestors-Kept : (above : List ℕ) → Kept c (HasAncestors above)
  unfolding add_bytes add_node add_key
  HasAncestors-Kept above = record {
    bytes = λ count w w' h p. ground arith;
    node = λ w w' h p. ground arith;
    key = λ w w' h p. ground arith;
  }

  pub enter-HasAncestors :
      (a : ℕ) (above : List ℕ) (w : State) {w' : State}
      → enter c a w ≡ ok w'
      → HasAncestors above w
      → (mem a above ≡ false) × HasAncestors (a ∷ above) w'
  unfolding enter
  enter-HasAncestors a above w h p = ground arith

  leave-HasAncestors :
      (a : ℕ) (above : List ℕ) (w : State)
      → mem a above ≡ false
      → HasAncestors (a ∷ above) w
      → HasAncestors above (leave c a w)
  unfolding leave
  leave-HasAncestors a above w new p = ap (discard a) p ∙ discard-cons_self a above new

  module _ (rec : Value N → State → Result (Frozen N × State))
      (keeps : (above : List ℕ) (v : Value N) (w : State) (r : Frozen N × State)
        → rec v w ≡ ok r
        → HasAncestors above w
        → HasAncestors above r.1) where
    container-HasAncestors :
        (a : ℕ) (o : Option (Container N)) (above : List ℕ) (w : State) {r : Frozen N × State}
        → freeze_container c rec a o w ≡ ok r
        → HasAncestors above w
        → HasAncestors above r.1
    unfolding freeze_container
    container-HasAncestors a none above w h p = cc
    container-HasAncestors a (some (mapping es)) above w h p =
        let (w1, came, rest1) = >>=-eq-ok (enter c a w) _ h in
        let (w2, opened, rest2) = >>=-eq-ok (add_bytes c 2 w1) _ rest1 in
        let (r3, looped, rest3) = >>=-eq-ok (freeze_entries c rec true end es w2) _ rest2 in
        let (new, p1) = enter-HasAncestors a above w came p in
        let keep = HasAncestors-Kept (a ∷ above) in
        returns_by (λ r. HasAncestors above r.1) rest3
          (leave-HasAncestors a above r3.1 new (
            Kept-freeze_entries c keep rec (keeps (a ∷ above)) true end es w2 looped
              (keep.bytes 2 w1 w2 opened p1)))
    container-HasAncestors a (some (sequence xs)) above w h p =
        let (w1, came, rest1) = >>=-eq-ok (enter c a w) _ h in
        let (w2, opened, rest2) = >>=-eq-ok (add_bytes c 2 w1) _ rest1 in
        let (r3, looped, rest3) = >>=-eq-ok (freeze_items c rec true nil xs w2) _ rest2 in
        let (new, p1) = enter-HasAncestors a above w came p in
        let keep = HasAncestors-Kept (a ∷ above) in
        returns_by (λ r. HasAncestors above r.1) rest3
          (leave-HasAncestors a above r3.1 new (
            Kept-freeze_items c keep rec (keeps (a ∷ above)) true nil xs w2 looped
              (keep.bytes 2 w1 w2 opened p1)))

  pub freeze-HasAncestors :
      (heap : Heap N) (fuel depth : ℕ) (above : List ℕ) (v : Value N) (w : State)
      (r : Frozen N × State)
      → freeze c heap fuel depth v w ≡ ok r
      → HasAncestors above w
      → HasAncestors above r.1
  unfolding freeze dispatch
  freeze-HasAncestors heap zero depth above v w r h p = cc
  freeze-HasAncestors heap (suc fuel) depth above (scalar s) w r h p =
      let (_, _, rest) = >>=-eq-ok (raise_if (exceeds c.limits.max_depth depth) _) _ h in
      let (w1, noded, rest1) = >>=-eq-ok (add_node c w) _ rest in
      let keep = HasAncestors-Kept above in
      Kept-freeze_scalar c keep s w1 rest1 (keep.node w w1 noded p)
  freeze-HasAncestors heap (suc fuel) depth above (ref a) w r h p =
      let (_, _, rest) = >>=-eq-ok (raise_if (exceeds c.limits.max_depth depth) _) _ h in
      let (w1, noded, rest1) = >>=-eq-ok (add_node c w) _ rest in
      container-HasAncestors (freeze c heap fuel (suc depth))
        (λ above' v' w' r' h' p'. freeze-HasAncestors heap fuel (suc depth) above' v' w' r' h' p') a
        (get_elem? heap a) above w1 rest1 ((HasAncestors-Kept above).node w w1 noded p)
