-- ===== src/FrozenJson/Walk/Exact.antt =====
-- kestrel_sdk/_frozen_json.py: through the loops over items and entries, the accumulated size is
-- the length of the canonical encoding.
use kestrel_sovereign_sdk.Prelude.{
  ℕ, zero, suc, ◌+◌, Bool, true, false, Option, none, some, List, [], ◌∷◌, Text, Result, ok,
  raise_if, >>=-eq-ok, returns_by, ◌≡◌, ◌≢◌, refl, sym, ap, ◌∙◌, arith, length, get_elem?, All,
  text_eq, text_eq_iff, if◌then◌else◌, Bool-cases, inl, inr,
}
use kestrel_sovereign_sdk.FrozenJson.Values.{
  string, Value, scalar, ref, Container, mapping, sequence, Heap, Frozen, Items, nil, cons, Fields,
  end, field, Config, append_item, set_field, has_field,
}
use kestrel_sovereign_sdk.FrozenJson.Canonical.{
  thaw_json, thaw_items, thaw_fields, comma, compact, compact_elements, compact_entries,
}
use kestrel_sovereign_sdk.FrozenJson.Walk.{
  State, add_bytes, add_node, add_key, add_scalar, enter, leave, freeze_items, freeze_entries,
  freeze_container, freeze, dispatch, exceeds,
}
use kestrel_sovereign_sdk.FrozenJson.Walk.Size.{
  EncodesTo, EncodesTo-after, EncodesTo-then, EncodesTo-cast, AddsJson, size-add_bytes,
  size-add_node, size-add_key, size-enter, size-add_scalar, size-freeze_scalar,
}

append_items : {N : Type 0} → Items N → Items N → Items N
append_items nil ys = ys
append_items (cons x xs) ys = cons x (append_items xs ys)

append_items-append_item :
    {N : Type 0} (xs : Items N) (x : Frozen N) (ys : Items N)
    → append_items (append_item xs x) ys ≡ append_items xs (cons x ys)
unfolding append_items append_item
append_items-append_item nil x ys = refl
append_items-append_item (cons y xs) x ys = ap (cons y) (append_items-append_item xs x ys)

append_items-nil : {N : Type 0} (xs : Items N) → append_items xs nil ≡ xs
unfolding append_items
append_items-nil nil = refl
append_items-nil (cons x xs) = ap (cons x) (append_items-nil xs)

append_fields : {N : Type 0} → Fields N → Fields N → Fields N
append_fields end gs = gs
append_fields (field k x fs) gs = field k x (append_fields fs gs)

append_fields-end : {N : Type 0} (fs : Fields N) → append_fields fs end ≡ fs
unfolding append_fields
append_fields-end end = refl
append_fields-end (field k x fs) = ap (field k x) (append_fields-end fs)

-- A new key is appended.
append_fields-set_field :
    {N : Type 0} (k : Text) (x : Frozen N) (fs gs : Fields N)
    → has_field k fs ≡ false
    → append_fields (set_field k x fs) gs ≡ append_fields fs (field k x gs)
unfolding append_fields set_field has_field
append_fields-set_field k x end gs h = refl
append_fields-set_field k x (field j y fs) gs h = elim (Bool-cases (text_eq j k)) [
  | inl same ↦ cc (rw same at h)
  | inr other ↦ rw other (ap (field j y) (append_fields-set_field k x fs gs (rw other at h)))
]

has_field-set_field :
    {N : Type 0} (j k : Text) (x : Frozen N) (fs : Fields N)
    → j ≢ k
    → has_field j fs ≡ false
    → has_field j (set_field k x fs) ≡ false
unfolding set_field has_field
has_field-set_field j k x end d h = ground (arith, text_eq_iff k j)
has_field-set_field j k x (field i y fs) d h =
    ground (arith, text_eq_iff k j, text_eq_iff i j, text_eq_iff i k, has_field-set_field j k x fs)

separators :
    (first : Bool) (n j k m : ℕ)
    → n + j + (if first then 1 else 2) + k + m ≡ n + (length (comma first) + (j + (1 + (k + m))))
separators true n j k m = omega arith
separators false n j k m = omega arith

module _ {N : Type 0} (c : Config N) where
  -- No two keys of one mapping are stored under the same text. (The keys of a Python mapping
  -- differ, and each validator of the program returns the key that it is given.)
  abbrev pub KeysDistinct : List (Value N × Value N) → Type 0
  KeysDistinct [] = Unit
  KeysDistinct (e ∷ es) =
      ((key : Text) → c.validate_key e.0 ≡ ok key → All (λ d. c.validate_key d.0 ≢ ok key) es)
      × KeysDistinct es

  abbrev pub HasDistinctKeys : Option (Container N) → Type 0
  HasDistinctKeys none = Unit
  HasDistinctKeys (some (mapping es)) = KeysDistinct es
  HasDistinctKeys (some (sequence xs)) = Unit

module _ {N : Type 0} (c : Config N) where
  -- What a loop adds behind `acc`, and to the size `n`; the last byte is the closing bracket.
  record ItemsLoop (first : Bool) (acc : Items N) (n : ℕ) (r : Items N × State) : Type 0 where
    more : Items N
    grown : r.0 ≡ append_items acc more
    count : ℕ
    sized : r.1.size ≡ some (n + count)
    encodes : EncodesTo (compact_elements c.dumps_scalar first (thaw_items more)) (count + 1)

  record FieldsLoop (first : Bool) (acc : Fields N) (n : ℕ) (r : Fields N × State) : Type 0 where
    more : Fields N
    grown : r.0 ≡ append_fields acc more
    count : ℕ
    sized : r.1.size ≡ some (n + count)
    encodes : EncodesTo (compact_entries c.dumps_scalar first (thaw_fields more)) (count + 1)

  module _ (rec : Value N → State → Result (Frozen N × State))
      (exact : (v : Value N) (w : State) (r : Frozen N × State) (n : ℕ)
        → rec v w ≡ ok r
        → w.size ≡ some n
        → AddsJson c n r) where
    size-separator :
        (first : Bool) (w : State) {w' : State} {n : ℕ}
        → (if first then ok w else add_bytes c 1 w) ≡ ok w'
        → w.size ≡ some n
        → w'.size ≡ some (n + length (comma first))
    size-separator true w {w'} {n} h sz =
        returns_by (λ v. v.size ≡ some (n + 0)) h (sz ∙ ap some (omega arith))
    size-separator false w h sz = size-add_bytes c 1 w h sz

    exact-freeze_items :
        (first : Bool) (acc : Items N) (xs : List (Value N)) (w : State) {r : Items N × State}
        {n : ℕ}
        → freeze_items c rec first acc xs w ≡ ok r
        → w.size ≡ some n
        → ItemsLoop first acc n r
    unfolding freeze_items thaw_json compact
    exact-freeze_items first acc [] w {r} {n} h sz = returns_by (ItemsLoop first acc n) h (record {
      more = nil;
      grown = sym (append_items-nil acc);
      count = 0;
      sized = sz ∙ ap some (omega arith);
      encodes = record { bytes = b']' ∷ []; encodes = refl; measured = refl };
    })
    exact-freeze_items first acc (x ∷ xs) w {r} {n} h sz =
        let (w1, separated, rest1) = >>=-eq-ok (if first then ok w else add_bytes c 1 w) _ h in
        let (r2, frozen, rest2) = >>=-eq-ok (rec x w1) _ rest1 in
        let sz1 = size-separator first w separated sz in
        let (k, sz2, enc) = exact x w1 r2 _ frozen sz1 in
        let loop = exact-freeze_items false (append_item acc r2.0) xs r2.1 rest2 sz2 in
        record {
          more = cons r2.0 loop.more;
          grown = loop.grown ∙ append_items-append_item acc r2.0 loop.more;
          count = length (comma first) + (k + loop.count);
          sized = loop.sized ∙ ap some (omega arith);
          encodes =
              EncodesTo-cast (omega arith)
                (EncodesTo-after (comma first) (EncodesTo-then enc loop.encodes));
        }

    -- No key that is still to come is stored yet, and none comes twice.
    abbrev Fresh : Fields N → List (Value N × Value N) → Type 0
    Fresh acc = All (λ e. (key : Text) → c.validate_key e.0 ≡ ok key → has_field key acc ≡ false)

    Fresh-set_field :
        (key : Text) (x : Frozen N) (acc : Fields N) (es : List (Value N × Value N))
        → All (λ e. c.validate_key e.0 ≢ ok key) es
        → Fresh acc es
        → Fresh (set_field key x acc) es
    Fresh-set_field key x acc [] d f = tt
    Fresh-set_field key x acc (e ∷ es) d f = (
      λ k v. has_field-set_field k key x acc (λ p. d.0 (v ∙ ap ok p)) (f.0 k v),
      Fresh-set_field key x acc es d.1 f.1,
    )

    Fresh-end : (es : List (Value N × Value N)) → Fresh end es
    unfolding has_field
    Fresh-end [] = tt
    Fresh-end (e ∷ es) = (λ _ _. refl, Fresh-end es)

    exact-freeze_entries :
        (first : Bool) (acc : Fields N) (es : List (Value N × Value N)) (w : State)
        {r : Fields N × State} {n : ℕ}
        → KeysDistinct c es
        → Fresh acc es
        → freeze_entries c rec first acc es w ≡ ok r
        → w.size ≡ some n
        → FieldsLoop first acc n r
    unfolding freeze_entries thaw_json compact
    exact-freeze_entries first acc [] w {r} {n} d f h sz =
        returns_by (FieldsLoop first acc n) h (record {
          more = end;
          grown = sym (append_fields-end acc);
          count = 0;
          sized = sz ∙ ap some (omega arith);
          encodes = record { bytes = b'}' ∷ []; encodes = refl; measured = refl };
        })
    exact-freeze_entries first acc ((raw, item) ∷ es) w {r} {n} d f h sz =
        let (key, valid, rest) = >>=-eq-ok (c.validate_key raw) _ h in
        let (w1, counted, rest1) = >>=-eq-ok (add_key c w) _ rest in
        let (w2, named, rest2) = >>=-eq-ok (add_scalar c (string key) w1) _ rest1 in
        let (w3, marked, rest3) = >>=-eq-ok (add_bytes c (if first then 1 else 2) w2) _ rest2 in
        let (r4, frozen, rest4) = >>=-eq-ok (rec item w3) _ rest3 in
        let (j, sz2, enc_key) =
          size-add_scalar c (string key) w1 named (size-add_key c w counted ∙ sz) in
        let sz3 = size-add_bytes c (if first then 1 else 2) w2 marked sz2 in
        let (k, sz4, enc) = exact item w3 r4 _ frozen sz3 in
        let loop =
          exact-freeze_entries false (set_field key r4.0 acc) es r4.1 d.1
            (Fresh-set_field key r4.0 acc es (d.0 key valid) f.1) rest4 sz4 in
        record {
          more = field key r4.0 loop.more;
          grown = loop.grown ∙ append_fields-set_field key r4.0 acc loop.more (f.0 key valid);
          count = length (comma first) + (j + (1 + (k + loop.count)));
          sized = loop.sized ∙ ap some (separators first n j k loop.count);
          encodes = EncodesTo-cast (omega arith) (
              EncodesTo-after (comma first) (
                EncodesTo-then enc_key
                  (EncodesTo-after (b':' ∷ []) (EncodesTo-then enc loop.encodes))));
        }

    exact-freeze_container :
        (a : ℕ) (o : Option (Container N)) (w : State) {r : Frozen N × State} {n : ℕ}
        → HasDistinctKeys c o
        → freeze_container c rec a o w ≡ ok r
        → w.size ≡ some n
        → AddsJson c n r
    unfolding freeze_container thaw_json compact leave append_fields append_items
    exact-freeze_container a none w d h sz = cc
    exact-freeze_container a (some (mapping es)) w {r} {n} d h sz =
        let (w1, entered, rest1) = >>=-eq-ok (enter c a w) _ h in
        let (w2, opened, rest2) = >>=-eq-ok (add_bytes c 2 w1) _ rest1 in
        let (r3, looped, rest3) = >>=-eq-ok (freeze_entries c rec true end es w2) _ rest2 in
        let sz2 = size-add_bytes c 2 w1 opened (size-enter c a w entered ∙ sz) in
        let loop = exact-freeze_entries true end es w2 d (Fresh-end es) looped sz2 in
        returns_by (AddsJson c n) rest3 (
          2 + loop.count,
          loop.sized ∙ ap some (omega arith),
          rw loop.grown (EncodesTo-cast (omega arith) (EncodesTo-after (b'{' ∷ []) loop.encodes)),
        )
    exact-freeze_container a (some (sequence xs)) w {r} {n} d h sz =
        let (w1, entered, rest1) = >>=-eq-ok (enter c a w) _ h in
        let (w2, opened, rest2) = >>=-eq-ok (add_bytes c 2 w1) _ rest1 in
        let (r3, looped, rest3) = >>=-eq-ok (freeze_items c rec true nil xs w2) _ rest2 in
        let sz2 = size-add_bytes c 2 w1 opened (size-enter c a w entered ∙ sz) in
        let loop = exact-freeze_items true nil xs w2 looped sz2 in
        returns_by (AddsJson c n) rest3 (
          2 + loop.count,
          loop.sized ∙ ap some (omega arith),
          rw loop.grown (EncodesTo-cast (omega arith) (EncodesTo-after (b'[' ∷ []) loop.encodes)),
        )

  module _ (heap : Heap N) (distinct : (a : ℕ) → HasDistinctKeys c (get_elem? heap a)) where
    pub exact-freeze :
        (fuel depth : ℕ) (v : Value N) (w : State) {r : Frozen N × State} {n : ℕ}
        → freeze c heap fuel depth v w ≡ ok r
        → w.size ≡ some n
        → AddsJson c n r
    unfolding freeze dispatch
    exact-freeze zero depth v w h sz = cc
    exact-freeze (suc fuel) depth (scalar s) w h sz =
        let (_, _, rest) = >>=-eq-ok (raise_if (exceeds c.limits.max_depth depth) _) _ h in
        let (w1, noded, rest1) = >>=-eq-ok (add_node c w) _ rest in
        size-freeze_scalar c s w1 rest1 (size-add_node c w noded ∙ sz)
    exact-freeze (suc fuel) depth (ref a) w h sz =
        let (_, _, rest) = >>=-eq-ok (raise_if (exceeds c.limits.max_depth depth) _) _ h in
        let (w1, noded, rest1) = >>=-eq-ok (add_node c w) _ rest in
        exact-freeze_container (freeze c heap fuel (suc depth))
          (λ v' w' r' n' h' sz'. exact-freeze fuel (suc depth) v' w' h' sz') a (get_elem? heap a) w1
          (distinct a) rest1 (size-add_node c w noded ∙ sz)
