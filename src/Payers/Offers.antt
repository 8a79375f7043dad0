-- ===== src/Payers/Offers.antt =====
-- kestrel_sdk/payer_policy.py: what the setup wizard offers, and what the checks of specs and
-- policies accept.
use kestrel_sovereign_sdk.Prelude.{
  Bool, true, false, Bool-cases, Option, none, some, List, [], ◌∷◌, Text, codes, text_eq,
  text_eq_iff, contains, ◌==◌, if◌then◌else◌, subst, ap, ◌∙◌, ◌&&◌, not, ◌||◌, ◌≡◌, ◌↔◌, ◌⊎◌, inl,
  inr, refl, arith, ==_iff,
}
use kestrel_sovereign_sdk.Payers.Matrix.{
  ResourceClass, Entry, support_matrix, vendor_wildcard, PayerKind, SupportStatus, class_position,
  kind_position, same_key, lookup, is_ready_status, is_offerable, keep, supported_kinds_for, offers,
  payer_kinds,
}

kind_position-injective : (a b : PayerKind) → kind_position a ≡ kind_position b → a ≡ b
unfolding kind_position
kind_position-injective a b e = ground arith

same_kind :
    (test : PayerKind → Bool) (x k : PayerKind)
    → (kind_position x == kind_position k) ≡ true
    → test x ≡ test k
same_kind test x k e = ap test (kind_position-injective x k ((==_iff _ _).0 e))

offers-if :
    (b : Bool) (x : PayerKind) (ks : List PayerKind) (k : PayerKind)
    → offers (if b then x ∷ ks else ks) k
      ≡ (if b then (kind_position x == kind_position k) || offers ks k else offers ks k)
unfolding offers
offers-if true x ks k = refl
offers-if false x ks k = refl

-- A filter's step, on the tests' values.
filter_step :
    (same rest kept passes here : Bool)
    → (same ≡ true → passes ≡ here)
    → (kept ≡ true) ↔ ((rest ≡ true) × (here ≡ true))
    → ((if passes then same || kept else kept) ≡ true) ↔ (((same || rest) ≡ true) × (here ≡ true))
filter_step same rest kept passes here alike ih = ground arith

offers-keep :
    (test : PayerKind → Bool) (ks : List PayerKind) (k : PayerKind)
    → (offers (keep test ks) k ≡ true) ↔ ((offers ks k ≡ true) × (test k ≡ true))
unfolding offers keep
offers-keep test [] k = ground arith
offers-keep test (x ∷ ks) k = rw offers-if (
    filter_step (kind_position x == kind_position k) (offers ks k) (offers (keep test ks) k)
      (test x) (test k) (same_kind test x k) (offers-keep test ks k))

offers-every : (k : PayerKind) → offers payer_kinds k ≡ true
unfolding offers kind_position
offers-every k = ground arith

-- The kinds that the wizard lists for a resource and a vendor are those that it may offer.
pub supported_kinds_for_iff :
    (r : ResourceClass) (v : Text) (k : PayerKind)
    → (offers (supported_kinds_for r v) k ≡ true) ↔ (is_offerable r v k ≡ true)
unfolding supported_kinds_for
supported_kinds_for_iff r v k =
    ground (arith, offers-keep (is_offerable r v) payer_kinds k, offers-every k)

-- Paid from the host's environment, or not used at all.
unfoldable pub basic : PayerKind → Bool
basic PayerKind.unpaid = true
basic PayerKind.host_env = true
basic _ = false

unfoldable pub pays_itself : PayerKind → Bool
pays_itself PayerKind.self_wallet = true
pays_itself _ = false

-- The support matrix as rules.
unfoldable pub Supported : ResourceClass → Text → PayerKind → Type 0
unfolding basic pays_itself
Supported ResourceClass.llm v k =
    ((v ≡ codes "openrouter") × (pays_itself k ≡ false)) ⊎ ((v ≡ codes "local") × (basic k ≡ true))
Supported ResourceClass.storage v k =
    ((v ≡ codes "lighthouse") × ((basic k || pays_itself k) ≡ true))
    ⊎ ((v ≡ codes "local-disk") × (basic k ≡ true))
Supported _ v k = basic k ≡ true

-- The vendors that a matrix lists for a resource.
vendors : ResourceClass → List Entry → List Text
vendors r [] = []
vendors r (e ∷ es) =
    if class_position e.resource_class == class_position r
    then e.vendor ∷ vendors r es
    else vendors r es

lookup-vendors :
    (m : List Entry) (r : ResourceClass) (v : Text) (k : PayerKind)
    → contains (vendors r m) v ≡ false
    → lookup m r v k ≡ none
unfolding vendors lookup same_key contains
lookup-vendors [] r v k absent = refl
lookup-vendors (e ∷ es) r v k absent = ground (arith, lookup-vendors es r v k)

-- An unlisted vendor has the status of the wildcard.
unlisted :
    (r : ResourceClass) (v : Text) (k : PayerKind)
    → contains (vendors r support_matrix) v ≡ false
    → is_offerable r v k
      ≡ is_ready_status (elim (lookup support_matrix r vendor_wildcard k) [
        | some s ↦ s
        | none ↦ SupportStatus.not_implemented
      ])
unfolding is_offerable
unlisted r v k absent =
    ap
      (λ (o : Option SupportStatus). is_ready_status (elim o [
        | some c ↦ c
        | none ↦ elim (lookup support_matrix r vendor_wildcard k) [
          | some s ↦ s
          | none ↦ SupportStatus.not_implemented
        ]
      ]))
      (lookup-vendors support_matrix r v k absent)

abbrev Claimed : ResourceClass → Text → PayerKind → Type 0
Claimed r v k = (is_offerable r v k ≡ true) ↔ Supported r v k

-- A vendor is one of two listed ones, or listed nowhere.
one_of_two :
    (a b v : Text) (P : Text → Type 0)
    → P a
    → P b
    → (text_eq a v ≡ false → text_eq b v ≡ false → P v)
    → P v
one_of_two a b v P pa pb pn = elim (Bool-cases (text_eq a v)) [
  | inl e ↦ subst P ((text_eq_iff a v).0 e) pa
  | inr n ↦ elim (Bool-cases (text_eq b v)) [
    | inl e ↦ subst P ((text_eq_iff b v).0 e) pb
    | inr m ↦ pn n m
  ]
]

llm_openrouter :
    (k : PayerKind) → is_offerable ResourceClass.llm (codes "openrouter") k ≡ (not (pays_itself k))
unfolding is_offerable basic pays_itself text_eq
llm_openrouter PayerKind.unpaid = refl
llm_openrouter k = refl

llm_local : (k : PayerKind) → is_offerable ResourceClass.llm (codes "local") k ≡ (basic k)
unfolding is_offerable basic pays_itself text_eq
llm_local PayerKind.unpaid = refl
llm_local k = refl

storage_lighthouse :
    (k : PayerKind)
    → is_offerable ResourceClass.storage (codes "lighthouse") k ≡ (basic k || pays_itself k)
unfolding is_offerable basic pays_itself text_eq
storage_lighthouse PayerKind.unpaid = refl
storage_lighthouse k = refl

storage_disk :
    (k : PayerKind) → is_offerable ResourceClass.storage (codes "local-disk") k ≡ (basic k)
unfolding is_offerable basic pays_itself text_eq
storage_disk PayerKind.unpaid = refl
storage_disk k = refl

compute_any : (k : PayerKind) → is_offerable ResourceClass.compute (codes "*") k ≡ (basic k)
unfolding is_offerable basic pays_itself text_eq
compute_any PayerKind.unpaid = refl
compute_any k = refl

tools_any : (k : PayerKind) → is_offerable ResourceClass.tools (codes "*") k ≡ (basic k)
unfolding is_offerable basic pays_itself text_eq
tools_any PayerKind.unpaid = refl
tools_any k = refl

comms_any : (k : PayerKind) → is_offerable ResourceClass.comms (codes "*") k ≡ (basic k)
unfolding is_offerable basic pays_itself text_eq
comms_any PayerKind.unpaid = refl
comms_any k = refl

-- What the wildcard offers.
abbrev wildcard_offer : ResourceClass → PayerKind → Bool
wildcard_offer r k = is_ready_status (elim (lookup support_matrix r vendor_wildcard k) [
  | some s ↦ s
  | none ↦ SupportStatus.not_implemented
])

-- Only computers, tools and messages have a wildcard.
abbrev is_generic : ResourceClass → Bool
is_generic ResourceClass.llm = false
is_generic ResourceClass.storage = false
is_generic _ = true

wildcard_basic :
    (r : ResourceClass) (k : PayerKind) → wildcard_offer r k ≡ (is_generic r && basic k)
unfolding lookup text_eq basic is_ready_status
wildcard_basic ResourceClass.llm PayerKind.unpaid = refl
wildcard_basic ResourceClass.llm k = refl
wildcard_basic ResourceClass.storage PayerKind.unpaid = refl
wildcard_basic ResourceClass.storage k = refl
wildcard_basic r PayerKind.unpaid = refl
wildcard_basic r k = refl

-- A class without listed vendors offers every vendor the same.
generic :
    (r : ResourceClass) (v : Text) (k : PayerKind)
    → ((k : PayerKind) → is_offerable r (codes "*") k ≡ (is_generic r && basic k))
    → (text_eq (codes "*") v ≡ false → contains (vendors r support_matrix) v ≡ false)
    → is_offerable r v k ≡ (is_generic r && basic k)
generic r v k listed absent =
    one_of_two (codes "*") (codes "*") v (λ x. is_offerable r x k ≡ (is_generic r && basic k))
      (listed k) (listed k) (λ n m. unlisted r v k (absent n) ∙ wildcard_basic r k)

-- Which payers are READY. The LLM vendor openrouter: every kind but the agent's own wallet; the
-- storage vendor lighthouse: the host's environment, no use, and the agent's own wallet; the vendors
-- local and local-disk, and every vendor of computers, tools and messages: the host's environment and
-- no use; any other vendor of LLMs or storage: none.
pub is_offerable_iff :
    (r : ResourceClass) (v : Text) (k : PayerKind) → (is_offerable r v k ≡ true) ↔ Supported r v k
unfolding Supported vendors contains class_position
is_offerable_iff ResourceClass.llm v k =
    one_of_two (codes "openrouter") (codes "local") v (λ x. Claimed ResourceClass.llm x k)
      (ground (arith, llm_openrouter k)) (ground (arith, llm_local k))
      (λ n m. ground (
        arith,
        unlisted ResourceClass.llm v k (simp (n, m)),
        wildcard_basic ResourceClass.llm k,
        text_eq_iff (codes "openrouter") v,
        text_eq_iff (codes "local") v,
      ))
is_offerable_iff ResourceClass.storage v k =
    one_of_two (codes "lighthouse") (codes "local-disk") v (λ x. Claimed ResourceClass.storage x k)
      (ground (arith, storage_lighthouse k)) (ground (arith, storage_disk k))
      (λ n m. ground (
        arith,
        unlisted ResourceClass.storage v k (simp (n, m)),
        wildcard_basic ResourceClass.storage k,
        text_eq_iff (codes "lighthouse") v,
        text_eq_iff (codes "local-disk") v,
      ))
is_offerable_iff ResourceClass.compute v k =
    ground (arith, generic ResourceClass.compute v k compute_any (λ n. simp n))
is_offerable_iff ResourceClass.tools v k =
    ground (arith, generic ResourceClass.tools v k tools_any (λ n. simp n))
is_offerable_iff ResourceClass.comms v k =
    ground (arith, generic ResourceClass.comms v k comms_any (λ n. simp n))
