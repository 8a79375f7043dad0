-- ===== src/Payers/Matrix.antt =====
-- kestrel_sdk/payer_policy.py: the enumerations, the support matrix and its lookups.
use kestrel_sovereign_sdk.Prelude.{
  ℕ, Bool, true, false, ◌&&◌, ◌||◌, Option, none, some, List, [], ◌∷◌, Text, codes, text_eq, ◌==◌,
  if◌then◌else◌,
}

pub data ResourceClass : Type 0 where
  llm storage compute tools comms : ResourceClass

pub data PayerKind : Type 0 where
  -- `NONE`
  unpaid : PayerKind
  host_env host_master_provisioned user_master_provisioned : PayerKind
  user_byok self_wallet sponsor : PayerKind

pub data SupportStatus : Type 0 where
  ready not_implemented out_of_scope not_applicable : SupportStatus

-- The positions of the members, by which they are compared.
unfoldable pub class_position : ResourceClass → ℕ
class_position ResourceClass.llm = 0
class_position ResourceClass.storage = 1
class_position ResourceClass.compute = 2
class_position ResourceClass.tools = 3
class_position ResourceClass.comms = 4

unfoldable pub kind_position : PayerKind → ℕ
kind_position PayerKind.unpaid = 0
kind_position PayerKind.host_env = 1
kind_position PayerKind.host_master_provisioned = 2
kind_position PayerKind.user_master_provisioned = 3
kind_position PayerKind.user_byok = 4
kind_position PayerKind.self_wallet = 5
kind_position PayerKind.sponsor = 6

-- An item of the mapping: its key and its value.
pub record Entry : Type 0 where
  pub resource_class : ResourceClass
  pub vendor : Text
  pub kind : PayerKind
  pub status : SupportStatus

abbrev pub matrix_item : ResourceClass → Text → PayerKind → SupportStatus → Entry
matrix_item r v k s = record { resource_class = r; vendor = v; kind = k; status = s }

abbrev pub support_matrix : List Entry
support_matrix =
    matrix_item ResourceClass.llm (codes "openrouter") PayerKind.host_env SupportStatus.ready
    ∷ matrix_item ResourceClass.llm (codes "openrouter") PayerKind.host_master_provisioned
        SupportStatus.ready
    ∷ matrix_item ResourceClass.llm (codes "openrouter") PayerKind.user_master_provisioned
        SupportStatus.ready
    ∷ matrix_item ResourceClass.llm (codes "openrouter") PayerKind.user_byok SupportStatus.ready
    ∷ matrix_item ResourceClass.llm (codes "openrouter") PayerKind.sponsor SupportStatus.ready
    ∷ matrix_item ResourceClass.llm (codes "openrouter") PayerKind.self_wallet
        SupportStatus.not_implemented
    ∷ matrix_item ResourceClass.llm (codes "openrouter") PayerKind.unpaid SupportStatus.ready
    ∷ matrix_item ResourceClass.llm (codes "local") PayerKind.host_env SupportStatus.ready
    ∷ matrix_item ResourceClass.llm (codes "local") PayerKind.host_master_provisioned
        SupportStatus.not_applicable
    ∷ matrix_item ResourceClass.llm (codes "local") PayerKind.user_master_provisioned
        SupportStatus.not_applicable
    ∷ matrix_item ResourceClass.llm (codes "local") PayerKind.sponsor SupportStatus.not_applicable
    ∷ matrix_item ResourceClass.llm (codes "local") PayerKind.self_wallet
        SupportStatus.not_applicable
    ∷ matrix_item ResourceClass.llm (codes "local") PayerKind.unpaid SupportStatus.ready
    ∷ matrix_item ResourceClass.storage (codes "lighthouse") PayerKind.host_env SupportStatus.ready
    ∷ matrix_item ResourceClass.storage (codes "lighthouse") PayerKind.host_master_provisioned
        SupportStatus.not_implemented
    ∷ matrix_item ResourceClass.storage (codes "lighthouse") PayerKind.user_master_provisioned
        SupportStatus.not_implemented
    ∷ matrix_item ResourceClass.storage (codes "lighthouse") PayerKind.sponsor
        SupportStatus.not_implemented
    ∷ matrix_item ResourceClass.storage (codes "lighthouse") PayerKind.self_wallet
        SupportStatus.ready
    ∷ matrix_item ResourceClass.storage (codes "lighthouse") PayerKind.unpaid SupportStatus.ready
    ∷ matrix_item ResourceClass.storage (codes "local-disk") PayerKind.host_env SupportStatus.ready
    ∷ matrix_item ResourceClass.storage (codes "local-disk") PayerKind.host_master_provisioned
        SupportStatus.not_applicable
    ∷ matrix_item ResourceClass.storage (codes "local-disk") PayerKind.user_master_provisioned
        SupportStatus.not_applicable
    ∷ matrix_item ResourceClass.storage (codes "local-disk") PayerKind.sponsor
        SupportStatus.not_applicable
    ∷ matrix_item ResourceClass.storage (codes "local-disk") PayerKind.self_wallet
        SupportStatus.not_applicable
    ∷ matrix_item ResourceClass.storage (codes "local-disk") PayerKind.unpaid SupportStatus.ready
    ∷ matrix_item ResourceClass.compute (codes "*") PayerKind.host_env SupportStatus.ready
    ∷ matrix_item ResourceClass.compute (codes "*") PayerKind.host_master_provisioned
        SupportStatus.out_of_scope
    ∷ matrix_item ResourceClass.compute (codes "*") PayerKind.user_master_provisioned
        SupportStatus.out_of_scope
    ∷ matrix_item ResourceClass.compute (codes "*") PayerKind.sponsor SupportStatus.out_of_scope
    ∷ matrix_item ResourceClass.compute (codes "*") PayerKind.self_wallet SupportStatus.out_of_scope
    ∷ matrix_item ResourceClass.compute (codes "*") PayerKind.unpaid SupportStatus.ready
    ∷ matrix_item ResourceClass.tools (codes "*") PayerKind.host_env SupportStatus.ready
    ∷ matrix_item ResourceClass.tools (codes "*") PayerKind.host_master_provisioned
        SupportStatus.out_of_scope
    ∷ matrix_item ResourceClass.tools (codes "*") PayerKind.user_master_provisioned
        SupportStatus.out_of_scope
    ∷ matrix_item ResourceClass.tools (codes "*") PayerKind.sponsor SupportStatus.out_of_scope
    ∷ matrix_item ResourceClass.tools (codes "*") PayerKind.self_wallet SupportStatus.out_of_scope
    ∷ matrix_item ResourceClass.tools (codes "*") PayerKind.unpaid SupportStatus.ready
    ∷ matrix_item ResourceClass.comms (codes "*") PayerKind.host_env SupportStatus.ready
    ∷ matrix_item ResourceClass.comms (codes "*") PayerKind.host_master_provisioned
        SupportStatus.out_of_scope
    ∷ matrix_item ResourceClass.comms (codes "*") PayerKind.user_master_provisioned
        SupportStatus.out_of_scope
    ∷ matrix_item ResourceClass.comms (codes "*") PayerKind.sponsor SupportStatus.out_of_scope
    ∷ matrix_item ResourceClass.comms (codes "*") PayerKind.self_wallet SupportStatus.out_of_scope
    ∷ matrix_item ResourceClass.comms (codes "*") PayerKind.unpaid SupportStatus.ready
    ∷ []

-- `==` on keys
unfoldable pub same_key : ResourceClass → Text → PayerKind → Entry → Bool
unfolding class_position kind_position
same_key r v k e =
    class_position e.resource_class == class_position r
    && text_eq e.vendor v
    && kind_position e.kind == kind_position k

-- `SUPPORT_MATRIX.get((resource_class, vendor, kind))`
unfoldable pub lookup : List Entry → ResourceClass → Text → PayerKind → Option SupportStatus
unfolding same_key
lookup [] r v k = none
lookup (e ∷ es) r v k = if same_key r v k e then some e.status else lookup es r v k

abbrev pub vendor_wildcard : Text
vendor_wildcard = codes "*"

-- The fallbacks of a lookup in any matrix.
unfoldable pub resolve : List Entry → ResourceClass → Text → PayerKind → SupportStatus
unfolding lookup
resolve matrix r v k = elim (lookup matrix r v k) [
  | some concrete ↦ concrete
  | none ↦ elim (lookup matrix r vendor_wildcard k) [
    | some wildcard ↦ wildcard
    | none ↦ SupportStatus.not_implemented
  ]
]

unfoldable pub status_for : ResourceClass → Text → PayerKind → SupportStatus
unfolding resolve
status_for = resolve support_matrix

unfoldable pub is_ready_status : SupportStatus → Bool
is_ready_status SupportStatus.ready = true
is_ready_status _ = false

unfoldable pub is_offerable : ResourceClass → Text → PayerKind → Bool
unfolding is_ready_status status_for
is_offerable r v k = is_ready_status (status_for r v k)

-- The members of `PayerKind`, in their order.
abbrev pub payer_kinds : List PayerKind
payer_kinds =
    PayerKind.unpaid ∷ PayerKind.host_env ∷ PayerKind.host_master_provisioned
    ∷ PayerKind.user_master_provisioned ∷ PayerKind.user_byok ∷ PayerKind.self_wallet
    ∷ PayerKind.sponsor ∷ []

-- `tuple(x for x in xs if test(x))`
unfoldable pub keep {ℓ} : {A : Type ℓ} → (A → Bool) → List A → List A
keep test [] = []
keep test (x ∷ xs) = if test x then x ∷ keep test xs else keep test xs

unfoldable pub supported_kinds_for : ResourceClass → Text → List PayerKind
unfolding keep is_offerable
supported_kinds_for r v = keep (is_offerable r v) payer_kinds

-- `kind in kinds`
unfoldable pub offers : List PayerKind → PayerKind → Bool
unfolding kind_position
offers [] k = false
offers (x ∷ xs) k = kind_position x == kind_position k || offers xs k
