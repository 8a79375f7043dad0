-- ===== src/Operator/Pages.antt =====
-- kestrel_sdk/operator/runs.py: bounded queries and pages of runs.
use kestrel_sovereign_sdk.Prelude.{
  ℕ, ◌≤◌, Bool, true, false, ◌&&◌, ◌||◌, Option, none, some, List, [], ◌∷◌, Text, String, Result,
  Check, ok, value_error, ◌>>=◌, ◌>>◌, raise_if, ◌≡◌, ◌↔◌, ◌≢◌, refl, arith, not, ltb, between,
  ◌==◌, length, contains, text_eq_iff, All, all,
}
use kestrel_sovereign_sdk.Validation.Tokens.{is_alnum}
use kestrel_sovereign_sdk.Validation.Texts.{frozen_tokens}
use kestrel_sovereign_sdk.Operator.Records.{RunRecord, RunState}

-- `[A-Za-z0-9_-]{1,1024}`
unfoldable pub is_cursor : Text → Bool
is_cursor s = all (λ c. is_alnum c || c == b'_' || c == b'-') s && between 1 1024 (length s)

unfoldable pub check_cursor : Option Text → String → Check
check_cursor none message = ok tt
check_cursor (some c) message = raise_if (not (is_cursor c)) (value_error message)

abbrev pub IsCursor : Option Text → Type 0
IsCursor none = Unit
IsCursor (some c) = is_cursor c ≡ true

check_cursor_iff :
    (o : Option Text) (message : String) → (check_cursor o message ≡ ok tt) ↔ IsCursor o
unfolding check_cursor
check_cursor_iff none message = (λ h. tt, λ h. refl)
check_cursor_iff (some c) message = ground arith

pub record RunQuery : Type 0 where
  pub limit : ℕ
  pub cursor : Option Text
  pub states : List RunState
  pub kinds : List Text

-- `RunQuery.__post_init__`
unfoldable pub run_query : RunQuery → Result RunQuery
run_query self = do
  raise_if (not (between 1 100 self.limit)) (value_error "limit must be between 1 and 100")
  check_cursor self.cursor "cursor must be a bounded opaque URL-safe token"
  kinds ← frozen_tokens self.kinds "kinds"
  ok (record self { kinds = kinds })

abbrev pub run_id : RunRecord → Text
run_id r = r.launch.run_id

-- The loop over the records, with the set of the identities that it has seen.
unfoldable pub check_run_ids : List Text → List RunRecord → Check
check_run_ids seen [] = ok tt
check_run_ids seen (r ∷ rs) = do
  raise_if (contains seen (run_id r))
      (value_error "records must not contain duplicate run_id values")
  check_run_ids (run_id r ∷ seen) rs

pub record RunPage : Type 0 where
  pub records : List RunRecord
  pub next_cursor : Option Text

-- `RunPage.__post_init__`
unfoldable pub run_page : RunPage → Result RunPage
run_page self = do
  raise_if (ltb 100 (length self.records))
      (value_error "a run page must contain at most 100 records")
  check_run_ids [] self.records
  check_cursor self.next_cursor "next_cursor must be a bounded opaque URL-safe token"
  ok self

-- No two of the records are of one run.
abbrev pub RunsDistinct : List RunRecord → Type 0
RunsDistinct [] = Unit
RunsDistinct (r ∷ rs) = All (λ s. run_id r ≢ run_id s) rs × RunsDistinct rs

abbrev Unseen : List Text → List RunRecord → Type 0
Unseen seen = All (λ r. contains seen (run_id r) ≡ false)

Unseen-cons :
    (k : Text) (seen : List Text) (rs : List RunRecord)
    → Unseen (k ∷ seen) rs ↔ (All (λ r. k ≢ run_id r) rs × Unseen seen rs)
unfolding contains
Unseen-cons k seen [] = (λ h. (tt, tt), λ h. tt)
Unseen-cons k seen (r ∷ rs) = ground (arith, Unseen-cons k seen rs, text_eq_iff k (run_id r))

check_run_ids_iff :
    (seen : List Text) (rs : List RunRecord)
    → (check_run_ids seen rs ≡ ok tt) ↔ (Unseen seen rs × RunsDistinct rs)
unfolding check_run_ids
check_run_ids_iff seen [] = (λ h. (tt, tt), λ h. refl)
check_run_ids_iff seen (r ∷ rs) =
    ground (arith, check_run_ids_iff (run_id r ∷ seen) rs, Unseen-cons (run_id r) seen rs)

Unseen-nil : (rs : List RunRecord) → Unseen [] rs
unfolding contains
Unseen-nil [] = tt
Unseen-nil (r ∷ rs) = (refl, Unseen-nil rs)

-- A page is accepted, as it is, exactly when it holds at most 100 records, no two of them of one
-- run, and its cursor, if there is one, is well formed.
pub run_page_iff :
    (p : RunPage)
    → (run_page p ≡ ok p)
      ↔ ((length p.records ≤ 100) × RunsDistinct p.records × IsCursor p.next_cursor)
unfolding run_page
run_page_iff p = ground (
  arith,
  check_run_ids_iff [] p.records,
  Unseen-nil p.records,
  check_cursor_iff p.next_cursor "next_cursor must be a bounded opaque URL-safe token",
)
