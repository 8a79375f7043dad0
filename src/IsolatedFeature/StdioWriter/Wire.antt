-- ===== src/IsolatedFeature/StdioWriter/Wire.antt =====
-- kestrel_sdk/isolated_feature/service.py: where the bytes that `_ThreadedStdioWriter` accepted are,
-- and the invariant of its interleavings.
mod Calls
mod Steps
pub mod Delivered
use kestrel_sovereign_sdk.Prelude.{
  ℕ, zero, suc, Bool, true, false, Bool-cases, ◌&&◌, ◌||◌, not, Option, none, some, List, [], ◌∷◌,
  ◌++◌, ◌≡◌, refl, sym, ap, ◌∙◌, arith, inl, inr, subst, if◌then◌else◌,
}
use mathlib.Core.List.{append_assoc, append-nil}
use kestrel_sovereign_sdk.IsolatedFeature.StdioWriter.{
  Bytes, Job, frame, stop, Worker, waiting, writing, finished, resolving, broken, failing, leaving,
  stopped, Writer, done, guarded, write, drain, queue_frame, close, last_frame, Stream, takes,
  raises, flushed, write_and_flush, take_job, latch_terminal_failure, work, taken, dropped, Reached,
  opened, wrote, drained, closed, worked,
}

-- The bytes that the worker still has to write.
pub in_hand : Worker → Bytes
in_hand (writing rest c) = rest
in_hand _ = []

pub queued : List Job → Bytes
queued [] = []
queued (frame bytes c ∷ jobs) = bytes ++ queued jobs
queued (stop ∷ jobs) = queued jobs

-- The worker writes nothing any more.
pub is_over : Worker → Bool
is_over (failing cs) = true
is_over leaving = true
is_over stopped = true
is_over _ = false

pub is_broken : Worker → Bool
is_broken (broken c) = true
is_broken _ = false

pub no_stop : List Job → Bool
no_stop [] = true
no_stop (frame bytes c ∷ jobs) = no_stop jobs
no_stop (stop ∷ jobs) = false

-- One `stop`, at the end.
pub ends_with_stop : List Job → Bool
ends_with_stop [] = false
ends_with_stop (stop ∷ []) = true
ends_with_stop (stop ∷ _ ∷ jobs) = false
ends_with_stop (frame bytes c ∷ jobs) = ends_with_stop jobs

-- What the queue is, by the flags and the worker: open, closing, or over.
pub data Shape : Bool → Bool → Bool → List Job → Bytes → Type 0 where
  still_open :
      {jobs : List Job} {pending : Bytes}
      → no_stop jobs ≡ true
      → Shape false false false jobs pending
  still_closing : {jobs : List Job} → ends_with_stop jobs ≡ true → Shape true false false jobs []
  all_written : Shape true false true [] []
  after_failure : {closing : Bool} → Shape closing true true [] []

abbrev pub ShapeOf : Writer → Type 0
ShapeOf s = Shape s.closing s.terminal_failure (is_over s.worker) s.jobs s.pending

-- Every byte accepted is on the wire, with the worker, queued or pending.
pub Complete : Bytes → Writer → Type 0
Complete a s = s.wire ++ (in_hand s.worker ++ (queued s.jobs ++ s.pending)) ≡ a

pub record Inv (a : Bytes) (s : Writer) : Type 0 where
  pub shape : ShapeOf s
  pub complete : s.terminal_failure ≡ false → is_broken s.worker ≡ false → Complete a s
  pub a_prefix : (rest : Bytes) × (s.wire ++ rest ≡ a)
