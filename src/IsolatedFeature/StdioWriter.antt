-- ===== src/IsolatedFeature/StdioWriter.antt =====
-- kestrel_sdk/isolated_feature/service.py: `_ThreadedStdioWriter`, whose callers and worker thread
-- interleave. A step is what one holder of `_state_lock` does, or one action of the worker between
-- two of them. A completion future is known by the number of its creation.
pub mod Wire
pub mod Drains
pub mod Stops
mod Tests
use kestrel_sovereign_sdk.Prelude.{
  ℕ, zero, suc, ◌+◌, Bool, true, false, ◌&&◌, ◌||◌, not, Option, none, some, List, [], ◌∷◌, ◌++◌,
  if◌then◌else◌, leb, ltb, length, ◌==◌, ◌≡◌,
}

abbrev pub Bytes : Type 0
Bytes = List ℕ

-- An item of `_jobs`: a frame with the completion of its drain, or None.
pub data Job : Type 0 where
  frame : Bytes → Option ℕ → Job
  stop : Job

-- Where `_write_loop` is.
pub data Worker : Type 0 where
  -- at `_jobs.get()`
  waiting : Worker
  -- in `_write_and_flush`, with the rest of the view
  writing : Bytes → Option ℕ → Worker
  -- in the `else` branch, before the completion leaves `_drains`
  finished : ℕ → Worker
  -- before `_set_future_result_threadsafe`, with the completion out of `_drains`
  resolving : ℕ → Worker
  -- in the `except` branch, before `_latch_terminal_failure`
  broken : Option ℕ → Worker
  -- in its loop over `failed_drains`
  failing : List ℕ → Worker
  -- after the `while` loop
  leaving : Worker
  stopped : Worker

-- What became of a completion's outcome: its loop took the call of `_set_future_result` or of
-- `_set_future_exception`, or the loop was closed, and the RuntimeError is dropped.
pub data Resolution : Type 0 where
  returned : ℕ → Resolution
  failed : ℕ → Resolution
  lost : ℕ → Resolution

pub record Writer : Type 0 where
  pub pending : Bytes
  pub jobs : List Job
  -- the keys of `_drains`, in their order
  pub drains : List ℕ
  pub closing : Bool
  pub terminal_failure : Bool
  pub worker : Worker
  -- the bytes that the stream took
  pub wire : Bytes
  pub stream_closed : Bool
  -- the calls of `call_soon_threadsafe` so far, the first one first
  pub resolved : List Resolution
  -- how many completions there are
  pub created : ℕ

pub data Refused : Type 0 where
  -- "isolated feature stdio writer has a terminal I/O failure"
  terminal : Refused
  -- "isolated feature stdio writer is closed"
  writer_closed : Refused

pub data Answer : Type 0 where
  done : Writer → Answer
  connection_error : Refused → Answer

abbrev pub open_writer : Writer
open_writer = record {
  pending = [];
  jobs = [];
  drains = [];
  closing = false;
  terminal_failure = false;
  worker = waiting;
  wire = [];
  stream_closed = false;
  resolved = [];
  created = 0;
}

-- The checks at the head of `write` and `drain`.
abbrev pub guarded : Writer → Writer → Answer
guarded s t =
    if s.terminal_failure
    then connection_error terminal
    else if s.closing
    then connection_error writer_closed
    else done t

unfoldable pub write : Bytes → Writer → Answer
write bytes s = guarded s (record s { pending = s.pending ++ bytes })

-- `if not data: return`, and the frame is queued otherwise.
unfoldable pub queue_frame : Bytes → Writer → Writer
queue_frame [] s = s
queue_frame (b ∷ bytes) s = record s {
  pending = [];
  jobs = s.jobs ++ frame (b ∷ bytes) (some s.created) ∷ [];
  drains = s.drains ++ s.created ∷ [];
  created = suc s.created;
}

unfoldable pub drain : Writer → Answer
unfolding queue_frame
drain s = guarded s (queue_frame s.pending s)

-- `if data: self._jobs.put((data, None, None))`
unfoldable pub last_frame : Bytes → List Job
last_frame [] = []
last_frame (b ∷ bytes) = frame (b ∷ bytes) none ∷ []

unfoldable pub close : Writer → Writer
unfolding last_frame
close s = if s.terminal_failure || s.closing then s else record s {
  closing = true;
  pending = [];
  jobs = (s.jobs ++ last_frame s.pending) ++ stop ∷ [];
}

-- `take` and `drop`, as slices of a view
unfoldable pub taken : ℕ → Bytes → Bytes
taken zero bytes = []
taken (suc n) [] = []
taken (suc n) (b ∷ bytes) = b ∷ taken n bytes

unfoldable pub dropped : ℕ → Bytes → Bytes
dropped zero bytes = bytes
dropped (suc n) [] = []
dropped (suc n) (b ∷ bytes) = dropped n bytes

-- `self._drains.pop(completion, None)`
unfoldable pub forget : ℕ → List ℕ → List ℕ
forget c [] = []
forget c (d ∷ ds) = if d == c then ds else d ∷ forget c ds

-- What the stream does next, where the worker calls it: it takes so many bytes (0 and None are
-- failures of the caller's), or raises after it took so many. A flush returns or raises.
pub data Stream : Type 0 where
  takes : ℕ → Stream
  raises : ℕ → Stream

-- What the worker meets in a step: the stream, and whether the loop of a completion is closed.
pub record Outside : Type 0 where
  pub stream : Stream
  pub loop_closed : Bool

-- `_set_future_result_threadsafe`, and the same of an exception
unfoldable pub set_future_result_threadsafe : Bool → ℕ → Resolution
set_future_result_threadsafe false c = returned c
set_future_result_threadsafe true c = lost c

unfoldable pub set_future_exception_threadsafe : Bool → ℕ → Resolution
set_future_exception_threadsafe false c = failed c
set_future_exception_threadsafe true c = lost c

-- `_write_and_flush` returned.
unfoldable pub flushed : Option ℕ → Worker
flushed none = waiting
flushed (some c) = finished c

-- One round of the loop in `_write_and_flush`, or the flush after it.
unfoldable pub write_and_flush : Stream → Bytes → Option ℕ → Writer → Writer
unfolding taken dropped flushed
write_and_flush (raises n) rest c s = record s { wire = s.wire ++ taken n rest; worker = broken c }
write_and_flush (takes n) [] c s = record s { worker = flushed c }
write_and_flush (takes zero) (b ∷ rest) c s = record s { worker = broken c }
write_and_flush (takes (suc n)) (b ∷ rest) c s = record s {
  wire = s.wire ++ taken (suc n) (b ∷ rest);
  worker = writing (dropped (suc n) (b ∷ rest)) c;
}

unfoldable pub take_job : List Job → Writer → Writer
-- `Queue.get` blocks.
take_job [] s = s
take_job (stop ∷ jobs) s = record s { jobs = jobs; worker = leaving }
take_job (frame bytes c ∷ jobs) s = record s { jobs = jobs; worker = writing bytes c }

unfoldable pub latch_terminal_failure : Writer → Writer
latch_terminal_failure s = record s {
  terminal_failure = true;
  pending = [];
  jobs = [];
  drains = [];
  worker = failing s.drains;
}

-- One step of the worker.
unfoldable pub work : Outside → Worker → Writer → Writer
unfolding take_job write_and_flush forget latch_terminal_failure set_future_result_threadsafe
    set_future_exception_threadsafe
work io waiting s = take_job s.jobs s
work io (writing rest c) s = write_and_flush io.stream rest c s
work io (finished c) s = record s { drains = forget c s.drains; worker = resolving c }
work io (resolving c) s = record s {
  resolved = s.resolved ++ set_future_result_threadsafe io.loop_closed c ∷ [];
  worker = waiting;
}
work io (broken c) s = latch_terminal_failure s
work io (failing []) s = record s { worker = leaving }
work io (failing (c ∷ cs)) s = record s {
  resolved = s.resolved ++ set_future_exception_threadsafe io.loop_closed c ∷ [];
  worker = failing cs;
}
work io leaving s = record s { stream_closed = true; worker = stopped }
work io stopped s = s

-- The interleavings of callers and worker, with all the bytes that `write` accepted.
pub data Reached : Bytes → Writer → Type 0 where
  opened : Reached [] open_writer
  wrote :
      {a : Bytes} {s t : Writer} (bytes : Bytes)
      → Reached a s
      → write bytes s ≡ done t
      → Reached (a ++ bytes) t
  drained : {a : Bytes} {s t : Writer} → Reached a s → drain s ≡ done t → Reached a t
  closed : {a : Bytes} {s : Writer} → Reached a s → Reached a (close s)
  worked : {a : Bytes} {s : Writer} (io : Outside) → Reached a s → Reached a (work io s.worker s)
