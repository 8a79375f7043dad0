-- ===== src/IsolatedFeature/StdioWriter/Wire/Delivered.antt =====
-- kestrel_sdk/isolated_feature/service.py: what `_ThreadedStdioWriter` put on the wire.
use kestrel_sovereign_sdk.Prelude.{
  Bool, true, false, List, [], ◌++◌, ◌≡◌, refl, sym, ap, ◌∙◌, subst,
}
use mathlib.Core.List.{append-nil}
use kestrel_sovereign_sdk.IsolatedFeature.StdioWriter.{
  Bytes, Job, waiting, stopped, Writer, done, guarded, drain, Reached, opened, wrote, drained,
  closed, worked,
}
use kestrel_sovereign_sdk.IsolatedFeature.StdioWriter.Wire.{
  in_hand, queued, is_over, is_broken, no_stop, ends_with_stop, Shape, still_open, still_closing,
  all_written, after_failure, Complete, Inv,
}
use kestrel_sovereign_sdk.IsolatedFeature.StdioWriter.Wire.Calls.{
  guarded-done, Inv-write, Inv-queue_frame, Inv-close,
}
use kestrel_sovereign_sdk.IsolatedFeature.StdioWriter.Wire.Steps.{Shape-at, complete_at, Inv-work}

Reached-Inv : {a : Bytes} {s : Writer} → Reached a s → Inv a s
unfolding Complete in_hand queued is_over is_broken drain no_stop
Reached-Inv opened = record {
  shape = still_open refl;
  complete = λ f k. refl;
  a_prefix = ([], refl);
}
Reached-Inv (wrote {a} {s} {t} bytes p h) = Inv-write a bytes s t h (Reached-Inv p)
Reached-Inv (drained {a} {s} {t} p h) =
    let (terminal, closing, e) = guarded-done s _ h in
    subst (Inv a) e (Inv-queue_frame a s.pending s refl terminal closing (Reached-Inv p))
Reached-Inv (closed {a} {s} p) = Inv-close a s (Reached-Inv p)
Reached-Inv (worked {a} {s} io p) = Inv-work a io s.worker s refl (Reached-Inv p)

-- At any moment of any interleaving, what the stream took is the beginning of the bytes that `write`
-- accepted, in their order: no frame overlaps, overtakes or repeats another, and nothing follows a
-- frame that failed half-way.
pub wire_prefix : (a : Bytes) (s : Writer) → Reached a s → (rest : Bytes) × (s.wire ++ rest ≡ a)
wire_prefix a s p = (Reached-Inv p).a_prefix

over_empty :
    {c t o : Bool} {jobs : List Job} {pending : Bytes}
    → o ≡ true
    → Shape c t o jobs pending
    → (jobs ≡ []) × (pending ≡ [])
over_empty e (still_open h) = cc
over_empty e (still_closing h) = cc
over_empty e all_written = (refl, refl)
over_empty e after_failure = (refl, refl)

pub stopped-jobs : (a : Bytes) (s : Writer) → Reached a s → s.worker ≡ stopped → s.jobs ≡ []
unfolding is_over
stopped-jobs a s p e = (over_empty refl (Shape-at a s stopped e (Reached-Inv p))).0

-- A worker that stopped without a failure of the stream has written every byte that `write` accepted,
-- those of a frame that was never drained before `close` included.
pub stopped_complete :
    (a : Bytes) (s : Writer)
    → Reached a s
    → s.worker ≡ stopped
    → s.terminal_failure ≡ false
    → s.wire ≡ a
unfolding in_hand is_over is_broken queued
stopped_complete a s p e f =
    let inv = Reached-Inv p in
    let (no_jobs, no_pending) = over_empty refl (Shape-at a s stopped e inv) in
    sym (append-nil s.wire)
    ∙ ap (λ x. s.wire ++ x) (sym (ap (λ x. queued x ++ s.pending) no_jobs ∙ no_pending))
    ∙ complete_at a s stopped e inv f refl

-- A call of the writer that returns has its effect.
pub call-done : (s t : Writer) {u : Writer} → guarded s t ≡ done u → t ≡ u
call-done s t h = (guarded-done s t h).2

idle-Shape : {c t : Bool} {pending : Bytes} → c ≡ true → ¬ Shape c t false [] pending
unfolding ends_with_stop
idle-Shape e (still_open h) = cc
idle-Shape e (still_closing h) = cc

-- The worker of a closed writer always has a job.
pub idle-open :
    (a : Bytes) (s : Writer) → Reached a s → s.closing ≡ true → s.worker ≡ waiting → ¬ (s.jobs ≡ [])
unfolding is_over
idle-open a s p c w none = idle-Shape c (
    subst (λ x. Shape s.closing s.terminal_failure false x s.pending) none
      (Shape-at a s waiting w (Reached-Inv p)))
