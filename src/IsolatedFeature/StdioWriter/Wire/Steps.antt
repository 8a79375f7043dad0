-- ===== src/IsolatedFeature/StdioWriter/Wire/Steps.antt =====
-- kestrel_sdk/isolated_feature/service.py: the steps of `_write_loop` keep the invariant.
use kestrel_sovereign_sdk.Prelude.{
  ℕ, zero, suc, Bool, true, false, Option, none, some, List, [], ◌∷◌, ◌++◌, ◌≡◌, refl, sym, ap, ◌∙◌,
  subst,
}
use mathlib.Core.List.{append_assoc}
use kestrel_sovereign_sdk.IsolatedFeature.StdioWriter.{
  Bytes, Job, frame, stop, Worker, waiting, writing, finished, resolving, broken, failing, leaving,
  stopped, Writer, Outside, Stream, takes, raises, flushed, write_and_flush, take_job,
  latch_terminal_failure, work, taken, dropped,
}
use kestrel_sovereign_sdk.IsolatedFeature.StdioWriter.Wire.{
  in_hand, queued, is_over, is_broken, no_stop, ends_with_stop, Shape, still_open, still_closing,
  all_written, after_failure, Complete, Inv,
}
use kestrel_sovereign_sdk.IsolatedFeature.StdioWriter.Wire.Calls.{taken-dropped}

-- What the invariant says where the worker is known.
pub Shape-at :
    (a : Bytes) (s : Writer) (w : Worker)
    → s.worker ≡ w
    → Inv a s
    → Shape s.closing s.terminal_failure (is_over w) s.jobs s.pending
Shape-at a s w e inv =
    subst (λ x. Shape s.closing s.terminal_failure (is_over x) s.jobs s.pending) e inv.shape

pub complete_at :
    (a : Bytes) (s : Writer) (w : Worker)
    → s.worker ≡ w
    → Inv a s
    → s.terminal_failure ≡ false
    → is_broken w ≡ false
    → s.wire ++ (in_hand w ++ (queued s.jobs ++ s.pending)) ≡ a
unfolding Complete
complete_at a s w e inv f k =
    subst (λ x. s.wire ++ (in_hand x ++ (queued s.jobs ++ s.pending)) ≡ a) e
      (inv.complete f (subst (λ x. is_broken x ≡ false) (sym e) k))

pub alive_terminal :
    {c t o : Bool} {jobs : List Job} {pending : Bytes}
    → o ≡ false
    → Shape c t o jobs pending
    → t ≡ false
alive_terminal e (still_open h) = refl
alive_terminal e (still_closing h) = refl
alive_terminal e all_written = refl
alive_terminal e after_failure = cc

pub after_frame :
    {c t : Bool} {bytes : Bytes} {d : Option ℕ} {jobs : List Job} {pending : Bytes}
    → Shape c t false (frame bytes d ∷ jobs) pending
    → Shape c t false jobs pending
unfolding no_stop ends_with_stop
after_frame (still_open h) = still_open h
after_frame (still_closing h) = still_closing h

pub nothing_after_stop : (jobs : List Job) → ends_with_stop (stop ∷ jobs) ≡ true → jobs ≡ []
unfolding ends_with_stop
nothing_after_stop [] h = refl
nothing_after_stop (j ∷ jobs) h = cc

pub after_stop :
    {c t : Bool} {jobs : List Job} {pending : Bytes}
    → Shape c t false (stop ∷ jobs) pending
    → Shape c t true jobs pending
unfolding no_stop
after_stop (still_open h) = cc
after_stop {jobs = jobs} (still_closing h) = rw (nothing_after_stop jobs h) all_written

pub Inv-take_job :
    (a : Bytes) (jobs : List Job) (s : Writer)
    → s.jobs ≡ jobs
    → s.worker ≡ waiting
    → Inv a s
    → Inv a (take_job jobs s)
unfolding take_job Complete in_hand queued is_over is_broken
Inv-take_job a [] s e w inv = inv
Inv-take_job a (stop ∷ jobs) s e w inv = record {
  shape = after_stop (
      subst (λ x. Shape s.closing s.terminal_failure false x s.pending) e
        (Shape-at a s waiting w inv));
  complete = λ f k.
      ap (λ x. s.wire ++ (queued x ++ s.pending)) (sym e) ∙ complete_at a s waiting w inv f refl;
  a_prefix = inv.a_prefix;
}
Inv-take_job a (frame bytes c ∷ jobs) s e w inv = record {
  shape = after_frame (
      subst (λ x. Shape s.closing s.terminal_failure false x s.pending) e
        (Shape-at a s waiting w inv));
  complete = λ f k.
      ap (λ x. s.wire ++ x) (sym (append_assoc bytes (queued jobs) s.pending))
      ∙ ap (λ x. s.wire ++ (queued x ++ s.pending)) (sym e)
      ∙ complete_at a s waiting w inv f refl;
  a_prefix = inv.a_prefix;
}

-- The stream took some bytes of a frame.
pub some_taken :
    (wire : Bytes) (n : ℕ) (rest others : Bytes)
    → (wire ++ taken n rest) ++ (dropped n rest ++ others) ≡ wire ++ (rest ++ others)
some_taken wire n rest others =
    append_assoc wire (taken n rest) _
    ∙ ap (λ x. wire ++ x)
        (sym (append_assoc (taken n rest) (dropped n rest) others)
          ∙ ap (λ x. x ++ others) (taken-dropped n rest))

pub Inv-write_and_flush :
    (a : Bytes) (io : Stream) (rest : Bytes) (c : Option ℕ) (s : Writer)
    → s.worker ≡ writing rest c
    → Inv a s
    → Inv a (write_and_flush io rest c s)
unfolding write_and_flush Complete in_hand is_over is_broken flushed
Inv-write_and_flush a (raises n) rest c s e inv =
    let shape = Shape-at a s (writing rest c) e inv in
    let full = complete_at a s (writing rest c) e inv (alive_terminal refl shape) refl in
    record {
      shape = shape;
      complete = λ f k. cc;
      a_prefix = (
        dropped n rest ++ (queued s.jobs ++ s.pending),
        some_taken s.wire n rest (queued s.jobs ++ s.pending) ∙ full,
      );
    }
Inv-write_and_flush a (takes n) [] none s e inv = record {
  shape = Shape-at a s (writing [] none) e inv;
  complete = λ f k. complete_at a s (writing [] none) e inv f refl;
  a_prefix = inv.a_prefix;
}
Inv-write_and_flush a (takes n) [] (some c) s e inv = record {
  shape = Shape-at a s (writing [] (some c)) e inv;
  complete = λ f k. complete_at a s (writing [] (some c)) e inv f refl;
  a_prefix = inv.a_prefix;
}
Inv-write_and_flush a (takes zero) (b ∷ rest) c s e inv = record {
  shape = Shape-at a s (writing (b ∷ rest) c) e inv;
  complete = λ f k. cc;
  a_prefix = inv.a_prefix;
}
Inv-write_and_flush a (takes (suc n)) (b ∷ rest) c s e inv =
    let shape = Shape-at a s (writing (b ∷ rest) c) e inv in
    let full = complete_at a s (writing (b ∷ rest) c) e inv (alive_terminal refl shape) refl in
    let moved = some_taken s.wire (suc n) (b ∷ rest) (queued s.jobs ++ s.pending) ∙ full in
    record { shape = shape; complete = λ f k. moved; a_prefix = (_, moved) }

pub Inv-work :
    (a : Bytes) (io : Outside) (w : Worker) (s : Writer)
    → s.worker ≡ w
    → Inv a s
    → Inv a (work io w s)
unfolding work Complete in_hand is_over is_broken latch_terminal_failure
Inv-work a io waiting s e inv = Inv-take_job a s.jobs s refl e inv
Inv-work a io (writing rest c) s e inv = Inv-write_and_flush a io.stream rest c s e inv
Inv-work a io (finished c) s e inv = record {
  shape = Shape-at a s (finished c) e inv;
  complete = λ f k. complete_at a s (finished c) e inv f refl;
  a_prefix = inv.a_prefix;
}
Inv-work a io (resolving c) s e inv = record {
  shape = Shape-at a s (resolving c) e inv;
  complete = λ f k. complete_at a s (resolving c) e inv f refl;
  a_prefix = inv.a_prefix;
}
Inv-work a io (broken c) s e inv = record {
  shape = after_failure;
  complete = λ f k. cc;
  a_prefix = inv.a_prefix;
}
Inv-work a io (failing []) s e inv = record {
  shape = Shape-at a s (failing []) e inv;
  complete = λ f k. complete_at a s (failing []) e inv f refl;
  a_prefix = inv.a_prefix;
}
Inv-work a io (failing (c ∷ cs)) s e inv = record {
  shape = Shape-at a s (failing (c ∷ cs)) e inv;
  complete = λ f k. complete_at a s (failing (c ∷ cs)) e inv f refl;
  a_prefix = inv.a_prefix;
}
Inv-work a io leaving s e inv = record {
  shape = Shape-at a s leaving e inv;
  complete = λ f k. complete_at a s leaving e inv f refl;
  a_prefix = inv.a_prefix;
}
Inv-work a io stopped s e inv = inv
