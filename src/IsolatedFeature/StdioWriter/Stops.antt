-- ===== src/IsolatedFeature/StdioWriter/Stops.antt =====
-- kestrel_sdk/isolated_feature/service.py: the worker of a closed `_ThreadedStdioWriter` stops.
use kestrel_sovereign_sdk.Prelude.{
  ℕ, zero, suc, ◌+◌, ◌≤◌, true, Option, none, some, List, [], ◌∷◌, ◌≡◌, refl, sym, ap, ◌∙◌, arith,
  ◌⊎◌, inl, inr, subst, length,
}
use kestrel_sovereign_sdk.IsolatedFeature.StdioWriter.{
  Bytes, Job, frame, stop, Worker, waiting, writing, finished, resolving, broken, failing, leaving,
  stopped, Writer, Outside, forget, Stream, takes, raises, flushed, write_and_flush, take_job,
  latch_terminal_failure, work, dropped, Reached, worked,
}
use kestrel_sovereign_sdk.IsolatedFeature.StdioWriter.Wire.Delivered.{idle-open}

-- The worker's steps, with what it meets in each.
unfoldable pub run : (ℕ → Outside) → ℕ → Writer → Writer
run o zero s = s
run o (suc n) s = run (λ i. o (suc i)) n (work (o zero) s.worker s)

jobs_weight : List Job → ℕ
jobs_weight [] = 0
jobs_weight (frame bytes c ∷ jobs) = 5 + length bytes + jobs_weight jobs
jobs_weight (stop ∷ jobs) = 2 + jobs_weight jobs

worker_weight : Worker → ℕ
worker_weight waiting = 0
worker_weight (writing rest c) = 4 + length rest
worker_weight (finished c) = 2
worker_weight (resolving c) = 1
worker_weight (broken c) = 3
worker_weight (failing cs) = 2 + length cs
worker_weight leaving = 1
worker_weight stopped = 0

-- A bound of the steps that are left.
weight : Writer → ℕ
weight s = (worker_weight s.worker + jobs_weight s.jobs) + length s.drains

length-dropped : (n : ℕ) (bytes : Bytes) → length (dropped n bytes) ≤ length bytes
unfolding dropped
length-dropped zero bytes = omega arith
length-dropped (suc n) [] = omega arith
length-dropped (suc n) (b ∷ bytes) = omega (arith, length-dropped n bytes)

length-forget : (c : ℕ) (ds : List ℕ) → length (forget c ds) ≤ length ds
unfolding forget
length-forget c [] = omega arith
length-forget c (d ∷ ds) = ground (arith, length-forget c ds)

-- What the weight is where the worker is known.
weight_at :
    (s : Writer) (w : Worker)
    → s.worker ≡ w
    → weight s ≡ (worker_weight w + jobs_weight s.jobs) + length s.drains
unfolding weight
weight_at s w e = ap (λ x. (worker_weight x + jobs_weight s.jobs) + length s.drains) e

take_job-weight :
    (jobs : List Job) (s : Writer)
    → s.jobs ≡ jobs
    → s.worker ≡ waiting
    → (jobs ≡ []) ⊎ (suc (weight (take_job jobs s)) ≤ weight s)
unfolding weight take_job worker_weight jobs_weight
take_job-weight [] s e w = inl refl
take_job-weight (stop ∷ jobs) s e w = inr (omega (arith, weight_at s waiting w, ap jobs_weight e))
take_job-weight (frame bytes c ∷ jobs) s e w =
    inr (omega (arith, weight_at s waiting w, ap jobs_weight e))

write_and_flush-weight :
    (io : Stream) (rest : Bytes) (c : Option ℕ) (s : Writer)
    → s.worker ≡ writing rest c
    → suc (weight (write_and_flush io rest c s)) ≤ weight s
unfolding weight write_and_flush worker_weight flushed dropped
write_and_flush-weight (raises n) rest c s e = omega (arith, weight_at s (writing rest c) e)
write_and_flush-weight (takes n) [] none s e = omega (arith, weight_at s (writing [] none) e)
write_and_flush-weight (takes n) [] (some c) s e =
    omega (arith, weight_at s (writing [] (some c)) e)
write_and_flush-weight (takes zero) (b ∷ rest) c s e =
    omega (arith, weight_at s (writing (b ∷ rest) c) e)
write_and_flush-weight (takes (suc n)) (b ∷ rest) c s e =
    omega (arith, weight_at s (writing (b ∷ rest) c) e, length-dropped n rest)

work-weight :
    (io : Outside) (w : Worker) (a : Bytes) (s : Writer)
    → s.worker ≡ w
    → Reached a s
    → s.closing ≡ true
    → (w ≡ stopped) ⊎ (suc (weight (work io w s)) ≤ weight s)
unfolding weight work worker_weight jobs_weight latch_terminal_failure
work-weight io waiting a s e p c = elim (take_job-weight s.jobs s refl e) [
  | inl idle ↦ absurd (idle-open a s p c e idle)
  | inr less ↦ inr less
]
work-weight io (writing rest d) a s e p c = inr (write_and_flush-weight io.stream rest d s e)
work-weight io (finished d) a s e p c =
    inr (omega (arith, weight_at s (finished d) e, length-forget d s.drains))
work-weight io (resolving d) a s e p c = inr (omega (arith, weight_at s (resolving d) e))
work-weight io (broken d) a s e p c = inr (omega (arith, weight_at s (broken d) e))
work-weight io (failing []) a s e p c = inr (omega (arith, weight_at s (failing []) e))
work-weight io (failing (d ∷ ds)) a s e p c = inr (omega (arith, weight_at s (failing (d ∷ ds)) e))
work-weight io leaving a s e p c = inr (omega (arith, weight_at s leaving e))
work-weight io stopped a s e p c = inl refl

take_job-closing : (jobs : List Job) (s : Writer) → (take_job jobs s).closing ≡ s.closing
unfolding take_job
take_job-closing [] s = refl
take_job-closing (stop ∷ jobs) s = refl
take_job-closing (frame bytes c ∷ jobs) s = refl

write_and_flush-closing :
    (io : Stream) (rest : Bytes) (c : Option ℕ) (s : Writer)
    → (write_and_flush io rest c s).closing ≡ s.closing
unfolding write_and_flush
write_and_flush-closing (raises n) rest c s = refl
write_and_flush-closing (takes n) [] c s = refl
write_and_flush-closing (takes zero) (b ∷ rest) c s = refl
write_and_flush-closing (takes (suc n)) (b ∷ rest) c s = refl

-- The worker does not open a closed writer.
work-closing : (io : Outside) (w : Worker) (s : Writer) → (work io w s).closing ≡ s.closing
unfolding work latch_terminal_failure
work-closing io waiting s = take_job-closing s.jobs s
work-closing io (writing rest c) s = write_and_flush-closing io.stream rest c s
work-closing io (finished c) s = refl
work-closing io (resolving c) s = refl
work-closing io (broken c) s = refl
work-closing io (failing []) s = refl
work-closing io (failing (c ∷ cs)) s = refl
work-closing io leaving s = refl
work-closing io stopped s = refl

run-stopped :
    (o : ℕ → Outside) (n : ℕ) (s : Writer) → s.worker ≡ stopped → (run o n s).worker ≡ stopped
unfolding run work
run-stopped o zero s e = e
run-stopped o (suc n) s e =
    run-stopped (λ i. o (suc i)) n (work (o zero) s.worker s)
      (subst (λ w. (work (o zero) w s).worker ≡ stopped) (sym e) e)

stops_within :
    (o : ℕ → Outside) (n : ℕ) (a : Bytes) (s : Writer)
    → Reached a s
    → s.closing ≡ true
    → weight s ≤ n
    → (run o n s).worker ≡ stopped
unfolding run
stops_within o zero a s p c le = elim (work-weight (o zero) s.worker a s refl p c) [
  | inl e ↦ e
  | inr less ↦ absurd (omega (arith, less, le))
]
stops_within o (suc n) a s p c le = elim (work-weight (o zero) s.worker a s refl p c) [
  | inl e ↦ run-stopped o (suc n) s e
  | inr less ↦
      stops_within (λ i. o (suc i)) n a (work (o zero) s.worker s) (worked (o zero) p)
        (work-closing (o zero) s.worker s ∙ c) (omega (arith, less, le))
]

-- Once the writer is closed, in any state that an interleaving reaches, there is a number of its own
-- steps after which the worker has stopped, whatever the stream does in each call that returns or
-- raises: it takes any number of bytes, takes none or fails.
pub closed_stops :
    (a : Bytes) (s : Writer)
    → Reached a s
    → s.closing ≡ true
    → (n : ℕ) × ((o : ℕ → Outside) → (run o n s).worker ≡ stopped)
closed_stops a s p c = (weight s, λ o. stops_within o (weight s) a s p c (omega arith))
