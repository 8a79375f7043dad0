-- ===== src/IsolatedFeature/StdioWriter/Wire/Calls.antt =====
-- kestrel_sdk/isolated_feature/service.py: `write`, `drain` and `close` keep the invariant.
use kestrel_sovereign_sdk.Prelude.{
  ℕ, zero, suc, Bool, true, false, Bool-cases, ◌||◌, Option, none, some, List, [], ◌∷◌, ◌++◌, ◌≡◌,
  refl, sym, ap, ◌∙◌, arith, inl, inr, subst,
}
use mathlib.Core.List.{append_assoc, append-nil}
use kestrel_sovereign_sdk.IsolatedFeature.StdioWriter.{
  Bytes, Job, frame, stop, Writer, done, guarded, write, queue_frame, close, last_frame, taken,
  dropped,
}
use kestrel_sovereign_sdk.IsolatedFeature.StdioWriter.Wire.{
  in_hand, queued, is_over, no_stop, ends_with_stop, Shape, still_open, still_closing, all_written,
  after_failure, Complete, Inv,
}

pub taken-dropped : (n : ℕ) (bytes : Bytes) → taken n bytes ++ dropped n bytes ≡ bytes
unfolding taken dropped
taken-dropped zero bytes = refl
taken-dropped (suc n) [] = refl
taken-dropped (suc n) (b ∷ bytes) = ap (λ x. b ∷ x) (taken-dropped n bytes)

pub queued-append : (js ks : List Job) → queued (js ++ ks) ≡ queued js ++ queued ks
unfolding queued
queued-append [] ks = refl
queued-append (frame bytes c ∷ js) ks =
    ap (λ x. bytes ++ x) (queued-append js ks) ∙ sym (append_assoc bytes _ _)
queued-append (stop ∷ js) ks = queued-append js ks

pub no_stop-append :
    (js : List Job) (bytes : Bytes) (c : Option ℕ)
    → no_stop js ≡ true
    → no_stop (js ++ frame bytes c ∷ []) ≡ true
unfolding no_stop
no_stop-append [] bytes c h = refl
no_stop-append (frame b d ∷ js) bytes c h = no_stop-append js bytes c h
no_stop-append (stop ∷ js) bytes c h = cc

pub ends_with_stop-append :
    (js : List Job) → no_stop js ≡ true → ends_with_stop (js ++ stop ∷ []) ≡ true
unfolding no_stop ends_with_stop
ends_with_stop-append [] h = refl
ends_with_stop-append (frame b c ∷ js) h = ends_with_stop-append js h
ends_with_stop-append (stop ∷ js) h = cc

pub no_stop-last_frame :
    (js : List Job) (bytes : Bytes) → no_stop js ≡ true → no_stop (js ++ last_frame bytes) ≡ true
unfolding last_frame
no_stop-last_frame js [] h = subst (λ x. no_stop x ≡ true) (sym (append-nil js)) h
no_stop-last_frame js (b ∷ bytes) h = no_stop-append js (b ∷ bytes) none h

pub queued-last_frame : (bytes : Bytes) → queued (last_frame bytes ++ stop ∷ []) ≡ bytes
unfolding queued last_frame
queued-last_frame [] = refl
queued-last_frame (b ∷ bytes) = append-nil (b ∷ bytes)

pub done-injective : {s t : Writer} → done s ≡ done t → s ≡ t
done-injective h = cc

-- A call that returns found the writer open.
pub guarded-done :
    (s t : Writer) {u : Writer}
    → guarded s t ≡ done u
    → (s.terminal_failure ≡ false) × (s.closing ≡ false) × (t ≡ u)
guarded-done s t h = elim (Bool-cases s.terminal_failure) [
  | inl e ↦ cc (rw e at h)
  | inr e ↦ elim (Bool-cases s.closing) [
    | inl f ↦ cc (rw (e, f) at h)
    | inr f ↦ (e, f, done-injective (rw (e, f) at h))
  ]
]

pub open-Shape :
    {c t o : Bool} {jobs : List Job} {pending : Bytes}
    → t ≡ false
    → c ≡ false
    → Shape c t o jobs pending
    → (o ≡ false) × (no_stop jobs ≡ true)
open-Shape e f (still_open h) = (refl, h)
open-Shape e f (still_closing h) = cc
open-Shape e f all_written = cc
open-Shape e f after_failure = cc

-- An open writer's shape, after a call on it.
pub make_open :
    (s : Writer) (jobs : List Job) (pending : Bytes)
    → s.terminal_failure ≡ false
    → s.closing ≡ false
    → is_over s.worker ≡ false
    → no_stop jobs ≡ true
    → Shape s.closing s.terminal_failure (is_over s.worker) jobs pending
make_open s jobs pending t c o h = rw (t, c, o) (still_open h)

pub Inv-write :
    (a bytes : Bytes) (s t : Writer) → write bytes s ≡ done t → Inv a s → Inv (a ++ bytes) t
unfolding write Complete
Inv-write a bytes s t h inv =
    let (terminal, closing, e) = guarded-done s _ h in
    let (alive, stopless) = open-Shape terminal closing inv.shape in
    subst (Inv (a ++ bytes)) e (record {
      shape = make_open s s.jobs _ terminal closing alive stopless;
      complete = λ f b.
          ap (λ x. s.wire ++ (in_hand s.worker ++ x))
            (sym (append_assoc (queued s.jobs) s.pending bytes))
          ∙ ap (λ x. s.wire ++ x) (sym (append_assoc (in_hand s.worker) _ bytes))
          ∙ sym (append_assoc s.wire _ bytes)
          ∙ ap (λ x. x ++ bytes) (inv.complete f b);
      a_prefix = (
        inv.a_prefix.0 ++ bytes,
        sym (append_assoc s.wire inv.a_prefix.0 bytes) ∙ ap (λ x. x ++ bytes) inv.a_prefix.1,
      );
    })

pub queued_frame :
    (jobs : List Job) (bytes : Bytes) (c : Option ℕ)
    → queued (jobs ++ frame bytes c ∷ []) ++ [] ≡ queued jobs ++ bytes
unfolding queued
queued_frame jobs bytes c =
    append-nil _
    ∙ queued-append jobs (frame bytes c ∷ [])
    ∙ ap (λ x. queued jobs ++ x) (append-nil bytes)

pub Inv-queue_frame :
    (a bytes : Bytes) (s : Writer)
    → s.pending ≡ bytes
    → s.terminal_failure ≡ false
    → s.closing ≡ false
    → Inv a s
    → Inv a (queue_frame bytes s)
unfolding queue_frame Complete
Inv-queue_frame a [] s p terminal closing inv = inv
Inv-queue_frame a (b ∷ bytes) s p terminal closing inv =
    let (alive, stopless) = open-Shape terminal closing inv.shape in
    record {
      shape =
          make_open s _ [] terminal closing alive
            (no_stop-append s.jobs (b ∷ bytes) (some s.created) stopless);
      complete = λ f k.
          ap (λ x. s.wire ++ (in_hand s.worker ++ x))
            (queued_frame s.jobs (b ∷ bytes) (some s.created)
              ∙ ap (λ x. queued s.jobs ++ x) (sym p))
          ∙ inv.complete f k;
      a_prefix = inv.a_prefix;
    }

pub queued_closed :
    (jobs : List Job) (bytes : Bytes)
    → queued ((jobs ++ last_frame bytes) ++ stop ∷ []) ++ [] ≡ queued jobs ++ bytes
queued_closed jobs bytes =
    append-nil _
    ∙ ap queued (append_assoc jobs (last_frame bytes) (stop ∷ []))
    ∙ queued-append jobs (last_frame bytes ++ stop ∷ [])
    ∙ ap (λ x. queued jobs ++ x) (queued-last_frame bytes)

-- A closing writer's shape.
pub make_closing :
    (s : Writer) (jobs : List Job)
    → s.terminal_failure ≡ false
    → is_over s.worker ≡ false
    → ends_with_stop jobs ≡ true
    → Shape true s.terminal_failure (is_over s.worker) jobs []
make_closing s jobs t o h = rw (t, o) (still_closing h)

pub neither : (a b : Bool) → (a || b) ≡ false → (a ≡ false) × (b ≡ false)
neither a b h = (ground (arith, h), ground (arith, h))

pub Inv-close : (a : Bytes) (s : Writer) → Inv a s → Inv a (close s)
unfolding close Complete
Inv-close a s inv = elim (Bool-cases (s.terminal_failure || s.closing)) [
  | inl over ↦ rw over inv
  | inr unclosed ↦
      let (terminal, closing) = neither s.terminal_failure s.closing unclosed in
      let (alive, stopless) = open-Shape terminal closing inv.shape in
      rw unclosed (record {
        shape = make_closing s _ terminal alive (
            ends_with_stop-append (s.jobs ++ last_frame s.pending)
              (no_stop-last_frame s.jobs s.pending stopless));
        complete = λ f k.
            ap (λ x. s.wire ++ (in_hand s.worker ++ x)) (queued_closed s.jobs s.pending)
            ∙ inv.complete f k;
        a_prefix = inv.a_prefix;
      })
]
