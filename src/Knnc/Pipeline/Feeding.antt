-- ===== src/Knnc/Pipeline/Feeding.antt =====
-- What feeds a pipeline: nothing is sent behind its close, and nothing is lost without a signal.
mod Kept
pub use Kept.{IsFed}
use ddrop.Knnc.Pipeline.Feeding.Kept.{all_of, FeedStep-perm}
use mathlib.Core.List.{append_assoc, perm_append_comm}
use mathlib.Core.List.Perm
use ddrop.Base.{
  middle_length, length-zero, ◌+◌, ◌≡◌, refl, ap, ◌∙◌, subst, Bool, true, false, not, ◌&&◌, ◌||◌,
  List, [], ◌∷◌, ◌++◌, Perm, length, length-append, ◌==◌, arith, items_of, items_of-append,
}
use ddrop.Knnc.Pipeline.{Faucet, new_faucet, FeedStep, FeedRun}
use ddrop.Knnc.Stages.Threads.{middle-perm, swap_front}

module _ {ℓ} {A : Type ℓ} where
  as_long :
      (l before : List (List A)) (s t : List A) (after : List (List A))
      → l ≡ before ++ (s ∷ after)
      → length l ≡ length (before ++ (t ∷ after))
  as_long l before s t after e =
      omega (arith, ap length e, length-append before (s ∷ after), length-append before (t ∷ after))

  FeedStep-IsFed : {p q : Faucet A} → FeedStep true p q → IsFed p → IsFed q
  FeedStep-IsFed {p} (FeedStep.admits s e) h = record {
    counted = omega (arith, h.counted);
    no_panic = h.no_panic;
    none_admitted = ground (arith, e, h.none_admitted);
    signalled = ground (arith, e, h.signalled);
    none_sending = ground (arith, e, h.none_sending, h.counted);
  }
  FeedStep-IsFed {p} (FeedStep.registers before s after e) h =
      let fewer = middle_length p.admitted before s after e in
      record {
        counted = omega (arith, fewer, h.counted);
        no_panic = h.no_panic;
        none_admitted = ground (arith, fewer, h.none_admitted);
        signalled = ground (arith, fewer, h.signalled);
        none_sending = ground (arith, fewer, h.none_sending, h.counted);
      }
  FeedStep-IsFed {p} (FeedStep.sends before x rest after e o) h =
      let same = as_long p.scanners before (x ∷ rest) rest after e in
      record {
        counted = omega (arith, same, h.counted);
        no_panic = h.no_panic;
        none_admitted = ground (arith, same, o, h.none_admitted);
        signalled = ground (arith, same, o, h.signalled);
        none_sending = ground (arith, same, o, h.none_sending, h.counted);
      }
  FeedStep-IsFed {p} (FeedStep.panics before x rest after e o) h =
      absurd (ground (arith, middle_length p.scanners before (x ∷ rest) after e, o, h.none_sending))
  FeedStep-IsFed {p} (FeedStep.gives_up before x rest after e) h =
      let fewer = middle_length p.scanners before (x ∷ rest) after e in
      record {
        counted = omega (arith, fewer, h.counted);
        no_panic = h.no_panic;
        none_admitted = ground (arith, fewer, h.none_admitted);
        signalled = ground (arith, fewer, h.signalled);
        none_sending = ground (arith, fewer, h.none_sending, h.counted);
      }
  FeedStep-IsFed {p} (FeedStep.finishes before after e) h =
      let fewer = middle_length p.scanners before [] after e in
      record {
        counted = omega (arith, fewer, h.counted);
        no_panic = h.no_panic;
        none_admitted = ground (arith, fewer, h.none_admitted);
        signalled = ground (arith, fewer, h.signalled);
        none_sending = ground (arith, fewer, h.none_sending, h.counted);
      }
  FeedStep-IsFed {p} (FeedStep.signals_close e o) h = record {
    counted = omega (arith, h.counted);
    no_panic = h.no_panic;
    none_admitted = ground (arith, e, o, h.none_admitted);
    signalled = ground (arith, e, o, h.signalled);
    none_sending = ground (arith, e, o, h.none_sending, h.counted);
  }
  FeedStep-IsFed {p} (FeedStep.closes e o) h = record {
    counted = omega (arith, h.counted);
    no_panic = h.no_panic;
    none_admitted = ground (arith, e, o, h.none_admitted);
    signalled = ground (arith, e, o, h.signalled);
    none_sending = ground (arith, e, o, h.none_sending, h.counted);
  }

  FeedRun-flags : {p q : Faucet A} → FeedRun true p q → IsFed p → IsFed q
  FeedRun-flags FeedRun.begins h = h
  FeedRun-flags (FeedRun.goes_on r step) h = FeedStep-IsFed step (FeedRun-flags r h)

  FeedRun-perm :
      {one_caller : Bool} {p q : Faucet A}
      → FeedRun one_caller p q
      → Perm (all_of p) (items_of p.accepted)
      → Perm (all_of q) (items_of q.accepted)
  FeedRun-perm FeedRun.begins h = h
  FeedRun-perm (FeedRun.goes_on run step) h = FeedStep-perm step (FeedRun-perm run h)

  start-IsFed : IsFed {A = A} new_faucet
  start-IsFed = record {
    counted = refl;
    no_panic = refl;
    none_admitted = refl;
    signalled = refl;
    none_sending = refl;
  }

  -- Where one goroutine makes the calls of AddScanner and of WaitThenClose, at any moment the ticker
  -- holds the number of goroutines that forward to the input channel; once this is closed there is no
  -- such goroutine, and none has sent to the closed channel; and what is waiting, was given up by a
  -- signal, is still to be forwarded or was sent is together what the accepted scanners send.
  pub FeedRun-IsFed :
      (p : Faucet A)
      → FeedRun true new_faucet p
      → IsFed p
        × Perm
            (items_of p.admitted ++ (items_of p.abandoned ++ (items_of p.scanners ++ p.input)))
            (items_of p.accepted)
  FeedRun-IsFed p r = (FeedRun-flags r start-IsFed, FeedRun-perm r (Perm.refl []))

  -- Under the same condition, where the input channel is closed and no signal stopped a goroutine, what
  -- was sent into the pipeline is all that the accepted scanners send, in some order.
  pub closed-complete :
      (p : Faucet A)
      → FeedRun true new_faucet p
      → p.input_closed ≡ true
      → p.abandoned ≡ []
      → Perm p.input (items_of p.accepted)
  closed-complete p r closed unbroken =
      let (fed, kept) = FeedRun-IsFed p r in
      let none_waits =
        length-zero p.admitted (ground (arith, fed.none_admitted, fed.signalled, closed)) in
      let none_sends = length-zero p.scanners (ground (arith, fed.none_sending, closed)) in
      subst (λ l. Perm l (items_of p.accepted))
        (ap (λ l. items_of l ++ (items_of p.abandoned ++ (items_of p.scanners ++ p.input)))
            none_waits
          ∙ ap (λ l. items_of l ++ (items_of p.scanners ++ p.input)) unbroken
          ∙ ap (λ l. items_of l ++ p.input) none_sends)
        kept
