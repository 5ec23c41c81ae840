-- ===== src/Knnc/Stages/Delivery.antt =====
-- What the workers of MapStage and FilterStage deliver, in whatever order they move.
use mathlib.Core.List.{
  filter_map, filter_map-cons-none, filter_map-cons-some, append_assoc, append-nil,
}
use mathlib.Core.List.{perm_middle}
use mathlib.Core.List.Perm
use ddrop.Base.{
  middle_length, ℕ, suc, ◌+◌, ◌*◌, ◌≤◌, ◌<◌, ◌≡◌, refl, ap, ◌∙◌, inl, inr, Option, List, [], ◌∷◌,
  ◌++◌, Perm, arith, length, Option-cases, subst,
}
use ddrop.Knnc.Stages.{Pool, start_pool, Step, Run}

module _ {ℓ} {B : Type ℓ} where
  -- An item taken out of the middle.
  take_out :
      (y : B) (before after rest : List B)
      → Perm (y ∷ ((before ++ after) ++ rest)) ((before ++ y ∷ after) ++ rest)
  take_out y before after rest =
      rw (append_assoc before after rest, append_assoc before (y ∷ after) rest)
        (Perm.symm (perm_middle before (after ++ rest)))

  to_output :
      (y : B) (output before after rest : List B)
      → Perm
          ((output ++ (y ∷ [])) ++ ((before ++ after) ++ rest))
          (output ++ ((before ++ (y ∷ after)) ++ rest))
  to_output y output before after rest =
      rw (append_assoc output (y ∷ []) ((before ++ after) ++ rest))
        (Perm.append_left output (take_out y before after rest))

  to_dropped :
      (y : B) (dropped output before after rest : List B)
      → Perm
          ((y ∷ dropped) ++ (output ++ ((before ++ after) ++ rest)))
          (dropped ++ (output ++ ((before ++ (y ∷ after)) ++ rest)))
  to_dropped y dropped output before after rest =
      Perm.trans (Perm.symm (perm_middle dropped (output ++ ((before ++ after) ++ rest)))) (
        Perm.append_left dropped (
          Perm.trans (Perm.symm (perm_middle output ((before ++ after) ++ rest)))
            (Perm.append_left output (take_out y before after rest))))

module _ {ℓ κ} {A : Type ℓ} {B : Type κ} (outcome : A → Option B) where
  -- Everything that is, was or will be held.
  abbrev all_of : Pool A B → List B
  all_of p = p.dropped ++ (p.output ++ (p.held ++ filter_map outcome p.queue))

  abbrev workers : Pool A B → ℕ
  workers p = p.idle + length p.held + length p.dropped

  -- The moves that are left.
  abbrev pub moves_left : Pool A B → ℕ
  moves_left p = 2 * length p.queue + length p.held

  Step-perm : {p q : Pool A B} → Step outcome p q → Perm (all_of q) (all_of p)
  Step-perm (Step.skip p x xs n e i none_kept) =
      rw (e, filter_map-cons-none outcome x xs none_kept) (Perm.refl _)
  Step-perm (Step.take p x xs n y e i kept) =
      rw (e, filter_map-cons-some outcome x xs kept)
        (Perm.append_left p.dropped
          (Perm.append_left p.output (Perm.symm (perm_middle p.held (filter_map outcome xs)))))
  Step-perm (Step.send p before y after e) =
      rw e (
        Perm.append_left p.dropped (to_output y p.output before after (filter_map outcome p.queue)))
  Step-perm (Step.abort p before y after e) =
      rw e (to_dropped y p.dropped p.output before after (filter_map outcome p.queue))

  Step-counts :
      {p q : Pool A B} → Step outcome p q → (workers q ≡ workers p) × (moves_left q < moves_left p)
  Step-counts (Step.skip p x xs n e i none_kept) = (refl, omega (arith, ap length e))
  Step-counts (Step.take p x xs n y e i kept) = (omega arith, omega (arith, ap length e))
  Step-counts (Step.send p before y after e) =
      let m = middle_length p.held before y after e in (omega (arith, m), omega (arith, m))
  Step-counts (Step.abort p before y after e) =
      let m = middle_length p.held before y after e in (omega (arith, m), omega (arith, m))

  Run-perm : {p q : Pool A B} → Run outcome p q → Perm (all_of q) (all_of p)
  Run-perm Run.still = Perm.refl _
  Run-perm (Run.then_step r s) = Perm.trans (Step-perm s) (Run-perm r)

  abbrev pub steps : {p q : Pool A B} → Run outcome p q → ℕ
  steps Run.still = 0
  steps (Run.then_step r s) = suc (steps r)

  Run-counts :
      {p q : Pool A B} (r : Run outcome p q)
      → (workers q ≡ workers p) × (steps r + moves_left q ≤ moves_left p)
  Run-counts Run.still = (refl, omega arith)
  Run-counts (Run.then_step r s) =
      let (same, less) = Run-counts r in
      let (same', less') = Step-counts s in (same' ∙ same, omega arith)

  start-all_of :
      (inputs : List A) (n : ℕ) → all_of (start_pool inputs n) ≡ filter_map outcome inputs
  unfolding start_pool
  start-all_of inputs n = refl

  -- However the n workers of a stage move over an input, at any moment the items that are sent, held
  -- or lost by a signal, and the outcomes of the inputs to come, are together the outcomes of all
  -- inputs: none is lost otherwise and none is made twice. No worker is lost without a signal, and
  -- the workers have moved twice for every input at most.
  pub Run-delivers :
      (inputs : List A) (n : ℕ) (p : Pool A B) (r : Run outcome (start_pool inputs n) p)
      → Perm
          (p.dropped ++ (p.output ++ (p.held ++ filter_map outcome p.queue)))
          (filter_map outcome inputs)
        × (p.idle + length p.held + length p.dropped ≡ n)
        × (steps r + moves_left p ≤ 2 * length inputs)
  unfolding start_pool
  Run-delivers inputs n p r =
      let (same, less) = Run-counts r in
      (
        subst (Perm (all_of p)) (start-all_of inputs n) (Run-perm r),
        same ∙ omega arith,
        omega arith,
      )

  none_held : (p : Pool A B) → ((q : Pool A B) → ¬ Step outcome p q) → p.held ≡ []
  none_held p stuck = from p.held refl
    where
      from : (l : List B) → p.held ≡ l → p.held ≡ []
      from [] e = e
      from (y ∷ ys) e = absurd (stuck _ (Step.abort p [] y ys e))

  none_queued :
      (p : Pool A B) (n : ℕ) → p.idle ≡ suc n → ((q : Pool A B) → ¬ Step outcome p q) → p.queue ≡ []
  none_queued p n waits stuck = from p.queue refl
    where
      from : (l : List A) → p.queue ≡ l → p.queue ≡ []
      from [] e = e
      from (x ∷ xs) e = elim (Option-cases (outcome x)) [
        | inl drops ↦ absurd (stuck _ (Step.skip p x xs n e waits drops))
        | inr (y, keeps) ↦ absurd (stuck _ (Step.take p x xs n y e waits keeps))
      ]

  -- A stage with a worker at least, that no signal has reached and where no worker can move, has sent
  -- just the outcomes of its inputs, in some order.
  pub Run-complete :
      (inputs : List A) (n : ℕ) (p : Pool A B)
      → Run outcome (start_pool inputs (suc n)) p
      → p.dropped ≡ []
      → ((q : Pool A B) → ¬ Step outcome p q)
      → Perm p.output (filter_map outcome inputs)
  unfolding filter_map
  Run-complete inputs n p r unbroken stuck =
      let (delivered, same, less) = Run-delivers inputs (suc n) p r in
      let no_held = none_held p stuck in
      let waits : p.idle ≡ suc n = omega (arith, ap length no_held, ap length unbroken) in
      let no_queue = none_queued p n waits stuck in
      subst (λ l. Perm l (filter_map outcome inputs))
        (ap (λ l. l ++ (p.output ++ (p.held ++ filter_map outcome p.queue))) unbroken
          ∙ ap (λ l. p.output ++ (l ++ filter_map outcome p.queue)) no_held
          ∙ ap (λ l. p.output ++ filter_map outcome l) no_queue
          ∙ append-nil p.output)
        delivered
