-- ===== src/Requestman/Queue/Limits.antt =====
-- How many requests the queue processes at a time, and that it keeps each of them.
use mathlib.Core.List.{perm_middle}
use mathlib.Core.List.Perm
use ddrop.Base.{
  middle_length, length-zero, ℕ, ◌+◌, ◌≤◌, ◌≡◌, refl, sym, ap, ◌∙◌, subst, Bool, true, false, not,
  ◌&&◌, List, [], ◌∷◌, ◌++◌, Perm, length, ◌==◌, arith,
}
use ddrop.Base.Int.{ℤ, pos}
use ddrop.Requestman.Queue.{Spot, Processing, new_processing, QueueStep, QueueRun}

module _ {ℓ} {Q : Type ℓ} where
  abbrev in_hand : Spot Q → List Q
  in_hand (Spot.blocked q) = q ∷ []
  in_hand _ = []

  -- The goroutines that may not have called AddAwait yet.
  abbrev just_started : Spot Q → ℕ
  just_started Spot.launched = 1
  just_started _ = 0

  abbrev is_returned : Spot Q → Bool
  is_returned Spot.returned = true
  is_returned _ = false

  abbrev everything : Processing Q → List Q
  everything p = p.finished ++ (p.running ++ (p.spawned ++ (in_hand p.spot ++ p.queue)))

  pub record IsLimited (n : ℕ) (p : Processing Q) : Type 0 where
    pub counted : p.ticker.added ≡ length p.running + p.ticker.taken_off
    pub limited : length p.running + length p.spawned ≤ n
    pub started : length p.spawned ≤ just_started p.spot
    pub at_rest : (is_returned p.spot && not (length p.running == 0)) ≡ false

  forward :
      (q : Q) (front before after rest : List Q)
      → Perm
          ((q ∷ front) ++ ((before ++ after) ++ rest))
          (front ++ ((before ++ (q ∷ after)) ++ rest))
  forward q front before after rest =
      Perm.trans (Perm.symm (perm_middle front ((before ++ after) ++ rest)))
        (Perm.append_left front (Perm.append_right rest (Perm.symm (perm_middle before after))))

  -- Where nothing is in hand, the rest of the loop's input is its queue.
  in_place :
      (p : Processing Q)
      → in_hand p.spot ≡ []
      → Perm (p.finished ++ (p.running ++ (p.spawned ++ p.queue))) (everything p)
  in_place p e =
      subst
        (λ l.
          Perm (p.finished ++ (p.running ++ (p.spawned ++ p.queue)))
            (p.finished ++ (p.running ++ (p.spawned ++ (l ++ p.queue)))))
        (sym e) (Perm.refl _)

  ends_alike :
      {l : List Q} (p : Processing Q)
      → in_hand p.spot ≡ []
      → p.queue ≡ l
      → Perm (p.finished ++ (p.running ++ (p.spawned ++ l))) (everything p)
  ends_alike p e e' =
      subst (λ l. Perm (p.finished ++ (p.running ++ (p.spawned ++ l))) (everything p)) e'
        (in_place p e)

  QueueStep-perm :
      {prompt : Bool} {n : ℤ} {p q : Processing Q}
      → QueueStep prompt n p q
      → Perm (everything q) (everything p)
  QueueStep-perm {p} (QueueStep.receives q queue e e') = ends_alike p (ap in_hand e) e'
  QueueStep-perm {p} (QueueStep.launches q e b) =
      subst
        (λ l.
          Perm (p.finished ++ (p.running ++ ((q ∷ p.spawned) ++ p.queue)))
            (p.finished ++ (p.running ++ (p.spawned ++ (l ++ p.queue)))))
        (sym (ap in_hand e))
        (Perm.append_left p.finished
          (Perm.append_left p.running (Perm.symm (perm_middle p.spawned p.queue))))
  QueueStep-perm {p} (QueueStep.registers before q after e) =
      subst
        (λ l.
          Perm
            (p.finished ++ ((q ∷ p.running) ++ ((before ++ after) ++ (in_hand p.spot ++ p.queue))))
            (p.finished ++ (p.running ++ (l ++ (in_hand p.spot ++ p.queue)))))
        (sym e)
        (Perm.append_left p.finished (forward q p.running before after (in_hand p.spot ++ p.queue)))
  QueueStep-perm {p} (QueueStep.ends before q after e) =
      let rest = p.spawned ++ (in_hand p.spot ++ p.queue) in
      subst
        (λ l. Perm ((q ∷ p.finished) ++ ((before ++ after) ++ rest)) (p.finished ++ (l ++ rest)))
        (sym e) (forward q p.finished before after rest)
  QueueStep-perm {p} (QueueStep.continues e o) = in_place p (ap in_hand e)
  QueueStep-perm {p} (QueueStep.shuts_down e o) = in_place p (ap in_hand e)
  QueueStep-perm {p} (QueueStep.stops e o) = in_place p (ap in_hand e)

  -- A loop at its end has not just started a goroutine.
  returned_quiet : (s : Spot Q) → (is_returned s && not (just_started s == 0)) ≡ false
  returned_quiet Spot.receiving = refl
  returned_quiet (Spot.blocked q) = refl
  returned_quiet Spot.launched = refl
  returned_quiet Spot.stopping = refl
  returned_quiet Spot.returned = refl

  QueueStep-IsLimited :
      {n : ℕ} {p q : Processing Q} → QueueStep true (pos n) p q → IsLimited n p → IsLimited n q
  QueueStep-IsLimited {p = p} (QueueStep.receives q queue e e') h =
      let before = ap just_started e in
      record {
        counted = ground (arith, before, h.counted);
        limited = ground (arith, before, h.limited, h.started, h.counted);
        started = ground (arith, before, h.started);
        at_rest = ground (arith, before, h.at_rest, h.started, h.counted);
      }
  QueueStep-IsLimited {p = p} (QueueStep.launches q e b) h =
      let before = ap just_started e in
      record {
        counted = ground (arith, before, b, h.counted);
        limited = ground (arith, before, b, h.limited, h.started, h.counted);
        started = ground (arith, before, b, h.started);
        at_rest = ground (arith, before, b, h.at_rest, h.started, h.counted);
      }
  QueueStep-IsLimited {p = p} (QueueStep.registers before q after e) h =
      let fewer = middle_length p.spawned before q after e in
      let quiet = returned_quiet p.spot in
      record {
        counted = ground (arith, fewer, quiet, h.counted);
        limited = ground (arith, fewer, quiet, h.limited, h.started, h.counted);
        started = ground (arith, fewer, quiet, h.started);
        at_rest = ground (arith, fewer, quiet, h.at_rest, h.started, h.counted);
      }
  QueueStep-IsLimited {p = p} (QueueStep.ends before q after e) h =
      let fewer = middle_length p.running before q after e in
      record {
        counted = ground (arith, fewer, h.counted);
        limited = ground (arith, fewer, h.limited, h.started, h.counted);
        started = ground (arith, fewer, h.started);
        at_rest = ground (arith, fewer, h.at_rest, h.started, h.counted);
      }
  QueueStep-IsLimited {p = p} (QueueStep.continues e o) h = record {
    counted = ground (arith, o, h.counted);
    limited = ground (arith, o, h.limited, h.started, h.counted);
    started = ground (arith, o, h.started);
    at_rest = ground (arith, o, h.at_rest, h.started, h.counted);
  }
  QueueStep-IsLimited {p = p} (QueueStep.shuts_down e o) h = record {
    counted = ground (arith, o, h.counted);
    limited = ground (arith, o, h.limited, h.started, h.counted);
    started = ground (arith, o, h.started);
    at_rest = ground (arith, o, h.at_rest, h.started, h.counted);
  }
  QueueStep-IsLimited {p = p} (QueueStep.stops e o) h =
      let before = ap just_started e in
      record {
        counted = ground (arith, before, o, h.counted);
        limited = ground (arith, before, o, h.limited, h.started, h.counted);
        started = ground (arith, before, o, h.started);
        at_rest = ground (arith, before, o, h.at_rest, h.started, h.counted);
      }

  QueueRun-perm :
      {prompt : Bool} {n : ℤ} {p q : Processing Q}
      → QueueRun prompt n p q
      → Perm (everything q) (everything p)
  QueueRun-perm QueueRun.begins = Perm.refl _
  QueueRun-perm (QueueRun.goes_on r step) = Perm.trans (QueueStep-perm step) (QueueRun-perm r)

  QueueRun-keeps :
      {n : ℕ} {p q : Processing Q} → QueueRun true (pos n) p q → IsLimited n p → IsLimited n q
  QueueRun-keeps QueueRun.begins h = h
  QueueRun-keeps (QueueRun.goes_on r step) h = QueueStep-IsLimited step (QueueRun-keeps r h)

  -- Where each goroutine calls AddAwait before the loop goes on, the ticker holds the number of the
  -- requests that are processed, and these and the one that was just started are maxConcurrent at
  -- most.
  pub QueueRun-IsLimited :
      (n : ℕ) (arrivals : List Q) (p : Processing Q)
      → QueueRun true (pos n) (new_processing arrivals) p
      → IsLimited n p
  QueueRun-IsLimited n arrivals p r =
      QueueRun-keeps r
        (record { counted = refl; limited = omega arith; started = omega arith; at_rest = refl })

  -- Under the same condition, once the loop has returned, the requests that were finished and those
  -- that are still in the queue are together all that came: none is lost and none is processed twice.
  pub QueueRun-returned :
      (n : ℕ) (arrivals : List Q) (p : Processing Q)
      → QueueRun true (pos n) (new_processing arrivals) p
      → p.spot ≡ Spot.returned
      → Perm (p.finished ++ p.queue) arrivals
  QueueRun-returned n arrivals p r e =
      let h = QueueRun-IsLimited n arrivals p r in
      let at_end = ap is_returned e in
      let none_runs = length-zero p.running (ground (arith, at_end, h.at_rest)) in
      let none_spawned = length-zero p.spawned (omega (arith, ap just_started e, h.started)) in
      subst (λ l. Perm l arrivals)
        (ap (λ l. p.finished ++ (l ++ (p.spawned ++ (in_hand p.spot ++ p.queue)))) none_runs
          ∙ ap (λ l. p.finished ++ (l ++ (in_hand p.spot ++ p.queue))) none_spawned
          ∙ ap (λ l. p.finished ++ (l ++ p.queue)) (ap in_hand e))
        (QueueRun-perm r)
