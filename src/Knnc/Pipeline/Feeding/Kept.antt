-- ===== src/Knnc/Pipeline/Feeding/Kept.antt =====
-- No step of a pipeline's faucet loses or doubles what a scanner sends.
use mathlib.Core.List.{append_assoc, perm_append_comm}
use mathlib.Core.List.Perm
use ddrop.Base.{
  ◌+◌, ◌≡◌, subst, Bool, false, not, ◌&&◌, ◌||◌, List, [], ◌∷◌, ◌++◌, Perm, length, ◌==◌, items_of,
  items_of-append,
}
use ddrop.Knnc.Pipeline.{Faucet, FeedStep}
use ddrop.Knnc.Stages.Threads.{middle-perm, swap_front}

module _ {ℓ} {A : Type ℓ} where
  -- All that was accepted, wherever it is.
  abbrev pub all_of : Faucet A → List A
  all_of p = items_of p.admitted ++ (items_of p.abandoned ++ (items_of p.scanners ++ p.input))

  pub record IsFed (p : Faucet A) : Type ℓ where
    pub counted : p.scan_tick.added ≡ length p.scanners + p.scan_tick.taken_off
    pub no_panic : p.panicked ≡ false
    pub none_admitted : (p.closed_signal && not (length p.admitted == 0)) ≡ false
    pub signalled : ((p.closing || p.input_closed) && not p.closed_signal) ≡ false
    pub none_sending : (p.input_closed && not (length p.scanners == 0)) ≡ false

  take_thread :
      (before after : List (List A)) (s : List A)
      → Perm (items_of (before ++ (s ∷ after))) (s ++ items_of (before ++ after))
  take_thread before after s =
      rw (items_of-append before (s ∷ after), items_of-append before after)
        (swap_front (items_of before) s (items_of after))

  move_out : (s m ab z : List A) → Perm (m ++ (ab ++ (s ++ z))) ((s ++ m) ++ (ab ++ z))
  move_out s m ab z =
      rw (append_assoc s m (ab ++ z))
        (Perm.trans (Perm.append_left m (swap_front ab s z)) (swap_front m s (ab ++ z)))

  move_last : (x : A) (m input : List A) → Perm (m ++ (input ++ (x ∷ []))) ((x ∷ m) ++ input)
  move_last x m input =
      rw (← append_assoc m input (x ∷ [])) (perm_append_comm (m ++ input) (x ∷ []))

  move_over : (s ab m z : List A) → Perm ((s ++ ab) ++ (m ++ z)) (ab ++ ((s ++ m) ++ z))
  move_over s ab m z =
      rw (append_assoc s ab (m ++ z), append_assoc s m z) (swap_front s ab (m ++ z))

  pub FeedStep-perm :
      {one_caller : Bool} {p q : Faucet A}
      → FeedStep one_caller p q
      → Perm (all_of p) (items_of p.accepted)
      → Perm (all_of q) (items_of q.accepted)
  FeedStep-perm {p} (FeedStep.admits s e) h =
      rw
        (append_assoc s (items_of p.admitted)
          (items_of p.abandoned ++ (items_of p.scanners ++ p.input)))
        (Perm.append_left s h)
  FeedStep-perm {p} (FeedStep.registers before s after e) h =
      let rest = items_of p.scanners ++ p.input in
      let before_it =
        subst (λ l. Perm (items_of l ++ (items_of p.abandoned ++ rest)) (items_of p.accepted)) e
          h in
      rw (append_assoc s (items_of p.scanners) p.input) (
        Perm.trans (move_out s (items_of (before ++ after)) (items_of p.abandoned) rest) (
          Perm.trans
            (Perm.append_right (items_of p.abandoned ++ rest)
              (Perm.symm (take_thread before after s)))
            before_it))
  FeedStep-perm {p} (FeedStep.sends before x rest after e o) h =
      let m = items_of (before ++ (rest ∷ after)) in
      let sent =
        Perm.trans (move_last x m p.input)
          (Perm.append_right p.input (middle-perm before after x rest)) in
      Perm.trans
        (Perm.append_left (items_of p.admitted) (Perm.append_left (items_of p.abandoned) sent))
        (subst
          (λ l.
            Perm (items_of p.admitted ++ (items_of p.abandoned ++ (items_of l ++ p.input)))
              (items_of p.accepted))
          e h)
  FeedStep-perm {p} (FeedStep.panics before x rest after e o) h = h
  FeedStep-perm {p} (FeedStep.gives_up before x rest after e) h =
      let m = items_of (before ++ after) in
      let moved = Perm.trans (move_over (x ∷ rest) (items_of p.abandoned) m p.input) (
        Perm.append_left (items_of p.abandoned)
          (Perm.append_right p.input (Perm.symm (take_thread before after (x ∷ rest))))) in
      Perm.trans (Perm.append_left (items_of p.admitted) moved) (
        subst
          (λ l.
            Perm (items_of p.admitted ++ (items_of p.abandoned ++ (items_of l ++ p.input)))
              (items_of p.accepted))
          e h)
  FeedStep-perm {p} (FeedStep.finishes before after e) h =
      let moved =
        Perm.append_left (items_of p.abandoned)
          (Perm.append_right p.input (Perm.symm (take_thread before after []))) in
      Perm.trans (Perm.append_left (items_of p.admitted) moved) (
        subst
          (λ l.
            Perm (items_of p.admitted ++ (items_of p.abandoned ++ (items_of l ++ p.input)))
              (items_of p.accepted))
          e h)
  FeedStep-perm {p} (FeedStep.signals_close e o) h = h
  FeedStep-perm {p} (FeedStep.closes e o) h = h
