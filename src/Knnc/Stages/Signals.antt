-- ===== src/Knnc/Stages/Signals.antt =====
-- The signals of the stages: DeadlineSignal, and the workers of MergeStage with what their selects
-- take.
use mathlib.Core.List.{append-nil}
use ddrop.Base.{
  ℕ, ◌+◌, ◌%◌, ◌≡◌, refl, sym, ap, ◌∙◌, inl, inr, Bool, true, false, List, [], ◌∷◌, ◌++◌, map,
  length, ◌==◌, if◌then◌else◌, Bool-cases, arith,
}
use ddrop.Base.Int.{pos_part}
use ddrop.Float.{Float}
use ddrop.Knnc.Items.{ScoreItem, bubble, trim_items}
use ddrop.Knnc.Syncx.{CancelSignal, new_cancel_signal, cancel}
use ddrop.Knnc.Stages.{MergeStagePartialArgs, fresh_items, try_send, merge_loop, merge_worker}

-- The two signals of DeadlineSignal, and whether its goroutine still waits.
record Deadline : Type 0 where
  pub external : CancelSignal
  pub internal : CancelSignal
  pub waiting : Bool

abbrev deadline_signal : Deadline
deadline_signal = record {
  external = new_cancel_signal;
  internal = new_cancel_signal;
  waiting = true;
}

-- The TTL is over, the goroutine sees that it is aborted, or the holder of the second signal cancels.
data DeadlineStep (d : Deadline) : Deadline → Type 0 where
  times_out :
      d.waiting ≡ true → DeadlineStep d (record d { external = cancel d.external; waiting = false })
  returns :
      d.waiting ≡ true → d.internal.closed ≡ true → DeadlineStep d (record d { waiting = false })
  aborts : DeadlineStep d (record d { internal = cancel d.internal })

-- What a select of trySend takes.
pub data Selected : Type 0 where
  sends : Selected
  cancels : Selected
  is_late : Selected

module _ {ℓ κ} {F : Type ℓ} {D : Type κ} ⦃f : Float F⦄ where
  abbrev taken : Selected → List (ScoreItem F D) → List (List (ScoreItem F D)) × Bool
  taken sends trimmed = (trimmed ∷ [], true)
  taken cancels trimmed = ([], false)
  taken is_late trimmed = ([], true)

  -- trySend: what it sends, and its result.
  unfoldable pub try_send_selected :
      Selected → List (ScoreItem F D) → List (List (ScoreItem F D)) × Bool
  try_send_selected selected score_items =
      let trimmed = trim_items score_items in
      if length score_items == 0
      then ([], true)
      else if length trimmed == 0
      then ([], true)
      else taken selected trimmed

  -- The loop of a worker. `selected i` is what the select of the trySend at the counter i takes.
  unfoldable pub merge_selected :
      MergeStagePartialArgs
      → (ℕ → Selected)
      → List (ScoreItem F D)
      → ℕ
      → List (ScoreItem F D)
      → List (List (ScoreItem F D))
  unfolding try_send_selected
  merge_selected args selected score_items i [] = (try_send_selected (selected i) score_items).0
  merge_selected args selected score_items i (item ∷ items) =
      let merged = bubble score_items item args.ascending in
      let rest = merge_selected args selected merged (i + 1) items in
      let rest_fresh = merge_selected args selected (fresh_items args) (i + 1) items in
      let (sent, goes_on) = try_send_selected (selected i) merged in
      if i % pos_part args.send_interval == 0
      then (if goes_on then sent ++ rest_fresh else sent)
      else rest

  abbrev cut_at :
      Selected → List (ScoreItem F D) → List (List (ScoreItem F D)) → List (List (ScoreItem F D))
  cut_at sends batch rest = batch ∷ rest
  cut_at cancels batch rest = []
  cut_at is_late batch rest = rest

  -- The batches at whose counters the select sends, up to the first at which it takes the cancel
  -- signal.
  abbrev pub cut : (ℕ → Selected) → List (ℕ × List (ScoreItem F D)) → List (List (ScoreItem F D))
  cut selected [] = []
  cut selected ((i, batch) ∷ batches) =
      let rest = cut selected batches in cut_at (selected i) batch rest

  abbrev pub batches_of : List (ℕ × List (ScoreItem F D)) → List (List (ScoreItem F D))
  batches_of batches = map (λ b. b.1) batches

  counted : ℕ → List (ScoreItem F D) → List (ℕ × List (ScoreItem F D))
  counted i score_items =
      let trimmed = trim_items score_items in
      if length score_items == 0 then [] else if length trimmed == 0 then [] else (i, trimmed) ∷ []

  counted-try_send :
      (i : ℕ) (score_items : List (ScoreItem F D))
      → batches_of (counted i score_items) ≡ try_send score_items
  unfolding counted try_send
  counted-try_send i score_items = ground arith

  -- What the worker sends where all selects send, each batch with the counter at its trySend.
  pub labelled :
      MergeStagePartialArgs
      → List (ScoreItem F D)
      → ℕ
      → List (ScoreItem F D)
      → List (ℕ × List (ScoreItem F D))
  labelled args score_items i [] = counted i score_items
  labelled args score_items i (item ∷ items) =
      let merged = bubble score_items item args.ascending in
      let rest = labelled args merged (i + 1) items in
      let rest_fresh = labelled args (fresh_items args) (i + 1) items in
      if i % pos_part args.send_interval == 0 then counted i merged ++ rest_fresh else rest

  batches_of-append :
      (xs ys : List (ℕ × List (ScoreItem F D)))
      → batches_of (xs ++ ys) ≡ batches_of xs ++ batches_of ys
  batches_of-append [] ys = refl
  batches_of-append ((i, x) ∷ xs) ys = ap (◌∷◌ x) (batches_of-append xs ys)

  labelled-merge_loop :
      (args : MergeStagePartialArgs) (score_items : List (ScoreItem F D)) (i : ℕ)
      (items : List (ScoreItem F D))
      → batches_of (labelled args score_items i items) ≡ merge_loop args score_items i items
  unfolding labelled merge_loop
  labelled-merge_loop args score_items i [] = counted-try_send i score_items
  labelled-merge_loop args score_items i (item ∷ items) =
      let merged = bubble score_items item args.ascending in
      elim (Bool-cases (i % pos_part args.send_interval == 0)) [
        | inl e ↦ rw e (
            batches_of-append (counted i merged) (labelled args (fresh_items args) (i + 1) items)
            ∙ ap (λ l. l ++ batches_of (labelled args (fresh_items args) (i + 1) items))
                (counted-try_send i merged)
            ∙ ap (λ l. try_send merged ++ l)
                (labelled-merge_loop args (fresh_items args) (i + 1) items))
        | inr e ↦ rw e (labelled-merge_loop args merged (i + 1) items)
      ]

  module _ (selected : ℕ → Selected) where
    taken-cut :
        (i : ℕ) (trimmed : List (ScoreItem F D)) (l : List (ℕ × List (ScoreItem F D)))
        (s : Selected)
        → selected i ≡ s
        → (if (taken s trimmed).1
            then (taken s trimmed).0 ++ cut selected l
            else (taken s trimmed).0)
          ≡ cut selected ((i, trimmed) ∷ l)
    taken-cut i trimmed l sends e = rw e refl
    taken-cut i trimmed l cancels e = rw e refl
    taken-cut i trimmed l is_late e = rw e refl

    -- One trySend and what comes behind it.
    send-cut :
        (i : ℕ) (score_items : List (ScoreItem F D)) (l : List (ℕ × List (ScoreItem F D)))
        → let r = try_send_selected (selected i) score_items in
          (if r.1 then r.0 ++ cut selected l else r.0) ≡ cut selected (counted i score_items ++ l)
    unfolding try_send_selected counted
    send-cut i score_items l = elim (Bool-cases (length score_items == 0)) [
      | inl e ↦ rw e refl
      | inr e ↦ elim (Bool-cases (length (trim_items score_items) == 0)) [
        | inl e' ↦ rw (e, e') refl
        | inr e' ↦ rw (e, e') (taken-cut i (trim_items score_items) l (selected i) refl)
      ]
    ]

    either-nil : (b : Bool) (x : List (List (ScoreItem F D))) → (if b then x ++ [] else x) ≡ x
    either-nil true x = append-nil x
    either-nil false x = refl

    last-cut :
        (i : ℕ) (score_items : List (ScoreItem F D))
        → (try_send_selected (selected i) score_items).0 ≡ cut selected (counted i score_items)
    last-cut i score_items =
        let r = try_send_selected (selected i) score_items in
        sym (either-nil r.1 r.0)
        ∙ send-cut i score_items []
        ∙ ap (cut selected) (append-nil (counted i score_items))

    merge_selected-labelled :
        (args : MergeStagePartialArgs) (score_items : List (ScoreItem F D)) (i : ℕ)
        (items : List (ScoreItem F D))
        → merge_selected args selected score_items i items
          ≡ cut selected (labelled args score_items i items)
    unfolding merge_selected labelled
    merge_selected-labelled args score_items i [] = last-cut i score_items
    merge_selected-labelled args score_items i (item ∷ items) =
        let merged = bubble score_items item args.ascending in
        let r = try_send_selected (selected i) merged in
        elim (Bool-cases (i % pos_part args.send_interval == 0)) [
          | inl e ↦ rw e (
              ap (λ (rest : List (List (ScoreItem F D))). if r.1 then r.0 ++ rest else r.0)
                (merge_selected-labelled args (fresh_items args) (i + 1) items)
              ∙ send-cut i merged (labelled args (fresh_items args) (i + 1) items))
          | inr e ↦ rw e (merge_selected-labelled args merged (i + 1) items)
        ]

    -- With signals, a worker of MergeStage sends, of the batches that it sends without any, just those
    -- at whose counters the select does not take the deadline, up to the first at whose counter it
    -- takes the cancel signal, where the worker returns.
    pub merge_selected-cut :
        (args : MergeStagePartialArgs) (items : List (ScoreItem F D))
        → let batches = labelled args (fresh_items args) 1 items in
          (batches_of batches ≡ merge_worker args items)
          × (merge_selected args selected (fresh_items args) 1 items ≡ cut selected batches)
    unfolding merge_worker
    merge_selected-cut args items = (
      labelled-merge_loop args (fresh_items args) 1 items,
      merge_selected-labelled args (fresh_items args) 1 items,
    )
