-- ===== src/Knnc/Stages/Threads.antt =====
-- Goroutines that read from one channel or write to one channel: the sequence on the channel is an
-- interleaving of the sequences of the single goroutines.
use mathlib.Core.List.{append_assoc, perm_append_comm, perm_middle}
use mathlib.Core.List.Perm
use ddrop.Base.{◌≡◌, sym, subst, List, [], ◌∷◌, ◌++◌, Perm, map, length, items_of, items_of-append}
use ddrop.Base.Int.{pos_part}
use ddrop.Float.{Float}
use ddrop.Knnc.Items.{ScoreItem}
use ddrop.Knnc.Stages.{MergeStagePartialArgs, merge_worker}

-- One of the goroutines makes the next move; at the end all have made theirs.
pub data Interleaved {ℓ} {A : Type ℓ} : List (List A) → List A → Type ℓ where
  ended : {threads : List (List A)} → items_of threads ≡ [] → Interleaved threads []
  moves :
      {threads : List (List A)} {rest_moves : List A} (before : List (List A)) (x : A)
      (rest : List A) (after : List (List A))
      → threads ≡ before ++ ((x ∷ rest) ∷ after)
      → Interleaved (before ++ (rest ∷ after)) rest_moves
      → Interleaved threads (x ∷ rest_moves)

-- A run of MergeStage to its end with no signal: each worker receives a part of the input, and what
-- the workers send comes out interleaved.
pub record MergeRun {ℓ κ} {F : Type ℓ} {D : Type κ} ⦃f : Float F⦄ (args : MergeStagePartialArgs)
    (inputs : List (ScoreItem F D)) (batches : List (List (ScoreItem F D))) : Type (ℓ ⊔ κ) where
  pub received : List (List (ScoreItem F D))
  pub workers : length received ≡ pos_part args.stage.n_workers
  pub dealt : Interleaved received inputs
  pub sent : Interleaved (map (merge_worker args) received) batches

module _ {ℓ} {A : Type ℓ} where
  pub middle-perm :
      (before after : List (List A)) (x : A) (rest : List A)
      → Perm (x ∷ items_of (before ++ (rest ∷ after))) (items_of (before ++ ((x ∷ rest) ∷ after)))
  middle-perm before after x rest =
      rw (items_of-append before (rest ∷ after), items_of-append before ((x ∷ rest) ∷ after))
        (Perm.symm (perm_middle (items_of before) (rest ++ items_of after)))

  pub Interleaved-perm :
      {threads : List (List A)} {moves : List A}
      → Interleaved threads moves
      → Perm moves (items_of threads)
  Interleaved-perm (Interleaved.ended e) = subst (Perm []) (sym e) (Perm.refl [])
  Interleaved-perm (Interleaved.moves {rest_moves = ms} before x rest after e r) =
      subst (λ t. Perm (x ∷ ms) (items_of t)) (sym e)
        (Perm.trans (Perm.cons x (Interleaved-perm r)) (middle-perm before after x rest))

  pub swap_front : (a b c : List A) → Perm (a ++ (b ++ c)) (b ++ (a ++ c))
  swap_front a b c =
      rw (← append_assoc a b c, ← append_assoc b a c) (Perm.append_right c (perm_append_comm a b))

  -- The same of moves that are lists of items.
  middle-items :
      (before after : List (List (List A))) (x : List A) (rest : List (List A))
      → Perm
          (x ++ items_of (items_of (before ++ (rest ∷ after))))
          (items_of (items_of (before ++ ((x ∷ rest) ∷ after))))
  middle-items before after x rest =
      rw
        (
          items_of-append before (rest ∷ after),
          items_of-append before ((x ∷ rest) ∷ after),
          items_of-append (items_of before) (rest ++ items_of after),
          items_of-append (items_of before) (x ∷ (rest ++ items_of after)),
        )
        (swap_front x (items_of (items_of before)) (items_of (rest ++ items_of after)))

  pub Interleaved-items :
      {threads : List (List (List A))} {moves : List (List A)}
      → Interleaved threads moves
      → Perm (items_of moves) (items_of (items_of threads))
  Interleaved-items (Interleaved.ended e) = subst (λ t. Perm [] (items_of t)) (sym e) (Perm.refl [])
  Interleaved-items (Interleaved.moves {rest_moves = ms} before x rest after e r) =
      subst (λ t. Perm (x ++ items_of ms) (items_of (items_of t))) (sym e)
        (Perm.trans (Perm.append_left x (Interleaved-items r)) (middle-items before after x rest))
