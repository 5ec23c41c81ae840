-- ===== src/Requestman/Query/Results.antt =====
-- What the loop of consume sends to the requester.
use mathlib.Core.List.{append_assoc, append-nil}
use ddrop.Base.{
  items_of, All-split, ◌≡◌, refl, sym, ap, ◌∙◌, Bool, true, false, none, List, [], ◌∷◌, ◌++◌,
  length, length-replicate, All, All-replicate, Bool-cases, inl, inr, ◌⊎◌, subst,
}
use ddrop.Base.Int.{pos_part}
use ddrop.Float.{Float, IsStrict}
use ddrop.Ranking.{insert_all}
use ddrop.Ranking.TopK.{TopK, insert_all-TopK, insert_all-append}
use ddrop.Knnc.Items.{ScoreItem, bubble, score_slot, trim_items}
use ddrop.Requestman.Query.{KnnArgs, empty_result, done, consume_items, consume_batches}

module _ {ℓ κ} {F : Type ℓ} (D : Type κ) ⦃f : Float F⦄ (r : KnnArgs F) where
  empty_result-unset : All (λ y. y.set ≡ false) (empty_result {D = D} r)
  unfolding empty_result
  empty_result-unset =
      All-replicate (λ y. y.set ≡ false) (pos_part r.k)
        (record { distancer = none; score = f.nought; set = false }) refl

  length-empty_result : length (empty_result {D = D} r) ≡ pos_part r.k
  unfolding empty_result
  length-empty_result = length-replicate (pos_part r.k) _

module _ {ℓ κ} {F : Type ℓ} {D : Type κ} ⦃f : Float F⦄ where
  abbrev insert_items :
      KnnArgs F → List (ScoreItem F D) → List (ScoreItem F D) → List (ScoreItem F D)
  insert_items r result items = insert_all score_slot result items r.ascending

  -- A loop inserts a first part of the items: all of them, or up to where the result is accepted.
  record Inserted (r : KnnArgs F) (result items : List (ScoreItem F D))
      (out : List (ScoreItem F D) × Bool) : Type (ℓ ⊔ κ) where
    taken : List (ScoreItem F D)
    skipped : List (ScoreItem F D)
    split : taken ++ skipped ≡ items
    inserted : out.0 ≡ insert_items r result taken
    complete : out.1 ≡ true → skipped ≡ []
    stopped : out.1 ≡ false → done r out.0 ≡ true

  consume_items-Inserted :
      (r : KnnArgs F) (result items : List (ScoreItem F D))
      → Inserted r result items (consume_items r result items)
  unfolding consume_items insert_all
  consume_items-Inserted r result [] = record {
    taken = [];
    skipped = [];
    split = refl;
    inserted = refl;
    complete = λ h. refl;
    stopped = λ h. cc;
  }
  consume_items-Inserted r result (item ∷ items) =
      let rest = consume_items-Inserted r (bubble result item r.ascending) items in
      elim (Bool-cases (done r result)) [
        | inl e ↦ rw e (record {
          taken = [];
          skipped = item ∷ items;
          split = refl;
          inserted = refl;
          complete = λ h. cc;
          stopped = λ h. e;
        })
        | inr e ↦ rw e (record {
          taken = item ∷ rest.taken;
          skipped = rest.skipped;
          split = ap (◌∷◌ item) rest.split;
          inserted = rest.inserted;
          complete = rest.complete;
          stopped = rest.stopped;
        })
      ]

  consume_batches-Inserted :
      (r : KnnArgs F) (result : List (ScoreItem F D)) (batches : List (List (ScoreItem F D)))
      → Inserted r result (items_of batches) (consume_batches r result batches)
  unfolding consume_batches insert_all
  consume_batches-Inserted r result [] = record {
    taken = [];
    skipped = [];
    split = refl;
    inserted = refl;
    complete = λ h. refl;
    stopped = λ h. cc;
  }
  consume_batches-Inserted r result (batch ∷ batches) =
      let one = consume_items r result batch in
      let first = consume_items-Inserted r result batch in
      let rest = consume_batches-Inserted r one.0 batches in
      elim (Bool-cases one.1) [
        | inl e ↦
            let whole : first.taken ≡ batch =
              sym (append-nil first.taken)
              ∙ ap (λ l. first.taken ++ l) (sym (first.complete e))
              ∙ first.split in
            rw e (record {
              taken = batch ++ rest.taken;
              skipped = rest.skipped;
              split = append_assoc batch rest.taken rest.skipped ∙ ap (λ l. batch ++ l) rest.split;
              inserted =
                  rest.inserted
                  ∙ ap (λ l. insert_items r l rest.taken)
                      (first.inserted ∙ ap (insert_items r result) whole)
                  ∙ sym (insert_all-append score_slot result batch rest.taken r.ascending);
              complete = rest.complete;
              stopped = rest.stopped;
            })
        | inr e ↦ rw e (record {
          taken = first.taken;
          skipped = first.skipped ++ items_of batches;
          split =
              sym (append_assoc first.taken first.skipped (items_of batches))
              ∙ ap (λ l. l ++ items_of batches) first.split;
          inserted = first.inserted;
          complete = λ h. cc;
          stopped = λ h. first.stopped e;
        })
      ]

  -- What consume sends: the ranking of the K best of a first part of the items, which is all of them
  -- where the loop was not stopped, and otherwise ends with a slot that is set and accepted.
  pub record Answer (r : KnnArgs F) (items : List (ScoreItem F D))
      (out : List (ScoreItem F D) × Bool) : Type (ℓ ⊔ κ) where
    pub taken : List (ScoreItem F D)
    pub skipped : List (ScoreItem F D)
    pub split : taken ++ skipped ≡ items
    pub ranked : TopK score_slot r.ascending (pos_part r.k) taken (trim_items out.0)
    pub ending : ((out.1 ≡ true) × (taken ≡ items)) ⊎ ((out.1 ≡ false) × (done r out.0 ≡ true))

  -- Of set items that come in any batches, the loop of consume, started with K empty slots, leaves
  -- the ranking of the K best, of all items or of those up to where it stops; and it stops only where
  -- the last of the K slots is set and its score is accepted.
  pub consume_batches-Answer :
      (laws : IsStrict F) (r : KnnArgs F) (batches : List (List (ScoreItem F D)))
      → All (λ x. x.set ≡ true) (items_of batches)
      → Answer r (items_of batches) (consume_batches r (empty_result r) batches)
  consume_batches-Answer laws r batches held =
      let h = consume_batches-Inserted r (empty_result r) batches in
      let some_held =
        (All-split (λ x. x.set ≡ true) h.taken h.skipped
          (subst (All (λ x. x.set ≡ true)) (sym h.split) held)).0 in
      record {
        taken = h.taken;
        skipped = h.skipped;
        split = h.split;
        ranked =
            subst (λ l. TopK score_slot r.ascending (pos_part r.k) h.taken (trim_items l))
              (sym h.inserted)
              (subst
                (λ n.
                  TopK score_slot r.ascending n h.taken
                    (trim_items (insert_items r (empty_result r) h.taken)))
                (length-empty_result D r)
                (insert_all-TopK score_slot laws (empty_result r) h.taken r.ascending
                  (empty_result-unset D r) some_held));
        ending = elim (Bool-cases (consume_batches r (empty_result r) batches).1) [
          | inl e ↦
              inl (
                e,
                sym (append-nil h.taken) ∙ ap (λ l. h.taken ++ l) (sym (h.complete e)) ∙ h.split,
              )
          | inr e ↦ inr (e, h.stopped e)
        ];
      }
