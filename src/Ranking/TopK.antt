-- ===== src/Ranking/TopK.antt =====
-- What a sequence of insertions into a buffer of k unset slots leaves: the k best items, in order.
use mathlib.Core.List.Perm
use ddrop.Base.{
  ℕ, ◌+◌, ◌≡◌, refl, inl, inr, ◌⊎◌, Bool, true, false, List, [], ◌∷◌, ◌++◌, Perm, arith, length,
  min, All, Pairs, Bool-cases, All-map, exchange-perm, length-eq_of_perm, length-append, subst, sym,
  ◌∙◌, ap,
}
use ddrop.Float.{Float, IsStrict}
use ddrop.Ranking.{Slot, better, bubble_loop, bubble_insert, insert_all, trim, Fits}
use ddrop.Ranking.Trim.{trim-append, trim_set, length-trim-le, trim-perm, trim-inputs}
use ddrop.Ranking.Insert.{
  length-bubble_loop, bubble_loop-perm, bubble_loop-behind, bubble_loop-sorted,
}

module _ {ℓ κ} {F : Type ℓ} {T : Type κ} ⦃f : Float F⦄ (s : Slot F T) where
  -- The items that the insertions leave out, in the order in which they leave.
  left_out : List T → List T → Bool → List T
  left_out items [] asc = []
  left_out items (x ∷ xs) asc =
      (bubble_loop s items x asc).1 ∷ left_out (bubble_insert s items x asc) xs asc

  pub length-insert_all :
      (items xs : List T) (asc : Bool) → length (insert_all s items xs asc) ≡ length items
  unfolding insert_all bubble_insert
  length-insert_all items [] asc = refl
  length-insert_all items (x ∷ xs) asc = omega (
    arith,
    length-insert_all (bubble_loop s items x asc).0 xs asc,
    length-bubble_loop s items x asc,
  )

  pub insert_all-append :
      (items xs ys : List T) (asc : Bool)
      → insert_all s items (xs ++ ys) asc ≡ insert_all s (insert_all s items xs asc) ys asc
  unfolding insert_all
  insert_all-append items [] ys asc = refl
  insert_all-append items (x ∷ xs) ys asc =
      insert_all-append (bubble_insert s items x asc) xs ys asc

  insert_all-perm :
      (items xs : List T) (asc : Bool)
      → Perm (left_out items xs asc ++ insert_all s items xs asc) (xs ++ items)
  unfolding left_out insert_all bubble_insert
  insert_all-perm items [] asc = Perm.refl items
  insert_all-perm items (x ∷ xs) asc =
      exchange-perm (left_out (bubble_loop s items x asc).0 xs asc) xs
        (insert_all s (bubble_loop s items x asc).0 xs asc) (bubble_loop-perm s items x asc)
        (insert_all-perm (bubble_loop s items x asc).0 xs asc)

  -- `kept` is the ranking of the k best of the inputs: kept and left are the inputs, no later kept
  -- item is better than an earlier one, no item left is better than a kept one, and there are k
  -- kept items, or all where there are fewer.
  pub record TopK (asc : Bool) (k : ℕ) (inputs kept : List T) : Type κ where
    pub left : List T
    pub parts : Perm (left ++ kept) inputs
    pub ordered : Pairs (λ a b. better s asc b a ≡ false) kept
    pub unbeaten : All (λ d. All (λ a. better s asc d a ≡ false) kept) left
    pub size : length kept ≡ min k (length inputs)

  -- The order of the inputs does not matter.
  pub TopK-perm :
      {asc : Bool} {k : ℕ} {inputs inputs' kept : List T}
      → Perm inputs inputs'
      → TopK asc k inputs kept
      → TopK asc k inputs' kept
  TopK-perm {k = k} p h = record {
    left = h.left;
    parts = Perm.trans h.parts p;
    ordered = h.ordered;
    unbeaten = h.unbeaten;
    size = h.size ∙ ap (min k) (length-eq_of_perm p);
  }

  trim-ahead :
      (asc : Bool) (x : T) (xs : List T)
      → All (Fits s asc x) xs
      → All (λ b. better s asc b x ≡ false) (trim s xs)
  unfolding trim
  trim-ahead asc x [] h = tt
  trim-ahead asc x (y ∷ xs) (q, h) = elim (Bool-cases (s.is_set y)) [
    | inl e ↦ rw e ((q e).1, trim-ahead asc x xs h)
    | inr e ↦ rw e (trim-ahead asc x xs h)
  ]

  trim-ordered :
      (asc : Bool) (xs : List T)
      → Pairs (Fits s asc) xs
      → Pairs (λ a b. better s asc b a ≡ false) (trim s xs)
  unfolding trim
  trim-ordered asc [] h = tt
  trim-ordered asc (x ∷ xs) (q, h) = elim (Bool-cases (s.is_set x)) [
    | inl e ↦ rw e (trim-ahead asc x xs q, trim-ordered asc xs h)
    | inr e ↦ rw e (trim-ordered asc xs h)
  ]

  -- A set item that is behind a whole buffer.
  trim-behind :
      (asc : Bool) (d : T) (xs : List T)
      → s.is_set d ≡ true
      → All (λ y. Fits s asc y d) xs
      → All (λ y. s.is_set y ≡ true) xs × All (λ a. better s asc d a ≡ false) (trim s xs)
  unfolding trim
  trim-behind asc d [] e h = (tt, tt)
  trim-behind asc d (x ∷ xs) e (q, h) =
      let (set_x, fits) = q e in
      let (a, b) = trim-behind asc d xs e h in ((set_x, a), rw set_x (fits, b))

  trim-unbeaten :
      (asc : Bool) (ds xs : List T)
      → All (λ d. All (λ y. Fits s asc y d) xs) ds
      → All (λ d. All (λ a. better s asc d a ≡ false) (trim s xs)) (trim s ds)
  unfolding trim
  trim-unbeaten asc [] xs h = tt
  trim-unbeaten asc (d ∷ ds) xs (q, h) = elim (Bool-cases (s.is_set d)) [
    | inl e ↦ rw e ((trim-behind asc d xs e q).1, trim-unbeaten asc ds xs h)
    | inr e ↦ rw e (trim-unbeaten asc ds xs h)
  ]

  -- Where a set item is left out, the buffer is full.
  trim_full :
      (asc : Bool) (ds xs : List T)
      → All (λ d. All (λ y. Fits s asc y d) xs) ds
      → (length (trim s ds) ≡ 0) ⊎ (trim s xs ≡ xs)
  unfolding trim
  trim_full asc [] xs h = inl refl
  trim_full asc (d ∷ ds) xs (q, h) = elim (Bool-cases (s.is_set d)) [
    | inl e ↦ inr (trim_set s xs (trim-behind asc d xs e q).0)
    | inr e ↦ rw e (trim_full asc ds xs h)
  ]

  unset-sorted :
      (asc : Bool) (xs : List T) → All (λ x. s.is_set x ≡ false) xs → Pairs (Fits s asc) xs
  unset-sorted asc [] h = tt
  unset-sorted asc (x ∷ xs) (e, h) = (
    All-map (λ y. s.is_set y ≡ false) (Fits s asc x) (λ y unset held. cc) xs h,
    unset-sorted asc xs h,
  )

  module _ (laws : IsStrict F) where
    insert_all-behind :
        (items xs : List T) (asc : Bool) (z : T)
        → All (λ y. Fits s asc y z) items
        → All (λ y. Fits s asc y z) (insert_all s items xs asc)
    unfolding insert_all bubble_insert
    insert_all-behind items [] asc z h = h
    insert_all-behind items (x ∷ xs) asc z h =
        insert_all-behind (bubble_loop s items x asc).0 xs asc z
          (bubble_loop-behind s laws items x asc z h)

    insert_all-sorted :
        (items xs : List T) (asc : Bool)
        → Pairs (Fits s asc) items
        → Pairs (Fits s asc) (insert_all s items xs asc)
          × All (λ d. All (λ y. Fits s asc y d) (insert_all s items xs asc)) (left_out items xs asc)
    unfolding insert_all left_out bubble_insert
    insert_all-sorted items [] asc h = (h, tt)
    insert_all-sorted items (x ∷ xs) asc h =
        let (sorted, beaten) = bubble_loop-sorted s laws items x asc h in
        let (a, b) = insert_all-sorted (bubble_loop s items x asc).0 xs asc sorted in
        (
          a,
          (
            insert_all-behind (bubble_loop s items x asc).0 xs asc (bubble_loop s items x asc).1
                beaten,
            b,
          ),
        )

    -- Insertions of set items into unset slots rank the best of them, as many as there are slots.
    pub insert_all-TopK :
        (slots xs : List T) (asc : Bool)
        → All (λ y. s.is_set y ≡ false) slots
        → All (λ x. s.is_set x ≡ true) xs
        → TopK asc (length slots) xs (trim s (insert_all s slots xs asc))
    insert_all-TopK slots xs asc unset held =
        let buffer = insert_all s slots xs asc in
        let gone = left_out slots xs asc in
        let (sorted, beaten) = insert_all-sorted slots xs asc (unset-sorted asc slots unset) in
        let parts : Perm (trim s gone ++ trim s buffer) xs =
          subst (λ l. Perm l xs) (trim-append s gone buffer)
            (subst (Perm (trim s (gone ++ buffer))) (trim-inputs s xs slots held unset)
              (trim-perm s (insert_all-perm slots xs asc))) in
        let total : length (trim s gone) + length (trim s buffer) ≡ length xs =
          sym (length-append (trim s gone) (trim s buffer)) ∙ length-eq_of_perm parts in
        let filled : length buffer ≡ length slots = length-insert_all slots xs asc in
        record {
          left = trim s gone;
          parts = parts;
          ordered = trim-ordered asc buffer sorted;
          unbeaten = trim-unbeaten asc gone buffer beaten;
          size = elim (trim_full asc gone buffer beaten) [
            | inl none_gone ↦ omega (arith, length-trim-le s buffer)
            | inr full ↦ omega (arith, ap length full)
          ];
        }
