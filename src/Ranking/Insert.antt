-- ===== src/Ranking/Insert.antt =====
-- One insertion: what it keeps, and the item that it leaves out.
use mathlib.Core.List.Perm
use mathlib.Core.Bool.{true≢false}
use ddrop.Base.{
  sym, ◌∙◌, ◌≡◌, refl, inl, inr, Bool, true, false, List, [], ◌∷◌, Perm, arith, length, All, Pairs,
  Bool-cases, if◌then◌else◌, All-map, All-of, subst,
}
use ddrop.Float.{Float, IsStrict}
use ddrop.Ranking.{Slot, better, displaces, bubble_loop, Fits}

module _ {ℓ κ} {F : Type ℓ} {T : Type κ} ⦃f : Float F⦄ (s : Slot F T) where
  loop_unset :
      (y : T) (items : List T) (x : T) (asc : Bool)
      → s.is_set x ≡ false
      → bubble_loop s (y ∷ items) x asc ≡ (y ∷ items, x)
  unfolding bubble_loop
  loop_unset y items x asc e = rw e

  loop_moves :
      (y : T) (items : List T) (x : T) (asc : Bool)
      → s.is_set x ≡ true
      → displaces s asc x y ≡ true
      → let r = bubble_loop s items y asc in bubble_loop s (y ∷ items) x asc ≡ (x ∷ r.0, r.1)
  unfolding bubble_loop
  loop_moves y items x asc e d = rw (e, d)

  loop_stays :
      (y : T) (items : List T) (x : T) (asc : Bool)
      → s.is_set x ≡ true
      → displaces s asc x y ≡ false
      → let r = bubble_loop s items x asc in bubble_loop s (y ∷ items) x asc ≡ (y ∷ r.0, r.1)
  unfolding bubble_loop
  loop_stays y items x asc e d = rw (e, d)

  pub length-bubble_loop :
      (items : List T) (x : T) (asc : Bool) → length (bubble_loop s items x asc).0 ≡ length items
  unfolding bubble_loop
  length-bubble_loop [] x asc = refl
  length-bubble_loop (y ∷ items) x asc =
      ground (arith, length-bubble_loop items (if displaces s asc x y then y else x) asc)

  bubble_loop-All {μ} :
      (P : T → Type μ) (items : List T) (x : T) (asc : Bool)
      → All P items
      → P x
      → let r = bubble_loop s items x asc in All P r.0 × P r.1
  unfolding bubble_loop
  bubble_loop-All P [] x asc h p = (tt, p)
  bubble_loop-All P (y ∷ items) x asc (q, h) p = elim (Bool-cases (s.is_set x)) [
    | inr unset ↦ rw unset ((q, h), p)
    | inl held ↦ elim (Bool-cases (displaces s asc x y)) [
      | inl moves ↦ let (a, b) = bubble_loop-All P items y asc h q in rw (held, moves) ((p, a), b)
      | inr stays ↦ let (a, b) = bubble_loop-All P items x asc h p in rw (held, stays) ((q, a), b)
    ]
  ]

  pub bubble_loop-perm :
      (items : List T) (x : T) (asc : Bool)
      → let r = bubble_loop s items x asc in Perm (r.1 ∷ r.0) (x ∷ items)
  unfolding bubble_loop
  bubble_loop-perm [] x asc = Perm.refl _
  bubble_loop-perm (y ∷ items) x asc = elim (Bool-cases (s.is_set x)) [
    | inr unset ↦ rw unset (Perm.refl _)
    | inl held ↦ elim (Bool-cases (displaces s asc x y)) [
      | inl moves ↦
          rw (held, moves)
            (Perm.trans (Perm.swap x _ _) (Perm.cons x (bubble_loop-perm items y asc)))
      | inr stays ↦
          rw (held, stays)
            (Perm.trans (Perm.swap y _ _)
              (Perm.trans (Perm.cons y (bubble_loop-perm items x asc)) (Perm.swap x y items)))
    ]
  ]

  module _ (laws : IsStrict F) where
    open laws use {lt_irrefl, lt_trans}

    better_trans :
        (asc : Bool) (a b c : T)
        → better s asc a b ≡ true
        → better s asc b c ≡ true
        → better s asc a c ≡ true
    better_trans asc a b c p q = ground (
      arith,
      lt_trans (s.score a) (s.score b) (s.score c),
      lt_trans (s.score c) (s.score b) (s.score a),
    )

    better_asymm : (asc : Bool) (a b : T) → better s asc a b ≡ true → better s asc b a ≡ false
    better_asymm asc a b p = ground (
      arith,
      lt_trans (s.score a) (s.score b) (s.score a),
      lt_trans (s.score b) (s.score a) (s.score b),
      lt_irrefl (s.score a),
      lt_irrefl (s.score b),
    )

    -- Where the insertee displaces an item, it may stand in front of all that the item may.
    displaces-Fits :
        (asc : Bool) (x y z : T)
        → s.is_set x ≡ true
        → displaces s asc x y ≡ true
        → Fits s asc y z
        → Fits s asc x z
    displaces-Fits asc x y z held moves fits set_z =
        let (set_y, behind) = fits set_z in
        let beats : better s asc x y ≡ true = ground arith in
        (
          held,
          elim (Bool-cases (better s asc z x)) [
            | inr e ↦ e
            | inl e ↦ absurd (true≢false (sym (better_trans asc z x y e beats) ∙ behind))
          ],
        )

    displaces-Fits_self :
        (asc : Bool) (x y : T) → s.is_set x ≡ true → displaces s asc x y ≡ true → Fits s asc x y
    displaces-Fits_self asc x y held moves set_y = (held, better_asymm asc x y (ground arith))

    stays-Fits : (asc : Bool) (x y : T) → displaces s asc x y ≡ false → Fits s asc y x
    stays-Fits asc x y stays set_x = ground arith

    -- The loop keeps what may stand behind every item of the buffer behind every item.
    pub bubble_loop-behind :
        (items : List T) (x : T) (asc : Bool) (z : T)
        → All (λ y. Fits s asc y z) items
        → All (λ y. Fits s asc y z) (bubble_loop s items x asc).0
    unfolding bubble_loop
    bubble_loop-behind [] x asc z h = tt
    bubble_loop-behind (y ∷ items) x asc z (q, h) = elim (Bool-cases (s.is_set x)) [
      | inr unset ↦ rw unset (q, h)
      | inl held ↦ elim (Bool-cases (displaces s asc x y)) [
        | inl moves ↦
            rw (held, moves)
              (displaces-Fits asc x y z held moves q, bubble_loop-behind items y asc z h)
        | inr stays ↦ rw (held, stays) (q, bubble_loop-behind items x asc z h)
      ]
    ]

    abbrev SortedOut : Bool → List T × T → Type 0
    SortedOut asc r = Pairs (Fits s asc) r.0 × All (λ y. Fits s asc y r.1) r.0

    -- A sorted buffer stays sorted, and no item of it is beaten by the one that is left out.
    pub bubble_loop-sorted :
        (items : List T) (x : T) (asc : Bool)
        → Pairs (Fits s asc) items
        → SortedOut asc (bubble_loop s items x asc)
    bubble_loop-sorted [] x asc h = unfold bubble_loop in (tt, tt)
    bubble_loop-sorted (y ∷ items) x asc (q, h) = elim (Bool-cases (s.is_set x)) [
      | inr unset ↦
          subst (SortedOut asc) (sym (loop_unset y items x asc unset))
            ((q, h), All-of (λ z. Fits s asc z x) (λ z held. cc) (y ∷ items))
      | inl held ↦ elim (Bool-cases (displaces s asc x y)) [
        | inl moves ↦
            let (a, b) = bubble_loop-sorted items y asc h in
            let front = displaces-Fits_self asc x y held moves in
            let behind : All (Fits s asc x) items =
              All-map (Fits s asc y) (Fits s asc x) (λ z. displaces-Fits asc x y z held moves) items
                q in
            let (c, d) = bubble_loop-All (Fits s asc x) items y asc behind front in
            subst (SortedOut asc) (sym (loop_moves y items x asc held moves)) ((c, a), (d, b))
        | inr stays ↦
            let (a, b) = bubble_loop-sorted items x asc h in
            let (c, d) = bubble_loop-All (Fits s asc y) items x asc q (stays-Fits asc x y stays) in
            subst (SortedOut asc) (sym (loop_stays y items x asc held stays)) ((c, a), (d, b))
      ]
    ]
