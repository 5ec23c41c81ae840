-- ===== src/Ranking/Merge.antt =====
-- Rankings of parts may be merged: the k best of all are among the k best of each part.
mod Beating
pub use Beating.{numbers}
use ddrop.Ranking.Merge.Beating.{ahead_of, beating, beating-append, beating-perm, beating-lt}
use mathlib.Core.List.{append_assoc, perm_append_comm}
use mathlib.Core.List.Perm
use ddrop.Base.{
  All-places, All-at, append-exchange, ℕ, ◌+◌, ◌≤◌, ◌<◌, ◌≡◌, refl, ap, ◌∙◌, subst, inl, inr, Bool,
  true, false, List, [], ◌∷◌, ◌++◌, Perm, arith, length, length-append, min, All, All-append,
  All-split, All-map, Bool-cases, length-eq_of_perm,
}
use ddrop.Float.{Float, IsStrict, IsWeak}
use ddrop.Ranking.{Slot, better, trim}
use ddrop.Ranking.TopK.{TopK}
use ddrop.Ranking.Trim.{trim-append, trim_set, trim_unset, length-trim-le, trim-perm, set-perm}

module _ {ℓ κ} {F : Type ℓ} {T : Type κ} ⦃f : Float F⦄ (s : Slot F T) (is_number : F → Bool)
    (asc : Bool) where
  -- What is left out of a part: where it is better than a number, k kept items are so too.
  abbrev Shadowed : ℕ → List T → T → Type κ
  Shadowed k ys d =
      (a : T)
      → is_number (s.score a) ≡ true
      → better s asc d a ≡ true
      → k ≤ beating s is_number asc a ys

  abbrev pub AreNumbers : List T → Type 0
  AreNumbers xs = All (λ x. is_number (s.score x) ≡ true) xs

  -- The kept items of parts, with what is left out.
  pub record Reduced (k : ℕ) (inputs kept : List T) : Type κ where
    pub lost : List T
    pub parts : Perm (lost ++ kept) inputs
    pub shadowed : All (Shadowed k kept) lost
    pub enough : min k (length inputs) ≤ length kept

  pub Reduced-none : (k : ℕ) → Reduced k [] []
  Reduced-none k = record { lost = []; parts = Perm.refl []; shadowed = tt; enough = omega arith }

  Shadowed-left : (k : ℕ) (ys zs : List T) (d : T) → Shadowed k ys d → Shadowed k (ys ++ zs) d
  Shadowed-left k ys zs d h a n e = omega (arith, h a n e, beating-append s is_number asc a ys zs)

  Shadowed-right : (k : ℕ) (ys zs : List T) (d : T) → Shadowed k zs d → Shadowed k (ys ++ zs) d
  Shadowed-right k ys zs d h a n e = omega (arith, h a n e, beating-append s is_number asc a ys zs)

  Shadowed-perm :
      (k : ℕ) {ys zs : List T} → Perm ys zs → (d : T) → Shadowed k ys d → Shadowed k zs d
  Shadowed-perm k p d h a n e = omega (arith, h a n e, beating-perm s is_number asc a p)

  pub Reduced-append :
      {k : ℕ} {xs ys xs' ys' : List T}
      → Reduced k xs ys
      → Reduced k xs' ys'
      → Reduced k (xs ++ xs') (ys ++ ys')
  Reduced-append {k} {xs} {ys} {xs'} {ys'} h h' = record {
    lost = h.lost ++ h'.lost;
    parts = Perm.trans (append-exchange h.lost h'.lost ys ys') (Perm.append h.parts h'.parts);
    shadowed =
        All-append (Shadowed k (ys ++ ys')) h.lost h'.lost
          (All-map (Shadowed k ys) (Shadowed k (ys ++ ys')) (Shadowed-left k ys ys') h.lost
            h.shadowed)
          (All-map (Shadowed k ys') (Shadowed k (ys ++ ys')) (Shadowed-right k ys ys') h'.lost
            h'.shadowed);
    enough = omega (arith, h.enough, h'.enough, length-append xs xs', length-append ys ys');
  }

  pub Reduced-perm :
      {k : ℕ} {xs xs' ys ys' : List T}
      → Perm xs xs'
      → Perm ys ys'
      → Reduced k xs ys
      → Reduced k xs' ys'
  Reduced-perm {k} {xs} {xs'} {ys} {ys'} p q h = record {
    lost = h.lost;
    parts = Perm.trans (Perm.append_left h.lost (Perm.symm q)) (Perm.trans h.parts p);
    shadowed = All-map (Shadowed k ys) (Shadowed k ys') (Shadowed-perm k q) h.lost h.shadowed;
    enough = omega (arith, h.enough, length-eq_of_perm p, length-eq_of_perm q);
  }

  kept-AreNumbers :
      (lost ys left kept : List T)
      → AreNumbers (lost ++ ys)
      → Perm (left ++ kept) ys
      → AreNumbers kept
  kept-AreNumbers lost ys left kept n p =
      let (_, n_ys) = All-split (λ x. is_number (s.score x) ≡ true) lost ys n in
      let (_, n_kept) =
        All-split (λ x. is_number (s.score x) ≡ true) left kept
          (set-perm (numbers s is_number asc) (Perm.symm p) n_ys) in
      n_kept

  better_irrefl : (laws : IsStrict F) (a : T) → better s asc a a ≡ false
  better_irrefl laws a = ground (arith, laws.lt_irrefl (s.score a))

  module _ (weak : IsWeak F is_number) where
    better_split :
        (x y z : T)
        → AreNumbers (x ∷ y ∷ z ∷ [])
        → better s asc x z ≡ true
        → better s asc x y ≡ false
        → better s asc y z ≡ true
    better_split x y z (p, (q, (r, _))) e g = ground (
      arith,
      weak.lt_split (s.score x) (s.score y) (s.score z) p q r,
      weak.lt_split (s.score z) (s.score y) (s.score x) r q p,
    )

    -- Items that a better one does not beat are better as well.
    all_ahead :
        (d a : T) (batch : List T)
        → AreNumbers (d ∷ a ∷ [])
        → AreNumbers batch
        → better s asc d a ≡ true
        → All (λ b. better s asc d b ≡ false) batch
        → All (λ b. better s asc b a ≡ true) batch
    all_ahead d a [] n n' e h = tt
    all_ahead d a (b ∷ batch) (p, (q, r)) (p', n') e (g, h) =
        (better_split d b a (p, (p', (q, tt))) e g, all_ahead d a batch (p, (q, r)) n' e h)

    left-Shadowed :
        (k : ℕ) (left batch : List T)
        → (0 < length left → k ≤ length batch)
        → AreNumbers left
        → AreNumbers batch
        → All (λ d. All (λ a. better s asc d a ≡ false) batch) left
        → All (Shadowed k batch) left
    left-Shadowed k [] batch full n n' h = tt
    left-Shadowed k (d ∷ left) batch full (p, n) n' (g, h) = (
      λ a q e.
          let ahead = all_ahead d a batch (p, (q, tt)) n' e g in
          omega (
            arith,
            full (omega arith),
            ap length (trim_set (ahead_of s is_number asc a) batch ahead),
          ),
      left-Shadowed k left batch (λ r. full (omega arith)) n n' h,
    )

    -- A ranking of a part keeps what may be kept.
    pub TopK-Reduced :
        (k : ℕ) (inputs kept : List T)
        → AreNumbers inputs
        → TopK s asc k inputs kept
        → Reduced k inputs kept
    TopK-Reduced k inputs kept n top =
        let all = set-perm (numbers s is_number asc) (Perm.symm top.parts) n in
        let (n_left, n_kept) = All-split (λ x. is_number (s.score x) ≡ true) top.left kept all in
        let total = length-eq_of_perm top.parts in
        let sum = length-append top.left kept in
        record {
          lost = top.left;
          parts = top.parts;
          shadowed =
              left-Shadowed k top.left kept (λ some_left. omega (arith, top.size)) n_left n_kept
                top.unbeaten;
          enough = omega (arith, top.size);
        }

  module _ (laws : IsStrict F) where
    lost-unbeaten :
        (k : ℕ) (ys kept : List T) (d : T)
        → AreNumbers kept
        → Shadowed k ys d
        → TopK s asc k ys kept
        → All (λ a. better s asc d a ≡ false) kept
    lost-unbeaten k ys kept d n h top =
        All-places (λ a. better s asc d a ≡ false) kept
          λ before a after e.
            let at = λ (P : T → Type 0) (all : All P kept).
              All-at P before a after (subst (All P) e all) in
            elim (Bool-cases (better s asc d a)) [
              | inr worse ↦ worse
              | inl above ↦
                  let none_left = trim_unset (ahead_of s is_number asc a) top.left (
                    All-map (λ c. All (λ b. better s asc c b ≡ false) kept)
                      (λ c. better s asc c a ≡ false)
                      (λ c all. at (λ b. better s asc c b ≡ false) all) top.left top.unbeaten) in
                  let many = h a (at (λ b. is_number (s.score b) ≡ true) n) above in
                  let fewer = beating-lt s is_number asc before a after (better_irrefl laws a) in
                  absurd (
                    omega (
                      arith,
                      many,
                      fewer,
                      top.size,
                      ap length none_left,
                      ap length e,
                      ap (beating s is_number asc a) e,
                      beating-perm s is_number asc a top.parts,
                      beating-append s is_number asc a top.left kept,
                    ))
            ]

    -- The ranking of the k best of the items kept of the parts is the ranking of the k best of all.
    pub Reduced-TopK :
        (k : ℕ) (xs ys kept : List T)
        → AreNumbers xs
        → Reduced k xs ys
        → TopK s asc k ys kept
        → TopK s asc k xs kept
    Reduced-TopK k xs ys kept n h top =
        let n_all = set-perm (numbers s is_number asc) (Perm.symm h.parts) n in
        let n_kept = kept-AreNumbers h.lost ys top.left kept n_all top.parts in
        record {
          left = h.lost ++ top.left;
          parts =
              rw (append_assoc h.lost top.left kept)
                (Perm.trans (Perm.append_left h.lost top.parts) h.parts);
          ordered = top.ordered;
          unbeaten =
              All-append (λ d. All (λ a. better s asc d a ≡ false) kept) h.lost top.left
                (All-map (Shadowed k ys) (λ d. All (λ a. better s asc d a ≡ false) kept)
                  (λ d shadow. lost-unbeaten k ys kept d n_kept shadow top) h.lost h.shadowed)
                top.unbeaten;
          size =
              omega (arith, top.size, h.enough, length-eq_of_perm h.parts, length-append h.lost ys);
        }
