-- ===== src/Requestman/Monitor/Window.antt =====
-- What maintain keeps and what timeRange returns of a chain with the newest link first.
use ddrop.Base.{
  ℕ, zero, suc, ◌+◌, ◌≤◌, ◌≡◌, refl, sym, ap, inl, inr, true, false, List, [], ◌∷◌, arith, length,
  length-take, take, All, Pairs, Bool-cases, subst, if◌then◌else◌,
}
use ddrop.Base.Int.{ℤ, pos, negsuc, pos_part, sub_ℕ, ltb_ℤ, leb_ℤ, ◌/ℤ◌}
use ddrop.Requestman.Monitor.{
  Timed, TimedLinkedList, trim_from, trim, with_head, renewed, within_limit, maintain, includes,
  range_from, time_range,
}

-- An instant before one that is outside the range is outside.
outside_mono :
    (start t u : ℕ) (d : ℤ)
    → u ≤ t
    → ltb_ℤ (sub_ℕ start t) d ≡ false
    → ltb_ℤ (sub_ℕ start u) d ≡ false
outside_mono start t u d h out = ground arith

fits : (n i left : ℕ) → n ≡ i + suc left → leb_ℤ (pos (i + 1)) (pos n) ≡ true
fits n i left e = ground arith

fits_no_more : (n i : ℕ) → n ≡ i + 0 → leb_ℤ (pos (i + 1)) (pos n) ≡ false
fits_no_more n i e = ground arith

positive : (m : ℕ) → leb_ℤ (pos (suc m)) (pos 0) ≡ false
positive m = ground arith

negative : (m : ℕ) → leb_ℤ (negsuc m) (pos 0) ≡ true
negative m = ground arith

no_limit : (m i : ℕ) → leb_ℤ (pos (i + 1)) (negsuc m) ≡ false
no_limit m i = ground arith

module _ {ℓ} {T : Type ℓ} (z : T) where
  -- No link is newer than an earlier one.
  abbrev pub Newest : List (Timed T) → Type 0
  Newest links = Pairs (λ a b. b.created ≤ a.created) links

  -- The links that were created in the range.
  pub in_range : ℕ → ℤ → List (Timed T) → List (Timed T)
  in_range start d [] = []
  in_range start d (item ∷ links) =
      let rest = in_range start d links in if includes z start d item then item ∷ rest else rest

  none_in_range :
      (start : ℕ) (d : ℤ) (a : Timed T) (links : List (Timed T))
      → includes z start d a ≡ false
      → All (λ b. b.created ≤ a.created) links
      → in_range start d links ≡ []
  unfolding in_range
  none_in_range start d a [] out h = refl
  none_in_range start d a (b ∷ links) out (older, h) =
      rw (outside_mono start a.created b.created d older out) (none_in_range start d a links out h)

  range_from-eq-take :
      (n start i left : ℕ) (d : ℤ) (links : List (Timed T))
      → n ≡ i + left
      → Newest links
      → range_from z (pos n) start d i links ≡ take left (in_range start d links)
  unfolding range_from in_range
  range_from-eq-take n start i zero d [] e h = refl
  range_from-eq-take n start i (suc left) d [] e h = refl
  range_from-eq-take n start i zero d (a ∷ links) e (older, h) = rw (fits_no_more n i e) refl
  range_from-eq-take n start i (suc left) d (a ∷ links) e (older, h) =
      let rest = range_from-eq-take n start (i + 1) left d links (omega arith) h in
      elim (Bool-cases (includes z start d a)) [
        | inl inside ↦ rw (fits n i left e, inside) (ap (◌∷◌ a) rest)
        | inr out ↦
            rw (fits n i left e, out)
              (sym (ap (take (suc left)) (none_in_range start d a links out older)))
      ]

  time_range_lem :
      (n : ℤ) (start : ℕ) (d : ℤ) (links : List (Timed T))
      → Newest links
      → (if leb_ℤ n (pos 0) then [] else range_from z n start d 0 links)
        ≡ take (pos_part n) (in_range start d links)
  time_range_lem (pos zero) start d links h = refl
  time_range_lem (pos (suc m)) start d links h =
      rw (positive m) (range_from-eq-take (suc m) start 0 (suc m) d links (omega arith) h)
  time_range_lem (negsuc m) start d links h = rw (negative m) refl

  -- timeRange on a list whose links are ordered, newest first, returns the links created in the
  -- range, the newest of them where there are more than links of the minimal size fit into it, though
  -- its iteration stops at the first link outside. It maintains the list unless none fits.
  pub time_range-eq-take :
      (tll : TimedLinkedList T) (start end now : ℕ)
      → Newest tll.inner
      → let d = sub_ℕ start end in
        let n = ◌/ℤ◌ d (pos_part tll.min_chain_link_size) in
        let r = time_range z tll start end now in
        (r.0 ≡ take (pos_part n) (in_range start d tll.inner))
        × (r.1 ≡ (if leb_ℤ n (pos 0) then tll else maintain z tll now))
  unfolding time_range
  time_range-eq-take tll start end now h =
      let d = sub_ℕ start end in
      let n = ◌/ℤ◌ d (pos_part tll.min_chain_link_size) in
      let found = time_range_lem n start d tll.inner h in
      elim (Bool-cases (leb_ℤ n (pos 0))) [
        | inl e ↦ rw e (rw e at found, refl)
        | inr e ↦ rw e (rw e at found, refl)
      ]

  trim_from-eq-take :
      (n i left : ℕ) (links : List (Timed T))
      → n ≡ i + left
      → trim_from (within_limit z (pos n)) i links ≡ take left links
  unfolding trim_from
  trim_from-eq-take n i zero [] e = refl
  trim_from-eq-take n i (suc left) [] e = refl
  trim_from-eq-take n i zero (a ∷ links) e = rw (fits_no_more n i e) refl
  trim_from-eq-take n i (suc left) (a ∷ links) e =
      rw (fits n i left e) (ap (◌∷◌ a) (trim_from-eq-take n (i + 1) left links (omega arith)))

  pub trim-eq-take :
      (max_n : ℤ) (links : List (Timed T))
      → trim (within_limit z max_n) links ≡ take (pos_part max_n) links
  unfolding trim
  trim-eq-take (pos zero) [] = refl
  trim-eq-take (pos (suc m)) [] = refl
  trim-eq-take (negsuc m) [] = refl
  trim-eq-take (pos zero) (a ∷ links) = refl
  trim-eq-take (pos (suc m)) (a ∷ links) =
      rw (fits (suc m) 0 m (omega arith))
        (ap (◌∷◌ a) (trim_from-eq-take (suc m) 1 m links (omega arith)))
  trim-eq-take (negsuc m) (a ∷ links) = rw (no_limit m 0) refl

  pub All-take :
      (P : Timed T → Type 0) (n : ℕ) (links : List (Timed T)) → All P links → All P (take n links)
  All-take P zero links h = tt
  All-take P (suc n) [] h = tt
  All-take P (suc n) (a ∷ links) (p, h) = (p, All-take P n links h)

  Newest-take : (n : ℕ) (links : List (Timed T)) → Newest links → Newest (take n links)
  Newest-take zero links h = tt
  Newest-take (suc n) [] h = tt
  Newest-take (suc n) (a ∷ links) (older, h) =
      (All-take (λ b. b.created ≤ a.created) n links older, Newest-take n links h)

  -- The links that maintain chooses from: the old ones behind the new heads.
  abbrev headed : TimedLinkedList T → ℕ → List (Timed T)
  headed tll now = renewed z tll.min_chain_link_size now (with_head z now tll.inner)

  Newest-with_head :
      (size : ℤ) (now : ℕ) (links : List (Timed T))
      → Newest links
      → All (λ b. b.created ≤ now) links
      → Newest (renewed z size now (with_head z now links))
  unfolding with_head renewed
  Newest-with_head size now [] h past = elim (Bool-cases (ltb_ℤ size (sub_ℕ now now))) [
    | inl e ↦ rw e ((omega arith, tt), (tt, tt))
    | inr e ↦ rw e (tt, tt)
  ]
  Newest-with_head size now (a ∷ links) h past =
      elim (Bool-cases (ltb_ℤ size (sub_ℕ now a.created))) [
        | inl e ↦ rw e (past, h)
        | inr e ↦ rw e h
      ]

  -- On a list whose links are ordered, newest first, and none of which is newer than the instant,
  -- maintain keeps the order and leaves the first maxChainLinkN, at most, of the old links behind the
  -- new heads.
  maintain-Newest :
      (tll : TimedLinkedList T) (now : ℕ)
      → Newest tll.inner
      → All (λ b. b.created ≤ now) tll.inner
      → let tll' = maintain z tll now in
        Newest tll'.inner
        × (length tll'.inner ≤ pos_part tll.max_chain_link_n)
        × (tll'.inner ≡ take (pos_part tll.max_chain_link_n) (headed tll now))
  unfolding maintain
  maintain-Newest tll now h past =
      let n = pos_part tll.max_chain_link_n in
      let e = trim-eq-take tll.max_chain_link_n (headed tll now) in
      let ordered =
        Newest-take n (headed tll now)
          (Newest-with_head tll.min_chain_link_size now tll.inner h past) in
      (subst Newest (sym e) ordered, omega (arith, ap length e, length-take n (headed tll now)), e)
