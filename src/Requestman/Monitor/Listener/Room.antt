-- ===== src/Requestman/Monitor/Listener/Room.antt =====
-- A monitor's list that has room for a link takes every registration.
use ddrop.Base.{
  ℕ, suc, ◌≡◌, refl, sym, ◌∙◌, inl, inr, some, List, [], ◌∷◌, Bool-cases, subst, arith,
}
use ddrop.Base.Int.{ℤ, pos, ltb_ℤ, sub_ℕ}
use ddrop.Float.{Float}
use ddrop.Requestman.Monitor.{
  Timed, TimedLinkedList, KnnMonItemAvg, with_head, renewed, within_limit, trim_from, trim,
  maintain, fresh,
}
use ddrop.Requestman.Monitor.Averages.{no_average, KnnMonItem, register_head, register_mon_item}

module _ {ℓ} {T : Type ℓ} where
  -- A list with a head.
  abbrev Headed : List T → Type ℓ
  Headed l = (head : T) × (links : List T) × (l ≡ head ∷ links)

module _ {ℓ} {T : Type ℓ} (zero_value : T) where
  renewed-Headed :
      (size : ℤ) (now : ℕ) (head : Timed T) (links : List (Timed T))
      → Headed (renewed zero_value size now (head ∷ links))
  unfolding renewed
  renewed-Headed size now head links = elim (Bool-cases (ltb_ℤ size (sub_ℕ now head.created))) [
    | inl e ↦ (fresh zero_value now, head ∷ links, rw e refl)
    | inr e ↦ (head, links, rw e refl)
  ]

  begun-Headed :
      (size : ℤ) (now : ℕ) (links : List (Timed T))
      → Headed (renewed zero_value size now (with_head zero_value now links))
  unfolding with_head
  begun-Headed size now [] = renewed-Headed size now (fresh zero_value now) []
  begun-Headed size now (head ∷ links) = renewed-Headed size now head links

  trim-Headed :
      (n : ℕ) (l : List (Timed T))
      → Headed l
      → Headed (trim (within_limit zero_value (pos (suc n))) l)
  unfolding trim
  trim-Headed n [] (head, links, e) = cc
  trim-Headed n (x ∷ l) h = (x, trim_from (within_limit zero_value (pos (suc n))) 1 l, ground arith)

  maintain-Headed :
      (tll : TimedLinkedList T) (now n : ℕ)
      → tll.max_chain_link_n ≡ pos (suc n)
      → Headed (maintain zero_value tll now).inner
  unfolding maintain
  maintain-Headed tll now n e =
      subst
        (λ m. Headed (
          trim (within_limit zero_value m)
            (renewed zero_value tll.min_chain_link_size now (with_head zero_value now tll.inner))))
        (sym e) (trim-Headed n _ (begun-Headed tll.min_chain_link_size now tll.inner))

module _ {ℓ} {F : Type ℓ} ⦃f : Float F⦄ (float_of : ℤ → F) (floor_int : F → ℤ) (c : F) where
  register_head-made :
      (span : ℤ) (item : KnnMonItem F) (later : ℕ) (l : List (Timed (KnnMonItemAvg F)))
      → Headed l
      → (r : List (Timed (KnnMonItemAvg F))) × (register_head float_of floor_int c span item later l
          ≡ some r)
  unfolding register_head
  register_head-made span item later [] (head, links, e) = cc
  register_head-made span item later (head ∷ links) h = (_, refl)

  maintain-max :
      (tll : TimedLinkedList (KnnMonItemAvg F)) (now : ℕ)
      → (maintain no_average tll now).max_chain_link_n ≡ tll.max_chain_link_n
  unfolding maintain
  maintain-max tll now = refl

  -- A list with room for a link takes a registration and keeps its room.
  pub register_mon_item-made :
      (averages : TimedLinkedList (KnnMonItemAvg F)) (item : KnnMonItem F) (now later n : ℕ)
      → averages.max_chain_link_n ≡ pos (suc n)
      → (r : TimedLinkedList (KnnMonItemAvg F)) × (register_mon_item float_of floor_int c averages
            item now later
          ≡ some r)
        × (r.max_chain_link_n ≡ pos (suc n))
  unfolding register_mon_item
  register_mon_item-made averages item now later n e =
      let list = maintain no_average averages now in
      let (links, found) =
        register_head-made list.min_chain_link_size item later list.inner
          (maintain-Headed no_average averages now n e) in
      (
        record list { inner = links },
        rw (register_mon_item, found) refl,
        maintain-max averages now ∙ e,
      )
