-- ===== src/Requestman/Monitor/Averages/Registering.antt =====
-- What registering a request does to the number of requests that the monitor counts.
use mathlib.Core.Option.{some-injective}
use ddrop.Base.{
  ℕ, zero, suc, take, Bool, if◌then◌else◌, ◌+◌, ◌≡◌, refl, sym, ap, ◌∙◌, inl, inr, true, subst,
  some, List, [], ◌∷◌, arith, Bool-cases, Option-cases,
}
use ddrop.Base.Int.{ℤ, pos, pos_part, sub_ℕ, ltb_ℤ}
use ddrop.Float.{Float}
use ddrop.Requestman.Monitor.{
  Timed, TimedLinkedList, KnnMonItemAvg, maintain, fresh, renewed, with_head,
}
use ddrop.Requestman.Monitor.Window.{trim-eq-take, All-take}
use ddrop.Requestman.Monitor.Listener.Room.{register_mon_item-made}
use ddrop.Requestman.Monitor.Averages.{
  no_average, KnnMonItem, merge_knn_mon_item, started_item, register_head, register_mon_item,
}
use ddrop.Requestman.Monitor.Averages.Counting.{IsCounted, AllCounted, count, plus_pos}

module _ {ℓ} {F : Type ℓ} ⦃f : Float F⦄ (float_of : ℤ → F) (floor_int : F → ℤ) (c : F) where
  item-n :
      (ia : KnnMonItemAvg F) (i : KnnMonItem F) (now : ℕ)
      → ia.n ≡ pos (pos_part ia.n)
      → (merge_knn_mon_item float_of floor_int c ia i now).n ≡ pos (pos_part ia.n + 1)
  unfolding merge_knn_mon_item
  item-n ia i now k = plus_pos ia.n (pos 1) k refl

  started-n :
      (span : ℤ) (head : Timed (KnnMonItemAvg F))
      → (started_item float_of floor_int c span head).n ≡ head.inner.n
  started-n span head = elim (Bool-cases head.inner.is_set) [
    | inl set ↦ rw set refl
    | inr unset ↦ rw unset refl
  ]

  register_head-n :
      (span : ℤ) (item : KnnMonItem F) (later : ℕ) (links r : List (Timed (KnnMonItemAvg F)))
      → AllCounted links
      → register_head float_of floor_int c span item later links ≡ some r
      → AllCounted r × (count r ≡ count links + 1)
  unfolding register_head
  register_head-n span item later [] r h e = absurd cc
  register_head-n span item later (head ∷ links) r ((k, s), h) e =
      let start = started_item float_of floor_int c span head in
      let same = started-n span head in
      let known = same ∙ k ∙ ap (λ z. pos (pos_part z)) (sym same) in
      let more = item-n start item later known in
      let one = ap pos_part more ∙ ap (λ z. pos_part z + 1) same in
      subst (λ l. AllCounted l × (count l ≡ count (head ∷ links) + 1)) (some-injective _ _ e)
        (((more ∙ ap (λ z. pos (pos_part z)) (sym more), inl refl), h), omega (arith, one))

  -- Registering adds one to what the maintained list counts.
  maintained-n :
      (averages r : TimedLinkedList (KnnMonItemAvg F)) (item : KnnMonItem F) (now later : ℕ)
      → AllCounted (maintain no_average averages now).inner
      → register_mon_item float_of floor_int c averages item now later ≡ some r
      → AllCounted r.inner × (count r.inner ≡ count (maintain no_average averages now).inner + 1)
  unfolding register_mon_item
  maintained-n averages r item now later h e =
      let list = maintain no_average averages now in
      elim (Option-cases
        (register_head float_of floor_int c list.min_chain_link_size item later list.inner)) [
          | inl panics ↦ let gone = rw (register_mon_item, panics) at e in absurd cc
          | inr (links, found) ↦
              let same =
                ap (λ t. t.inner) (some-injective _ _ (rw (register_mon_item, found) at e)) in
              subst (λ l. AllCounted l × (count l ≡ count list.inner + 1)) same
                (register_head-n list.min_chain_link_size item later list.inner links h found)
        ]

module _ {ℓ} {F : Type ℓ} where
  -- Whether a registration begins a link: the list is empty, or its newest link is too old.
  abbrev pub begins : ℤ → ℕ → List (Timed (KnnMonItemAvg F)) → Bool
  begins size now [] = true
  begins size now (head ∷ links) = ltb_ℤ size (sub_ℕ now head.created)

  -- The links of a list for n + 1 that stay when a registration comes: all but those for which a link
  -- that begins leaves no room.
  abbrev pub staying : ℕ → ℤ → ℕ → List (Timed (KnnMonItemAvg F)) → List (Timed (KnnMonItemAvg F))
  staying n size now links = take (if begins size now links then n else suc n) links

module _ {ℓ} {F : Type ℓ} ⦃f : Float F⦄ where
  abbrev begun : ℤ → ℕ → List (Timed (KnnMonItemAvg F)) → List (Timed (KnnMonItemAvg F))
  begun size now links = renewed no_average size now (with_head no_average now links)

  none_left :
      (n : ℕ) (links : List (Timed (KnnMonItemAvg F))) → links ≡ [] → count (take n links) ≡ 0
  none_left zero links e = refl
  none_left (suc n) links e = ap (λ l. count (take (suc n) l)) e

  no_links : (n : ℕ) (link : Timed (KnnMonItemAvg F)) → count {F = F} (take n []) ≡ 0
  no_links n link = none_left n [] refl

  one_left :
      (n : ℕ) (link : Timed (KnnMonItemAvg F))
      → pos_part link.inner.n ≡ 0
      → count (take n (link ∷ [])) ≡ 0
  one_left zero link e = refl
  one_left (suc n) link e = omega (arith, e, no_links n link)

  begun-counted :
      (size : ℤ) (now : ℕ) (links : List (Timed (KnnMonItemAvg F)))
      → AllCounted links
      → AllCounted (begun size now links)
  unfolding renewed with_head
  begun-counted size now [] h = elim (Bool-cases (ltb_ℤ size (sub_ℕ now now))) [
    | inl e ↦ rw e ((refl, inr refl), ((refl, inr refl), tt))
    | inr e ↦ rw e ((refl, inr refl), tt)
  ]
  begun-counted size now (head ∷ links) h =
      elim (Bool-cases (ltb_ℤ size (sub_ℕ now head.created))) [
        | inl e ↦ rw e ((refl, inr refl), h)
        | inr e ↦ rw e h
      ]

  begun-count :
      (n : ℕ) (size : ℤ) (now : ℕ) (links : List (Timed (KnnMonItemAvg F)))
      → count (take (suc n) (begun size now links)) ≡ count (staying n size now links)
  unfolding renewed with_head
  begun-count n size now [] = elim (Bool-cases (ltb_ℤ size (sub_ℕ now now))) [
    | inl e ↦
        rw e
          (omega (arith, one_left n (fresh no_average now) refl, no_links n (fresh no_average now)))
    | inr e ↦ rw e (omega (arith, no_links n (fresh no_average now)))
  ]
  begun-count n size now (head ∷ links) = elim (Bool-cases (ltb_ℤ size (sub_ℕ now head.created))) [
    | inl e ↦ rw e (omega arith)
    | inr e ↦ rw e refl
  ]

module _ {ℓ} {F : Type ℓ} ⦃f : Float F⦄ (float_of : ℤ → F) (floor_int : F → ℤ) (c : F) where
  -- Where no item of the monitor's list counts a negative number of requests, and none that is not set
  -- counts any, registering a request with a list that has room for a link does not panic, and the
  -- list then counts, so still, one request more than the links that stay: all links but, where a new
  -- link begins and the list is full, the oldest ones beyond its room.
  pub register_mon_item-n :
      (averages : TimedLinkedList (KnnMonItemAvg F)) (item : KnnMonItem F) (now later n : ℕ)
      → averages.max_chain_link_n ≡ pos (suc n)
      → AllCounted averages.inner
      → (r : TimedLinkedList (KnnMonItemAvg F)) × (register_mon_item float_of floor_int c averages
            item now later
          ≡ some r)
        × AllCounted r.inner
        × (count r.inner ≡ count (staying n averages.min_chain_link_size now averages.inner) + 1)
  unfolding maintain
  register_mon_item-n averages item now later n room h =
      let size = averages.min_chain_link_size in
      let (r, made, _) =
        register_mon_item-made float_of floor_int c averages item now later n room in
      let cut : (maintain no_average averages now).inner
          ≡ take (suc n) (begun size now averages.inner) =
        trim-eq-take no_average averages.max_chain_link_n (begun size now averages.inner)
        ∙ ap (λ m. take (pos_part m) (begun size now averages.inner)) room in
      let counted =
        All-take no_average (λ t. IsCounted t.inner) (suc n) (begun size now averages.inner)
          (begun-counted size now averages.inner h) in
      let (kept, more) =
        maintained-n float_of floor_int c averages r item now later
          (subst AllCounted (sym cut) counted) made in
      (r, made, kept, more ∙ ap (λ k. k + 1) (ap count cut ∙ begun-count n size now averages.inner))
