-- ===== src/Ops/Clients/Eager.antt =====
-- Clients.KNNEagerx on top of its composite call, and collectToMap.
use mathlib.Core.List.{append_assoc, append-nil, Permᴰ, perm_append_comm, Perm-prop}
use mathlib.Core.List.Perm
use mathlib.Core.Logic.{∥∥₁_elim}
use Prim.Native.String.{String}
use ddrop.Base.{ℕ, ◌≡◌, ap, ◌∙◌, subst, true, none, some, if◌then◌else◌, List, [], ◌++◌, map, Perm}
use ddrop.Base.Int.{pos, pos_part, ltb_ℤ}
use ddrop.Float.{Float, IsStrict}
use ddrop.Ranking.TopK.{TopK, TopK-perm}
use ddrop.Requestman.Query.{KnnArgs}
use ddrop.Ops.Answers.{
  KnnResp, ClientResult, SortItem, Found, sort_slot, offers, extract, knn_eagerx,
}
use ddrop.Ops.Merge.{all_offers, knn_eagerx-TopK}
use ddrop.Ops.Client.{Remote}
use ddrop.Ops.Clients.{Clients, FanIn, asked, FanRun}
use ddrop.Ops.Clients.Calls.{clients_knn_eager}
use ddrop.Ops.Clients.Collected.{FanRun-complete}

module _ {ℓ} {F : Type ℓ} ⦃f : Float F⦄ where
  swap_offers :
      (a b : List (SortItem F (Found F))) (l : List (SortItem F (Found F)))
      → Perm (a ++ (b ++ l)) (b ++ (a ++ l))
  swap_offers a b l =
      rw (← append_assoc a b l, ← append_assoc b a l) (Perm.append_right l (perm_append_comm a b))

  all_offers-permᴰ :
      {xs ys : List (ClientResult (KnnResp F))} → Permᴰ xs ys → Perm (all_offers xs) (all_offers ys)
  unfolding all_offers
  all_offers-permᴰ Permᴰ.nil = Perm.refl []
  all_offers-permᴰ (Permᴰ.cons {a} {b} {l₁} {l₂} e p) =
      subst (λ x. Perm (offers a ++ all_offers l₁) (offers x ++ all_offers l₂)) e
        (Perm.append_left (offers a) (all_offers-permᴰ p))
  all_offers-permᴰ (Permᴰ.swap {a} {b} {a'} {b'} {l} e e') =
      subst
        (λ x.
          Perm (offers a ++ (offers b ++ all_offers l)) (offers a' ++ (offers x ++ all_offers l)))
        e
        (subst
          (λ x.
            Perm (offers a ++ (offers b ++ all_offers l)) (offers x ++ (offers a ++ all_offers l)))
          e' (swap_offers (offers a) (offers b) (all_offers l)))
  all_offers-permᴰ (Permᴰ.trans p q) = Perm.trans (all_offers-permᴰ p) (all_offers-permᴰ q)

  all_offers-perm :
      {xs ys : List (ClientResult (KnnResp F))} → Perm xs ys → Perm (all_offers xs) (all_offers ys)
  all_offers-perm p = ∥∥₁_elim p Perm-prop λ q. all_offers-permᴰ q

  -- KNNEagerx over the net: where each call is answered and no answer is dropped at the deadline, so
  -- that the channel is closed and empty, then, in whatever order the servers answer, the result ranks
  -- the K best of the items that all servers answered without an error; where K is negative,
  -- KNNEagerx panics instead.
  pub FanRun-TopK :
      (laws : IsStrict F) (remote : Remote (KnnArgs F) (KnnResp F)) (cs : Clients)
      (args : KnnArgs F) (now : String → ℕ) (p : FanIn (KnnResp F))
      → FanRun (clients_knn_eager cs now remote args) p
      → p.closed ≡ true
      → p.buffer ≡ []
      → p.dropped ≡ []
      → let answers = map (asked (clients_knn_eager cs now remote args)) cs.remote_addrs in
        (kept : List (SortItem F (Found F))) × TopK sort_slot args.ascending
          (pos_part args.k)
          (all_offers answers)
          kept
        × (knn_eagerx args.k args.ascending p.received
            ≡ (if ltb_ℤ args.k (pos 0) then none else some (extract kept)))
  FanRun-TopK laws remote cs args now p r closed empty whole =
      let (kept, top, same) = knn_eagerx-TopK laws args.k args.ascending p.received in
      let complete =
        subst (λ l. Perm l (map (asked (clients_knn_eager cs now remote args)) cs.remote_addrs))
          (ap (λ d. p.received ++ d) whole ∙ append-nil p.received)
          (FanRun-complete (clients_knn_eager cs now remote args) r closed empty) in
      (kept, TopK-perm sort_slot (all_offers-perm complete) top, same)
