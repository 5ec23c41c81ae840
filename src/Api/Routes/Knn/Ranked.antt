-- ===== src/Api/Routes/Knn/Ranked.antt =====
-- What RPCKNNEager answers.
use Prim.Native.String.{String}
use ddrop.Base.{
  ℕ, suc, ◌≡◌, refl, sym, ap, ◌∙◌, true, none, some, List, [], ◌∷◌, map, Perm, if◌then◌else◌,
}
use ddrop.Base.Int.{pos, negsuc, pos_part, ltb_ℤ}
use ddrop.Float.{Float, IsStrict}
use ddrop.Ranking.TopK.{TopK}
use ddrop.Requestman.Query.{KnnArgs}
use ddrop.Ops.Answers
use ddrop.Ops.Answers.{SortItem, Found, sort_slot, extract, knn_eagerx}
use ddrop.Ops.Merge.{all_offers, is_nat}
use ddrop.Ops.Client.{Remote}
use ddrop.Ops.Clients.{new_clients, FanInRequestsArgs, FanIn, asked, FanRun}
use ddrop.Ops.Clients.Eager.{FanRun-TopK}
use ddrop.Api.AddrSet.{AddrSet}
use ddrop.Api.Convert.{
  ClientResult, new_client_results, KnnArgsMany, with_vec, export_knn, KnnRespItem, KnnResp,
}
use ddrop.Api.Routes.{Visit, visit}
use ddrop.Api.Routes.Knn.{
  resp_item, response, responds, with_capacity, joined, sent_back, for_vec, call_of, for_vecs,
  rpc_knn_eager,
}

module _ {ℓ} {F : Type ℓ} ⦃f : Float F⦄ where
  module _ (remote : Remote (KnnArgs F) (Answers.KnnResp F)) (now : ℕ → String → ℕ)
      (receives : ℕ
        → FanInRequestsArgs (Answers.KnnResp F)
        → List (Answers.ClientResult (Answers.KnnResp F))) where
    -- What is received of a composite call whose servers all answer before its deadline.
    pub record IsWhole (args : FanInRequestsArgs (Answers.KnnResp F))
        (eager : List (Answers.ClientResult (Answers.KnnResp F))) : Type ℓ where
      pub fanned : FanIn (Answers.KnnResp F)
      pub run : FanRun args fanned
      pub closed : fanned.closed ≡ true
      pub empty : fanned.buffer ≡ []
      pub whole : fanned.dropped ≡ []
      pub got : fanned.received ≡ eager

    -- The results are the ranking of the K best of what all known servers answered.
    abbrev pub Ranked : List String → ℕ → KnnArgs F → List (ClientResult (KnnRespItem F)) → Type ℓ
    Ranked known i args results =
        (kept : List (SortItem F (Found F))) × TopK sort_slot args.ascending (pos_part args.k)
          (all_offers (map (asked (call_of remote now receives known i args)) known)) kept
        × (results ≡ new_client_results (extract kept) resp_item)

    -- One response for each query vector, in their order.
    abbrev pub AllRanked : List String → ℕ → List (KnnArgs F) → List (KnnResp F) → Type ℓ
    AllRanked known i [] resps = resps ≡ []
    AllRanked known i (args ∷ more) resps =
        (resp : KnnResp F) × (rest : List (KnnResp F)) × (resps ≡ resp ∷ rest)
        × (resp.query_vec ≡ args.query_vec)
        × (resp.query_vec_index ≡ i)
        × Ranked known i args resp.results
        × AllRanked known (suc i) more rest

    module _ (laws : IsStrict F) (known : List String)
        (whole : (i : ℕ) (args : KnnArgs F)
          → IsWhole
              (call_of remote now receives known i args)
              (receives i (call_of remote now receives known i args))) where
      Ranked-eager :
          (n i : ℕ) (args : KnnArgs F)
          → args.k ≡ pos n
          → let eager = receives i (call_of remote now receives known i args) in
            (ranked : List (Answers.ClientResult (Answers.KnnRespItem F))) × (knn_eagerx args.k
                args.ascending eager
              ≡ some ranked)
            × Ranked known i args (new_client_results ranked resp_item)
      Ranked-eager n i args e =
          let w = whole i args in
          let (kept, top, same) =
            FanRun-TopK laws remote (new_clients known []) args (now i) w.fanned w.run w.closed
              w.empty w.whole in
          (
            extract kept,
            ap (knn_eagerx args.k args.ascending) (sym w.got)
                ∙ same
                ∙ ap (λ k. if ltb_ℤ k (pos 0) then none else some (extract kept)) e
                ∙ rw (is_nat n) refl,
            (kept, top, refl),
          )

      for_vec-pos :
          (n i : ℕ) (args : KnnArgs F) (eager : List (Answers.ClientResult (Answers.KnnResp F)))
          (ranked : List (Answers.ClientResult (Answers.KnnRespItem F)))
          → args.k ≡ pos n
          → knn_eagerx args.k args.ascending eager ≡ some ranked
          → for_vec eager i args ≡ some (response i args ranked)
      unfolding for_vec
      for_vec-pos n i args eager ranked e same =
          ap (λ o. responds i args (with_capacity args.k o)) same
          ∙ ap (λ k. responds i args (with_capacity k (some ranked))) e

      for_vecs-step :
          (i : ℕ) (args : KnnArgs F) (more : List (KnnArgs F)) (resp : KnnResp F)
          (resps : List (KnnResp F))
          → for_vec (receives i (call_of remote now receives known i args)) i args ≡ some resp
          → for_vecs remote now receives known (suc i) more ≡ some resps
          → for_vecs remote now receives known i (args ∷ more) ≡ some (resp ∷ resps)
      unfolding for_vecs
      for_vecs-step i args more resp resps e e' =
          ap (λ o. joined o (for_vecs remote now receives known (suc i) more)) e
          ∙ ap (joined (some resp)) e'

      for_vecs-AllRanked :
          (n : ℕ) (i : ℕ) (args : KnnArgsMany F) (vecs : List (List F))
          → args.args.k ≡ pos n
          → (resps : List (KnnResp F)) × (for_vecs remote now receives known i
                (map (with_vec args.args) vecs)
              ≡ some resps)
            × AllRanked known i (map (with_vec args.args) vecs) resps
      unfolding for_vecs
      for_vecs-AllRanked n i args [] e = ([], refl, refl)
      for_vecs-AllRanked n i args (vec ∷ vecs) e =
          let (resps, same, all) = for_vecs-AllRanked n (suc i) args vecs e in
          let one = with_vec args.args vec in
          let (ranked, found, is_ranked) = Ranked-eager n i one e in
          let resp = response i one ranked in
          (
            resp ∷ resps,
            for_vecs-step i one (map (with_vec args.args) vecs) resp resps
                (for_vec-pos n i one _ ranked e found) same,
            (resp, resps, refl, refl, refl, is_ranked, all),
          )

      -- For a K that is not negative, the answer holds, in some order, one response for each query
      -- vector, with its index and the ranking of the K best of all items that the known servers
      -- answered without an error, where each server answers before the deadline; and the set of
      -- addresses is maintained. No goroutine panics.
      pub rpc_knn_eager-AllRanked :
          (n : ℕ) (arrives : List (KnnResp F) → List (KnnResp F)) (v : Visit) (opts : KnnArgsMany F)
          (s : AddrSet)
          → opts.args.k ≡ pos n
          → (visit s v []).1 ≡ known
          → ((l : List (KnnResp F)) → Perm (arrives l) l)
          → (answer : List (KnnResp F)) × (resps : List (KnnResp F)) × (rpc_knn_eager remote now
                receives {B = String} arrives v opts s
              ≡ some (answer, [], (visit s v []).0))
            × Perm answer resps
            × AllRanked known 0 (export_knn opts) resps
      unfolding rpc_knn_eager
      rpc_knn_eager-AllRanked n arrives v opts s e e' any =
          let (resps, same, ranked) = for_vecs-AllRanked n 0 opts opts.query_vecs e in
          let s' = (visit s v []).0 in
          (
            arrives resps,
            resps,
            ap (λ l. sent_back arrives s' (for_vecs remote now receives l 0 (export_knn opts))) e'
                ∙ ap (sent_back arrives s') same,
            any resps,
            ranked,
          )

    for_vec-negsuc :
        (n i : ℕ) (args : KnnArgs F) (eager : List (Answers.ClientResult (Answers.KnnResp F)))
        → args.k ≡ negsuc n
        → for_vec eager i args ≡ none
    unfolding for_vec
    for_vec-negsuc n i args eager e =
        ap (λ k. responds i args (with_capacity k (knn_eagerx args.k args.ascending eager))) e

    -- A request with a negative K and a query vector makes a goroutine panic, and so the program.
    pub rpc_knn_eager-panics :
        (n : ℕ) (vec : List F) (vecs : List (List F))
        (arrives : List (KnnResp F) → List (KnnResp F)) (v : Visit) (opts : KnnArgsMany F)
        (s : AddrSet)
        → opts.args.k ≡ negsuc n
        → opts.query_vecs ≡ vec ∷ vecs
        → rpc_knn_eager remote now receives {B = String} arrives v opts s ≡ none
    unfolding rpc_knn_eager for_vecs
    rpc_knn_eager-panics n vec vecs arrives v opts s e e' =
        let s' = (visit s v []).0 in
        let known = (visit s v []).1 in
        let rest = for_vecs remote now receives known 1 (map (with_vec opts.args) vecs) in
        let args = with_vec opts.args vec in
        ap
          (λ l.
            sent_back arrives s'
              (for_vecs remote now receives known 0 (map (with_vec opts.args) l)))
          e'
        ∙ ap (λ o. sent_back arrives s' (joined o rest))
            (for_vec-negsuc n 0 args (receives 0 (call_of remote now receives known 0 args)) e)
