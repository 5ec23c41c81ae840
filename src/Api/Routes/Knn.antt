-- ===== src/Api/Routes/Knn.antt =====
-- RPCKNNEager of service/api/routes.go: one ranking for each query vector, each by its own goroutine.
pub mod Ranked
use Prim.Native.String.{String}
use ddrop.Base.{
  ℕ, zero, suc, ◌≡◌, refl, sym, ap, ◌∙◌, subst, Bool, true, false, Option, none, some, List, [],
  ◌∷◌, map, Perm,
}
use ddrop.Base.Int.{ℤ, pos, negsuc, pos_part}
use ddrop.Float.{Float, IsStrict}
use ddrop.Ranking.TopK.{TopK}
use ddrop.Requestman.Query.{KnnArgs}
use ddrop.Ops.Answers
use ddrop.Ops.Answers.{SortItem, Found, sort_slot, extract, knn_eagerx}
use ddrop.Ops.Merge.{all_offers}
use ddrop.Ops.Client.{Remote}
use ddrop.Ops.Clients.{Clients, new_clients, FanInRequestsArgs, FanIn, asked, FanRun}
use ddrop.Ops.Clients.Calls.{clients_knn_eager}
use ddrop.Ops.Clients.Eager.{FanRun-TopK}
use ddrop.Api.AddrSet.{AddrSet}
use ddrop.Api.Convert.{
  ClientResult, new_client_results, KnnArgsMany, with_vec, export_knn, KnnRespItem, KnnResp,
}
use ddrop.Api.NetIo.{Received}
use ddrop.Api.Routes.{Visit, visit}

-- A slice of the given capacity is made first; a negative one panics.
abbrev pub with_capacity {κ} : {A : Type κ} → ℤ → A → Option A
with_capacity (pos n) a = some a
with_capacity (negsuc n) a = none

module _ {ℓ} {F : Type ℓ} ⦃f : Float F⦄ where
  abbrev pub resp_item : Answers.KnnRespItem F → KnnRespItem F
  resp_item payload = record { vec = payload.vec; score = payload.score }

  abbrev pub response :
      ℕ → KnnArgs F → List (Answers.ClientResult (Answers.KnnRespItem F)) → KnnResp F
  response i args ranked = record {
    query_vec = args.query_vec;
    query_vec_index = i;
    results = new_client_results ranked resp_item;
  }

  abbrev pub responds :
      ℕ
      → KnnArgs F
      → Option (Option (List (Answers.ClientResult (Answers.KnnRespItem F))))
      → Option (KnnResp F)
  responds i args none = none
  responds i args (some none) = none
  responds i args (some (some ranked)) = some (response i args ranked)

  -- What a goroutine sends for the query vector at its index, of the results `eager` of its composite
  -- call. A panic, of its own slice or of KNNEagerx, is none.
  unfoldable pub for_vec :
      List (Answers.ClientResult (Answers.KnnResp F)) → ℕ → KnnArgs F → Option (KnnResp F)
  unfolding knn_eagerx new_client_results
  for_vec eager i args =
      responds i args (with_capacity args.k (knn_eagerx args.k args.ascending eager))

  -- The response of one goroutine with those of the others.
  abbrev pub joined : Option (KnnResp F) → Option (List (KnnResp F)) → Option (List (KnnResp F))
  joined none o = none
  joined (some resp) none = none
  joined (some resp) (some resps) = some (resp ∷ resps)

  abbrev pub sent_back {κ} :
      {B : Type κ}
      → (List (KnnResp F) → List (KnnResp F))
      → AddrSet
      → Option (List (KnnResp F))
      → Received B (List (KnnResp F)) AddrSet
  sent_back arrives s none = none
  sent_back arrives s (some resps) = some (arrives resps, [], s)

  -- A call of KNNEagerx, for the arguments of one query vector, on the known addresses. `now` and
  -- `receives` are the clock and what is received in the goroutine of each index.
  module _ (remote : Remote (KnnArgs F) (Answers.KnnResp F)) (now : ℕ → String → ℕ)
      (receives : ℕ
        → FanInRequestsArgs (Answers.KnnResp F)
        → List (Answers.ClientResult (Answers.KnnResp F))) where
    abbrev pub call_of : List String → ℕ → KnnArgs F → FanInRequestsArgs (Answers.KnnResp F)
    call_of known i args = clients_knn_eager (new_clients known []) (now i) remote args

    -- All goroutines; a panic of one is the panic of all.
    unfoldable pub for_vecs : List String → ℕ → List (KnnArgs F) → Option (List (KnnResp F))
    for_vecs known i [] = some []
    for_vecs known i (args ∷ more) =
        joined (for_vec (receives i (call_of known i args)) i args) (for_vecs known (suc i) more)

    -- `arrives` is the order in which the responses come out of the channel.
    unfoldable pub rpc_knn_eager {κ} :
        {B : Type κ}
        → (List (KnnResp F) → List (KnnResp F))
        → Visit
        → KnnArgsMany F
        → AddrSet
        → Received B (List (KnnResp F)) AddrSet
    unfolding for_vecs
    rpc_knn_eager arrives v opts s =
        let (s', known) = visit s v [] in sent_back arrives s' (for_vecs known 0 (export_knn opts))
