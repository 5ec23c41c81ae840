-- ===== src/Ops/Answers.antt =====
-- service/ops/knnutils.go, and the merge of Clients.KNNEagerx in service/ops/clients.go. The results
-- of the single servers come in any order, which is the order of the list.
use Prim.Native.String.{String}
use ddrop.Base.{
  ℕ, zero, suc, ◌+◌, Bool, true, false, not, ◌&&◌, Option, none, some, List, [], ◌∷◌, map,
  replicate, if◌then◌else◌,
}
use ddrop.Base.Int.{ℤ, pos, negsuc}
use ddrop.Float.{Float}
use ddrop.Mathx.SafeVec.{Distancer}
use ddrop.Ranking.{Slot, insert_all}
use ddrop.Knnc.Items.{ScoreItem, trim_items}

pub record KnnRespItem {ℓ} (F : Type ℓ) : Type ℓ where
  pub vec : List F
  pub score : F

-- A nil slice is `none`.
pub record KnnResp {ℓ} (F : Type ℓ) : Type ℓ where
  pub knn : Option (List (KnnRespItem F))
  pub ok : Bool

-- net_failed is `NetErr != nil`.
pub record ClientResult {ℓ} (T : Type ℓ) : Type ℓ where
  pub remote_addr : String
  pub net_failed : Bool
  pub payload : T
  pub network_latency : ℤ

-- The field data of the source is `found`; its zero value is `none`.
pub record SortItem {ℓ κ} (F : Type ℓ) (T : Type κ) : Type (ℓ ⊔ κ) where
  pub score : F
  pub set : Bool
  pub found : Option T

-- The data of a sortItem of KNNEagerx.
abbrev pub Found {ℓ} : Type ℓ → Type ℓ
Found F = ClientResult (KnnResp F) × KnnRespItem F

module _ {ℓ} {F : Type ℓ} ⦃f : Float F⦄ where
  unfoldable pub vec_from : Distancer F → ℕ → ℕ → List F
  vec_from d i zero = []
  vec_from d i (suc left) = (d.peek (pos i)).0 ∷ vec_from d (i + 1) left

  unfoldable pub distancer_to_vec : Distancer F → List F
  unfolding vec_from
  distancer_to_vec d = vec_from d 0 d.dim

  resp_items_from : List (ScoreItem F (Distancer F)) → List (KnnRespItem F)
  resp_items_from [] = []
  resp_items_from (item ∷ items) = elim item.distancer [
    | none ↦ resp_items_from items
    | some d ↦ record { vec = distancer_to_vec d; score = item.score } ∷ resp_items_from items
  ]

  -- KNNRespItemsFromScoreItems
  unfoldable pub resp_items : List (ScoreItem F (Distancer F)) → List (KnnRespItem F)
  unfolding resp_items_from
  resp_items score_items = resp_items_from (trim_items score_items)

  abbrev pub sort_slot : Slot F (SortItem F (Found F))
  sort_slot = record { score = λ i. i.score; is_set = λ i. i.set }

  -- The items of one result that the loop inserts: none of a result that it skips.
  unfoldable pub offers : ClientResult (KnnResp F) → List (SortItem F (Found F))
  offers result = elim result.payload.knn [
    | none ↦ []
    | some items ↦
        if not result.net_failed && result.payload.ok
        then map (λ i. record { score = i.score; set = true; found = some (result, i) }) items
        else []
  ]

  unfoldable pub insert_results :
      List (SortItem F (Found F))
      → List (ClientResult (KnnResp F))
      → Bool
      → List (SortItem F (Found F))
  insert_results sort_items [] ascending = sort_items
  insert_results sort_items (result ∷ results) ascending =
      insert_results (insert_all sort_slot sort_items (offers result) ascending) results ascending

  -- A set item has its data.
  unfoldable pub extract : List (SortItem F (Found F)) → List (ClientResult (KnnRespItem F))
  extract [] = []
  extract (item ∷ items) =
      let rest = extract items in
      let all : List (ClientResult (KnnRespItem F)) = elim item.found [
        | none ↦ rest
        | some (result, resp_item) ↦
            record {
              remote_addr = result.remote_addr;
              net_failed = false;
              payload = resp_item;
              network_latency = result.network_latency;
            }
            ∷ rest
      ] in
      if not item.set then rest else all

  -- A slice of the length K; a negative one panics, which is none.
  abbrev pub fresh_sort_items : ℤ → Option (List (SortItem F (Found F)))
  fresh_sort_items (pos n) =
      some (replicate n (record { score = f.nought; set = false; found = none }))
  fresh_sort_items (negsuc n) = none

  unfoldable pub knn_eagerx :
      ℤ → Bool → List (ClientResult (KnnResp F)) → Option (List (ClientResult (KnnRespItem F)))
  unfolding insert_results extract
  knn_eagerx k ascending results = elim (fresh_sort_items k) [
    | none ↦ none
    | some sort_items ↦ some (extract (insert_results sort_items results ascending))
  ]
