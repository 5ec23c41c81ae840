-- ===== src/Tests/Search.antt =====
-- Runs of the searches of pkg/knn.
use ddrop.Base.{
  ℕ, ◌+◌, ◌≡◌, refl, Bool, true, false, none, some, List, [], ◌∷◌, map, arith, ltb, ◌==◌,
  if◌then◌else◌,
}
use ddrop.Base.Int.{pos}
use ddrop.Float.{whole_float, ℕ-IsStrict}
use ddrop.Ranking.{trim, insert_all}
use ddrop.Ranking.TopK.{TopK, insert_all-TopK}
use ddrop.Mathx.Distf
use ddrop.Knn.{ResultItem, result_slot, KnnBruteArgs, knn_brute}
use ddrop.Knn.Brute.{numbered, knn_brute-TopK}
use ddrop.Knn.Prefabs.{knn_brute_prefab}
use ddrop.Knn.PrefabLaws.{distances, prefab, knn_brute_prefab-TopK}

abbrev slot : ResultItem ℕ
slot = record { index = 0; score = 0; set = false }

abbrev two_slots : List (ResultItem ℕ)
two_slots = slot ∷ slot ∷ []

abbrev item : ℕ → ℕ → ResultItem ℕ
item i score = record { index = i; score = score; set = true }

abbrev three_items : List (ResultItem ℕ)
three_items = item 0 7 ∷ item 1 3 ∷ item 2 5 ∷ []

insert_all-TopK_example :
    TopK result_slot true 2 three_items
      (trim result_slot (insert_all result_slot two_slots three_items true))
insert_all-TopK_example =
    insert_all-TopK result_slot ℕ-IsStrict two_slots three_items true (refl, (refl, tt))
      (refl, (refl, (refl, tt)))

abbrev scores : ℕ → ℕ × Bool
scores i = (if i == 0 then 7 else if i == 1 then 3 else 5, ltb i 3)

abbrev brute_args : KnnBruteArgs ℕ
brute_args = record { score_generator = some scores; k = pos 2; ascending = true }

knn_brute-TopK_example :
    (ranked : List (ResultItem ℕ)) × (knn_brute 4 brute_args
      ≡ some (some (map (λ r. r.index) ranked)))
    × TopK result_slot true 2 (numbered 0 (7 ∷ 3 ∷ 5 ∷ [])) ranked
knn_brute-TopK_example =
    knn_brute-TopK ℕ-IsStrict 4 scores 2 true (7 ∷ 3 ∷ 5 ∷ []) (omega arith)
      (refl, (refl, (refl, (5, refl)))) (omega arith)

abbrev refused_args : KnnBruteArgs ℕ
refused_args = record { score_generator = none; k = pos 2; ascending = true }

abbrev point_vec : ℕ → List ℕ
point_vec n = n ∷ ((n + 1) ∷ [])

abbrev pool : ℕ → List ℕ × Bool
pool i = (point_vec (if i == 0 then 7 else if i == 1 then 3 else 5), ltb i 3)

abbrev pool_vecs : List (List ℕ)
pool_vecs = point_vec 7 ∷ point_vec 3 ∷ point_vec 5 ∷ []

knn_brute_prefab-TopK_example :
    (ranked : List (ResultItem ℕ)) × (knn_brute_prefab 4
        (prefab (point_vec 2) pool Distf.euclidean_distance 2 true)
      ≡ some (some (map (λ r. r.index) ranked)))
    × TopK result_slot true 2
        (numbered 0 (distances Distf.euclidean_distance (point_vec 2) pool_vecs))
        ranked
knn_brute_prefab-TopK_example =
    knn_brute_prefab-TopK ℕ-IsStrict 4 (point_vec 2) pool Distf.euclidean_distance 2 true pool_vecs
      (omega arith) (refl, (refl, (refl, (point_vec 5, refl)))) (omega arith)
