-- ===== src/Knn/Brute.antt =====
-- KNNBrute returns the indexes of the k best scores, in order.
use ddrop.Base.{
  ℕ, zero, suc, ◌+◌, ◌<◌, ◌≡◌, refl, ap, ◌⊎◌, subst, inl, inr, Bool, true, false, none, some, List,
  [], ◌∷◌, map, arith, length, All, Bool-cases, length-replicate,
}
use ddrop.Base.Int.{pos, pos_part}
use ddrop.Float.{Float, IsStrict}
use ddrop.Ranking.{bubble_insert, insert_all, trim}
use ddrop.Ranking.TopK.{TopK, insert_all-TopK}
use ddrop.Knn.{
  ResultItem, result_slot, KnnBruteArgs, initial_items, brute_loop, to_indexes, run_brute,
  knn_brute,
}

-- From call i on the generator yields the values of the list and then stops.
abbrev pub Yields {ℓ} : {A : Type ℓ} → (ℕ → A × Bool) → ℕ → List A → Type ℓ
Yields {A = A} gen i [] = (a : A) × (gen i ≡ (a, false))
Yields gen i (x ∷ xs) = (gen i ≡ (x, true)) × Yields gen (i + 1) xs

module _ {ℓ} (F : Type ℓ) ⦃f : Float F⦄ where
  initial_items-unset :
      (k : ℕ) (asc : Bool) → All (λ r. r.set ≡ false) (initial_items {F = F} k asc)
  unfolding initial_items
  initial_items-unset zero asc = tt
  initial_items-unset (suc k) asc = (refl, initial_items-unset k asc)

  length-initial_items : (k : ℕ) (asc : Bool) → length (initial_items {F = F} k asc) ≡ k
  unfolding initial_items
  length-initial_items k asc = length-replicate k _

module _ {ℓ} {F : Type ℓ} ⦃f : Float F⦄ where
  -- The items for the scores that a generator yields, numbered by its calls.
  pub numbered : ℕ → List F → List (ResultItem F)
  numbered i [] = []
  numbered i (x ∷ xs) = record { index = i; score = x; set = true } ∷ numbered (i + 1) xs

  numbered-set : (i : ℕ) (xs : List F) → All (λ r. r.set ≡ true) (numbered i xs)
  unfolding numbered
  numbered-set i [] = tt
  numbered-set i (x ∷ xs) = (refl, numbered-set (i + 1) xs)

  to_indexes-eq-map :
      (rs : List (ResultItem F)) → to_indexes rs ≡ map (λ r. r.index) (trim result_slot rs)
  unfolding to_indexes trim
  to_indexes-eq-map [] = refl
  to_indexes-eq-map (r ∷ rs) = elim (Bool-cases r.set) [
    | inl e ↦ rw e (ap (◌∷◌ r.index) (to_indexes-eq-map rs))
    | inr e ↦ rw e (to_indexes-eq-map rs)
  ]

  brute_loop-eq-insert_all :
      (fuel : ℕ) (gen : ℕ → F × Bool) (i : ℕ) (r : List (ResultItem F)) (asc : Bool) (xs : List F)
      → length xs < fuel
      → Yields gen i xs
      → brute_loop fuel gen i r asc ≡ some (insert_all result_slot r (numbered i xs) asc)
  unfolding brute_loop insert_all numbered
  brute_loop-eq-insert_all zero gen i r asc xs h y = elim h [ ]
  brute_loop-eq-insert_all (suc fuel) gen i r asc [] h (a, e) = rw e
  brute_loop-eq-insert_all (suc fuel) gen i r asc (x ∷ xs) h (e, y) = rw e (
      brute_loop-eq-insert_all fuel gen (i + 1)
        (bubble_insert result_slot r (record { index = i; score = x; set = true }) asc) asc xs
        (omega arith) y)

  run_brute_lem :
      (fuel : ℕ) (gen : ℕ → F × Bool) (k : ℕ) (asc : Bool) (xs : List F)
      → length xs < fuel
      → Yields gen 0 xs
      → run_brute fuel (some gen) (pos k) asc
        ≡ some (
            some (
              map
                (λ r. r.index)
                (trim result_slot
                  (insert_all result_slot (initial_items k asc) (numbered 0 xs) asc))))
  unfolding run_brute
  run_brute_lem fuel gen k asc xs enough y =
      rw (brute_loop-eq-insert_all fuel gen 0 (initial_items k asc) asc xs enough y, run_brute)
        (ap (λ l. some (some l)) (to_indexes-eq-map _))

  module _ (laws : IsStrict F) where
    -- KNNBrute on a generator that yields the given scores and stops, with k > 0: it ends, and
    -- returns the calls' numbers of the k best of these scores (all, where there are fewer than k),
    -- in the order asked for: no score left out and no later score is better.
    pub knn_brute-TopK :
        (fuel : ℕ) (gen : ℕ → F × Bool) (k : ℕ) (asc : Bool) (xs : List F)
        → length xs < fuel
        → Yields gen 0 xs
        → 0 < k
        → let args : KnnBruteArgs F = record {
          score_generator = some gen;
          k = pos k;
          ascending = asc;
        } in
          (ranked : List (ResultItem F)) × (knn_brute fuel args
            ≡ some (some (map (λ r. r.index) ranked)))
          × TopK result_slot asc k (numbered 0 xs) ranked
    unfolding knn_brute
    knn_brute-TopK fuel gen k asc xs enough y h =
        let slots = initial_items k asc in
        let items = numbered 0 xs in
        let ranked = trim result_slot (insert_all result_slot slots items asc) in
        (
          ranked,
          ground (arith, run_brute_lem fuel gen k asc xs enough y),
          subst (λ n. TopK result_slot asc n items ranked) (length-initial_items F k asc)
              (insert_all-TopK result_slot laws slots items asc (initial_items-unset F k asc)
                (numbered-set 0 xs)),
        )

  -- KNNBrute refuses a nil generator and a k of zero or below.
  pub knn_brute_refuses :
      (fuel : ℕ) (args : KnnBruteArgs F)
      → (args.score_generator ≡ none) ⊎ (pos_part args.k ≡ 0)
      → knn_brute fuel args ≡ some none
  unfolding knn_brute
  knn_brute_refuses fuel args h = ground arith
