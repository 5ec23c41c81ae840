-- ===== src/Ops/Server/Adding.antt =====
-- What the server's AddData does to the namespaces.
use text.Mathlib.Text.{◌==◌ as str_eq}
use text.Mathlib.TextEquality.{eq_iff}
use Prim.Native.String.{String}
use ddrop.Base.{
  ℕ, suc, ◌+◌, ◌≡◌, refl, ap, ◌∙◌, subst, inl, inr, Bool, true, false, ◌&&◌, Option, none, some,
  List, [], ◌∷◌, arith, length, if◌then◌else◌, Bool-cases,
}
use ddrop.Float.{Float}
use ddrop.Mathx.SafeVec.{SafeVec}
use ddrop.Knnc.SearchSpaces
use ddrop.Requestman.Containers.{DistancerContainer}
use ddrop.Requestman.Namespaces
use ddrop.Requestman.Namespaces.{get}
use ddrop.Requestman.Storage.{AllValid, put-Stored}
use ddrop.Requestman.Handle.{Handle, add_data, s_space_len}
use ddrop.Requestman.Handle.Shutdown.{told, add_data-told}
use ddrop.Ops.Server.{AddDataArgs, dim_of, container_of, add_data_loop}

module _ {ℓ} {D : Type ℓ} (dim : D → ℕ) where
  other_told :
      (h : Handle D) (ctx_done : Bool) (k : String) (d : DistancerContainer D) (clock : ℕ → ℕ)
      (j : String)
      → AllValid dim h.knn_namespaces
      → str_eq k j ≡ false
      → told (add_data dim h ctx_done k d clock).0 j ≡ told h j
  unfolding add_data s_space_len
  other_told h true k d clock j v e = refl
  other_told h false k d clock j v e =
      let (_, same, _) = put-Stored dim h.knn_namespaces k d clock v in
      let kept = same j in
      let kept' = rw e at kept in
      ap
        (λ (o : Option (Namespaces.NamespacesItem D)).
          (elim o as (λ x. (ℕ × ℕ) × Bool) [
            | none ↦ ((0, 0), false)
            | some item ↦ (SearchSpaces.len item.search_spaces, true)
          ]).0.1)
        kept'

  -- An addition, as every namespace sees it.
  added_told :
      (h : Handle D) (ctx_done : Bool) (k : String) (d : DistancerContainer D) (clock : ℕ → ℕ)
      (j : String)
      → AllValid dim h.knn_namespaces
      → let r = add_data dim h ctx_done k d clock in
        told r.0 j ≡ told h j + (if str_eq k j && r.1 then 1 else 0)
  added_told h ctx_done k d clock j v = elim (Bool-cases (str_eq k j)) [
    | inr other ↦ rw other (other_told h ctx_done k d clock j v other ∙ omega arith)
    | inl same ↦
        let r = add_data dim h ctx_done k d clock in
        let counted = (add_data-told dim h ctx_done k d clock v).1 in
        rw same (
          subst (λ i. told r.0 i ≡ told h i + (if r.1 then 1 else 0)) ((eq_iff k j).0 same) counted)
  ]

module _ {ℓ} {F : Type ℓ} ⦃f : Float F⦄ where
  -- How many entries of a namespace were accepted.
  abbrev pub accepted : String → List (AddDataArgs F) → List Bool → ℕ
  accepted j [] oks = 0
  accepted j (args ∷ payload) [] = 0
  accepted j (args ∷ payload) (ok ∷ oks) =
      (if str_eq args.namespace j && ok then 1 else 0) + accepted j payload oks

  -- On a handle with valid collections, the loop of AddData keeps them valid and answers each entry
  -- at its index; SSpaceLen then tells of every namespace as many items more as there are entries of
  -- that namespace that were answered with true.
  pub add_data_loop-told :
      (h : Handle (SafeVec F)) (done : ℕ → Bool) (clock : ℕ → ℕ → ℕ)
      (payload : List (AddDataArgs F)) (j : String)
      → AllValid dim_of h.knn_namespaces
      → let r = add_data_loop h done clock payload in
        AllValid dim_of r.0.knn_namespaces
        × (length r.1 ≡ length payload)
        × (told r.0 j ≡ told h j + accepted j payload r.1)
  unfolding add_data_loop
  add_data_loop-told h done clock [] j v = (v, refl, omega arith)
  add_data_loop-told h done clock (args ∷ payload) j v =
      let r = add_data dim_of h (done 0) args.namespace (container_of args) (clock 0) in
      let valid =
        (add_data-told dim_of h (done 0) args.namespace (container_of args) (clock 0) v).0 in
      let one = added_told dim_of h (done 0) args.namespace (container_of args) (clock 0) j v in
      let (all_valid, long, more) =
        add_data_loop-told r.0 (λ n. done (suc n)) (λ n. clock (suc n)) payload j valid in
      (all_valid, ap suc long, more ∙ omega (arith, one))
