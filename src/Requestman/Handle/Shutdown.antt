-- ===== src/Requestman/Handle/Shutdown.antt =====
-- What the info methods tell after AddData and after the end of maintenance.
use text.Mathlib.Text.{◌==◌ as str_eq}
use Prim.Native.String.{String}
use ddrop.Base.{
  ℕ, ◌+◌, ◌≡◌, refl, sym, ap, ◌∙◌, inl, inr, Bool, true, false, not, ◌&&◌, Option, none, some, List,
  [], ◌∷◌, arith, if◌then◌else◌, Bool-cases, Option-cases,
}
use ddrop.Knnc.SearchSpaces
use ddrop.Requestman.Containers.{DistancerContainer}
use ddrop.Requestman.Namespaces
use ddrop.Requestman.Namespaces.{Namespaces, NamespacesItem, find, get, key}
use ddrop.Requestman.Storage.{AllValid, total, put-Stored}
use ddrop.Requestman.Handle.{
  Handle, stop_item, stop_items, wait_then_quit, add_data, s_space_namespace, s_space_dim,
  s_space_len, s_space_cap,
}

module _ {ℓ} {D : Type ℓ} where
  -- A stopped item, where there is one.
  abbrev pub stopped : Option (NamespacesItem D) → Option (NamespacesItem D)
  stopped none = none
  stopped (some item) = some (stop_item item)

  find-stop_items :
      (j : String) (items : List (String × NamespacesItem D))
      → find j (stop_items items) ≡ stopped (find j items)
  unfolding find stop_items
  find-stop_items j [] = refl
  find-stop_items j ((k, item) ∷ items) = elim (Bool-cases (str_eq k j)) [
    | inl e ↦ rw e refl
    | inr e ↦ rw e (find-stop_items j items)
  ]

  -- When the context is done, waitThenQuit stops the maintenance of every namespace, and what the
  -- info methods tell of the namespaces stays the same.
  pub wait_then_quit-stops :
      (h : Handle D) (j : String)
      → let h' = wait_then_quit h in
        (get h'.knn_namespaces j ≡ stopped (get h.knn_namespaces j))
        × (s_space_namespace h' j ≡ s_space_namespace h j)
        × (s_space_dim h' j ≡ s_space_dim h j)
        × (s_space_len h' j ≡ s_space_len h j)
        × (s_space_cap h' j ≡ s_space_cap h j)
  unfolding wait_then_quit get key s_space_namespace s_space_dim s_space_len s_space_cap
      SearchSpaces.dim SearchSpaces.len SearchSpaces.cap
  wait_then_quit-stops h j =
      let items = h.knn_namespaces.items in
      let e = find-stop_items j items in
      (e, ground (arith, e), ground (arith, e), ground (arith, e), ground (arith, e))

  -- The number of items that SSpaceLen tells.
  abbrev pub told : Handle D → String → ℕ
  told h k = (s_space_len h k).0.1

  module _ (dim : D → ℕ) where
    told-eq-total : (h : Handle D) (k : String) → told h k ≡ total dim h.knn_namespaces k
    unfolding s_space_len
    told-eq-total h k = elim (Option-cases (get h.knn_namespaces k)) [
      | inl e ↦ ground arith
      | inr (item, e) ↦ ground arith
    ]

    told-named :
        (h : Handle D) (k : String) (n : ℕ) → told h k ≡ n + 1 → s_space_namespace h k ≡ true
    unfolding s_space_len s_space_namespace key get
    told-named h k n e = ground arith

    added-named :
        (b : Bool) (h : Handle D) (k : String) (n : ℕ)
        → told h k ≡ n + (if b then 1 else 0)
        → (b && not (s_space_namespace h k)) ≡ false
    added-named true h k n e = ap not (told-named h k n e)
    added-named false h k n e = refl

    -- AddData on a handle with valid collections keeps them valid. Where it returns true SSpaceLen
    -- tells one item more of the namespace, which SSpaceNamespace knows then, and where it returns
    -- false just as many; it returns false when the context is done.
    pub add_data-told :
        (h : Handle D) (ctx_done : Bool) (k : String) (d : DistancerContainer D) (clock : ℕ → ℕ)
        → AllValid dim h.knn_namespaces
        → let r = add_data dim h ctx_done k d clock in
          AllValid dim r.0.knn_namespaces
          × (told r.0 k ≡ told h k + (if r.1 then 1 else 0))
          × ((r.1 && not (s_space_namespace r.0 k)) ≡ false)
          × ((r.1 && ctx_done) ≡ false)
    unfolding add_data
    add_data-told h true k d clock v = (v, omega arith, refl, refl)
    add_data-told h false k d clock v =
        let (valid, same, count) = put-Stored dim h.knn_namespaces k d clock v in
        let h' : Handle D = record h {
          knn_namespaces = (Namespaces.put dim h.knn_namespaces k d clock).0;
        } in
        let more =
          ap (λ n. n + (if (Namespaces.put dim h.knn_namespaces k d clock).1 then 1 else 0))
            (sym (told-eq-total h k)) in
        let counted = told-eq-total h' k ∙ count ∙ more in
        (
          valid,
          counted,
          added-named (Namespaces.put dim h.knn_namespaces k d clock).1 h' k (told h k) counted,
          ground arith,
        )
