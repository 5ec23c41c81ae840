-- ===== src/Api/ServerWrap/Phases.antt =====
-- What the wrap of the RPC server and the requests under way have to do with each other.
mod Sections
pub mod Safety
use mathlib.Core.List.{append_assoc, perm_middle, append-nil}
use mathlib.Core.List.Perm
use ddrop.Base.{
  ◌≡◌, refl, sym, ap, ◌∙◌, ◌⊎◌, inl, inr, Option, none, some, List, [], ◌∷◌, ◌++◌, Perm, All,
  take_out,
}
use ddrop.Api.ServerWrap.{RpcServerState, Place, System}

module _ {ℓ} {S : Type ℓ} where
  -- The sections of a request between its first and its last one.
  abbrev pub under_way : Place S → List (Place S)
  under_way Place.stop_inner = Place.stop_inner ∷ []
  under_way Place.stop_last = Place.stop_last ∷ []
  under_way (Place.start_inner s) = Place.start_inner s ∷ []
  under_way Place.start_last = Place.start_last ∷ []
  under_way _ = []

  -- The server that a request holds.
  abbrev pub holds : Place S → List S
  holds (Place.start_first s) = s ∷ []
  holds (Place.start_inner s) = s ∷ []
  holds _ = []

  abbrev pub Unpanicked : Place S → Type 0
  Unpanicked Place.panicked = ⊥
  Unpanicked _ = Unit

  abbrev pub gather {κ} : {A : Type κ} → (Place S → List A) → List (Place S) → List A
  gather f [] = []
  gather f (p ∷ ps) = f p ++ gather f ps

  pub gather-append {κ} :
      {A : Type κ} (f : Place S → List A) (ps qs : List (Place S))
      → gather f (ps ++ qs) ≡ gather f ps ++ gather f qs
  gather-append f [] qs = refl
  gather-append f (p ∷ ps) qs =
      ap (λ l. f p ++ l) (gather-append f ps qs)
      ∙ sym (append_assoc (f p) (gather f ps) (gather f qs))

  abbrev pub owned : Option S → List S
  owned none = []
  owned (some s) = s ∷ []

  -- What holds of the wrap in each state: the sections under way, and the stop function.
  abbrev pub InPhase : RpcServerState → List (Place S) → Option S → Type ℓ
  InPhase RpcServerState.default m o = (m ≡ []) × (o ≡ none)
  InPhase RpcServerState.starting m o =
      ((s : S) × (m ≡ Place.start_inner s ∷ []) × (o ≡ none))
      ⊎ ((s : S) × (m ≡ Place.start_last ∷ []) × (o ≡ some s))
  InPhase RpcServerState.started m o = (s : S) × (m ≡ []) × (o ≡ some s)
  InPhase RpcServerState.stopping m o =
      ((s : S) × (m ≡ Place.stop_inner ∷ []) × (o ≡ some s))
      ⊎ ((m ≡ Place.stop_last ∷ []) × (o ≡ none))
  InPhase RpcServerState.stopped m o = (m ≡ []) × (o ≡ none)

  pub record IsSound (w : System S) : Type ℓ where
    pub in_phase : InPhase w.state (gather under_way w.requests) w.server_stop_f
    pub together : w.server ≡ w.server_stop_f
    -- Every server that listened was stopped, or a request or the wrap holds it.
    pub accounted :
        Perm w.listened (w.stop_calls ++ (gather holds w.requests ++ owned w.server_stop_f))
    pub no_panic : All Unpanicked w.requests

  pub take_last : (a b : List S) (s : S) → Perm (a ++ (b ++ (s ∷ []))) (s ∷ (a ++ (b ++ [])))
  take_last a b s =
      rw (append-nil b, ← append_assoc a b (s ∷ []))
        (Perm.trans (perm_middle (a ++ b) []) (rw (append-nil (a ++ b)) (Perm.refl _)))
