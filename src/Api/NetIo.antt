-- ===== src/Api/NetIo.antt =====
-- withNetIO of service/api/ioconv.go. What a handler does with the http.ResponseWriter is the list of
-- its calls; encoding/json is a parameter, for each pair of types.
pub mod Branches
use ddrop.Base.{ℕ, Bool, true, false, Option, none, some, List, [], ◌∷◌, ◌++◌, if◌then◌else◌}

pub data WriterCall {ℓ} (B : Type ℓ) : Type ℓ where
  write_header : ℕ → WriterCall B
  write : B → WriterCall B

-- http.StatusBadRequest and http.StatusInternalServerError
abbrev pub status_bad_request : ℕ
status_bad_request = 400

abbrev pub status_internal_server_error : ℕ
status_internal_server_error = 500

-- Whether T is struct{}, its zero value, json.Unmarshal into T and json.Marshal of U.
pub record Json {ℓ κ λ'} (B : Type ℓ) (T : Type κ) (U : Type λ') : Type (ℓ ⊔ κ ⊔ λ') where
  pub is_empty_struct : Bool
  pub zero_value : T
  pub unmarshal : B → Option T
  pub marshal : U → Option B

-- What a receiver returns, its calls of the writer and the state that it leaves; a panic is none.
abbrev pub Received {ℓ κ λ'} : Type ℓ → Type κ → Type λ' → Type (ℓ ⊔ κ ⊔ λ')
Received B U St = Option (U × List (WriterCall B) × St)

module _ {ℓ κ λ' μ} {B : Type ℓ} {T : Type κ} {U : Type λ'} {St : Type μ} (json : Json B T U) where
  send_back : Received B U St → Option (List (WriterCall B) × St)
  send_back none = none
  send_back (some (out, calls, st)) = elim (json.marshal out) [
    | none ↦ some (calls ++ (WriterCall.write_header status_internal_server_error ∷ []), st)
    | some b ↦ some (calls ++ (WriterCall.write b ∷ []), st)
  ]

  abbrev bad_request : St → Option (List (WriterCall B) × St)
  bad_request st = some (WriterCall.write_header status_bad_request ∷ [], st)

  -- The body of the request, where it can be read.
  unfoldable pub with_net_io :
      Option B → (T → St → Received B U St) → St → Option (List (WriterCall B) × St)
  unfolding send_back
  with_net_io body rcv st =
      let on_input : Option (List (WriterCall B) × St) = elim body [
        | none ↦ bad_request st
        | some b ↦ elim (json.unmarshal b) [
          | none ↦ bad_request st
          | some input ↦ send_back (rcv input st)
        ]
      ] in
      if json.is_empty_struct then send_back (rcv json.zero_value st) else on_input
