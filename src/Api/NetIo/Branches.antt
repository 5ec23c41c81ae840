-- ===== src/Api/NetIo/Branches.antt =====
-- What withNetIO does on each of its branches.
use ddrop.Base.{
  ◌≡◌, refl, Option, none, some, List, [], ◌∷◌, ◌++◌, inl, inr, if◌then◌else◌, arith, Bool-cases,
  Option-cases,
}
use ddrop.Api.NetIo.{
  WriterCall, status_bad_request, status_internal_server_error, Json, Received, with_net_io,
  send_back,
}

module _ {ℓ κ λ'} {B : Type ℓ} {T : Type κ} {U : Type λ'} (json : Json B T U) where
  -- The input of the receiver: none where there is none that can be read and decoded.
  abbrev pub input_of : Option B → Option T
  input_of body =
      let decoded : Option T = elim body [ none ↦ none | some b ↦ json.unmarshal b ] in
      if json.is_empty_struct then some json.zero_value else decoded

  -- The last call of the writer.
  abbrev pub last_call : U → WriterCall B
  last_call out = elim (json.marshal out) [
    | none ↦ WriterCall.write_header status_internal_server_error
    | some b ↦ WriterCall.write b
  ]

module _ {ℓ κ λ' μ} {B : Type ℓ} {T : Type κ} {U : Type λ'} {St : Type μ} (json : Json B T U) where
  -- What withNetIO makes of the receiver's result.
  abbrev pub answered : Received B U St → Option (List (WriterCall B) × St)
  answered none = none
  answered (some (out, calls, st)) = some (calls ++ (last_call json out ∷ []), st)

  send_back-eq : (r : Received B U St) → send_back json r ≡ answered r
  unfolding send_back
  send_back-eq none = refl
  send_back-eq (some (out, calls, st)) = ground arith

  -- withNetIO reads no body where the input is an empty struct; where it reads one and cannot read or
  -- decode it, it calls the writer once, with the status of a bad request, and leaves the state alone;
  -- otherwise it runs the receiver once, panics if that does, and calls the writer once more behind the
  -- receiver's calls: with the encoded result, or with the status of an internal error.
  pub with_net_io_lem :
      (body : Option B) (rcv : T → St → Received B U St) (st : St)
      → with_net_io json body rcv st
        ≡ (elim (input_of json body) as (λ x. Option (List (WriterCall B) × St)) [
          | none ↦ some (WriterCall.write_header status_bad_request ∷ [], st)
          | some input ↦ answered (rcv input st)
        ])
  unfolding with_net_io
  with_net_io_lem body rcv st = elim (Bool-cases json.is_empty_struct) [
    | inl e ↦ simp e (send_back-eq (rcv json.zero_value st))
    | inr e ↦ elim (Option-cases body) [
      | inl e' ↦ simp (e, e')
      | inr (b, e') ↦ elim (Option-cases (json.unmarshal b)) [
        | inl e'' ↦ simp (e, e', e'')
        | inr (input, e'') ↦ simp (e, e', e'') (send_back-eq (rcv input st))
      ]
    ]
  ]
