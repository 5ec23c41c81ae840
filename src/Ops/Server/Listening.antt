-- ===== src/Ops/Server/Listening.antt =====
-- NewServer and StartListen of service/ops/server.go. A connection is named by a value of type C.
use Prim.Native.String.{String}
use ddrop.Base.{
  ◌≡◌, refl, ap, Bool, true, false, not, Option, none, some, List, [], ◌∷◌, ◌++◌, Option-cases, inl,
  inr, if◌then◌else◌, arith,
}
use ddrop.Requestman.Handle.{NewHandleArgs, args_ok, Handle, new_handle}

-- The stop function of the handle is the cancel function of its context, which is never nil here.
pub record RpcServer {ℓ} (D : Type ℓ) : Type ℓ where
  pub local_addr : String
  pub r_man_handle : Handle D

unfoldable pub new_server {ℓ} : {D : Type ℓ} → String → NewHandleArgs → Option (RpcServer D)
new_server {D} local_addr args =
    if not args.ctx_made then none else elim (new_handle {D = D} args) [
      | none ↦ none
      | some h ↦ some (record { local_addr = local_addr; r_man_handle = h })
    ]

-- A listener that was set up: the connections that it accepted and serves, the variable conn, and
-- what its stop function has done.
pub record Listener {ℓ} (C : Type ℓ) : Type ℓ where
  pub accepting : Bool
  pub serving : List C
  pub conn : Option C
  pub closed_conns : List C
  pub handle_stopped : Bool

abbrev pub start_listen {ℓ} : {C : Type ℓ} → Listener C
start_listen = record {
  accepting = true;
  serving = [];
  conn = none;
  closed_conns = [];
  handle_stopped = false;
}

module _ {ℓ} {C : Type ℓ} where
  -- A round of the goroutine: Accept gives a connection, or an error and a nil one.
  unfoldable pub accept : Listener C → Option C → Listener C
  accept l none = record l { accepting = false; conn = none }
  accept l (some cxn) = record l { conn = some cxn; serving = cxn ∷ l.serving }

  unfoldable pub accept_all : Listener C → List C → Listener C
  unfolding accept
  accept_all l [] = l
  accept_all l (cxn ∷ cxns) = accept_all (accept l (some cxn)) cxns

  unfoldable pub stop : Listener C → Listener C
  stop l =
      let closed : List C = elim l.conn [
        | none ↦ l.closed_conns
        | some cxn ↦ cxn ∷ l.closed_conns
      ] in
      record l { accepting = false; closed_conns = closed; handle_stopped = true }

  accepted :
      (l : Listener C) (cxns : List C) (last : C)
      → stop (accept_all l (cxns ++ (last ∷ []))) ≡ record {
        accepting = false;
        serving = last ∷ (accept_all l cxns).serving;
        conn = some last;
        closed_conns = last ∷ l.closed_conns;
        handle_stopped = true;
      }
  unfolding stop accept_all accept
  accepted l [] last = refl
  accepted l (cxn ∷ cxns) last = accepted (accept l (some cxn)) cxns last

  -- The stop function closes the connection that was accepted last and no other, however many are
  -- served.
  pub stop-closes :
      (cxns : List C) (last : C)
      → (stop (accept_all start_listen (cxns ++ (last ∷ [])))).closed_conns ≡ last ∷ []
  stop-closes cxns last = ap (λ l. l.closed_conns) (accepted start_listen cxns last)

handle_made {ℓ} :
    {D : Type ℓ} (args : NewHandleArgs)
    → args_ok args ≡ true
    → (h : Handle D) × (new_handle args ≡ some h)
unfolding new_handle
handle_made {D} args ok = elim (Option-cases (new_handle {D = D} args)) [
  | inl e ↦ ground arith
  | inr found ↦ found
]

ctx_made-true : (args : NewHandleArgs) → args_ok args ≡ true → args.ctx_made ≡ true
unfolding args_ok
ctx_made-true args ok = ground arith

-- Arguments that are Ok are enough for a server.
pub new_server-made {ℓ} :
    {D : Type ℓ} (local_addr : String) (args : NewHandleArgs)
    → args_ok args ≡ true
    → (s : RpcServer D) × (new_server local_addr args ≡ some s) × (s.local_addr ≡ local_addr)
unfolding new_server
new_server-made {D} local_addr args ok =
    let (h, e) = handle_made {D = D} args ok in
    (
      record { local_addr = local_addr; r_man_handle = h },
      ground (arith, e, ctx_made-true args ok),
      refl,
    )
