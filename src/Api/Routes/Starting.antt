-- ===== src/Api/Routes/Starting.antt =====
-- RPCServerStart of service/api/routes.go before its first section under a lock, and the handlers'
-- way from there on.
use ddrop.Base.{◌≡◌, Bool, true, not, none, some, [], ◌∷◌, if◌then◌else◌, arith}
use ddrop.Requestman.Handle.{args_ok}
use ddrop.Ops.Server.Listening.{RpcServer, new_server, new_server-made}
use ddrop.Api.AddrSet.{AddrSet}
use ddrop.Api.Convert.{RpcServerStartArgs, export_handle}
use ddrop.Api.NetIo.{status_bad_request, status_internal_server_error}
use ddrop.Api.ServerWrap.{Status, Place}
use ddrop.Api.Routes.{Visit, visit}

abbrev no_status : Status
no_status = record { code = 0; msg = "" }

-- The place of the request before its first section, and the set of addresses. `listens` tells whether
-- StartListen of a server succeeds.
unfoldable pub rpc_server_start {ℓ} :
    {D : Type ℓ}
    → Bool
    → (RpcServer D → Bool)
    → Visit
    → RpcServerStartArgs
    → AddrSet
    → Place (RpcServer D) × AddrSet
rpc_server_start {D} ctx_made listens v opts s =
    let conv = export_handle opts.cfg ctx_made in
    if not (args_ok conv)
    then (Place.answered (some status_bad_request) no_status, s)
    else elim (new_server {D = D} opts.addr conv) [
      | none ↦ (Place.answered (some status_internal_server_error) no_status, s)
      | some new ↦
          if not (listens new)
          then (Place.answered (some status_internal_server_error) no_status, s)
          else (Place.start_first new, (visit s v (opts.addr ∷ [])).0)
    ]

module _ {ℓ} {D : Type ℓ} (ctx_made : Bool) (listens : RpcServer D → Bool) (v : Visit)
    (opts : RpcServerStartArgs) (s : AddrSet) where
  -- With a configuration that is Ok, a server for the address is made; the request goes on to the wrap
  -- with it, and the address is added to the set, just where it listens; otherwise the request is
  -- answered with an internal error and nothing is added.
  pub rpc_server_start_lem :
      args_ok (export_handle opts.cfg ctx_made) ≡ true
      → (new : RpcServer D) × (new.local_addr ≡ opts.addr)
        × (rpc_server_start ctx_made listens v opts s ≡ (
            if listens new
            then (Place.start_first new, (visit s v (opts.addr ∷ [])).0)
            else (Place.answered (some status_internal_server_error) no_status, s)))
  unfolding rpc_server_start
  rpc_server_start_lem ok =
      let (new, made, addressed) =
        new_server-made {D = D} opts.addr (export_handle opts.cfg ctx_made) ok in
      (new, addressed, ground (arith, ok, made))
