-- ===== src/Api/Serving.antt =====
-- StartServer of service/api/api.go, and the state that it starts with. The listener and net/http are
-- parameters.
use Prim.Native.String.{String}
use ddrop.Base.{Bool, true, false, not, ◌&&◌, [], if◌then◌else◌}
use ddrop.Base.Int.{ℤ, pos, ltb_ℤ}
use ddrop.Api.AddrSet.{AddrSet}
use ddrop.Api.ServerWrap.{System, new_system}

pub record StartServerArgs : Type 0 where
  pub addr : String
  pub ctx_made : Bool
  pub read_timeout : ℤ
  pub write_timeout : ℤ
  pub update_frequency_addr_set : ℤ

args_ok : StartServerArgs → Bool
args_ok args =
    args.ctx_made
    && ltb_ℤ (pos 0) args.read_timeout
    && ltb_ℤ (pos 0) args.write_timeout
    && ltb_ℤ (pos 0) args.update_frequency_addr_set

-- The handle: its context is the one of the arguments.
record Handle {ℓ} (S : Type ℓ) : Type ℓ where
  pub addr_set : AddrSet
  pub rpc_server_wrap : System S

abbrev new_handle {ℓ} : {S : Type ℓ} → StartServerArgs → Handle S
new_handle args = record {
  addr_set = record {
    known_addrs = [];
    update_frequency = args.update_frequency_addr_set;
    update_time_stamp = 0;
  };
  rpc_server_wrap = new_system;
}

-- What comes first: Serve returns, with an error or not, or the context is done, and then Shutdown
-- fails or not.
data Ending : Type 0 where
  serve_returns : Bool → Ending
  ctx_done : Bool → Ending

-- The result, and whether the error is not nil; `listens` tells whether net.Listen succeeds.
start_server : StartServerArgs → (String → Bool) → Ending → Bool × Bool
unfolding args_ok
start_server args listens ending =
    if not (args_ok args)
    then (false, false)
    else if listens args.addr
    then (true, elim ending [ serve_returns err ↦ err | ctx_done err ↦ err ])
    else (false, true)
