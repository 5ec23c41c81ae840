-- ===== src/Api/AddrSet.antt =====
-- addrSet of service/api/handle.go: the addresses of the RPC servers, which are pinged from time to
-- time. The map is an association list with each key once, of which the code reads the keys only.
pub mod Maintained
use Prim.Native.String.{String}
use ddrop.Base.{ℕ, ◌≡◌, Bool, true, false, List, [], ◌∷◌, map, if◌then◌else◌}
use ddrop.Base.Int.{ℤ, pos, ltb_ℤ}
use ddrop.Requestman.Namespaces.{write, remove}
use ddrop.Ops.Answers.{ClientResult}
use ddrop.Ops.Client.{Remote, time_sub}
use ddrop.Ops.Clients.{new_clients, FanInRequestsArgs}
use ddrop.Ops.Clients.Calls.{clients_ping}

pub record AddrSet : Type 0 where
  pub known_addrs : List (String × Bool)
  pub update_frequency : ℤ
  pub update_time_stamp : ℕ

pub put_addrs : List (String × Bool) → List String → List (String × Bool)
unfolding write
put_addrs m [] = m
put_addrs m (addr ∷ new_addrs) = put_addrs (write addr true m) new_addrs

abbrev pub keys_of : List (String × Bool) → List String
keys_of m = map (λ p. p.0) m

unfoldable pub addrs : AddrSet → List String → AddrSet × List String
unfolding put_addrs
addrs s new_addrs =
    let m = put_addrs s.known_addrs new_addrs in (record s { known_addrs = m }, keys_of m)

-- The loop of maintain over the answers to the pings.
pub keep_alive : List (String × Bool) → List (ClientResult Bool) → List (String × Bool)
unfolding write remove
keep_alive m [] = m
keep_alive m (resp ∷ resps) =
    keep_alive (if resp.payload then write resp.remote_addr true m else remove resp.remote_addr m)
      resps

-- The pings of maintain.
abbrev pub pings : Remote Bool Bool → AddrSet → (String → ℕ) → FanInRequestsArgs Bool
pings remote s now = clients_ping (new_clients (addrs s []).1 []) now remote

-- maintain at the time `now`, with the answers that it receives; it pings no server before the update
-- frequency has gone by. `later` is its second reading of the clock.
unfoldable pub maintain : AddrSet → ℕ → ℕ → List (ClientResult Bool) → AddrSet
unfolding keep_alive addrs
maintain s now later resps =
    if ltb_ℤ (time_sub now s.update_time_stamp) s.update_frequency
    then s
    else record s { known_addrs = keep_alive s.known_addrs resps; update_time_stamp = later }

-- addrsMaintanedLocked; the mutex makes it one step.
unfoldable pub addrs_maintaned_locked :
    AddrSet → ℕ → ℕ → List (ClientResult Bool) → List String → AddrSet × List String
unfolding maintain addrs
addrs_maintaned_locked s now later resps new_addrs = addrs (maintain s now later resps) new_addrs
