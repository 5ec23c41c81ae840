-- ===== src/Ops/Clients.antt =====
-- service/ops/clients.go and clientsinfo.go: the same call to several servers at once. fanInRequests is
-- a step relation: its goroutine starts one goroutine per address, each of which makes its request and
-- then sends the result or, where the deadline is over, may drop it.
mod Places
pub mod Collected
pub mod Ending
pub mod Calls
pub mod Eager
use Prim.Native.String.{String}
use ddrop.Base.{
  ℕ, zero, suc, ◌+◌, ◌<◌, ◌≡◌, Bool, true, false, Option, none, some, List, [], ◌∷◌, ◌++◌, map,
  length, get_elem?, if◌then◌else◌,
}
use ddrop.Base.Int.{ℤ, pos, leb_ℤ}
use ddrop.Requestman.Namespaces.{write}
use ddrop.Ops.Answers.{ClientResult}
use ddrop.Ops.Client.{Client, new_client, three_seconds}

pub record Clients : Type 0 where
  pub remote_addrs : List String
  pub timeout : ℤ

abbrev pub new_clients : List String → List ℤ → Clients
new_clients remote_addrs [] = record { remote_addrs = remote_addrs; timeout = three_seconds }
new_clients remote_addrs (timeout ∷ timeouts) = record {
  remote_addrs = remote_addrs;
  timeout = if leb_ℤ timeout (pos 0) then three_seconds else timeout;
}

-- The arguments of fanInRequests. `request_func` is one request to each address: no address stands
-- twice in the list, or both requests to it have the same result. `returns` tells whether the request
-- to an address ever returns.
pub record FanInRequestsArgs {ℓ} (T : Type ℓ) : Type ℓ where
  pub addrs : List String
  pub ttl : ℤ
  pub returns : String → Bool
  pub request_func : Client → ClientResult T

-- The goroutines that are not started yet, that make their request, and that stand in their select
-- with a result; the results in the channel's buffer and those that were received from it; what was
-- dropped; the goroutines that are done.
pub record FanIn {ℓ} (T : Type ℓ) : Type ℓ where
  pub to_start : List String
  pub asking : List String
  pub selecting : List (ClientResult T)
  pub buffer : List (ClientResult T)
  pub received : List (ClientResult T)
  pub dropped : List (ClientResult T)
  pub done : ℕ
  pub ctx_done : Bool
  pub closed : Bool

unfoldable pub fan_in_requests {ℓ} : {T : Type ℓ} → FanInRequestsArgs T → FanIn T
fan_in_requests args = record {
  to_start = args.addrs;
  asking = [];
  selecting = [];
  buffer = [];
  received = [];
  dropped = [];
  done = 0;
  ctx_done = false;
  closed = false;
}

module _ {ℓ} {T : Type ℓ} (args : FanInRequestsArgs T) where
  -- The request of one goroutine.
  abbrev pub asked : String → ClientResult T
  asked addr = args.request_func (new_client addr (args.ttl ∷ []))

  -- The channel has a buffer of one place for each address.
  pub data FanStep (p : FanIn T) : FanIn T → Type ℓ where
    starts :
        (addr : String) (rest : List String)
        → p.to_start ≡ addr ∷ rest
        → FanStep p (record p { to_start = rest; asking = addr ∷ p.asking })
    asks :
        (before : List String) (addr : String) (after : List String)
        → p.asking ≡ before ++ (addr ∷ after)
        → args.returns addr ≡ true
        → FanStep p (record p { asking = before ++ after; selecting = asked addr ∷ p.selecting })
    sends :
        (before : List (ClientResult T)) (r : ClientResult T) (after : List (ClientResult T))
        → p.selecting ≡ before ++ (r ∷ after)
        → length p.buffer < length args.addrs
        → FanStep p (record p {
          selecting = before ++ after;
          buffer = p.buffer ++ (r ∷ []);
          done = p.done + 1;
        })
    drops :
        (before : List (ClientResult T)) (r : ClientResult T) (after : List (ClientResult T))
        → p.selecting ≡ before ++ (r ∷ after)
        → p.ctx_done ≡ true
        → FanStep p
            (record p { selecting = before ++ after; dropped = r ∷ p.dropped; done = p.done + 1 })
    expires : p.ctx_done ≡ false → FanStep p (record p { ctx_done = true })
    closes :
        p.to_start ≡ []
        → p.done ≡ length args.addrs
        → p.closed ≡ false
        → FanStep p (record p { closed = true; ctx_done = true })
    receives :
        (r : ClientResult T) (rest : List (ClientResult T))
        → p.buffer ≡ r ∷ rest
        → FanStep p (record p { buffer = rest; received = p.received ++ (r ∷ []) })

  pub data FanRun : FanIn T → Type ℓ where
    begins : FanRun (fan_in_requests args)
    goes_on : {p q : FanIn T} → FanRun p → FanStep p q → FanRun q

module _ {ℓ} {T : Type ℓ} where
  -- collectToMap, of what is received until the channel is closed.
  collect_from :
      List (String × ClientResult T) → List (ClientResult T) → List (String × ClientResult T)
  collect_from m [] = m
  collect_from m (item ∷ items) = collect_from (write item.remote_addr item m) items

  unfoldable pub collect_to_map : List (ClientResult T) → List (String × ClientResult T)
  unfolding collect_from write
  collect_to_map items = collect_from [] items

  -- What all methods of Clients do with the method of Client that they call. The goroutine of each
  -- address calls it.
  abbrev pub composite : Clients → (String → Bool) → (Client → ClientResult T) → FanInRequestsArgs T
  composite cs returns rf = record {
    addrs = cs.remote_addrs;
    ttl = cs.timeout;
    returns = returns;
    request_func = rf;
  }

  -- The arguments of AddData: one address, picked at random; rand.Intn panics where there is none.
  unfoldable pub random_composite :
      Clients → ℕ → (String → Bool) → (Client → ClientResult T) → Option (FanInRequestsArgs T)
  random_composite cs r_index returns rf = elim (get_elem? cs.remote_addrs r_index) [
    | none ↦ none
    | some r_addr ↦
        some
          (record { addrs = r_addr ∷ []; ttl = cs.timeout; returns = returns; request_func = rf })
  ]
