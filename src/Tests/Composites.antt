-- ===== src/Tests/Composites.antt =====
-- Runs of composite calls to one server.
use Prim.Native.String.{String}
use mathlib.Core.List.Perm
use ddrop.Base.{
  ℕ, ◌+◌, ◌*◌, ◌≤◌, ◌≡◌, refl, Bool, true, false, not, ◌&&◌, ◌||◌, some, List, [], ◌∷◌, map, Perm,
  arith,
}
use ddrop.Base.Int.{pos, ltb_ℤ}
use ddrop.Float.{whole_float, ℕ-IsStrict}
use ddrop.Ranking.TopK.{TopK}
use ddrop.Requestman.Query.{KnnArgs, KnnMethod}
use ddrop.Requestman.Storage.{among}
use ddrop.Ops.Answers.{KnnResp, ClientResult, SortItem, Found, sort_slot, extract, knn_eagerx}
use ddrop.Ops.Merge.{all_offers}
use ddrop.Ops.Client.{Remote, time_sub}
use ddrop.Ops.Clients.{
  new_clients, FanInRequestsArgs, FanIn, fan_in_requests, asked, FanStep, FanRun,
}
use ddrop.Ops.Clients.Collected.{IsFannedIn, FanRun-IsFannedIn}
use ddrop.Ops.Clients.Ending.{fan_steps, FanGoesOn, FanRun-ends}
use ddrop.Ops.Clients.Calls.{clients_knn_eager}
use ddrop.Ops.Clients.Eager.{FanRun-TopK}
use ddrop.Api.AddrSet.{AddrSet, addrs, maintain, pings, addrs_maintaned_locked}
use ddrop.Api.AddrSet.Maintained.{holds, addrs_of, alive, addrs_maintaned_locked-holds}
use ddrop.Api.Convert.{KnnArgsMany, KnnArgsPartial, export_knn}
use ddrop.Api.Convert
use ddrop.Api.Routes.{Visit, visit}
use ddrop.Api.Routes.Knn.{call_of, rpc_knn_eager}
use ddrop.Api.Routes.Knn.Ranked.{IsWhole, AllRanked, rpc_knn_eager-AllRanked}

-- What is received of a call to one address, and the run of its goroutines.
module _ {ℓ} {T : Type ℓ} (args : FanInRequestsArgs T) where
  abbrev one_done : FanIn T
  one_done = record {
    to_start = [];
    asking = [];
    selecting = [];
    buffer = [];
    received = asked args ":3000" ∷ [];
    dropped = [];
    done = 1;
    ctx_done = true;
    closed = true;
  }

  one_run : args.addrs ≡ ":3000" ∷ [] → args.returns ":3000" ≡ true → FanRun args one_done
  unfolding fan_in_requests
  one_run e back =
      FanRun.goes_on
        (FanRun.goes_on
          (FanRun.goes_on
            (FanRun.goes_on (FanRun.goes_on FanRun.begins (FanStep.starts ":3000" [] e))
              (FanStep.asks [] ":3000" [] refl back))
            (FanStep.sends [] (asked args ":3000") [] refl (ground (arith, e))))
          (FanStep.closes refl (ground (arith, e)) refl))
        (FanStep.receives (asked args ":3000") [] refl)

abbrev known : List String
known = ":3000" ∷ []

-- The server answers everything.
abbrev remote : Remote (KnnArgs ℕ) (KnnResp ℕ)
remote = record {
  dials = λ addr timeout. true;
  returns = λ addr. true;
  serves = λ addr method args resp. (
    false,
    record {
      recv_time = 9;
      payload = record { knn = some (record { vec = 4 ∷ []; score = 4 } ∷ []); ok = true };
    },
  );
}

abbrev request : KnnArgs ℕ
request = record {
  namespace = "cats";
  priority = pos 1;
  query_vec = 3 ∷ [];
  knn_method = KnnMethod.euclidean_method;
  ascending = true;
  k = pos 1;
  extent = 1;
  accept = 0;
  reject = 9;
  ttl = pos 9;
  monitor = false;
}

abbrev eager : FanInRequestsArgs (KnnResp ℕ)
eager = clients_knn_eager (new_clients known []) (λ addr. 5) remote request

FanRun-TopK_example :
    (kept : List (SortItem ℕ (Found ℕ))) × TopK sort_slot true 1
      (all_offers (map (asked eager) known))
      kept
    × (knn_eagerx (pos 1) true (one_done eager).received ≡ some (extract kept))
FanRun-TopK_example =
    FanRun-TopK ℕ-IsStrict remote (new_clients known []) request (λ addr. 5) (one_done eager)
      (one_run eager refl refl) refl refl refl

FanRun-IsFannedIn_example : IsFannedIn eager (one_done eager)
FanRun-IsFannedIn_example = FanRun-IsFannedIn eager (one_run eager refl refl)

FanRun-ends_example :
    (fan_steps eager (one_run eager refl refl) ≤ 4 * 1 + 2) × FanGoesOn eager (one_done eager)
FanRun-ends_example = FanRun-ends eager (one_run eager refl refl)

-- A server that does not answer its ping.
abbrev silent : Remote Bool Bool
silent = record {
  dials = λ addr timeout. false;
  returns = λ addr. true;
  serves = λ addr method args resp. (true, resp);
}

abbrev addr_set : AddrSet
addr_set = record {
  known_addrs = (":3000", true) ∷ [];
  update_frequency = pos 10;
  update_time_stamp = 4;
}

abbrev ping_it : FanInRequestsArgs Bool
ping_it = pings silent addr_set (λ addr. 20)

pings_one : ping_it.addrs ≡ known
unfolding addrs
pings_one = refl

addrs_maintaned_locked-holds_example :
    let (s', l) =
      addrs_maintaned_locked addr_set 20 21 (one_done ping_it).received (":3001" ∷ []) in
    let early = ltb_ℤ (time_sub 20 4) (pos 10) in
    let stays =
      early
      || (not (among (addrs_of (one_done ping_it).received) ":3000")
          || alive silent addr_set (λ addr. 20) ":3000") in
    (holds s'.known_addrs ":3000"
      ≡ among (":3001" ∷ []) ":3000" || (holds addr_set.known_addrs ":3000" && stays))
    × (among l ":3000" ≡ holds s'.known_addrs ":3000")
addrs_maintaned_locked-holds_example =
    addrs_maintaned_locked-holds silent addr_set (λ addr. 20) (one_done ping_it) 20 21
      (":3001" ∷ []) ":3000" (one_run ping_it pings_one refl) refl refl

-- Two query vectors over HTTP.
abbrev two_vecs : KnnArgsMany ℕ
two_vecs = record {
  query_vecs = (3 ∷ []) ∷ ((5 ∷ []) ∷ []);
  args = record {
    namespace = "cats";
    priority = pos 1;
    knn_method = KnnMethod.euclidean_method;
    ascending = true;
    k = pos 1;
    extent = 1;
    accept = 0;
    reject = 9;
    ttl = pos 9;
    monitor = false;
  };
}

abbrev all_received : ℕ → FanInRequestsArgs (KnnResp ℕ) → List (ClientResult (KnnResp ℕ))
all_received i args = asked args ":3000" ∷ []

abbrev clock : ℕ → String → ℕ
clock i addr = 5

whole :
    (i : ℕ) (args : KnnArgs ℕ)
    → IsWhole remote clock all_received
        (call_of remote clock all_received known i args)
        (all_received i (call_of remote clock all_received known i args))
whole i args =
    let call = call_of remote clock all_received known i args in
    record {
      fanned = one_done call;
      run = one_run call refl refl;
      closed = refl;
      empty = refl;
      whole = refl;
      got = refl;
    }

-- The set has not been maintained for less than its update frequency.
abbrev lately : Visit
lately = record { time = 5; later = 6; answers = [] }

lately-known : (visit addr_set lately []).1 ≡ known
unfolding addrs_maintaned_locked maintain addrs
lately-known = refl

rpc_knn_eager-AllRanked_example :
    (answer : List (Convert.KnnResp ℕ)) × (resps : List (Convert.KnnResp ℕ)) × (rpc_knn_eager remote
        clock all_received {B = String}
        (λ l. l)
        lately
        two_vecs
        addr_set
      ≡ some (answer, [], (visit addr_set lately []).0))
    × Perm answer resps
    × AllRanked remote clock all_received known 0 (export_knn two_vecs) resps
rpc_knn_eager-AllRanked_example =
    rpc_knn_eager-AllRanked remote clock all_received ℕ-IsStrict known whole 1 (λ l. l) lately
      two_vecs addr_set refl lately-known (λ l. Perm.refl l)
