-- ===== src/Ops/Client.antt =====
-- service/ops/client.go and clientinfo.go: the calls of one server. What the net and net/rpc do is a
-- parameter, for each method of the server.
use Prim.Native.String.{String}
use ddrop.Base.{
  ℕ, ◌-◌, ◌^◌, Bool, true, false, Option, none, List, [], ◌∷◌, if◌then◌else◌, leb, min,
}
use ddrop.Base.Int.{ℤ, pos, leb_ℤ, minus}
use ddrop.Float.{Float}
use ddrop.Requestman.Query.{KnnArgs}
use ddrop.Requestman.Monitor.{KnnMonItemAvg}
use ddrop.Requestman.Monitor.Averages.{no_average}
use ddrop.Ops.Answers.{KnnResp, ClientResult}
use ddrop.Ops.Server.{
  AddDataArgs, SSpaceDimResp, SSpaceLenResp, SSpaceCapResp, KnnLatencyResp, no_resp,
}

pub record Client : Type 0 where
  pub remote_addr : String
  pub timeout : ℤ

-- time.Second * 3
abbrev pub three_seconds : ℤ
three_seconds = pos 3000000000

-- The timeouts are the variadic argument.
abbrev pub new_client : String → List ℤ → Client
new_client remote_addr [] = record { remote_addr = remote_addr; timeout = three_seconds }
new_client remote_addr (timeout ∷ timeouts) = record {
  remote_addr = remote_addr;
  timeout = if leb_ℤ timeout (pos 0) then three_seconds else timeout;
}

pub record SArgs {ℓ} (A : Type ℓ) : Type ℓ where
  pub send_time : ℕ
  pub payload : A

abbrev pub new_s_args {ℓ} : {A : Type ℓ} → A → ℕ → SArgs A
new_s_args payload now = record { send_time = now; payload = payload }

-- A time is a number of nanoseconds since the zero time.
pub record SResp {ℓ} (T : Type ℓ) : Type ℓ where
  pub recv_time : ℕ
  pub payload : T

-- The difference of two times: a Duration, which holds at the ends of its range.
abbrev pub time_sub : ℕ → ℕ → ℤ
time_sub a b = if leb b a then pos (min (a - b) (2 ^ 63 - 1)) else minus (min (b - a) (2 ^ 63))

-- Whether an address can be dialled within a timeout, what the call of a method there does to the
-- response that it is given, and whether it fails; and whether a call to an address, with its dial,
-- ever returns: the timeout bounds the dial, and nothing the call.
pub record Remote {ℓ κ} (A : Type ℓ) (T : Type κ) : Type (ℓ ⊔ κ) where
  pub dials : String → ℤ → Bool
  pub returns : String → Bool
  pub serves : String → String → SArgs A → SResp T → Bool × SResp T

module _ {ℓ κ} {A : Type ℓ} {T : Type κ} (remote : Remote A T) where
  -- The error of call, and the response after it.
  unfoldable pub call : Client → String → SArgs A → SResp T → Bool × SResp T
  call c method args resp =
      if remote.dials c.remote_addr c.timeout
      then remote.serves c.remote_addr method args resp
      else (true, resp)

  -- What all methods of Client do around their call; the zero value of T is given.
  unfoldable pub request : Client → String → T → A → ℕ → ClientResult T
  unfolding call
  request c method nothing args now =
      let send = new_s_args args now in
      let (n_err, resp) = call c method send (record { recv_time = 0; payload = nothing }) in
      record {
        remote_addr = c.remote_addr;
        net_failed = n_err;
        payload = resp.payload;
        network_latency = time_sub resp.recv_time send.send_time;
      }

-- Ping
abbrev pub ping : Remote Bool Bool → Client → ℕ → ClientResult Bool
ping remote c now = request remote c "Server.Ping" false false now

pub record KnnLatencyArgs : Type 0 where
  pub key : String
  pub period : ℤ

pub record KnnMonArgs : Type 0 where
  pub start : ℕ
  pub end : ℕ

-- CInfo: the methods on metadata.
abbrev pub c_s_space_namespaces :
    Remote Bool (Option (List String)) → Client → ℕ → ClientResult (Option (List String))
c_s_space_namespaces remote c now = request remote c "SInfo.SSpaceNamespaces" none false now

abbrev pub c_s_space_namespace : Remote String Bool → Client → String → ℕ → ClientResult Bool
c_s_space_namespace remote c key now = request remote c "SInfo.SSpaceNamespace" false key now

abbrev pub c_s_space_dim :
    Remote String SSpaceDimResp → Client → String → ℕ → ClientResult SSpaceDimResp
c_s_space_dim remote c key now =
    request remote c "SInfo.SSpaceDim" (record { lookup_ok = false; dim = 0 }) key now

abbrev pub c_s_space_len :
    Remote String SSpaceLenResp → Client → String → ℕ → ClientResult SSpaceLenResp
c_s_space_len remote c key now =
    request remote c "SInfo.SSpaceLen" (record { lookup_ok = false; n_s_spaces = 0; n_vecs = 0 })
      key now

abbrev pub c_s_space_cap :
    Remote String SSpaceCapResp → Client → String → ℕ → ClientResult SSpaceCapResp
c_s_space_cap remote c key now =
    request remote c "SInfo.SSpaceCap" (record { lookup_ok = false; cap = 0 }) key now

abbrev pub c_knn_latency :
    Remote KnnLatencyArgs KnnLatencyResp → Client → KnnLatencyArgs → ℕ → ClientResult KnnLatencyResp
c_knn_latency remote c args now =
    request remote c "SInfo.KNNLatency"
      (record { lookup_ok = false; queue = pos 0; query = pos 0; bounds_ok = false }) args now

module _ {ℓ} {F : Type ℓ} ⦃f : Float F⦄ where
  -- AddData; a nil slice is none.
  abbrev pub client_add_data :
      Remote (Option (List (AddDataArgs F))) (Option (List Bool))
      → Client
      → Option (List (AddDataArgs F))
      → ℕ
      → ClientResult (Option (List Bool))
  client_add_data remote c args now = request remote c "Server.AddData" none args now

  -- KNNEager
  abbrev pub client_knn_eager :
      Remote (KnnArgs F) (KnnResp F) → Client → KnnArgs F → ℕ → ClientResult (KnnResp F)
  client_knn_eager remote c args now = request remote c "Server.KNNEager" no_resp args now

  abbrev pub c_knn_monitor :
      Remote KnnMonArgs (KnnMonItemAvg F) → Client → KnnMonArgs → ℕ → ClientResult (KnnMonItemAvg F)
  c_knn_monitor remote c args now = request remote c "SInfo.KNNMonitor" no_average args now
