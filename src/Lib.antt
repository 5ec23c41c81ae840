-- ===== src/Lib.antt =====
-- Verification library for ddrop, a k-nearest-neighbour search service in Go.
--
-- The program's parts. pkg/mathx has vectors and their distance functions. pkg/knn is a lazy
-- brute-force search over a generator of scores. pkg/knnc is the concurrent search: search spaces
-- hold containers of vectors, scanners read them into a channel, a pipeline is fed by the scanners,
-- and its stages map vectors to scores, filter the scores and merge them into rankings. pkg/timex
-- tracks latency. service/requestman keeps one collection of search spaces for each namespace, admits
-- requests into a queue, answers them by a pipeline of stages and monitors what they got.
-- service/ops serves the request manager over RPC, and its clients call several servers at once and
-- merge their answers. service/api serves all this over HTTP: it keeps the set of the addresses of the
-- RPC servers, and starts and stops an RPC server of its own.
--
-- The files. Base has the shared tests, lists, permutations and integers. Float is a parameter for
-- float64 and package math: a record of operations, with IsStrict (`<` is a strict order, as IEEE
-- comparison is also on NaN), IsWeak (of three numbers, the middle one separates the others, which
-- fails for NaN) and IsShared (a share of l items, rounded up, is between 1 and l) as named
-- hypotheses; whole_float shows that they can hold.
--
--   * Ranking: the sorted buffer of the k best items, ScoreItems.BubbleInsert and ScoreItems.Trim of
--     pkg/knnc/knnc.go, which pkg/knn/utils.go and service/ops/knnutils.go have again; Ranking/Merge
--     is about rankings of parts.
--   * Mathx/Distf, Mathx/SafeVec: pkg/mathx/distf.go and pkg/mathx/safevec.go. A method that writes
--     the cached norm returns the vector.
--   * Knn, Knn/Prefabs: pkg/knn/knn.go, utils.go and prefabs.go. A generator is the function from the
--     number of a call to its result, so it may be any stateful closure. The searches take fuel;
--     more fuel than the generator yields scores is enough.
--   * Timex: pkg/timex/latencytrack.go. Each reading of the clock is an argument.
--   * Knnc/Items, Knnc/Workers, Knnc/SearchSpace, Knnc/SearchSpaces, Knnc/Stages: knnc.go, stages.go,
--     sspace.go and sspaces.go of pkg/knnc. Containers are an interface with the instant of the call,
--     since a container expires. The scanner's loop takes fuel: more than the number of items is
--     enough. Workers that share a channel are a step relation, and MergeStage is an interleaving of
--     its workers (Knnc/Stages/Threads). Knnc/Stages/Signals has DeadlineSignal, and a worker of
--     MergeStage with what its selects take. Knnc/SearchSpaces/Loop is the life of the maintenance loop,
--     and Knnc/SearchSpaces/Scanning the producer of SearchSpaces.Scan with its scanners, as step
--     relations; there, whether a channel is read and a signal comes is up to Surroundings.
--   * Knnc/Syncx, Knnc/Pipeline: syncx.go and pipeline.go of pkg/knnc. AddScanner and WaitThenClose
--     are steps next to the goroutines that forward.
--   * Requestman/Containers, Requestman/Handle, Requestman/Namespaces: in service/requestman, the
--     containers and Handle of requestman.go (Handle/Requests has KNN), and namespaces.go.
--   * Requestman/Query: knnrequest.go. Query/Consume is the whole of consume, which
--     blocks for good on a requester that does not receive; what its pipeline delivers for a scan is an
--     argument. Query/Pipeline is a run of all stages of a request.
--   * Requestman/Queue: knnqueue.go, the fate of one request and the loop as a step relation.
--   * Requestman/Monitor, Requestman/Monitor/Averages, Requestman/Monitor/Listener: monitor.go. The
--     listener reads a list of what its selects take. Requestman/Syncutils: syncutils.go.
--   * Ops/Answers, Ops/Server: service/ops/knnutils.go, the merge of Clients.KNNEagerx in clients.go,
--     and the methods of server.go and serverinfo.go on the handle; Ops/Server/Listening has NewServer
--     and StartListen.
--   * Ops/Client, Ops/Clients: client.go and clientinfo.go, clients.go and clientsinfo.go of
--     service/ops. Dialling and net/rpc are a parameter, Remote, for each method of the server,
--     also whether a call ever returns.
--     fanInRequests is a step relation, of which Ops/Clients/Ending tells how it ends.
--   * Api: service/api. Api/NetIo is withNetIO, with encoding/json as a parameter and the calls of the
--     ResponseWriter as a list; Api/Convert the types and conversions of ioconv.go; Api/AddrSet the set
--     of addresses of handle.go; Api/Routes the endpoints of routes.go, as the receivers that withNetIO
--     runs; Api/Serving StartServer of api.go. Api/ServerWrap is rpcServerWrap with the handlers
--     RPCServerStart and RPCServerStop, whose sections under a lock are the steps.
--   * Tests: the theorems at concrete inputs.
--
-- Where goroutines are steps, a lock is the atomicity of a step, and a signal is a step that may come
-- at any time where the code selects on it. A request's run of the stages is taken to its end with no
-- signal. That a goroutine of the queue is counted before the loop goes on, and that one goroutine
-- makes all calls of a pipeline, are conditions of theorems, as flags of the step relations.
--
-- Not modelled: mutexes (an operation or a section under a lock is one step), the overflow of int and
-- of time.Duration but for the difference of two times, ctxDone (its callers have its result as an
-- argument), the table of routes, and the I/O of net, net/http, net/rpc and encoding/json, which are
-- parameters. The order in which Go walks a map is the order of a list.
pub mod Api
pub mod Base
pub mod Float
pub mod Knn
pub mod Knnc
pub mod Mathx
pub mod Ops
pub mod Ranking
pub mod Requestman
pub mod Tests
pub mod Timex
