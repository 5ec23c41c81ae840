-- ===== src/Knnc/Pipeline.antt =====
-- pkg/knnc/pipeline.go: a pipeline is made of its stages, is fed by goroutines that forward what the
-- scanners send, is closed behind them, and is read at its end. A channel between stages is a value
-- of a type of its own; none is the nil channel.
pub mod Feeding
use ddrop.Base.{
  ℕ, ◌+◌, ◌≡◌, Bool, true, false, not, ◌&&◌, ◌||◌, Option, none, some, List, [], ◌∷◌, ◌++◌, length,
  ◌==◌, bools_ok, if◌then◌else◌,
}
use ddrop.Base.Int.{pos}
use ddrop.Knnc.Syncx.{Ticker, new_ticker, add_await, done_await, below_n}
use ddrop.Knnc.Workers.{BaseWorkerArgs, worker_ok}

-- The stages are functions of the caller, or nil. They return a channel and a success.
pub record NewPipelineArgs {ℓ} (Input Mapped Filtered Merged : Type ℓ) : Type ℓ where
  pub worker : BaseWorkerArgs
  pub map_stage : Option (Option Input → Option Mapped × Bool)
  pub filter_stage : Option (Option Mapped → Option Filtered × Bool)
  pub merge_stage : Option (Option Filtered → Option Merged × Bool)

-- The parts of a pipeline that NewPipeline fills, beside its fresh signal and ticker.
pub record Connected {ℓ} (Input Merged : Type ℓ) : Type ℓ where
  pub input : Input
  pub output : Option Merged
  pub worker : BaseWorkerArgs

abbrev is_given {ℓ} : {A : Type ℓ} → Option A → Bool
is_given none = false
is_given (some a) = true

-- The call of a stage. A nil stage does not get here.
abbrev call {ℓ} : {A B : Type ℓ} → Option (Option A → Option B × Bool) → Option A → Option B × Bool
call none input = (none, false)
call (some stage) input = stage input

module _ {ℓ} {Input Mapped Filtered Merged : Type ℓ} where
  unfoldable pub pipeline_ok : NewPipelineArgs Input Mapped Filtered Merged → Bool
  unfolding worker_ok
  pipeline_ok args = bools_ok (
      worker_ok args.worker
      ∷ is_given args.map_stage
      ∷ is_given args.filter_stage
      ∷ is_given args.merge_stage
      ∷ [])

  -- NewPipeline with the channel that it makes for the input. Behind the map stage the code tests
  -- that this channel is not nil.
  unfoldable pub new_pipeline :
      NewPipelineArgs Input Mapped Filtered Merged → Input → Option (Connected Input Merged)
  unfolding pipeline_ok
  new_pipeline args ch_scan =
      let (ch_map, map_ok) = call args.map_stage (some ch_scan) in
      let (ch_filter, filter_ok) = call args.filter_stage ch_map in
      let (ch_final, merge_ok) = call args.merge_stage ch_filter in
      if not (pipeline_ok args)
      then none
      else if not map_ok || not (is_given (some ch_scan))
      then none
      else if not filter_ok || not (is_given ch_filter)
      then none
      else if not merge_ok
      then none
      else some (record { input = ch_scan; output = ch_final; worker = args.worker })

-- ConsumeIter: the receiver changes a state of its own and tells whether it goes on; `cancelled k`
-- tells what the signal says before the receiver's k-th call. A nil receiver is none.
module _ {ℓ κ} {S : Type ℓ} {B : Type κ} (cancelled : ℕ → Bool) where
  unfoldable pub consume_loop : (S → B → S × Bool) → S → ℕ → List B → S
  consume_loop rcv s k [] = s
  consume_loop rcv s k (batch ∷ batches) =
      let (s', go) = rcv s batch in
      let rest = consume_loop rcv s' (k + 1) batches in
      if cancelled k then s else if not go then s' else rest

  unfoldable pub consume_iter : Option (S → B → S × Bool) → S → List B → S × Bool
  unfolding consume_loop
  consume_iter none s batches = (s, false)
  consume_iter (some rcv) s batches = (consume_loop rcv s 0 batches, true)

-- The faucet at one moment: whether inputChanClosedSignal was cancelled, whether WaitThenClose waits,
-- whether the input channel is closed, the scanners for which AddScanner passed its test and has not
-- started a goroutine yet, what the goroutines have still to read, what those had to read that a
-- signal ended, what was sent, whether a goroutine sent to the closed channel, and, for reference,
-- what was accepted.
pub record Faucet {ℓ} (A : Type ℓ) : Type ℓ where
  pub closed_signal : Bool
  pub closing : Bool
  pub input_closed : Bool
  pub admitted : List (List A)
  pub scanners : List (List A)
  pub abandoned : List (List A)
  pub input : List A
  pub panicked : Bool
  pub scan_tick : Ticker
  pub accepted : List (List A)

abbrev pub new_faucet {ℓ} : {A : Type ℓ} → Faucet A
new_faucet = record {
  closed_signal = false;
  closing = false;
  input_closed = false;
  admitted = [];
  scanners = [];
  abandoned = [];
  input = [];
  panicked = false;
  scan_tick = new_ticker;
  accepted = [];
}

module _ {ℓ} {A : Type ℓ} where
  -- The steps of the callers and of the goroutines. With `one_caller`, one goroutine makes all calls
  -- of AddScanner and of WaitThenClose, as in consume: no AddScanner is halfway when the signal is
  -- cancelled.
  pub data FeedStep (one_caller : Bool) (p : Faucet A) : Faucet A → Type ℓ where
    admits :
        (s : List A)
        → p.closed_signal ≡ false
        → FeedStep one_caller p (record p { admitted = s ∷ p.admitted; accepted = s ∷ p.accepted })
    registers :
        (before : List (List A)) (s : List A) (after : List (List A))
        → p.admitted ≡ before ++ s ∷ after
        → FeedStep one_caller p (record p {
          admitted = before ++ after;
          scanners = s ∷ p.scanners;
          scan_tick = add_await p.scan_tick;
        })
    sends :
        (before : List (List A)) (x : A) (rest : List A) (after : List (List A))
        → p.scanners ≡ before ++ (x ∷ rest) ∷ after
        → p.input_closed ≡ false
        → FeedStep one_caller p
            (record p { scanners = before ++ rest ∷ after; input = p.input ++ (x ∷ []) })
    panics :
        (before : List (List A)) (x : A) (rest : List A) (after : List (List A))
        → p.scanners ≡ before ++ (x ∷ rest) ∷ after
        → p.input_closed ≡ true
        → FeedStep one_caller p (record p { panicked = true })
    gives_up :
        (before : List (List A)) (x : A) (rest : List A) (after : List (List A))
        → p.scanners ≡ before ++ (x ∷ rest) ∷ after
        → FeedStep one_caller p (record p {
          scanners = before ++ after;
          abandoned = (x ∷ rest) ∷ p.abandoned;
          scan_tick = done_await p.scan_tick;
        })
    finishes :
        (before after : List (List A))
        → p.scanners ≡ before ++ [] ∷ after
        → FeedStep one_caller p
            (record p { scanners = before ++ after; scan_tick = done_await p.scan_tick })
    signals_close :
        p.closed_signal ≡ false
        → (one_caller && not (length p.admitted == 0)) ≡ false
        → FeedStep one_caller p (record p { closed_signal = true; closing = true })
    closes :
        p.closing ≡ true
        → below_n p.scan_tick (pos 1) ≡ true
        → FeedStep one_caller p (record p { closing = false; input_closed = true })

  pub data FeedRun (one_caller : Bool) (p : Faucet A) : Faucet A → Type ℓ where
    begins : FeedRun one_caller p p
    goes_on :
        {q r : Faucet A} → FeedRun one_caller p q → FeedStep one_caller q r → FeedRun one_caller p r
