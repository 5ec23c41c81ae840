-- ===== src/Knnc/Syncx.antt =====
-- pkg/knnc/syncx.go: the cancel signal, and the ticker that counts running goroutines. A ticker is
-- what was added to it and what was taken off; its number is the difference, which may be negative.
use ddrop.Base.{ℕ, ◌+◌, Bool, true, false}
use ddrop.Base.Int.{ℤ, sub_ℕ, ltb_ℤ}

-- A signal that NewCancelSignal did not make has no channel.
pub record CancelSignal : Type 0 where
  pub has_channel : Bool
  pub closed : Bool

abbrev pub new_cancel_signal : CancelSignal
new_cancel_signal = record { has_channel = true; closed = false }

unfoldable pub cancel : CancelSignal → CancelSignal
cancel cs = record cs { closed = true }

unfoldable pub cancelled : CancelSignal → Bool
cancelled cs = cs.closed

unfoldable signal_ok : CancelSignal → Bool
signal_ok cs = cs.has_channel

-- ActiveGoroutinesTicker
pub record Ticker : Type 0 where
  pub added : ℕ
  pub taken_off : ℕ

abbrev pub new_ticker : Ticker
new_ticker = record { added = 0; taken_off = 0 }

-- AddAwait, and a call of the function that it returns.
abbrev pub add_await : Ticker → Ticker
add_await a = record a { added = a.added + 1 }

abbrev pub done_await : Ticker → Ticker
done_await a = record a { taken_off = a.taken_off + 1 }

abbrev pub current_n : Ticker → ℤ
current_n a = sub_ℕ a.added a.taken_off

-- BlockUntilBelowN ends where this holds.
abbrev pub below_n : Ticker → ℤ → Bool
below_n a n = ltb_ℤ (current_n a) n
