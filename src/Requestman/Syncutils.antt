-- ===== src/Requestman/Syncutils.antt =====
-- service/requestman/syncutils.go: channels that are read and written until a context is done.
use ddrop.Base.{Bool, true, false, ◌&&◌, Option, none, some, List, [], ◌∷◌, ◌++◌, if◌then◌else◌}

-- What a select of safeChanIter takes: an element, the close of the channel, or the end of the context.
pub data ChanEvent {ℓ} (A : Type ℓ) : Type ℓ where
  element : A → ChanEvent A
  closed : ChanEvent A
  ctx_ends : ChanEvent A

-- The loop, over what its selects take: the state that rcv leaves, and whether the loop has returned.
unfoldable pub chan_loop {ℓ κ} :
    {A : Type ℓ} {St : Type κ} → (St → A → St × Bool) → St → List (ChanEvent A) → St × Bool
chan_loop rcv st [] = (st, false)
chan_loop rcv st (ChanEvent.closed ∷ events) = (st, true)
chan_loop rcv st (ChanEvent.ctx_ends ∷ events) = (st, true)
chan_loop rcv st (ChanEvent.element elm ∷ events) =
    let (st', goes_on) = rcv st elm in
    let rest = chan_loop rcv st' events in if goes_on then rest else (st', true)

-- safeChanIter: the same where the channel, the context and rcv are not nil. With one of them nil it
-- returns false at once, which is none.
unfoldable pub safe_chan_iter {ℓ κ} :
    {A : Type ℓ} {St : Type κ}
    → Bool
    → Bool
    → Option (St → A → St × Bool)
    → St
    → List (ChanEvent A)
    → Option (St × Bool)
unfolding chan_loop
safe_chan_iter ch_made ctx_made none st events = none
safe_chan_iter ch_made ctx_made (some rcv) st events =
    if ch_made && ctx_made then some (chan_loop rcv st events) else none

-- safeChanSend, on what the channel has got so far: `sends` tells what the select takes. The result is
-- false where the channel or the context is nil.
unfoldable pub safe_chan_send {ℓ} : {A : Type ℓ} → Bool → Bool → Bool → List A → A → List A × Bool
safe_chan_send ch_made ctx_made sends got elm =
    if ch_made && ctx_made then ((if sends then got ++ elm ∷ [] else got), true) else (got, false)
