-- ===== src/Requestman/Monitor/Listener.antt =====
-- The listener of knnMonitor.register in service/requestman/monitor.go: it stands between the one who
-- processes a request and the requester.
pub mod Forwarding
pub mod Room
use ddrop.Base.{ℕ, Bool, true, false, Option, none, some, List, [], ◌∷◌, ◌++◌, if◌then◌else◌}
use ddrop.Base.Int.{ℤ, pos}
use ddrop.Float.{Float}
use ddrop.Knnc.Items.{ScoreItem}
use ddrop.Requestman.Monitor.{TimedLinkedList, KnnMonItemAvg}
use ddrop.Requestman.Monitor.Averages.{KnnMonItem, register_mon_item, listen}
use ddrop.Requestman.Syncutils.{ChanEvent, chan_loop, safe_chan_send}

-- A result that arrives, the readings of the clock until it is sent on, and whether the select of
-- safeChanSend sends it.
pub record Arrival {ℓ κ} (F : Type ℓ) (D : Type κ) : Type (ℓ ⊔ κ) where
  pub score_items : List (ScoreItem F D)
  pub now : ℕ
  pub registered_at : ℕ
  pub merged_at : ℕ
  pub stamped_at : ℕ
  pub sends : Bool

-- The monitor's list, the stamp, the number of registrations so far, and what was sent on.
pub record Listener {ℓ κ} (F : Type ℓ) (D : Type κ) : Type (ℓ ⊔ κ) where
  pub averages : TimedLinkedList (KnnMonItemAvg F)
  pub stamp : ℕ
  pub registrations : List (KnnMonItem F)
  pub out : List (List (ScoreItem F D))

module _ {ℓ κ} {F : Type ℓ} {D : Type κ} ⦃f : Float F⦄ (float_of : ℤ → F) (floor_int : F → ℤ)
    (c : F) where
  -- The function rcv of the listener, for k results asked for; its defers run last. A panic, which a
  -- list without a head causes, is none.
  unfoldable pub receive : ℤ → Option (Listener F D) → Arrival F D → Option (Listener F D) × Bool
  unfolding listen safe_chan_send
  receive k none a = (none, false)
  receive k (some l) a =
      let item = listen float_of floor_int c a.score_items k l.stamp a.now in
      elim (register_mon_item float_of floor_int c l.averages item a.registered_at a.merged_at) [
        | none ↦ (none, false)
        | some averages ↦ (
          some (record {
            averages = averages;
            stamp = a.stamped_at;
            registrations = l.registrations ++ item ∷ [];
            out = (safe_chan_send true true a.sends l.out a.score_items).0;
          }),
          true,
        )
      ]

  -- The goroutine of register, from its first reading of the clock on; it closes the requester's pipe
  -- when its loop has returned.
  unfoldable pub register :
      TimedLinkedList (KnnMonItemAvg F)
      → ℤ
      → ℕ
      → List (ChanEvent (Arrival F D))
      → Option (Listener F D) × Bool
  unfolding chan_loop receive
  register averages k stamp events =
      chan_loop (receive k)
        (some (record { averages = averages; stamp = stamp; registrations = []; out = [] })) events
