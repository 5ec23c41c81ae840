-- ===== src/Requestman/Monitor/Listener/Forwarding.antt =====
-- What the monitor's listener passes on and what it registers.
use ddrop.Base.{
  ℕ, suc, ◌≡◌, refl, sym, ap, ◌∙◌, Bool, true, false, Option, some, List, [], ◌∷◌, ◌++◌, map,
  if◌then◌else◌,
}
use mathlib.Core.List.{append_assoc, append-nil}
use ddrop.Base.Int.{ℤ, pos}
use ddrop.Float.{Float}
use ddrop.Knnc.Items.{ScoreItem}
use ddrop.Requestman.Monitor.{TimedLinkedList, KnnMonItemAvg}
use ddrop.Requestman.Monitor.Averages.{KnnMonItem, listen}
use ddrop.Requestman.Monitor.Listener.{Arrival, Listener, receive, register}
use ddrop.Requestman.Monitor.Listener.Room.{register_mon_item-made}
use ddrop.Requestman.Syncutils.{ChanEvent, chan_loop, safe_chan_send}

module _ {ℓ κ} {F : Type ℓ} {D : Type κ} where
  -- The results that the selects of safeChanSend send on.
  abbrev pub sent_on : List (Arrival F D) → List (List (ScoreItem F D))
  sent_on [] = []
  sent_on (a ∷ arrivals) = if a.sends then a.score_items ∷ sent_on arrivals else sent_on arrivals

  abbrev pub arriving : List (Arrival F D) → List (ChanEvent (Arrival F D))
  arriving arrivals = map ChanEvent.element arrivals

  -- The pipe is closed behind the results, or not yet.
  abbrev pub ending : Bool → List (ChanEvent (Arrival F D))
  ending true = ChanEvent.closed ∷ []
  ending false = []

module _ {ℓ κ} {F : Type ℓ} {D : Type κ} ⦃f : Float F⦄ (float_of : ℤ → F) (floor_int : F → ℤ)
    (c : F) (k : ℤ) where
  -- One registration for each result, with the time since the one before.
  abbrev pub registrations_of : ℕ → List (Arrival F D) → List (KnnMonItem F)
  registrations_of stamp [] = []
  registrations_of stamp (a ∷ arrivals) =
      listen float_of floor_int c a.score_items k stamp a.now
      ∷ registrations_of a.stamped_at arrivals

  abbrev rcv : Option (Listener F D) → Arrival F D → Option (Listener F D) × Bool
  rcv = receive float_of floor_int c k

  -- What the loop leaves, from any state.
  abbrev Forwarded :
      Listener F D → List (Arrival F D) → List (ChanEvent (Arrival F D)) → Bool → Type (ℓ ⊔ κ)
  Forwarded l arrivals events returned =
      (r : Listener F D) × (chan_loop rcv (some l) events ≡ (some r, returned))
      × (r.out ≡ l.out ++ sent_on arrivals)
      × (r.registrations ≡ l.registrations ++ registrations_of l.stamp arrivals)

  sent-one :
      (out : List (List (ScoreItem F D))) (a : Arrival F D) (b : Bool)
      → a.sends ≡ b
      → (if a.sends then out ++ a.score_items ∷ [] else out) ≡ out ++ sent_on (a ∷ [])
  sent-one out a true e = rw e refl
  sent-one out a false e = rw e (sym (append-nil out))

  sent_on-cons :
      (a : Arrival F D) (arrivals : List (Arrival F D)) (b : Bool)
      → a.sends ≡ b
      → sent_on (a ∷ []) ++ sent_on arrivals ≡ sent_on (a ∷ arrivals)
  sent_on-cons a arrivals true e = rw e refl
  sent_on-cons a arrivals false e = rw e refl

  -- One result.
  receive-made :
      (l : Listener F D) (a : Arrival F D) (n : ℕ)
      → l.averages.max_chain_link_n ≡ pos (suc n)
      → (r : Listener F D) × (rcv (some l) a ≡ (some r, true))
        × (r.averages.max_chain_link_n ≡ pos (suc n))
        × (r.stamp ≡ a.stamped_at)
        × (r.out ≡ l.out ++ sent_on (a ∷ []))
        × (r.registrations ≡ l.registrations ++ registrations_of l.stamp (a ∷ []))
  unfolding receive
  receive-made l a n e =
      let item = listen float_of floor_int c a.score_items k l.stamp a.now in
      let (averages, made, room) =
        register_mon_item-made float_of floor_int c l.averages item a.registered_at a.merged_at n
          e in
      (
        record {
          averages = averages;
          stamp = a.stamped_at;
          registrations = l.registrations ++ item ∷ [];
          out = (safe_chan_send true true a.sends l.out a.score_items).0;
        },
        rw (receive, made) refl,
        room,
        refl,
        sent-one l.out a a.sends refl,
        refl,
      )

  module _ (last : List (ChanEvent (Arrival F D))) (returned : Bool)
      (at_last : (st : Option (Listener F D)) → chan_loop rcv st last ≡ (st, returned)) where
    step-loop :
        (l r : Listener F D) (a : Arrival F D) (events : List (ChanEvent (Arrival F D)))
        → rcv (some l) a ≡ (some r, true)
        → chan_loop rcv (some l) (ChanEvent.element a ∷ events) ≡ chan_loop rcv (some r) events
    unfolding chan_loop
    step-loop l r a events e = simp e

    loop-Forwarded :
        (l : Listener F D) (arrivals : List (Arrival F D)) (n : ℕ)
        → l.averages.max_chain_link_n ≡ pos (suc n)
        → Forwarded l arrivals (arriving arrivals ++ last) returned
    loop-Forwarded l [] n e =
        (l, at_last (some l), sym (append-nil l.out), sym (append-nil l.registrations))
    loop-Forwarded l (a ∷ arrivals) n e =
        let (m, made, room, stamped, out, registered) = receive-made l a n e in
        let (r, rest, out', registered') = loop-Forwarded m arrivals n room in
        (
          r,
          step-loop l m a (arriving arrivals ++ last) made ∙ rest,
          out'
              ∙ ap (λ o. o ++ sent_on arrivals) out
              ∙ append_assoc l.out (sent_on (a ∷ [])) (sent_on arrivals)
              ∙ ap (λ o. l.out ++ o) (sent_on-cons a arrivals a.sends refl),
          registered'
              ∙ ap (λ o. o ++ registrations_of m.stamp arrivals) registered
              ∙ append_assoc l.registrations (registrations_of l.stamp (a ∷ []))
                  (registrations_of m.stamp arrivals)
              ∙ ap
                  (λ t.
                    l.registrations
                    ++ (registrations_of l.stamp (a ∷ []) ++ registrations_of t arrivals))
                  stamped,
        )

  at_ending :
      (closes : Bool) (st : Option (Listener F D)) → chan_loop rcv st (ending closes) ≡ (st, closes)
  unfolding chan_loop
  at_ending true st = refl
  at_ending false st = refl

  -- A monitor whose list has room for a link, as the arguments of a handle demand, does not panic on
  -- any results: while they arrive, and when their pipe is closed, its listener has sent on, in order
  -- and unchanged, just those that the selects send, and has registered each of them once, also an
  -- empty one, with the time since the one before. It returns when the pipe is closed.
  pub register-forwards :
      (averages : TimedLinkedList (KnnMonItemAvg F)) (stamp n : ℕ) (arrivals : List (Arrival F D))
      (closes : Bool)
      → averages.max_chain_link_n ≡ pos (suc n)
      → (r : Listener F D) × (register float_of floor_int c averages k stamp
            (arriving arrivals ++ ending closes)
          ≡ (some r, closes))
        × (r.out ≡ sent_on arrivals)
        × (r.registrations ≡ registrations_of stamp arrivals)
  unfolding register
  register-forwards averages stamp n arrivals closes e =
      loop-Forwarded (ending closes) closes (at_ending closes)
        (record { averages = averages; stamp = stamp; registrations = []; out = [] }) arrivals n e
