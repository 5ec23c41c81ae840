-- ===== src/Timex/Window.antt =====
-- The average: over all links of the window, though the traversal stops at the first one outside.
use ddrop.Base.{
  ℕ, ◌+◌, ◌≤◌, ◌<◌, length, ◌≡◌, refl, ap, ◌∙◌, ◌==◌, inl, inr, Bool, false, List, [], ◌∷◌, arith,
  if◌then◌else◌, Bool-cases,
}
use ddrop.Base.Int.{ℤ, pos, sub_ℕ, leb_ℤ, ◌+ℤ◌, ◌*ℤ◌, ◌/ℤ◌}
use ddrop.Timex.{
  Link, LatencyTracker, Sums, add_link, maintain, register, register_head, traverse, quotient,
  average,
}
use ddrop.Timex.Chain.{Spaced, IsValid, maintain-IsValid}

abbrev in_window : ℕ → ℤ → Link → Bool
in_window stamp period l = leb_ℤ (sub_ℕ stamp l.created) period

-- The links created in the period before the stamp, or after the stamp.
pub window : ℕ → ℤ → List Link → List Link
window stamp period [] = []
window stamp period (l ∷ links) =
    let rest = window stamp period links in if in_window stamp period l then l ∷ rest else rest

-- The sums over all links of a list.
pub totals : Sums → List Link → Sums
totals s [] = s
totals s (l ∷ links) = totals (add_link s l) links

abbrev pub no_sums : Sums
no_sums = record { cumulative_wait = pos 0; n_waiters = 0 }

in_window_mono :
    (stamp : ℕ) (period : ℤ) (a b : Link)
    → b.created ≤ a.created
    → in_window stamp period a ≡ false
    → in_window stamp period b ≡ false
in_window_mono stamp period a b h out = ground arith

-- Behind a link outside the window all links are outside.
window_end :
    (size stamp : ℕ) (period : ℤ) (a : Link) (links : List Link)
    → Spaced size (a ∷ links)
    → in_window stamp period a ≡ false
    → window stamp period links ≡ []
unfolding window
window_end size stamp period a [] h out = refl
window_end size stamp period a (b ∷ links) h out =
    let out_b = in_window_mono stamp period a b (omega arith) out in
    rw out_b (window_end size stamp period b links h.1 out_b)

Spaced-tail :
    (size : ℕ) (a : Link) (links : List Link) → Spaced size (a ∷ links) → Spaced size links
Spaced-tail size a [] h = tt
Spaced-tail size a (b ∷ links) h = h.1

traverse-eq-totals :
    (size stamp : ℕ) (period : ℤ) (s : Sums) (links : List Link)
    → Spaced size links
    → traverse stamp period s links ≡ totals s (window stamp period links)
unfolding traverse totals window
traverse-eq-totals size stamp period s [] h = refl
traverse-eq-totals size stamp period s (l ∷ links) h =
    elim (Bool-cases (in_window stamp period l)) [
      | inl inside ↦
          rw inside
            (traverse-eq-totals size stamp period (add_link s l) links (Spaced-tail size l links h))
      | inr outside ↦ rw (outside, window_end size stamp period l links h outside)
    ]

-- The latencies of some links together, on top of another, and their registrations.
abbrev pub latency_of : ℤ → List Link → ℤ
latency_of latency [] = latency
latency_of latency (l ∷ links) = latency_of (latency +ℤ l.cumulative_latency) links

abbrev pub registrations_of : List Link → ℕ
registrations_of [] = 0
registrations_of (l ∷ links) = l.n_waiters + registrations_of links

totals-eq :
    (s : Sums) (links : List Link)
    → ((totals s links).cumulative_wait ≡ latency_of s.cumulative_wait links)
      × ((totals s links).n_waiters ≡ s.n_waiters + registrations_of links)
unfolding totals
totals-eq s [] = (refl, omega arith)
totals-eq s (l ∷ links) =
    let (latency, n) = totals-eq (add_link s l) links in (latency, omega (arith, n))

-- On a valid tracker, where the clock does not go back, Average maintains the tracker, and tells
-- whether the period is at most the size of a link times the number of links. It returns 0 where the
-- links created in the period count no registration, and else the quotient of the latencies of these
-- links together, rounded towards zero, and of the number of registrations that they count.
pub average-eq-window :
    (lt : LatencyTracker) (period : ℤ) (stamp t0 t1 t2 : ℕ)
    → t1 ≤ t2
    → IsValid lt
    → let r = average lt period stamp t0 t1 t2 in
      let lt' = maintain lt t0 t1 t2 in
      let links = window stamp period lt'.chain in
      let n = registrations_of links in
      (r.0.0 ≡ (if n == 0 then pos 0 else ◌/ℤ◌ (latency_of (pos 0) links) n))
      × (r.0.1 ≡ leb_ℤ period (lt.cfg.min_chain_link_size *ℤ lt.cfg.max_chain_link_n))
      × (r.1 ≡ lt')
unfolding average quotient
average-eq-window lt period stamp t0 t1 t2 c v =
    let v' = (maintain-IsValid lt t0 t1 t2 c v).0 in
    let links = window stamp period (maintain lt t0 t1 t2).chain in
    let (latency, n) = totals-eq no_sums links in
    let same : (totals no_sums links).n_waiters ≡ registrations_of links = omega (arith, n) in
    (
      ap quotient (traverse-eq-totals _ stamp period no_sums _ v'.spaced)
          ∙ ap (λ m. if m == 0 then pos 0 else ◌/ℤ◌ (totals no_sums links).cumulative_wait m) same
          ∙ ap (λ z. if registrations_of links == 0 then pos 0 else ◌/ℤ◌ z (registrations_of links))
              latency,
      refl,
      refl,
    )

nonempty :
    (links : List Link) → 0 < length links → (a : Link) × (rest : List Link) × (links ≡ a ∷ rest)
nonempty [] h = elim h [ ]
nonempty (a ∷ rest) h = (a, rest, refl)

-- On a valid tracker, where the clock does not go back, Register adds one registration of its latency to the head that it leaves, and changes neither the
-- other links nor the creation time of the head.
pub register_lem :
    (lt : LatencyTracker) (delta : ℤ) (t0 t1 t2 : ℕ)
    → t1 ≤ t2
    → IsValid lt
    → let lt' = maintain lt t0 t1 t2 in
      (head : Link) × (rest : List Link) × (lt'.chain ≡ head ∷ rest)
      × ((register lt delta t0 t1 t2).chain
          ≡ record {
            created = head.created;
            cumulative_latency = head.cumulative_latency +ℤ delta;
            n_waiters = head.n_waiters + 1;
          }
            ∷ rest)
unfolding register register_head
register_lem lt delta t0 t1 t2 c v =
    let lt' = maintain lt t0 t1 t2 in
    let (head, rest, e) = nonempty lt'.chain (maintain-IsValid lt t0 t1 t2 c v).1 in
    (head, rest, e, ap (λ links. register_head links delta) e)
