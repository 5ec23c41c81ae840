-- ===== src/Timex/Chain.antt =====
-- The shape of the chain: a bounded number of links, spaced by the minimal link size.
use ddrop.Base.{
  ℕ, zero, suc, ◌+◌, ◌≤◌, ◌<◌, ◌≡◌, refl, true, List, [], ◌∷◌, some, arith, length, take,
  length-take, subst, sym, ap,
}
use ddrop.Base.Int.{ℤ, pos, negsuc, pos_part, ltb_ℤ}
use ddrop.Timex.{
  Link, LatencyTracker, NewLatencyTrackerArgs, args_ok, trim_tail, add_head, renew_head, maintain,
  register_head, register, new_latency_tracker,
}

-- Each link was created at least the given time after the next one.
abbrev pub Spaced : ℕ → List Link → Type 0
Spaced size [] = Unit
Spaced size (a ∷ []) = Unit
Spaced size (a ∷ b ∷ links) = (b.created + size ≤ a.created) × Spaced size (b ∷ links)

pub record IsValid (lt : LatencyTracker) : Type 0 where
  pub configured : args_ok lt.cfg ≡ true
  pub bounded : length lt.chain ≤ pos_part lt.cfg.max_chain_link_n
  pub spaced : Spaced (pos_part lt.cfg.min_chain_link_size) lt.chain

trim_tail-eq-take :
    (m n j : ℕ) (links : List Link) → m ≡ n + j → trim_tail (pos m) n links ≡ take (suc j) links
unfolding trim_tail
trim_tail-eq-take m n j [] h = refl
trim_tail-eq-take m n zero (l ∷ links) h = ground arith
trim_tail-eq-take m n (suc j) (l ∷ links) h =
    ground (arith, trim_tail-eq-take m (n + 1) j links (omega arith))

Spaced-take : (size n : ℕ) (links : List Link) → Spaced size links → Spaced size (take n links)
Spaced-take size zero links h = tt
Spaced-take size (suc n) [] h = tt
Spaced-take size (suc zero) (a ∷ []) h = tt
Spaced-take size (suc (suc n)) (a ∷ []) h = tt
Spaced-take size (suc zero) (a ∷ b ∷ links) h = tt
Spaced-take size (suc (suc n)) (a ∷ b ∷ links) h = (h.0, Spaced-take size (suc n) (b ∷ links) h.1)

trim_tail_positive :
    (m : ℤ) (links : List Link)
    → ltb_ℤ (pos 0) m ≡ true
    → trim_tail m 1 links ≡ take (pos_part m) links
trim_tail_positive (pos zero) links h = absurd (ground arith)
trim_tail_positive (pos (suc j)) links h = trim_tail-eq-take (suc j) 1 j links (omega arith)
trim_tail_positive (negsuc n) links h = absurd (ground arith)

-- The links that maintain keeps: as many as allowed of the old chain with its new heads.
pub maintained : LatencyTracker → ℕ → ℕ → ℕ → List Link
maintained lt t0 t1 t2 = renew_head lt.cfg.min_chain_link_size (add_head lt.chain t0) t1 t2

maintain-eq-take :
    (lt : LatencyTracker) (t0 t1 t2 : ℕ)
    → args_ok lt.cfg ≡ true
    → (maintain lt t0 t1 t2).chain
      ≡ take (pos_part lt.cfg.max_chain_link_n) (maintained lt t0 t1 t2)
unfolding maintain maintained args_ok
maintain-eq-take lt t0 t1 t2 h = trim_tail_positive lt.cfg.max_chain_link_n _ (ground arith)

Spaced-renew :
    (size : ℤ) (links : List Link) (t0 t1 t2 : ℕ)
    → ltb_ℤ (pos 0) size ≡ true
    → t1 ≤ t2
    → Spaced (pos_part size) links
    → Spaced (pos_part size) (renew_head size (add_head links t0) t1 t2)
unfolding renew_head add_head
Spaced-renew size [] t0 t1 t2 p c h = ground arith
Spaced-renew size (a ∷ links) t0 t1 t2 p c h = ground arith

length-maintained : (lt : LatencyTracker) (t0 t1 t2 : ℕ) → 0 < length (maintained lt t0 t1 t2)
unfolding maintained renew_head add_head
length-maintained lt t0 t1 t2 = ground arith

positive_sizes :
    (args : NewLatencyTrackerArgs)
    → args_ok args ≡ true
    → (0 < pos_part args.max_chain_link_n) × (ltb_ℤ (pos 0) args.min_chain_link_size ≡ true)
unfolding args_ok
positive_sizes args h = ground arith

-- Where the clock does not go back, maintain keeps a tracker valid: at most MaxChainLinkN links,
-- each at least MinChainLinkSize younger than the next. It leaves a head, keeps the configuration,
-- and its links are the first MaxChainLinkN of the old ones behind the new heads.
pub maintain-IsValid :
    (lt : LatencyTracker) (t0 t1 t2 : ℕ)
    → t1 ≤ t2
    → IsValid lt
    → let lt' = maintain lt t0 t1 t2 in
      IsValid lt'
      × (0 < length lt'.chain)
      × (lt'.cfg ≡ lt.cfg)
      × (lt'.chain ≡ take (pos_part lt.cfg.max_chain_link_n) (maintained lt t0 t1 t2))
unfolding maintain maintained
maintain-IsValid lt t0 t1 t2 c v =
    let n = pos_part lt.cfg.max_chain_link_n in
    let size = lt.cfg.min_chain_link_size in
    let links = maintained lt t0 t1 t2 in
    let e : (maintain lt t0 t1 t2).chain ≡ take n links =
      maintain-eq-take lt t0 t1 t2 v.configured in
    let (some_links, some_size) = positive_sizes lt.cfg v.configured in
    (
      record {
        configured = v.configured;
        bounded = omega (arith, ap length e, length-take n links);
        spaced = subst (Spaced (pos_part size)) (sym e) (
            Spaced-take (pos_part size) n links
              (Spaced-renew size lt.chain t0 t1 t2 some_size c v.spaced));
      },
      omega (arith, ap length e, length-take n links, length-maintained lt t0 t1 t2),
      refl,
      e,
    )

register_head-Spaced :
    (size : ℕ) (links : List Link) (delta : ℤ)
    → Spaced size links
    → Spaced size (register_head links delta)
unfolding register_head
register_head-Spaced size [] delta h = tt
register_head-Spaced size (a ∷ []) delta h = tt
register_head-Spaced size (a ∷ b ∷ links) delta h = h

length-register_head :
    (links : List Link) (delta : ℤ) → length (register_head links delta) ≡ length links
unfolding register_head
length-register_head [] delta = refl
length-register_head (a ∷ links) delta = refl

-- Register keeps a tracker valid, where the clock does not go back.
register-IsValid :
    (lt : LatencyTracker) (delta : ℤ) (t0 t1 t2 : ℕ)
    → t1 ≤ t2
    → IsValid lt
    → IsValid (register lt delta t0 t1 t2)
unfolding register maintain
register-IsValid lt delta t0 t1 t2 c v =
    let lt' = maintain lt t0 t1 t2 in
    let v' = (maintain-IsValid lt t0 t1 t2 c v).0 in
    record {
      configured = v.configured;
      bounded = omega (arith, length-register_head lt'.chain delta, v'.bounded);
      spaced = register_head-Spaced _ lt'.chain delta v'.spaced;
    }

new_latency_tracker-IsValid :
    (args : NewLatencyTrackerArgs) {lt : LatencyTracker}
    → new_latency_tracker args ≡ some lt
    → IsValid lt
unfolding new_latency_tracker
new_latency_tracker-IsValid args e = ground arith
