-- ===== src/Api/AddrSet/Maintained.antt =====
-- Which addresses the set holds behind its maintenance.
use text.Mathlib.Text.{◌==◌ as str_eq}
use text.Mathlib.TextEquality.{eq_iff}
use Prim.Native.String.{String}
use mathlib.Core.List.{Permᴰ}
use mathlib.Core.List.Permᴰ
use mathlib.Core.Logic.{∥∥₁_elim}
use mathlib.Core.Bool.{Bool-set}
use ddrop.Base.{
  ℕ, ◌≡◌, refl, sym, ap, ◌∙◌, subst, inl, inr, Bool, true, false, not, ◌&&◌, ◌||◌, Bool-cases, none,
  some, List, [], ◌∷◌, ◌++◌, map, arith, if◌then◌else◌, All, All-split,
}
use ddrop.Base.Int.{ltb_ℤ}
use ddrop.Requestman.Namespaces.{find, write, remove}
use ddrop.Requestman.Storage.{among}
use ddrop.Requestman.Storage.Keys.{find-write, find-remove, key-among}
use ddrop.Ops.Answers.{ClientResult}
use ddrop.Ops.Client
use ddrop.Ops.Client.{Remote, time_sub}
use ddrop.Ops.Clients.{asked, FanIn, FanRun}
use ddrop.Ops.Clients.Collected.{FanRun-complete}
use ddrop.Api.AddrSet.{
  AddrSet, put_addrs, keys_of, addrs, keep_alive, pings, maintain, addrs_maintaned_locked,
}

-- Whether the set holds an address.
abbrev pub holds : List (String × Bool) → String → Bool
holds m j = elim (find j m) [ none ↦ false | some b ↦ true ]

holds-write :
    (k j : String) (m : List (String × Bool)) → holds (write k true m) j ≡ str_eq k j || holds m j
holds-write k j m = ground (arith, find-write k j true m)

holds-remove :
    (k j : String) (m : List (String × Bool)) → holds (remove k m) j ≡ not (str_eq k j) && holds m j
holds-remove k j m = ground (arith, find-remove k j m)

holds-put_addrs :
    (m : List (String × Bool)) (new_addrs : List String) (j : String)
    → holds (put_addrs m new_addrs) j ≡ among new_addrs j || holds m j
unfolding put_addrs among
holds-put_addrs m [] j = refl
holds-put_addrs m (addr ∷ new_addrs) j =
    ground (arith, holds-put_addrs (write addr true m) new_addrs j, holds-write addr j m)

-- The addresses of the results.
abbrev pub addrs_of : List (ClientResult Bool) → List String
addrs_of l = map (λ r. r.remote_addr) l

-- The answers are what the servers answer to their pings.
abbrev IsTold : (String → Bool) → ClientResult Bool → Type 0
IsTold alive r = r.payload ≡ alive r.remote_addr

holds-keep_alive :
    (alive : String → Bool) (m : List (String × Bool)) (resps : List (ClientResult Bool))
    (j : String)
    → All (IsTold alive) resps
    → holds (keep_alive m resps) j ≡ (if among (addrs_of resps) j then alive j else holds m j)
unfolding keep_alive among
holds-keep_alive alive m [] j h = refl
holds-keep_alive alive m (r ∷ resps) j (h, hs) = elim (Bool-cases r.payload) [
  | inl e ↦ rw e (
      ground (
        arith,
        h,
        e,
        eq_iff r.remote_addr j,
        holds-keep_alive alive (write r.remote_addr true m) resps j hs,
        holds-write r.remote_addr j m,
      ))
  | inr e ↦ rw e (
      ground (
        arith,
        h,
        e,
        eq_iff r.remote_addr j,
        holds-keep_alive alive (remove r.remote_addr m) resps j hs,
        holds-remove r.remote_addr j m,
      ))
]

module _ {ℓ} {A : Type ℓ} where
  All-permᴰ : (P : A → Type 0) {xs ys : List A} → Permᴰ xs ys → All P xs → All P ys
  All-permᴰ P Permᴰ.nil h = tt
  All-permᴰ P (Permᴰ.cons e p) (h, hs) = (subst P e h, All-permᴰ P p hs)
  All-permᴰ P (Permᴰ.swap {l} e e') (h, (h', hs)) = (subst P e' h', (subst P e h, hs))
  All-permᴰ P (Permᴰ.trans p q) h = All-permᴰ P q (All-permᴰ P p h)

among-permᴰ :
    (j : String) {xs ys : List (ClientResult Bool)}
    → Permᴰ xs ys
    → among (addrs_of xs) j ≡ among (addrs_of ys) j
unfolding among
among-permᴰ j Permᴰ.nil = refl
among-permᴰ j (Permᴰ.cons e p) = ground (arith, among-permᴰ j p, e)
among-permᴰ j (Permᴰ.swap e e') = ground (arith, e, e')
among-permᴰ j (Permᴰ.trans p q) = among-permᴰ j p ∙ among-permᴰ j q

among-append :
    (xs ys : List (ClientResult Bool)) (j : String)
    → among (addrs_of (xs ++ ys)) j ≡ among (addrs_of xs) j || among (addrs_of ys) j
unfolding among
among-append [] ys j = refl
among-append (x ∷ xs) ys j = ground (arith, among-append xs ys j)

holds-among : (m : List (String × Bool)) (j : String) → holds m j ≡ among (keys_of m) j
holds-among m j = key-among j m

module _ (remote : Remote Bool Bool) (s : AddrSet) (now : String → ℕ) where
  -- Whether the server at an address answers its ping with true.
  abbrev pub alive : String → Bool
  alive addr = (asked (pings remote s now) addr).payload

  told : (l : List String) → All (IsTold alive) (map (asked (pings remote s now)) l)
  unfolding Client.request
  told [] = tt
  told (addr ∷ l) = (refl, told l)

  same_addrs : (l : List String) → addrs_of (map (asked (pings remote s now)) l) ≡ l
  unfolding Client.request
  same_addrs [] = refl
  same_addrs (addr ∷ l) = ap (◌∷◌ addr) (same_addrs l)

  -- The set behind its maintenance, given the answers in the order of a derivation.
  holds-maintained :
      (received dropped : List (ClientResult Bool)) (j : String)
      → Permᴰ (received ++ dropped) (map (asked (pings remote s now)) (keys_of s.known_addrs))
      → holds (keep_alive s.known_addrs received) j
        ≡ holds s.known_addrs j && (not (among (addrs_of received) j) || alive j)
  holds-maintained received dropped j q =
      let names = keys_of s.known_addrs in
      let (right, _) =
        All-split (IsTold alive) received dropped
          (All-permᴰ (IsTold alive) (Permᴰ.symm q) (told names)) in
      let heard : (among (addrs_of received) j || among (addrs_of dropped) j)
          ≡ holds s.known_addrs j =
        sym (among-append received dropped j)
        ∙ among-permᴰ j q
        ∙ ap (λ l. among l j) (same_addrs names)
        ∙ sym (holds-among s.known_addrs j) in
      holds-keep_alive alive s.known_addrs received j right ∙ ground (arith, heard)

  -- addrsMaintanedLocked, with the answers that a composite ping of the known addresses delivered:
  -- the set then holds, and the call returns, just the new addresses and those known addresses that
  -- answered the ping with true, that were not heard of as their answer was dropped at the deadline,
  -- or all of them where the update frequency has not gone by.
  pub addrs_maintaned_locked-holds :
      (p : FanIn Bool) (time later : ℕ) (new_addrs : List String) (j : String)
      → FanRun (pings remote s now) p
      → p.closed ≡ true
      → p.buffer ≡ []
      → let (s', known) = addrs_maintaned_locked s time later p.received new_addrs in
        let early = ltb_ℤ (time_sub time s.update_time_stamp) s.update_frequency in
        let stays = early || (not (among (addrs_of p.received) j) || alive j) in
        (holds s'.known_addrs j ≡ among new_addrs j || (holds s.known_addrs j && stays))
        × (among known j ≡ holds s'.known_addrs j)
  unfolding addrs_maintaned_locked maintain addrs put_addrs
  addrs_maintaned_locked-holds p time later new_addrs j r closed empty =
      let complete = FanRun-complete (pings remote s now) r closed empty in
      let kept : holds (keep_alive s.known_addrs p.received) j
          ≡ holds s.known_addrs j && (not (among (addrs_of p.received) j) || alive j) =
        ∥∥₁_elim complete (Bool-set _ _) λ q. holds-maintained p.received p.dropped j q in
      let early = ltb_ℤ (time_sub time s.update_time_stamp) s.update_frequency in
      (
        elim (Bool-cases early) [
          | inl e ↦ rw e (holds-put_addrs s.known_addrs new_addrs j ∙ ground arith)
          | inr e ↦ rw e (
              holds-put_addrs (keep_alive s.known_addrs p.received) new_addrs j
              ∙ ap (λ b. among new_addrs j || b) kept)
        ],
        sym (holds-among _ j),
      )
