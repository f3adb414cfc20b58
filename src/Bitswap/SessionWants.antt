-- ===== src/Bitswap/SessionWants.antt =====
-- packages/beetle-bitswap-next/src/client/session/session_wants.rs: the wants of a session that wait
-- to be sent, and those that were sent and wait for a block. An instant is a number, and each method
-- takes the time that it reads from the clock. `none` is the panic of a subtraction that overflows.
pub mod Live
pub mod Reachable
pub mod Received
pub mod Tests
use rust_ipfs.Base.{
  ℕ, zero, suc, ◌+◌, ◌-◌, ◌≤◌, ◌<◌, Bool, true, false, not, ◌&&◌, ◌||◌, ◌≡◌, refl, sym, ap, subst,
  ◌∙◌, ◌⊎◌, inl, inr, ◌↔◌, ◌≢◌, Option, none, some, List, [], ◌∷◌, ◌++◌, map, arith, if◌then◌else◌,
  All, length, length-append, is_empty, retain, ltb, leb, Eq, nat_eq, nat_beq, get_elem?, ◌==◌,
  ==_iff, ==_refl, Option-cases, Bool-cases, is_some,
}
use rust_ipfs.Base.Map
use rust_ipfs.Base.Map.{Map}
use rust_ipfs.Base.Set
use rust_ipfs.Bitswap.CidQueue
use rust_ipfs.Bitswap.CidQueue.{CidQueue}

abbrev pub live_wants_order_gc_limit : ℕ
live_wants_order_gc_limit = 32

pub record SessionWants (Cid : Type 0) : Type 0 where
  pub to_fetch : CidQueue Cid
  pub live_wants : Map Cid ℕ
  pub live_wants_order : List Cid
  pub broadcast_limit : ℕ

unfoldable pub new : {Cid : Type 0} → ℕ → SessionWants Cid
unfolding CidQueue.empty
new broadcast_limit = record {
  to_fetch = CidQueue.empty;
  live_wants = [];
  live_wants_order = [];
  broadcast_limit = broadcast_limit;
}

-- A checked subtraction of `usize`.
abbrev pub checked_sub : ℕ → ℕ → Option ℕ
checked_sub a b = if ltb a b then none else some (a - b)

unfoldable pub has_live_wants : {Cid : Type 0} → SessionWants Cid → Bool
has_live_wants w = not (is_empty w.live_wants)

module _ {Cid : Type 0} ⦃e : Eq Cid⦄ where
  unfoldable pub blocks_requested : SessionWants Cid → List Cid → SessionWants Cid
  blocks_requested w [] = w
  blocks_requested w (cid ∷ new_wants) =
      blocks_requested (record w { to_fetch = CidQueue.push w.to_fetch cid }) new_wants

  -- Sent now: at the end of the order, with the time.
  unfoldable pub go_live : SessionWants Cid → ℕ → Cid → SessionWants Cid
  go_live w now cid = record w {
    live_wants_order = w.live_wants_order ++ cid ∷ [];
    live_wants = Map.insert w.live_wants cid now;
  }

  -- At most so many rounds; the loop breaks where the queue is empty.
  unfoldable pub next_wants : ℕ → SessionWants Cid → ℕ → List Cid → SessionWants Cid × List Cid
  unfolding go_live
  next_wants zero w now live = (w, live)
  next_wants (suc rounds) w now live =
      let (popped, rest) = CidQueue.pop w.to_fetch in
      elim popped [
        | none ↦ (record w { to_fetch = rest }, live)
        | some cid ↦
            next_wants rounds (go_live (record w { to_fetch = rest }) now cid) now
              (Set.insert live cid)
      ]

  unfoldable pub get_next_wants : SessionWants Cid → ℕ → Option (SessionWants Cid × List Cid)
  unfolding next_wants
  get_next_wants w now = elim (checked_sub w.broadcast_limit (length w.live_wants)) [
    | none ↦ none
    | some to_add ↦ some (next_wants to_add w now [])
  ]

  unfoldable pub want_sent : SessionWants Cid → ℕ → Cid → SessionWants Cid
  unfolding go_live
  want_sent w now key =
      if not (Map.contains_key w.live_wants key) && CidQueue.has w.to_fetch key
      then go_live (record w { to_fetch = CidQueue.remove w.to_fetch key }) now key
      else w

  unfoldable pub wants_sent : SessionWants Cid → ℕ → List Cid → SessionWants Cid
  unfolding want_sent
  wants_sent w now [] = w
  wants_sent w now (key ∷ keys) = wants_sent (want_sent w now key) now keys

  unfoldable pub is_wanted : SessionWants Cid → Cid → Bool
  is_wanted w key =
      if not (Map.contains_key w.live_wants key) then CidQueue.has w.to_fetch key else true

  unfoldable pub forget : SessionWants Cid → Cid → SessionWants Cid
  forget w key = record w {
    live_wants = Map.remove w.live_wants key;
    to_fetch = CidQueue.remove w.to_fetch key;
  }

  -- The loop over the received keys: the wants, the wanted keys, and the summed latency.
  unfoldable pub receive :
      SessionWants Cid → ℕ → List Cid → List Cid → ℕ → SessionWants Cid × List Cid × ℕ
  unfolding is_wanted forget
  receive w now [] wanted latency = (w, wanted, latency)
  receive w now (key ∷ keys) wanted latency =
      receive (if is_wanted w key then forget w key else w) now keys
        (if is_wanted w key then wanted ++ key ∷ [] else wanted)
        (if is_wanted w key
          then latency
            + (elim (Map.get w.live_wants key) [ none ↦ 0 | some sent_at ↦ now - sent_at ])
          else latency)

  unfoldable pub gc_order : SessionWants Cid → SessionWants Cid
  gc_order w = record w {
    live_wants_order = retain (Map.contains_key w.live_wants) w.live_wants_order;
  }

  unfoldable pub blocks_received :
      SessionWants Cid → ℕ → List Cid → Option (SessionWants Cid × List Cid × ℕ)
  unfolding receive gc_order
  blocks_received w now keys =
      let (left, wanted, latency) = receive w now keys [] 0 in
      elim (checked_sub (length left.live_wants_order) (length left.live_wants)) [
        | none ↦ none
        | some excess ↦
            some (
              if ltb live_wants_order_gc_limit excess then gc_order left else left,
              wanted,
              latency,
            )
      ]

  -- The loop of `prepare_broadcast` over the order of the live wants.
  unfoldable pub broadcast_loop : ℕ → ℕ → List Cid → Map Cid ℕ → List Cid → Map Cid ℕ × List Cid
  broadcast_loop limit now [] wants live = (wants, live)
  broadcast_loop limit now (key ∷ order) wants live =
      let rest = broadcast_loop limit now order (Map.insert wants key now) (Set.insert live key) in
      let skip = broadcast_loop limit now order wants live in
      if Map.contains_key wants key
      then (if nat_beq (length (Set.insert live key)) limit
          then (Map.insert wants key now, Set.insert live key)
          else rest)
      else skip

  unfoldable pub prepare_broadcast : SessionWants Cid → ℕ → SessionWants Cid × List Cid
  unfolding broadcast_loop
  prepare_broadcast w now =
      let (wants, live) = broadcast_loop w.broadcast_limit now w.live_wants_order w.live_wants [] in
      (record w { live_wants = wants }, live)

  unfoldable pub cancel_pending : SessionWants Cid → List Cid → SessionWants Cid
  cancel_pending w [] = w
  cancel_pending w (key ∷ keys) =
      cancel_pending (record w { to_fetch = CidQueue.remove w.to_fetch key }) keys

  -- `pick` is the random number that is drawn below the number of live wants.
  unfoldable pub random_live_want : SessionWants Cid → ℕ → Option Cid
  random_live_want w pick =
      if is_empty w.live_wants then none else get_elem? (Map.keys w.live_wants) pick
