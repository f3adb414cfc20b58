-- ===== src/Bitswap/SessionWants/Live.antt =====
-- The live wants and the order in which they were sent: the state that every method keeps.
use rust_ipfs.Base.{
  ℕ, zero, suc, ◌-◌, ◌≤◌, true, ◌≡◌, refl, sym, ◌∙◌, inl, inr, some, List, [], ◌∷◌, arith,
  if◌then◌else◌, length, ltb, Eq, nat_eq, list_eq, Option-cases, if_elim,
}
use rust_ipfs.Base.Map
use rust_ipfs.Base.Map.{Map}
use rust_ipfs.Base.Set
use rust_ipfs.Bitswap.CidQueue
use rust_ipfs.Bitswap.SessionWants.{
  SessionWants, new, blocks_requested, go_live, next_wants, get_next_wants, want_sent, wants_sent,
  is_wanted, forget, receive, gc_order, blocks_received, broadcast_loop, prepare_broadcast,
  cancel_pending, live_wants_order_gc_limit,
}

module _ {Cid : Type 0} ⦃e : Eq Cid⦄ where
  -- Every live want stands in the order.
  pub record IsValid (w : SessionWants Cid) : Type 0 where
    pub distinct : Map.HasKeys w.live_wants
    pub ordered :
        (j : Cid)
        → Map.contains_key w.live_wants j ≡ true
        → Set.contains w.live_wants_order j ≡ true

  pub length-live_le :
      (w : SessionWants Cid) → IsValid w → length w.live_wants ≤ length w.live_wants_order
  unfolding Map.contains_key
  length-live_le w v = rw (← Map.length-keys w.live_wants) (
      Set.length-le_of_subset (Map.keys w.live_wants) w.live_wants_order v.distinct
        λ k m. v.ordered k (sym (Map.contains-keys w.live_wants k) ∙ m))

  pub new-IsValid : (limit : ℕ) → IsValid (new limit)
  unfolding new Map.keys Map.contains_key Map.get
  new-IsValid limit = record { distinct = tt; ordered = λ j h. cc }

  pub blocks_requested-IsValid :
      (w : SessionWants Cid) (ks : List Cid) → IsValid w → IsValid (blocks_requested w ks)
  unfolding blocks_requested
  blocks_requested-IsValid w [] v = v
  blocks_requested-IsValid w (k ∷ ks) v =
      blocks_requested-IsValid (record w { to_fetch = CidQueue.push w.to_fetch k }) ks
        (record { distinct = v.distinct; ordered = v.ordered })

  pub go_live-IsValid :
      (w : SessionWants Cid) (now : ℕ) (c : Cid) → IsValid w → IsValid (go_live w now c)
  unfolding go_live Map.contains_key Set.contains
  go_live-IsValid w now c v = record {
    distinct = Map.insert-HasKeys w.live_wants c now v.distinct;
    ordered = λ j h. ground (
      arith,
      Map.get-insert w.live_wants c now j,
      Set.contains-append w.live_wants_order (c ∷ []) j,
      v.ordered j,
      h,
    );
  }

  pub next_wants-IsValid :
      (n : ℕ) (w : SessionWants Cid) (now : ℕ) (live : List Cid)
      → IsValid w
      → IsValid (next_wants n w now live).0
  unfolding next_wants
  next_wants-IsValid zero w now live v = v
  next_wants-IsValid (suc n) w now live v = elim (Option-cases (CidQueue.pop w.to_fetch).0) [
    | inl empty ↦ rw (empty, next_wants) (record { distinct = v.distinct; ordered = v.ordered })
    | inr (c, found) ↦
        let rest = record w { to_fetch = (CidQueue.pop w.to_fetch).1 } in
        rw (found, next_wants)
          (next_wants-IsValid n (go_live rest now c) now (Set.insert live c)
            (go_live-IsValid rest now c (record { distinct = v.distinct; ordered = v.ordered })))
  ]

  pub want_sent-IsValid :
      (w : SessionWants Cid) (now : ℕ) (k : Cid) → IsValid w → IsValid (want_sent w now k)
  unfolding want_sent go_live
  want_sent-IsValid w now k v =
      if_elim IsValid _ _ w
        (go_live-IsValid (record w { to_fetch = CidQueue.remove w.to_fetch k }) now k
          (record { distinct = v.distinct; ordered = v.ordered }))
        v

  pub wants_sent-IsValid :
      (w : SessionWants Cid) (now : ℕ) (ks : List Cid) → IsValid w → IsValid (wants_sent w now ks)
  unfolding wants_sent
  wants_sent-IsValid w now [] v = v
  wants_sent-IsValid w now (k ∷ ks) v =
      wants_sent-IsValid (want_sent w now k) now ks (want_sent-IsValid w now k v)

  pub forget-IsValid : (w : SessionWants Cid) (k : Cid) → IsValid w → IsValid (forget w k)
  unfolding forget Map.contains_key
  forget-IsValid w k v = record {
    distinct = Map.remove-HasKeys w.live_wants k v.distinct;
    ordered = λ j h. ground (arith, Map.get-remove w.live_wants k j, v.ordered j, h);
  }

  pub receive-IsValid :
      (w : SessionWants Cid) (now : ℕ) (ks wanted : List Cid) (latency : ℕ)
      → IsValid w
      → IsValid (receive w now ks wanted latency).0
  unfolding receive
  receive-IsValid w now [] wanted latency v = v
  receive-IsValid w now (k ∷ ks) wanted latency v =
      receive-IsValid (if is_wanted w k then forget w k else w) now ks _ _
        (if_elim IsValid (is_wanted w k) (forget w k) w (forget-IsValid w k v) v)

  pub gc_order-IsValid : (w : SessionWants Cid) → IsValid w → IsValid (gc_order w)
  unfolding gc_order
  gc_order-IsValid w v = record {
    distinct = v.distinct;
    ordered = λ j h. ground (
      arith,
      Set.contains-retain (Map.contains_key w.live_wants) w.live_wants_order j,
      v.ordered j,
      h,
    );
  }

  -- The wants that are left once the blocks were taken in, before the order is cleaned up.
  abbrev pub left_after : SessionWants Cid → ℕ → List Cid → SessionWants Cid
  left_after w now ks = (receive w now ks [] 0).0

  -- The subtraction of the two lengths in `blocks_received` does not overflow where every live want
  -- stands in the order, so the method returns; the state that it returns keeps this.
  pub blocks_received-IsValid :
      (w : SessionWants Cid) (now : ℕ) (ks : List Cid)
      → IsValid w
      → (r : SessionWants Cid × List Cid × ℕ) × (blocks_received w now ks ≡ some r) × IsValid r.0
  unfolding blocks_received
  blocks_received-IsValid w now ks v =
      let left = left_after w now ks in
      let u = receive-IsValid w now ks [] 0 v in
      let excess = length left.live_wants_order - length left.live_wants in
      let cleaned = if ltb live_wants_order_gc_limit excess then gc_order left else left in
      (
        (cleaned, (receive w now ks [] 0).1, (receive w now ks [] 0).2),
        ground (arith, length-live_le left u),
        if_elim IsValid _ (gc_order left) left (gc_order-IsValid left u) u,
      )

  broadcast_loop-HasKeys :
      (limit now : ℕ) (order : List Cid) (m : Map Cid ℕ) (live : List Cid)
      → Map.HasKeys m
      → Map.HasKeys (broadcast_loop limit now order m live).0
  unfolding broadcast_loop
  broadcast_loop-HasKeys limit now [] m live h = h
  broadcast_loop-HasKeys limit now (k ∷ order) m live h = ground (
    arith,
    Map.insert-HasKeys m k now h,
    broadcast_loop-HasKeys limit now order (Map.insert m k now) (Set.insert live k),
    broadcast_loop-HasKeys limit now order m live h,
  )

  pub contains_key-broadcast_loop :
      (limit now : ℕ) (order : List Cid) (m : Map Cid ℕ) (live : List Cid) (j : Cid)
      → Map.contains_key (broadcast_loop limit now order m live).0 j ≡ Map.contains_key m j
  unfolding broadcast_loop Map.contains_key
  contains_key-broadcast_loop limit now [] m live j = refl
  contains_key-broadcast_loop limit now (k ∷ order) m live j = ground (
    arith,
    Map.get-insert m k now j,
    Map.get_same m k j,
    contains_key-broadcast_loop limit now order (Map.insert m k now) (Set.insert live k) j,
    contains_key-broadcast_loop limit now order m live j,
  )

  pub prepare_broadcast-IsValid :
      (w : SessionWants Cid) (now : ℕ) → IsValid w → IsValid (prepare_broadcast w now).0
  unfolding prepare_broadcast
  prepare_broadcast-IsValid w now v = record {
    distinct =
        broadcast_loop-HasKeys w.broadcast_limit now w.live_wants_order w.live_wants [] v.distinct;
    ordered = λ j h. v.ordered j (
        sym (contains_key-broadcast_loop w.broadcast_limit now w.live_wants_order w.live_wants [] j)
        ∙ h);
  }

  pub cancel_pending-IsValid :
      (w : SessionWants Cid) (ks : List Cid) → IsValid w → IsValid (cancel_pending w ks)
  unfolding cancel_pending
  cancel_pending-IsValid w [] v = v
  cancel_pending-IsValid w (k ∷ ks) v =
      cancel_pending-IsValid (record w { to_fetch = CidQueue.remove w.to_fetch k }) ks
        (record { distinct = v.distinct; ordered = v.ordered })

  pub get_next_wants-IsValid :
      (w : SessionWants Cid) (now : ℕ) (r : SessionWants Cid × List Cid)
      → get_next_wants w now ≡ some r
      → IsValid w
      → IsValid r.0
  unfolding get_next_wants
  get_next_wants-IsValid w now r h v =
      ground (arith, next_wants-IsValid (w.broadcast_limit - length w.live_wants) w now [] v)
