-- ===== src/Bitswap/SessionWants/Received.antt =====
-- Which wants go out, and which received blocks count as wanted.
use rust_ipfs.Base.{
  ℕ, zero, suc, ◌+◌, ◌-◌, ◌≤◌, ◌<◌, true, Bool, not, ◌&&◌, ◌||◌, ◌≡◌, refl, sym, ap, ◌∙◌, inl, inr,
  none, some, List, [], ◌∷◌, ◌++◌, arith, if◌then◌else◌, length, Eq, nat_eq, ◌==◌, ==_iff,
  Option-cases, is_some,
}
use rust_ipfs.Base.Map
use rust_ipfs.Base.Map.{Map}
use rust_ipfs.Base.Set
use rust_ipfs.Bitswap.CidQueue
use rust_ipfs.Bitswap.CidQueue.{CidQueue}
use rust_ipfs.Bitswap.SessionWants.{
  SessionWants, go_live, next_wants, get_next_wants, want_sent, wants_sent, is_wanted, forget,
  receive, blocks_received, broadcast_loop, prepare_broadcast, gc_order,
}
use rust_ipfs.Bitswap.SessionWants.Live.{contains_key-broadcast_loop}

module _ {Cid : Type 0} ⦃e : Eq Cid⦄ where
  length-next_wants :
      (n : ℕ) (w : SessionWants Cid) (now : ℕ) (live : List Cid)
      → length (next_wants n w now live).0.live_wants ≤ length w.live_wants + n
  unfolding next_wants go_live
  length-next_wants zero w now live = omega arith
  length-next_wants (suc n) w now live = elim (Option-cases (CidQueue.pop w.to_fetch).0) [
    | inl empty ↦ rw (empty, next_wants) (omega arith)
    | inr (c, found) ↦
        rw (found, next_wants)
          (omega (
            arith,
            length-next_wants n
                (go_live (record w { to_fetch = (CidQueue.pop w.to_fetch).1 }) now c) now
                (Set.insert live c),
            Map.length-insert_le w.live_wants c now,
          ))
  ]

  -- Where no more wants are live than the broadcast limit allows, `get_next_wants` returns, and leaves
  -- no more live than the limit.
  pub get_next_wants_returns :
      (w : SessionWants Cid) (now : ℕ)
      → length w.live_wants ≤ w.broadcast_limit
      → (r : SessionWants Cid × List Cid) × (get_next_wants w now ≡ some r)
        × (length r.0.live_wants ≤ w.broadcast_limit)
  unfolding get_next_wants
  get_next_wants_returns w now h =
      let n = w.broadcast_limit - length w.live_wants in
      (next_wants n w now [], ground arith, omega (arith, length-next_wants n w now []))

  -- A want that is sent to a peer while as many are live as the limit allows makes the next call of
  -- `get_next_wants` panic.
  pub get_next_wants-wants_sent :
      (w : SessionWants Cid) (now later : ℕ) (c : Cid)
      → Map.get w.live_wants c ≡ none
      → CidQueue.has w.to_fetch c ≡ true
      → length w.live_wants ≡ w.broadcast_limit
      → get_next_wants (wants_sent w now (c ∷ [])) later ≡ none
  unfolding get_next_wants wants_sent want_sent go_live Map.contains_key
  get_next_wants-wants_sent w now later c fresh queued full =
      ground (arith, Map.length-insert_new w.live_wants c now)

  -- A want was sent for the content id, and it is waiting in the queue.
  abbrev pub is_live : SessionWants Cid → Cid → Bool
  is_live w j = Map.contains_key w.live_wants j

  abbrev pub is_queued : SessionWants Cid → Cid → Bool
  is_queued w j = Set.contains w.to_fetch.set j

  is_wanted_lem : (w : SessionWants Cid) (j : Cid) → is_wanted w j ≡ (is_live w j || is_queued w j)
  unfolding is_wanted CidQueue.has
  is_wanted_lem w j = ground arith

  forget_lem :
      (w : SessionWants Cid) (k j : Cid)
      → (is_live (forget w k) j ≡ (not (k == j) && is_live w j))
        × (is_queued (forget w k) j ≡ (not (k == j) && is_queued w j))
  unfolding forget Map.contains_key CidQueue.remove
  forget_lem w k j =
      (ground (arith, Map.get-remove w.live_wants k j), Set.contains-remove w.to_fetch.set k j)

  -- What the loop makes of the next key: it is neither live nor queued afterwards.
  step_lem :
      (w : SessionWants Cid) (k j : Cid)
      → let w' = if is_wanted w k then forget w k else w in
        (is_live w' j ≡ (not (k == j) && is_live w j))
        × (is_queued w' j ≡ (not (k == j) && is_queued w j))
  unfolding Map.contains_key
  step_lem w k j = ground (
    arith,
    forget_lem w k j,
    is_wanted_lem w k,
    Map.get_same w.live_wants k j,
    Set.contains_same w.to_fetch.set k j,
  )

  key_same :
      (w : SessionWants Cid) (k j : Cid)
      → (k == j) ≡ true
      → (is_live w j ≡ is_live w k) × (is_queued w j ≡ is_queued w k)
  key_same w k j h =
      let same = sym ((==_iff k j).0 h) in (ap (is_live w) same, ap (is_queued w) same)

  receive_lem :
      (w : SessionWants Cid) (now : ℕ) (ks wanted : List Cid) (latency : ℕ) (j : Cid)
      → let (w', keys, sum) = receive w now ks wanted latency in
        (is_live w' j ≡ (not (Set.contains ks j) && is_live w j))
        × (is_queued w' j ≡ (not (Set.contains ks j) && is_queued w j))
        × (Set.contains keys j
            ≡ (Set.contains wanted j || (Set.contains ks j && (is_live w j || is_queued w j))))
  unfolding receive Set.contains
  receive_lem w now [] wanted latency j = (refl, refl, ground arith)
  receive_lem w now (k ∷ ks) wanted latency j = ground (
    arith,
    receive_lem (if is_wanted w k then forget w k else w) now ks
        (if is_wanted w k then wanted ++ k ∷ [] else wanted)
        (if is_wanted w k
          then latency + (elim (Map.get w.live_wants k) [ none ↦ 0 | some sent_at ↦ now - sent_at ])
          else latency)
        j,
    step_lem w k j,
    is_wanted_lem w k,
    key_same w k j,
    Set.contains-append wanted (k ∷ []) j,
  )

  -- Where `blocks_received` returns, the keys that it reports are those of the given ones for which a
  -- want was live or waited in the queue. Afterwards none of the given keys is live or queued; what
  -- else was live still is, and what else was queued still is.
  pub blocks_received_lem :
      (w : SessionWants Cid) (now : ℕ) (ks : List Cid) (r : SessionWants Cid × List Cid × ℕ)
      (j : Cid)
      → blocks_received w now ks ≡ some r
      → (is_live r.0 j ≡ (not (Set.contains ks j) && is_live w j))
        × (is_queued r.0 j ≡ (not (Set.contains ks j) && is_queued w j))
        × (Set.contains r.1 j ≡ (Set.contains ks j && (is_live w j || is_queued w j)))
  unfolding blocks_received Set.contains gc_order
  blocks_received_lem w now ks r j h = ground (arith, receive_lem w now ks [] 0 j)

  length-broadcast_loop :
      (limit now : ℕ) (order : List Cid) (m : Map Cid ℕ) (live : List Cid)
      → length live < limit
      → length (broadcast_loop limit now order m live).1 ≤ limit
  unfolding broadcast_loop
  length-broadcast_loop limit now [] m live h = omega arith
  length-broadcast_loop limit now (k ∷ order) m live h = ground (
    arith,
    length-broadcast_loop limit now order (Map.insert m k now) (Set.insert live k),
    length-broadcast_loop limit now order m live h,
    Set.length-insert_le live k,
  )

  broadcast_loop_lem :
      (limit now : ℕ) (order : List Cid) (m : Map Cid ℕ) (live : List Cid) (j : Cid)
      → (Set.contains live j ≡ true → Map.get m j ≡ some now)
      → Set.contains (broadcast_loop limit now order m live).1 j ≡ true
      → Map.get (broadcast_loop limit now order m live).0 j ≡ some now
  unfolding broadcast_loop
  broadcast_loop_lem limit now [] m live j old h = old h
  broadcast_loop_lem limit now (k ∷ order) m live j old h =
      let grown = λ (c : Set.contains (Set.insert live k) j ≡ true).
        let fact : Map.get (Map.insert m k now) j ≡ some now =
          ground (arith, Map.get-insert m k now j, Set.contains-insert live k j, old, c) in
        fact in
      ground (
        arith,
        grown,
        broadcast_loop_lem limit now order (Map.insert m k now) (Set.insert live k) j grown,
        broadcast_loop_lem limit now order m live j old,
      )

  -- With a limit above zero a broadcast holds at most as many content ids as the limit; each of them
  -- was live, and its time is reset to now.
  pub prepare_broadcast_lem :
      (w : SessionWants Cid) (now : ℕ) (j : Cid)
      → 0 < w.broadcast_limit
      → Set.contains (prepare_broadcast w now).1 j ≡ true
      → (length (prepare_broadcast w now).1 ≤ w.broadcast_limit)
        × (Map.get (prepare_broadcast w now).0.live_wants j ≡ some now)
        × (Map.contains_key w.live_wants j ≡ true)
  unfolding prepare_broadcast Set.contains Map.contains_key
  prepare_broadcast_lem w now j h c =
      let nothing : Set.contains [] j ≡ true → Map.get w.live_wants j ≡ some now = λ d. cc d in
      let reset =
        broadcast_loop_lem w.broadcast_limit now w.live_wants_order w.live_wants [] j nothing c in
      (
        length-broadcast_loop w.broadcast_limit now w.live_wants_order w.live_wants [] h,
        reset,
        sym (contains_key-broadcast_loop w.broadcast_limit now w.live_wants_order w.live_wants [] j)
            ∙ ap is_some reset,
      )
