-- ===== src/Bitswap/SessionWants/Reachable.antt =====
-- The states that calls of the methods lead to, and that `blocks_received` returns on each.
use rust_ipfs.Base.{
  ℕ, ◌+◌, ◌-◌, ◌≤◌, true, ◌≡◌, subst, ◌⊎◌, inl, inr, some, List, [], arith, length, ltb, Eq, nat_eq,
  list_eq, Bool-cases,
}
use rust_ipfs.Base.Map
use rust_ipfs.Base.Map.{Map}
use rust_ipfs.Base.Set
use rust_ipfs.Bitswap.SessionWants.{
  SessionWants, new, blocks_requested, get_next_wants, wants_sent, receive, gc_order,
  blocks_received, prepare_broadcast, cancel_pending, live_wants_order_gc_limit,
}
use rust_ipfs.Bitswap.SessionWants.Live.{
  IsValid, length-live_le, new-IsValid, blocks_requested-IsValid, wants_sent-IsValid,
  receive-IsValid, blocks_received-IsValid, prepare_broadcast-IsValid, cancel_pending-IsValid,
  get_next_wants-IsValid, left_after,
}

module _ {Cid : Type 0} ⦃e : Eq Cid⦄ where
  -- The states of a session's wants that calls of its methods lead to, where no call panics.
  pub data Run : SessionWants Cid → Type 0 where
    start : (limit : ℕ) → Run (new limit)
    requested : {w : SessionWants Cid} (ks : List Cid) → Run w → Run (blocks_requested w ks)
    fetched :
        {w : SessionWants Cid} (now : ℕ) (r : SessionWants Cid × List Cid)
        → Run w
        → get_next_wants w now ≡ some r
        → Run r.0
    sent : {w : SessionWants Cid} (now : ℕ) (ks : List Cid) → Run w → Run (wants_sent w now ks)
    received :
        {w : SessionWants Cid} (now : ℕ) (ks : List Cid) (r : SessionWants Cid × List Cid × ℕ)
        → Run w
        → blocks_received w now ks ≡ some r
        → Run r.0
    broadcast : {w : SessionWants Cid} (now : ℕ) → Run w → Run (prepare_broadcast w now).0
    cancelled : {w : SessionWants Cid} (ks : List Cid) → Run w → Run (cancel_pending w ks)

  received-IsValid :
      (w : SessionWants Cid) (now : ℕ) (ks : List Cid) (r : SessionWants Cid × List Cid × ℕ)
      → blocks_received w now ks ≡ some r
      → IsValid w
      → IsValid r.0
  received-IsValid w now ks r h v =
      let (q, e, u) = blocks_received-IsValid w now ks v in
      let same : q ≡ r = cc e in subst (λ x. IsValid x.0) same u

  -- Whatever calls were made, each content id is live once, and stands in the order of live wants.
  pub Run-IsValid : {w : SessionWants Cid} → Run w → IsValid w
  Run-IsValid (start limit) = new-IsValid limit
  Run-IsValid (requested {w} ks r) = blocks_requested-IsValid w ks (Run-IsValid r)
  Run-IsValid (fetched {w} now q r h) = get_next_wants-IsValid w now q h (Run-IsValid r)
  Run-IsValid (sent {w} now ks r) = wants_sent-IsValid w now ks (Run-IsValid r)
  Run-IsValid (received {w} now ks q r h) = received-IsValid w now ks q h (Run-IsValid r)
  Run-IsValid (broadcast {w} now r) = prepare_broadcast-IsValid w now (Run-IsValid r)
  Run-IsValid (cancelled {w} ks r) = cancel_pending-IsValid w ks (Run-IsValid r)

  -- On every state that calls lead to, `blocks_received` returns: the subtraction of the lengths of
  -- the live wants from that of their order does not overflow. After it each content id is live at
  -- most once, and each live one stands in the order. The order is at most 32 entries longer than the
  -- live wants, or holds nothing but live wants, each of them once or more often.
  pub blocks_received_returns :
      (w : SessionWants Cid) (now : ℕ) (ks : List Cid)
      → Run w
      → (r : SessionWants Cid × List Cid × ℕ) × (blocks_received w now ks ≡ some r)
        × IsValid r.0
        × ((length r.0.live_wants_order ≤ length r.0.live_wants + 32)
            ⊎ ((j : Cid)
                → Set.contains r.0.live_wants_order j ≡ true
                → Map.contains_key r.0.live_wants j ≡ true))
  unfolding blocks_received gc_order
  blocks_received_returns w now ks reach =
      let left = left_after w now ks in
      let u = receive-IsValid w now ks [] 0 (Run-IsValid reach) in
      let excess = length left.live_wants_order - length left.live_wants in
      elim (Bool-cases (ltb live_wants_order_gc_limit excess)) [
        | inl long ↦
            let r : SessionWants Cid × List Cid × ℕ =
              (gc_order left, (receive w now ks [] 0).1, (receive w now ks [] 0).2) in
            let done : blocks_received w now ks ≡ some r = ground (arith, length-live_le left u) in
            (
              r,
              done,
              received-IsValid w now ks r done (Run-IsValid reach),
              inr (λ j h. ground (
                arith,
                Set.contains-retain (Map.contains_key left.live_wants) left.live_wants_order j,
                h,
              )),
            )
        | inr short ↦
            let r : SessionWants Cid × List Cid × ℕ =
              (left, (receive w now ks [] 0).1, (receive w now ks [] 0).2) in
            let done : blocks_received w now ks ≡ some r = ground (arith, length-live_le left u) in
            (
              r,
              done,
              received-IsValid w now ks r done (Run-IsValid reach),
              inl (ground (arith, length-live_le left u)),
            )
      ]
