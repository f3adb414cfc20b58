-- ===== src/TaskQueue/PeerQueue/Runs.antt =====
-- Whole runs of the queue: no call panics, and thawing ends all freezing.
use rust_ipfs.Base.{
  ℕ, false, not, ◌&&◌, ◌≡◌, refl, sym, ap, subst, ◌∙◌, inl, inr, some, List, [], ◌∷◌, arith, Eq,
  nat_eq, list_eq, ◌==◌, Option-cases,
}
use rust_ipfs.Base.Map
use rust_ipfs.Base.Map.{Map}
use rust_ipfs.Base.Set
use rust_ipfs.TaskQueue.Task.{Task, QueueTask, TaskMerger}
use rust_ipfs.TaskQueue.KeyedQueue.{KeyedQueue}
use rust_ipfs.TaskQueue.PeerTracker.{PeerTracker}
use rust_ipfs.TaskQueue.PeerQueue.{
  Inner, Config, peers, new, add_hook, push_tasks, pop_tasks, tasks_done, remove, full_thaw,
  full_thaw_peer, full_thaw_peers, thaw_peer, thaw_peers, thaw_round,
}
use rust_ipfs.TaskQueue.PeerQueue.Frozen.{is_frozen_at, IsSound, new-IsSound}
use rust_ipfs.TaskQueue.PeerQueue.Reachable.{
  push_tasks-IsSound, tasks_done-IsSound, pop_tasks-IsSound, remove-IsSound, thaw_peer-IsSound,
  full_thaw_peer-IsSound,
}

module _ {T D Peer : Type 0} ⦃t : Eq T⦄ ⦃d : Eq D⦄ ⦃p : Eq Peer⦄
    (Q : KeyedQueue T (QueueTask T D Peer)) (R : KeyedQueue Peer (PeerTracker Q)) where
  thaw_peers-IsSound :
      (s : Inner Q R) (ps : List Peer) → IsSound Q R s → IsSound Q R (thaw_peers Q R s ps)
  unfolding thaw_peers
  thaw_peers-IsSound s [] v = v
  thaw_peers-IsSound s (q ∷ ps) v =
      thaw_peers-IsSound (thaw_peer Q R s q) ps (thaw_peer-IsSound Q R s q v)

  full_thaw_peers-IsSound :
      (s : Inner Q R) (ps : List Peer) → IsSound Q R s → IsSound Q R (full_thaw_peers Q R s ps)
  unfolding full_thaw_peers
  full_thaw_peers-IsSound s [] v = v
  full_thaw_peers-IsSound s (q ∷ ps) v =
      full_thaw_peers-IsSound (full_thaw_peer Q R s q) ps (full_thaw_peer-IsSound Q R s q v)

  -- The queues that calls lead to, where no assertion fails.
  pub data Reach : Inner Q R → Type 0 where
    start : (m : TaskMerger T D) (c : Config) → Reach (new Q R m c)
    hooked : {s : Inner Q R} → Reach s → Reach (add_hook Q R s)
    pushed :
        {s : Inner Q R} (now : ℕ) (peer : Peer) (tasks : List (Task T D))
        → Reach s
        → Reach (push_tasks Q R s now peer tasks).0
    popped : {s : Inner Q R} (least : ℕ) → Reach s → Reach (pop_tasks Q R s least).0
    done :
        {s r : Inner Q R} (peer : Peer) (tasks : List (Task T D))
        → Reach s
        → tasks_done Q R s peer tasks ≡ some r
        → Reach r
    removed : {s : Inner Q R} (topic : T) (peer : Peer) → Reach s → Reach (remove Q R s topic peer)
    fully_thawed : {s : Inner Q R} → Reach s → Reach (full_thaw Q R s)
    thawed : {s : Inner Q R} → Reach s → Reach (thaw_round Q R s)

  tasks_done-keeps :
      (s r : Inner Q R) (peer : Peer) (tasks : List (Task T D))
      → IsSound Q R s
      → tasks_done Q R s peer tasks ≡ some r
      → IsSound Q R r
  tasks_done-keeps s r peer tasks v h =
      let (q, e, u) = tasks_done-IsSound Q R s peer tasks v in
      let same : q ≡ r = cc e in subst (IsSound Q R) same u

  -- Whatever calls were made on the queue, a peer is among the frozen peers exactly where it is tracked
  -- with a freeze value above zero, and each tracked peer's active work is that of its active tasks.
  pub Reach-IsSound : {s : Inner Q R} → Reach s → IsSound Q R s
  unfolding add_hook full_thaw thaw_round
  Reach-IsSound (start m c) = new-IsSound Q R m c
  Reach-IsSound (hooked r) =
      let v = Reach-IsSound r in record { frozen = v.frozen; balanced = v.balanced }
  Reach-IsSound (pushed {s} now peer tasks r) =
      push_tasks-IsSound Q R s now peer tasks (Reach-IsSound r)
  Reach-IsSound (popped {s} least r) = pop_tasks-IsSound Q R s least (Reach-IsSound r)
  Reach-IsSound (done {s} {r} peer tasks q h) = tasks_done-keeps s r peer tasks (Reach-IsSound q) h
  Reach-IsSound (removed {s} topic peer r) = remove-IsSound Q R s topic peer (Reach-IsSound r)
  Reach-IsSound (fully_thawed {s} r) = full_thaw_peers-IsSound s s.frozen_peers (Reach-IsSound r)
  Reach-IsSound (thawed {s} r) = thaw_peers-IsSound s s.frozen_peers (Reach-IsSound r)

  -- On every queue that calls lead to, `tasks_done` returns, whatever tasks are reported as done for
  -- whatever peer: no assertion of a tracker fails.
  pub tasks_done_returns :
      (s : Inner Q R) (peer : Peer) (tasks : List (Task T D))
      → Reach s
      → (r : Inner Q R) × (tasks_done Q R s peer tasks ≡ some r)
  tasks_done_returns s peer tasks reach =
      let (r, e, v) = tasks_done-IsSound Q R s peer tasks (Reach-IsSound reach) in (r, e)

  contains-full_thaw_peer :
      (s : Inner Q R) (q j : Peer)
      → IsSound Q R s
      → Set.contains (full_thaw_peer Q R s q).frozen_peers j
        ≡ (not (q == j) && Set.contains s.frozen_peers j)
  unfolding full_thaw_peer
  contains-full_thaw_peer s q j v = elim (Option-cases (Map.get (peers Q R s) q)) [
    | inl gone ↦
        let absent : Set.contains s.frozen_peers q ≡ false =
          v.frozen q ∙ ap (is_frozen_at Q R) gone in
        rw (gone, full_thaw_peer) (ground (arith, absent, Set.contains_same s.frozen_peers q j))
    | inr (x, held) ↦ rw (held, full_thaw_peer) (Set.contains-remove s.frozen_peers q j)
  ]

  contains-full_thaw_peers :
      (s : Inner Q R) (ps : List Peer) (j : Peer)
      → IsSound Q R s
      → Set.contains (full_thaw_peers Q R s ps).frozen_peers j
        ≡ (not (Set.contains ps j) && Set.contains s.frozen_peers j)
  unfolding full_thaw_peers Set.contains
  contains-full_thaw_peers s [] j v = refl
  contains-full_thaw_peers s (q ∷ ps) j v = ground (
    arith,
    contains-full_thaw_peer s q j v,
    contains-full_thaw_peers (full_thaw_peer Q R s q) ps j (full_thaw_peer-IsSound Q R s q v),
  )

  -- After `full_thaw` on a queue that calls lead to, no peer is among the frozen peers, and no tracked
  -- peer has a freeze value above zero.
  pub full_thaw_ends :
      (s : Inner Q R) (j : Peer)
      → Reach s
      → (Set.contains (full_thaw Q R s).frozen_peers j ≡ false)
        × (is_frozen_at Q R (Map.get (peers Q R (full_thaw Q R s)) j) ≡ false)
  unfolding full_thaw
  full_thaw_ends s j reach =
      let v = Reach-IsSound reach in
      let none_left : Set.contains (full_thaw_peers Q R s s.frozen_peers).frozen_peers j ≡ false =
        ground (arith, contains-full_thaw_peers s s.frozen_peers j v) in
      (none_left, sym ((full_thaw_peers-IsSound s s.frozen_peers v).frozen j) ∙ none_left)
