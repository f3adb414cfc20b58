-- ===== src/TaskQueue/PeerTracker/Pending.antt =====
-- `push_tasks` and `remove`: what is pending afterwards.
use Prim.Native.Nat.{Ordering}
use rust_ipfs.Base.{
  ℕ, Bool, ◌||◌, [], is_empty, ◌&&◌, ◌≡◌, refl, Option, none, some, arith, if◌then◌else◌, Eq,
  nat_eq, ◌==◌, is_some,
}
use rust_ipfs.Base.Map
use rust_ipfs.Base.Map.{Map}
use rust_ipfs.TaskQueue.Task.{compare_ℤ, Task, QueueTask}
use rust_ipfs.TaskQueue.KeyedQueue.{KeyedQueue}
use rust_ipfs.TaskQueue.PeerTracker.{
  PeerTracker, pending, push_task, merged, remove, task_has_more_info_than_active_tasks,
}

module _ {T D Peer : Type 0} ⦃t : Eq T⦄ ⦃d : Eq D⦄ (Q : KeyedQueue T (QueueTask T D Peer)) where
  -- No task of the topic is active, or the merger finds news in the new task.
  abbrev pub is_news : PeerTracker Q → Task T D → Bool
  is_news s x =
      let active = Map.get_or s.active_tasks x.topic [] in
      is_empty active || s.task_merger.has_new_info x active

  -- The pending task `old` with the priority of the new one, where that is greater.
  abbrev pub raised : Task T D → Task T D → Task T D
  raised x old = elim (compare_ℤ x.priority old.priority) [
    | Ordering.gt ↦ record old { priority = x.priority }
    | Ordering.eq ↦ old
    | Ordering.lt ↦ old
  ]

  -- What a new task makes of the pending task of its topic.
  abbrev pub queued :
      PeerTracker Q → ℕ → Task T D → Option (QueueTask T D Peer) → QueueTask T D Peer
  queued s now x none = record { task = x; target = s.target; created = now }
  queued s now x (some old) = record {
    task = s.task_merger.merge x (raised x old.task);
    target = old.target;
    created = old.created;
  }

  -- A new task changes nothing where tasks of its topic are active and the merger finds no news in it.
  -- Any other becomes the pending task of its topic, created now, or is merged into the one that is
  -- there, which gets the greater of the two priorities and keeps its target and its time of creation.
  -- The pending tasks of other topics stay, and so do the active tasks, the active work and the freeze
  -- value.
  pub push_task_lem :
      (s : PeerTracker Q) (now : ℕ) (x : Task T D) (j : T)
      → let s' = push_task Q s now x in
        (Map.get (pending Q s') j ≡ (
          if (x.topic == j) && is_news s x
          then some (queued s now x (Map.get (pending Q s) j))
          else Map.get (pending Q s) j))
        × (s'.active_tasks ≡ s.active_tasks)
        × (s'.active_work ≡ s.active_work)
        × (s'.freeze_val ≡ s.freeze_val)
  unfolding push_task merged task_has_more_info_than_active_tasks
  push_task_lem s now x j =
      let old : QueueTask T D Peer = elim (Map.get (pending Q s) x.topic) [
        | none ↦ record { task = x; target = s.target; created = now }
        | some o ↦ merged Q s x o
      ] in
      ground (
        arith,
        Q.get-push s.pending_tasks x.topic (record { task = x; target = s.target; created = now })
            j,
        Q.get-push (Q.remove s.pending_tasks x.topic) x.topic old j,
        Q.get-remove s.pending_tasks x.topic j,
        Map.get_same (pending Q s) x.topic j,
      )

  -- Removing a topic reports whether it was pending, and leaves all else.
  pub remove_lem :
      (s : PeerTracker Q) (topic j : T)
      → ((remove Q s topic).1 ≡ is_some (Map.get (pending Q s) topic))
        × (Map.get (pending Q (remove Q s topic).0) j
            ≡ (if topic == j then none else Map.get (pending Q s) j))
  unfolding remove
  remove_lem s topic j = (refl, Q.get-remove s.pending_tasks topic j)
