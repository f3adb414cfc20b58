-- ===== src/TaskQueue/PeerTracker.antt =====
-- packages/beetle-bitswap-next/src/peer_task_queue/peer_tracker.rs: the pending and the active tasks
-- of one peer. The priority queue is a parameter. The freeze value starts at 0 and no method takes
-- more from it than it holds, so it is a number; `none` is a failed `assert!`.
pub mod Work
pub mod Popping
pub mod Pending
pub mod Freezing
pub mod Tests
use Prim.Native.Nat.{compare, Ordering}
use rust_ipfs.Base.{
  ℕ, zero, suc, ◌+◌, ◌-◌, ◌/◌, ◌≤◌, ◌<◌, Bool, true, false, not, ◌&&◌, ◌||◌, ◌≡◌, refl, sym, ap,
  subst, ◌∙◌, ◌⊎◌, inl, inr, ◌↔◌, ◌≢◌, Option, none, some, List, [], ◌∷◌, ◌++◌, map, arith,
  if◌then◌else◌, All, length, length-append, is_empty, retain, ltb, leb, Eq, nat_eq, nat_beq,
  get_elem?, ◌==◌, ==_iff, ==_refl, Option-cases, Bool-cases, if_elim, is_some,
}
use rust_ipfs.Base.Map
use rust_ipfs.Base.Map.{Map}
use rust_ipfs.Base.Set
use rust_ipfs.Base.Int.{ℤ}
use rust_ipfs.TaskQueue.Task.{Task, QueueTask, TaskMerger, task_eq, compare_ℤ}
use rust_ipfs.TaskQueue.KeyedQueue.{KeyedQueue}

abbrev pub is_greater : ℤ → ℤ → Bool
is_greater a b = elim (compare_ℤ a b) [ Ordering.gt ↦ true | _ ↦ false ]

pub record Stats : Type 0 where
  pub num_pending : ℕ
  pub num_active : ℕ

-- The work of a list of tasks.
unfoldable pub work_of : {T D : Type 0} → List (Task T D) → ℕ
work_of [] = 0
work_of (t ∷ ts) = t.work + work_of ts

-- `retain(|at| at != task)`, and the work that the closure adds up.
unfoldable pub retire :
    {T D : Type 0} ⦃t : Eq T⦄ ⦃d : Eq D⦄ → Task T D → List (Task T D) → List (Task T D) × ℕ
retire task [] = ([], 0)
retire task (at ∷ ats) =
    let (left, work_done) = retire task ats in
    if task_eq at task then (left, work_done + task.work) else (at ∷ left, work_done)

module _ {T D Peer : Type 0} ⦃t : Eq T⦄ ⦃d : Eq D⦄ (Q : KeyedQueue T (QueueTask T D Peer)) where
  pub record PeerTracker : Type 0 where
    pub target : Peer
    pub pending_tasks : Q.Queue
    pub active_tasks : Map T (List (Task T D))
    pub active_work : ℕ
    pub max_active_work_per_peer : ℕ
    pub freeze_val : ℕ
    pub task_merger : TaskMerger T D

  unfoldable pub new : Peer → TaskMerger T D → ℕ → PeerTracker
  new target task_merger max_active_work_per_peer = record {
    target = target;
    pending_tasks = Q.new;
    active_tasks = [];
    active_work = 0;
    max_active_work_per_peer = max_active_work_per_peer;
    freeze_val = 0;
    task_merger = task_merger;
  }

  abbrev pub pending : PeerTracker → Map T (QueueTask T D Peer)
  pending s = Q.entries s.pending_tasks

  unfoldable pub is_idle : PeerTracker → Bool
  is_idle s = is_empty (pending s) && is_empty s.active_tasks

  unfoldable pub stats : PeerTracker → Stats
  stats s = record { num_pending = length (pending s); num_active = length s.active_tasks }

  unfoldable pub get_pending_work : PeerTracker → ℕ
  unfolding Map.total
  get_pending_work s = Map.total (λ qt. qt.task.work) (pending s)

  unfoldable pub task_has_more_info_than_active_tasks : PeerTracker → Task T D → Bool
  task_has_more_info_than_active_tasks s task = elim (Map.get s.active_tasks task.topic) [
    | none ↦ true
    | some tasks ↦ if is_empty tasks then true else s.task_merger.has_new_info task tasks
  ]

  -- The pending task of the same topic with the new one merged in.
  unfoldable pub merged : PeerTracker → Task T D → QueueTask T D Peer → QueueTask T D Peer
  merged s task old = record old {
    task = s.task_merger.merge task (
        if is_greater task.priority old.task.priority
        then record old.task { priority = task.priority }
        else old.task);
  }

  unfoldable pub push_task : PeerTracker → ℕ → Task T D → PeerTracker
  unfolding task_has_more_info_than_active_tasks merged
  push_task s now task =
      if not (task_has_more_info_than_active_tasks s task)
      then s
      else elim (Map.get (pending s) task.topic) [
        | some old ↦ record s {
          pending_tasks =
              Q.push (Q.remove s.pending_tasks task.topic) task.topic (merged s task old);
        }
        | none ↦ record s {
          pending_tasks =
              Q.push s.pending_tasks task.topic
                (record { task = task; target = s.target; created = now });
        }
      ]

  unfoldable pub push_tasks : PeerTracker → ℕ → List (Task T D) → PeerTracker
  unfolding push_task
  push_tasks s now [] = s
  push_tasks s now (task ∷ tasks) = push_tasks (push_task s now task) now tasks

  unfoldable pub start_task : PeerTracker → Task T D → PeerTracker
  start_task s task = record s {
    active_work = s.active_work + task.work;
    active_tasks =
        Map.insert s.active_tasks task.topic (Map.get_or s.active_tasks task.topic [] ++ task ∷ []);
  }

  -- The peer has as much active work as it may have.
  unfoldable pub is_maxed_out : PeerTracker → Bool
  is_maxed_out s = ltb 0 s.max_active_work_per_peer && leb s.max_active_work_per_peer s.active_work

  -- The condition under which the loop of `pop_tasks` makes another round.
  unfoldable pub goes_on : PeerTracker → ℕ → ℕ → Bool
  unfolding is_maxed_out
  goes_on s target_min_work work =
      not (is_empty (pending s))
      && (nat_beq s.freeze_val 0 && (ltb work target_min_work && not (is_maxed_out s)))

  -- Each round pops one pending task, so the number of pending tasks is enough fuel.
  unfoldable pub pop_loop :
      ℕ → PeerTracker → ℕ → ℕ → List (Task T D) → PeerTracker × List (Task T D)
  unfolding goes_on start_task
  pop_loop zero s target_min_work work out = (s, out)
  pop_loop (suc fuel) s target_min_work work out = elim (goes_on s target_min_work work) [
    | false ↦ (s, out)
    | true ↦ elim (Q.pop s.pending_tasks) [
      | none ↦ pop_loop fuel s target_min_work work out
      | some (topic, qtask, rest) ↦
          pop_loop fuel (start_task (record s { pending_tasks = rest }) qtask.task) target_min_work
            (work + qtask.task.work) (out ++ qtask.task ∷ [])
    ]
  ]

  unfoldable pub pop_tasks : PeerTracker → ℕ → PeerTracker × List (Task T D)
  unfolding pop_loop
  pop_tasks s target_min_work = pop_loop (length (pending s)) s target_min_work 0 []

  unfoldable pub task_done : PeerTracker → Task T D → Option PeerTracker
  unfolding retire
  task_done s task = elim (Map.get s.active_tasks task.topic) [
    | none ↦ some s
    | some active ↦
        let (left, work_done) = retire task active in
        if ltb s.active_work work_done
        then none
        else some (record s {
          active_work = s.active_work - work_done;
          active_tasks =
              if is_empty left
              then Map.remove s.active_tasks task.topic
              else Map.insert s.active_tasks task.topic left;
        })
  ]

  unfoldable pub remove : PeerTracker → T → PeerTracker × Bool
  remove s topic = (
    record s { pending_tasks = Q.remove s.pending_tasks topic },
    is_some (Map.get (pending s) topic),
  )

  unfoldable pub freeze : PeerTracker → PeerTracker
  freeze s = record s { freeze_val = s.freeze_val + 1 }

  unfoldable pub thaw : PeerTracker → PeerTracker × Bool
  thaw s =
      let left = s.freeze_val - (s.freeze_val + 1) / 2 in
      (record s { freeze_val = left }, nat_beq left 0)

  unfoldable pub full_thaw : PeerTracker → PeerTracker
  full_thaw s = record s { freeze_val = 0 }

  unfoldable pub is_frozen : PeerTracker → Bool
  is_frozen s = ltb 0 s.freeze_val

  -- `Ord for PeerTracker`. The second test of the freeze values is the first one once more.
  unfoldable pub cmp : PeerTracker → PeerTracker → Ordering
  cmp a b =
      if is_empty (pending a)
      then Ordering.lt
      else if is_empty (pending b)
      then Ordering.gt
      else if ltb b.freeze_val a.freeze_val
      then Ordering.lt
      else if ltb b.freeze_val a.freeze_val
      then Ordering.gt
      else if nat_beq a.active_work b.active_work
      then compare (length (pending a)) (length (pending b))
      else compare b.active_work a.active_work
