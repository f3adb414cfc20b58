-- ===== src/TaskQueue/PeerQueue.antt =====
-- packages/beetle-bitswap-next/src/peer_task_queue.rs: the queue of peers with tasks. The queue of
-- trackers is a parameter, as the queue of tasks. An event is returned; it goes to each of the hooks,
-- of which only the number is kept. `none` is a failed assertion of a tracker.
pub mod Frozen
pub mod Reachable
pub mod Runs
pub mod Tests
use rust_ipfs.Base.{
  ℕ, ◌+◌, Bool, not, ◌&&◌, Option, none, some, List, [], ◌∷◌, if◌then◌else◌, length, Eq, nat_eq,
  list_eq,
}
use rust_ipfs.Base.Map
use rust_ipfs.Base.Map.{Map}
use rust_ipfs.Base.Set
use rust_ipfs.TaskQueue.Task.{Task, QueueTask, TaskMerger}
use rust_ipfs.TaskQueue.KeyedQueue.{KeyedQueue}
use rust_ipfs.TaskQueue.PeerTracker
use rust_ipfs.TaskQueue.PeerTracker.{PeerTracker}

pub data Event (Peer : Type 0) : Type 0 where
  peer_added : Peer → Event Peer
  peer_removed : Peer → Event Peer

pub record Config : Type 0 where
  pub ignore_freezing : Bool
  pub max_outstanding_work_per_peer : ℕ

pub record QueueStats : Type 0 where
  pub num_peers : ℕ
  pub num_active : ℕ
  pub num_pending : ℕ

module _ {T D Peer : Type 0} ⦃t : Eq T⦄ ⦃d : Eq D⦄ ⦃p : Eq Peer⦄
    (Q : KeyedQueue T (QueueTask T D Peer)) (R : KeyedQueue Peer (PeerTracker Q)) where
  pub record Inner : Type 0 where
    pub peer_queue : R.Queue
    pub frozen_peers : List Peer
    pub ignore_freezing : Bool
    pub task_merger : TaskMerger T D
    pub max_outstanding_work_per_peer : ℕ
    pub hooks : ℕ

  unfoldable pub new : TaskMerger T D → Config → Inner
  new task_merger config = record {
    peer_queue = R.new;
    frozen_peers = [];
    ignore_freezing = config.ignore_freezing;
    task_merger = task_merger;
    max_outstanding_work_per_peer = config.max_outstanding_work_per_peer;
    hooks = 0;
  }

  abbrev pub peers : Inner → Map Peer (PeerTracker Q)
  peers s = R.entries s.peer_queue

  unfoldable pub add_hook : Inner → Inner
  add_hook s = record s { hooks = s.hooks + 1 }

  -- The tracker of a peer, taken out, changed and put back.
  abbrev pub put : Inner → Peer → PeerTracker Q → Inner
  put s peer tracker = record s { peer_queue = R.push (R.remove s.peer_queue peer) peer tracker }

  unfoldable pub stats : Inner → QueueStats
  unfolding Map.total Map.values
  stats s = record {
    num_peers = length (peers s);
    num_active = Map.total (λ tracker. (PeerTracker.stats Q tracker).num_active) (peers s);
    num_pending = Map.total (λ tracker. (PeerTracker.stats Q tracker).num_pending) (peers s);
  }

  unfoldable pub push_tasks : Inner → ℕ → Peer → List (Task T D) → Inner × List (Event Peer)
  push_tasks s now peer tasks = elim (Map.get (peers s) peer) [
    | some tracker ↦ (put s peer (PeerTracker.push_tasks Q tracker now tasks), [])
    | none ↦
        let tracker = PeerTracker.new Q peer s.task_merger s.max_outstanding_work_per_peer in
        (put s peer (PeerTracker.push_tasks Q tracker now tasks), peer_added peer ∷ [])
  ]

  unfoldable pub push_task : Inner → ℕ → Peer → Task T D → Inner × List (Event Peer)
  unfolding push_tasks
  push_task s now peer task = push_tasks s now peer (task ∷ [])

  unfoldable pub pop_tasks :
      Inner → ℕ → Inner × Option (Peer × List (Task T D) × ℕ) × List (Event Peer)
  pop_tasks s target_min_work = elim (R.pop s.peer_queue) [
    | none ↦ (s, none, [])
    | some (peer, tracker, rest) ↦
        let (left, out) = PeerTracker.pop_tasks Q tracker target_min_work in
        let answer = some (peer, out, PeerTracker.get_pending_work Q left) in
        if PeerTracker.is_idle Q left
        then (
          record s { peer_queue = rest; frozen_peers = Set.remove s.frozen_peers peer },
          answer,
          peer_removed peer ∷ [],
        )
        else (record s { peer_queue = R.push rest peer left }, answer, [])
  ]

  -- The loop of `tasks_done` over the tasks.
  unfoldable pub all_done : PeerTracker Q → List (Task T D) → Option (PeerTracker Q)
  all_done tracker [] = some tracker
  all_done tracker (task ∷ tasks) = elim (PeerTracker.task_done Q tracker task) [
    | none ↦ none
    | some left ↦ all_done left tasks
  ]

  unfoldable pub tasks_done : Inner → Peer → List (Task T D) → Option Inner
  unfolding all_done
  tasks_done s peer tasks = elim (Map.get (peers s) peer) [
    | none ↦ some s
    | some tracker ↦ elim (all_done tracker tasks) [
      | none ↦ none
      | some left ↦ some (put s peer left)
    ]
  ]

  -- Freezes a peer that cancels what is about to be sent to it.
  unfoldable pub remove : Inner → T → Peer → Inner
  remove s topic peer = elim (Map.get (peers s) peer) [
    | none ↦ s
    | some tracker ↦
        let (left, found) = PeerTracker.remove Q tracker topic in
        if found && not s.ignore_freezing
        then (record (put s peer (PeerTracker.freeze Q left)) {
          frozen_peers =
              if not (PeerTracker.is_frozen Q left)
              then Set.insert s.frozen_peers peer
              else s.frozen_peers;
        })
        else put s peer left
  ]

  -- One round of the loop of `full_thaw`.
  unfoldable pub full_thaw_peer : Inner → Peer → Inner
  full_thaw_peer s peer = elim (Map.get (peers s) peer) [
    | none ↦ s
    | some tracker ↦ record (put s peer (PeerTracker.full_thaw Q tracker)) {
      frozen_peers = Set.remove s.frozen_peers peer;
    }
  ]

  unfoldable pub full_thaw_peers : Inner → List Peer → Inner
  unfolding full_thaw_peer
  full_thaw_peers s [] = s
  full_thaw_peers s (peer ∷ frozen_peers) = full_thaw_peers (full_thaw_peer s peer) frozen_peers

  unfoldable pub full_thaw : Inner → Inner
  unfolding full_thaw_peers
  full_thaw s = full_thaw_peers s s.frozen_peers

  -- One round of the loop of `thaw_round`.
  unfoldable pub thaw_peer : Inner → Peer → Inner
  thaw_peer s peer = elim (Map.get (peers s) peer) [
    | none ↦ s
    | some tracker ↦
        let (left, thawed) = PeerTracker.thaw Q tracker in
        record (put s peer left) {
          frozen_peers = if thawed then Set.remove s.frozen_peers peer else s.frozen_peers;
        }
  ]

  unfoldable pub thaw_peers : Inner → List Peer → Inner
  unfolding thaw_peer
  thaw_peers s [] = s
  thaw_peers s (peer ∷ frozen_peers) = thaw_peers (thaw_peer s peer) frozen_peers

  unfoldable pub thaw_round : Inner → Inner
  unfolding thaw_peers
  thaw_round s = thaw_peers s s.frozen_peers
