-- ===== src/TaskQueue/PeerQueue/Tests.antt =====
-- Runs of the queue of peers, with lists as queues and numbers as topics and peers.
use rust_ipfs.Base.{ℕ, false, ◌≡◌, refl, some, [], ◌∷◌, nat_eq, list_eq}
use rust_ipfs.Base.Map
use rust_ipfs.Base.Map.{Map}
use rust_ipfs.Base.Set
use rust_ipfs.TaskQueue.Task.{Task, QueueTask}
use rust_ipfs.TaskQueue.KeyedQueue.{KeyedQueue}
use rust_ipfs.TaskQueue.PeerTracker
use rust_ipfs.TaskQueue.PeerTracker.{PeerTracker}
use rust_ipfs.Base.Int.{pos}
use rust_ipfs.TaskQueue.Task.{default_task_merger}
use rust_ipfs.TaskQueue.ListQueue.{queue, pop_first}
use rust_ipfs.TaskQueue.PeerQueue.{Inner, Config, new, push_tasks, pop_tasks, tasks_done, remove}
use rust_ipfs.TaskQueue.PeerQueue.Frozen.{IsSound}
use rust_ipfs.TaskQueue.PeerQueue.Runs.{Reach, Reach-IsSound, tasks_done_returns}

abbrev tasks : KeyedQueue ℕ (QueueTask ℕ ℕ ℕ)
tasks = queue

abbrev trackers : KeyedQueue ℕ (PeerTracker tasks)
trackers = queue

abbrev task : ℕ → ℕ → Task ℕ ℕ
task topic work = record { topic = topic; priority = pos 0; work = work; info = 0 }

abbrev config : Config
config = record { ignore_freezing = false; max_outstanding_work_per_peer = 0 }

-- Peer 1 is being served the first of its three tasks, and then cancels the second.
abbrev waiting : Inner tasks trackers
waiting =
    (push_tasks tasks trackers (new tasks trackers default_task_merger config) 0 1
      (task 3 5 ∷ task 4 6 ∷ task 8 2 ∷ [])).0

abbrev serving : Inner tasks trackers
serving = (pop_tasks tasks trackers waiting 5).0

abbrev cancelled : Inner tasks trackers
cancelled = remove tasks trackers serving 4 1

cancelled-Reach : Reach tasks trackers cancelled
cancelled-Reach = Reach.removed 4 1 (
    Reach.popped 5 (
      Reach.pushed 0 1 (task 3 5 ∷ task 4 6 ∷ task 8 2 ∷ [])
        (Reach.start default_task_merger config)))

frozen : cancelled.frozen_peers ≡ 1 ∷ []
unfolding remove Map.get queue pop_tasks pop_first push_tasks new Map.insert Map.remove
    PeerTracker.is_idle PeerTracker.pop_tasks PeerTracker.push_tasks PeerTracker.new
    PeerTracker.remove PeerTracker.is_frozen Set.insert
frozen = refl

Reach-IsSound_example : IsSound tasks trackers cancelled
Reach-IsSound_example = Reach-IsSound tasks trackers cancelled-Reach

tasks_done_returns_example :
    (r : Inner tasks trackers) × (tasks_done tasks trackers cancelled 1 (task 3 5 ∷ []) ≡ some r)
tasks_done_returns_example =
    tasks_done_returns tasks trackers cancelled 1 (task 3 5 ∷ []) cancelled-Reach
