-- ===== src/TaskQueue/PeerTracker/Tests.antt =====
-- Runs of a peer's tracker with a list as the queue, and of the server's merger of tasks.
use rust_ipfs.Base.{
  ℕ, ◌+◌, ◌≤◌, ◌<◌, true, false, ◌≡◌, refl, ◌⊎◌, ◌≢◌, some, List, [], ◌∷◌, arith, length, nat_eq,
}
use rust_ipfs.Base.Map
use rust_ipfs.Base.Map.{Map}
use Prim.Native.Nat.{Ordering}
use rust_ipfs.Base.Int.{pos}
use rust_ipfs.TaskQueue.Task.{Task, QueueTask, default_task_merger}
use rust_ipfs.TaskQueue.KeyedQueue.{KeyedQueue}
use rust_ipfs.TaskQueue.TaskMerger.{TaskData}
use rust_ipfs.TaskQueue.PeerTracker.{
  PeerTracker, pending, work_of, new, push_task, push_tasks, pop_tasks, task_done, freeze, cmp,
}
use rust_ipfs.TaskQueue.PeerTracker.Work.{IsBalanced, Reach, Reach-IsBalanced, task_done-IsBalanced}
use rust_ipfs.TaskQueue.PeerTracker.Popping.{Pops, pop_tasks_lem}
use rust_ipfs.TaskQueue.PeerTracker.Pending.{push_task_lem}
use rust_ipfs.TaskQueue.PeerTracker.Freezing.{cmp_frozen}
use rust_ipfs.TaskQueue.ListQueue.{queue, pop_first}

abbrev tasks : KeyedQueue ℕ (QueueTask ℕ ℕ ℕ)
tasks = queue

abbrev task : ℕ → ℕ → Task ℕ ℕ
task topic work = record { topic = topic; priority = pos 0; work = work; info = 0 }

abbrev idle : PeerTracker tasks
idle = new tasks 1 default_task_merger 0

abbrev waiting : PeerTracker tasks
waiting = push_tasks tasks idle 0 (task 3 5 ∷ task 4 6 ∷ [])

abbrev working : PeerTracker tasks
working = (pop_tasks tasks waiting 5).0

working-Reach : Reach tasks working
working-Reach =
    Reach.popped 5 (Reach.pushed 0 (task 3 5 ∷ task 4 6 ∷ []) (Reach.start 1 default_task_merger 0))

popped : (pop_tasks tasks waiting 5).1 ≡ task 3 5 ∷ []
unfolding pop_tasks queue push_tasks Map.get new Map.insert pop_first
popped = refl

Reach-IsBalanced_example : IsBalanced tasks working
Reach-IsBalanced_example = Reach-IsBalanced tasks working-Reach

working-IsBalanced : IsBalanced tasks working
working-IsBalanced = Reach-IsBalanced tasks working-Reach

task_done-IsBalanced_example :
    (r : PeerTracker tasks) × (task_done tasks working (task 3 5) ≡ some r) × IsBalanced tasks r
task_done-IsBalanced_example = task_done-IsBalanced tasks working (task 3 5) working-IsBalanced

pop_tasks_lem_example :
    let (s', out) = pop_tasks tasks waiting 5 in
    Pops tasks waiting.freeze_val waiting.max_active_work_per_peer waiting.active_work 5 0
      waiting.pending_tasks out s'.pending_tasks
    × ((length (pending tasks s') ≡ 0)
        ⊎ ((0 < s'.freeze_val)
            ⊎ ((5 ≤ work_of out)
                ⊎ ((0 < s'.max_active_work_per_peer)
                    × (s'.max_active_work_per_peer ≤ s'.active_work)))))
    × (length (pending tasks s') + length out ≡ length (pending tasks waiting))
    × (s'.active_work ≡ waiting.active_work + work_of out)
    × (s'.freeze_val ≡ waiting.freeze_val)
    × (s'.max_active_work_per_peer ≡ waiting.max_active_work_per_peer)
unfolding push_tasks
pop_tasks_lem_example = pop_tasks_lem tasks waiting 5

push_task_lem_example :
    (Map.get (pending tasks (push_task tasks idle 7 (task 3 5))) 3
      ≡ some (record { task = task 3 5; target = 1; created = 7 }))
    × ((push_task tasks idle 7 (task 3 5)).active_tasks ≡ [])
    × ((push_task tasks idle 7 (task 3 5)).active_work ≡ 0)
    × ((push_task tasks idle 7 (task 3 5)).freeze_val ≡ 0)
unfolding push_task new Map.get queue
push_task_lem_example = push_task_lem tasks idle 7 (task 3 5) 3

cons_ne : {A : Type 0} (x : A) (xs : List A) → x ∷ xs ≢ []
cons_ne x xs h = absurd cc

waiting-pending : pending tasks (freeze tasks waiting) ≢ []
unfolding freeze push_tasks queue Map.get new Map.insert
waiting-pending = cons_ne _ _

working-pending : pending tasks working ≢ []
unfolding pop_tasks push_tasks queue Map.get new Map.insert pop_first
working-pending = cons_ne _ _

cmp_frozen_example :
    (cmp tasks (freeze tasks waiting) working ≡ Ordering.lt)
    × (cmp tasks working (freeze tasks waiting) ≡ Ordering.lt)
unfolding freeze push_tasks pop_tasks new queue Map.get Map.insert pop_first
cmp_frozen_example =
    cmp_frozen tasks (freeze tasks waiting) working waiting-pending working-pending (omega arith)
      (omega arith)

-- A want-have, and a want-block of known size, for the same topic.
abbrev want_have : Task ℕ TaskData
want_have = record {
  topic = 3;
  priority = pos 1;
  work = 2;
  info = record {
    is_want_block = false;
    send_dont_have = true;
    block_size = 0;
    have_block = false;
  };
}

abbrev want_block : Task ℕ TaskData
want_block = record {
  topic = 3;
  priority = pos 2;
  work = 40;
  info = record {
    is_want_block = true;
    send_dont_have = false;
    block_size = 50;
    have_block = true;
  };
}
