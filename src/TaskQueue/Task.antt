-- ===== src/TaskQueue/Task.antt =====
-- packages/beetle-bitswap-next/src/peer_task_queue/peer_task.rs: tasks, the order in which a peer's
-- tasks are popped, and the interface by which new tasks are merged into old ones.
use Prim.Native.Nat.{compare, Ordering}
use rust_ipfs.Base.{ℕ, ◌+◌, Bool, false, not, ◌&&◌, List, if◌then◌else◌, Eq, nat_eq, nat_beq, ◌==◌}
use rust_ipfs.Base.Int.{ℤ, pos_part, neg_part}

-- The comparison of signed machine integers.
abbrev pub compare_ℤ : ℤ → ℤ → Ordering
compare_ℤ a b = compare (pos_part a + neg_part b) (pos_part b + neg_part a)

abbrev pub eq_ℤ : ℤ → ℤ → Bool
eq_ℤ a b = nat_beq (pos_part a + neg_part b) (pos_part b + neg_part a)

-- The field `data` is called `info`.
pub record Task (T D : Type 0) : Type 0 where
  pub topic : T
  pub priority : ℤ
  pub work : ℕ
  pub info : D

pub record QueueTask (T D Peer : Type 0) : Type 0 where
  pub task : Task T D
  pub target : Peer
  pub created : ℕ

-- The derived `PartialEq`.
unfoldable pub task_eq : {T D : Type 0} ⦃t : Eq T⦄ ⦃d : Eq D⦄ → Task T D → Task T D → Bool
task_eq a b =
    a.topic == b.topic
    && (eq_ℤ a.priority b.priority && (nat_beq a.work b.work && a.info == b.info))

-- Tasks of one peer by priority, then, as all others, first in first out.
unfoldable pub cmp :
    {T D Peer : Type 0} ⦃p : Eq Peer⦄ → QueueTask T D Peer → QueueTask T D Peer → Ordering
cmp a b =
    if a.target == b.target && not (eq_ℤ a.task.priority b.task.priority)
    then compare_ℤ a.task.priority b.task.priority
    else compare b.created a.created

-- The trait `TaskMerger`.
pub record TaskMerger (T D : Type 0) : Type 0 where
  pub has_new_info : Task T D → List (Task T D) → Bool
  pub merge : Task T D → Task T D → Task T D

-- `DefaultTaskMerger`
unfoldable pub default_task_merger : {T D : Type 0} → TaskMerger T D
default_task_merger = record {
  has_new_info = λ task existing. false;
  merge = λ task existing. existing;
}
