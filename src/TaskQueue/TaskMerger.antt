-- ===== src/TaskQueue/TaskMerger.antt =====
-- packages/beetle-bitswap-next/src/server/task_merger.rs: how the server merges a new want of a peer
-- into the wants that it has of it.
use rust_ipfs.Base.{
  ℕ, Bool, true, false, not, ◌&&◌, ◌||◌, ◌≡◌, List, [], ◌∷◌, arith, if◌then◌else◌, nat_eq,
}
use rust_ipfs.TaskQueue.Task.{Task, TaskMerger}

pub record TaskData : Type 0 where
  pub is_want_block : Bool
  pub send_dont_have : Bool
  pub block_size : ℕ
  pub have_block : Bool

-- The loop of `has_new_info`, over the entries that share the topic.
unfoldable pub any_have_block : {T : Type 0} → List (Task T TaskData) → Bool
any_have_block [] = false
any_have_block (t ∷ ts) = t.info.have_block || any_have_block ts

unfoldable pub any_want_block : {T : Type 0} → List (Task T TaskData) → Bool
any_want_block [] = false
any_want_block (t ∷ ts) = t.info.is_want_block || any_want_block ts

-- Takes the size over, where it is new.
unfoldable pub merge_size : TaskData → TaskData → TaskData
merge_size new old =
    if not old.have_block && new.have_block
    then record old { have_block = new.have_block; block_size = new.block_size }
    else old

module _ {T : Type 0} where
  unfoldable pub has_new_info : Task T TaskData → List (Task T TaskData) → Bool
  unfolding any_have_block any_want_block
  has_new_info task existing =
      if not (any_want_block existing) && task.info.is_want_block
      then true
      else not (any_have_block existing) && task.info.have_block

  -- Turns a want-have into a want-block.
  unfoldable pub merge_type : Task T TaskData → Task T TaskData → Task T TaskData
  merge_type task existing =
      if not existing.info.is_want_block && task.info.is_want_block
      then (if not existing.info.have_block || task.info.have_block
          then record existing {
            info = record existing.info { is_want_block = true; have_block = task.info.have_block };
            work = task.work;
          }
          else record existing { info = record existing.info { is_want_block = true } })
      else existing

  unfoldable pub merge_work : Task T TaskData → Task T TaskData
  merge_work existing =
      if existing.info.is_want_block && existing.info.have_block
      then record existing { work = existing.info.block_size }
      else existing

  unfoldable pub merge : Task T TaskData → Task T TaskData → Task T TaskData
  unfolding merge_size merge_type merge_work
  merge task existing =
      merge_work (merge_type task (record existing { info = merge_size task.info existing.info }))

  unfoldable pub task_merger : TaskMerger T TaskData
  unfolding has_new_info merge
  task_merger = record { has_new_info = has_new_info; merge = merge }

  -- A merge loses nothing: the result is a want-block if one of the two is, has a size if one of the
  -- two has, keeps the size that was known first; the work of a
  -- want-block with a size is the size, and else that of the task that made it a want-block. Topic,
  -- priority and the wish for a DONT_HAVE are those of the old task.
  pub merge_lem :
      (task existing : Task T TaskData)
      → let merged = merge task existing in
        (merged.info.is_want_block ≡ (existing.info.is_want_block || task.info.is_want_block))
        × (merged.info.have_block ≡ (existing.info.have_block || task.info.have_block))
        × (merged.info.block_size ≡ (
            if existing.info.have_block
            then existing.info.block_size
            else if task.info.have_block
            then task.info.block_size
            else existing.info.block_size))
        × (merged.work ≡ (
            if merged.info.is_want_block && merged.info.have_block
            then merged.info.block_size
            else if task.info.is_want_block && not existing.info.is_want_block
            then task.work
            else existing.work))
        × (merged.topic ≡ existing.topic)
        × (merged.priority ≡ existing.priority)
        × (merged.info.send_dont_have ≡ existing.info.send_dont_have)
  unfolding merge
  merge_lem task existing = ground arith

  -- Once a task is merged in, it has no new information: where the active tasks hold the merged task
  -- alone, the same want again is not queued.
  pub has_new_info-merge :
      (task existing : Task T TaskData) → has_new_info task (merge task existing ∷ []) ≡ false
  unfolding has_new_info
  has_new_info-merge task existing = ground (arith, merge_lem task existing)
