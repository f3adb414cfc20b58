-- ===== src/TaskQueue/PeerTracker/Work.antt =====
-- The active work is the work of the active tasks, so that `task_done` does not panic.
use rust_ipfs.Base.{
  ℕ, zero, suc, ◌+◌, ◌-◌, ◌≡◌, refl, sym, ap, ◌∙◌, subst, inl, inr, some, List, [], ◌∷◌, ◌++◌,
  arith, if◌then◌else◌, length, is_empty, Eq, nat_eq, Option-cases, Bool-cases,
}
use rust_ipfs.Base.Map
use rust_ipfs.Base.Map.{Map}
use rust_ipfs.TaskQueue.Task.{Task, QueueTask, TaskMerger, task_eq}
use rust_ipfs.TaskQueue.KeyedQueue.{KeyedQueue}
use rust_ipfs.TaskQueue.PeerTracker
use rust_ipfs.TaskQueue.PeerTracker.{
  PeerTracker, work_of, retire, new, push_task, push_tasks, start_task, pop_loop, pop_tasks,
  task_done, remove, freeze, thaw, full_thaw, goes_on,
}

pub work_of-append :
    {T D : Type 0} (xs ys : List (Task T D)) → work_of (xs ++ ys) ≡ work_of xs + work_of ys
unfolding work_of
work_of-append [] ys = omega arith
work_of-append (x ∷ xs) ys = omega (arith, work_of-append xs ys)

module _ {T D : Type 0} ⦃t : Eq T⦄ ⦃d : Eq D⦄ where
  -- The retired tasks and those that are left make up the work.
  work_of-retire :
      (task : Task T D) (ts : List (Task T D))
      → work_of (retire task ts).0 + (retire task ts).1 ≡ work_of ts
  unfolding work_of retire task_eq
  work_of-retire task [] = omega arith
  work_of-retire task (x ∷ xs) = ground (arith, work_of-retire task xs)

module _ {T D Peer : Type 0} ⦃t : Eq T⦄ ⦃d : Eq D⦄ (Q : KeyedQueue T (QueueTask T D Peer)) where
  pub record IsBalanced (s : PeerTracker Q) : Type 0 where
    pub distinct : Map.HasKeys s.active_tasks
    pub balanced : s.active_work ≡ Map.total work_of s.active_tasks

  pub new-IsBalanced : (q : Peer) (m : TaskMerger T D) (most : ℕ) → IsBalanced (new Q q m most)
  unfolding new Map.keys Map.total
  new-IsBalanced q m most = record { distinct = tt; balanced = refl }

  start_task-IsBalanced :
      (s : PeerTracker Q) (x : Task T D) → IsBalanced s → IsBalanced (start_task Q s x)
  unfolding start_task work_of
  start_task-IsBalanced s x v =
      let old : List (Task T D) = Map.get_or s.active_tasks x.topic [] in
      record {
        distinct = Map.insert-HasKeys s.active_tasks x.topic (old ++ x ∷ []) v.distinct;
        balanced = ground (
          arith,
          v.balanced,
          Map.total-insert work_of s.active_tasks x.topic (old ++ x ∷ []),
          work_of-append old (x ∷ []),
        );
      }

  pop_loop-IsBalanced :
      (fuel : ℕ) (s : PeerTracker Q) (least work : ℕ) (out : List (Task T D))
      → IsBalanced s
      → IsBalanced (pop_loop Q fuel s least work out).0
  unfolding pop_loop
  pop_loop-IsBalanced zero s least work out v = v
  pop_loop-IsBalanced (suc fuel) s least work out v = elim (Bool-cases (goes_on Q s least work)) [
    | inr stop ↦ rw (stop, pop_loop) v
    | inl more ↦ elim (Option-cases (Q.pop s.pending_tasks)) [
      | inl gone ↦ rw (more, pop_loop, gone) (pop_loop-IsBalanced fuel s least work out v)
      | inr ((topic, x, rest), found) ↦
          rw (more, pop_loop, found)
            (pop_loop-IsBalanced fuel (start_task Q (record s { pending_tasks = rest }) x.task)
              least (work + x.task.work) (out ++ x.task ∷ [])
              (start_task-IsBalanced (record s { pending_tasks = rest }) x.task
                (record { distinct = v.distinct; balanced = v.balanced })))
    ]
  ]

  push_task-IsBalanced :
      (s : PeerTracker Q) (now : ℕ) (x : Task T D) → IsBalanced s → IsBalanced (push_task Q s now x)
  unfolding push_task
  push_task-IsBalanced s now x v = ground arith

  pub push_tasks-IsBalanced :
      (s : PeerTracker Q) (now : ℕ) (xs : List (Task T D))
      → IsBalanced s
      → IsBalanced (push_tasks Q s now xs)
  unfolding push_tasks
  push_tasks-IsBalanced s now [] v = v
  push_tasks-IsBalanced s now (x ∷ xs) v =
      push_tasks-IsBalanced (push_task Q s now x) now xs (push_task-IsBalanced s now x v)

  -- On a tracker whose active work is the work of its active tasks, `task_done` does not fail its
  -- assertion, whatever task is reported as done, and keeps this so.
  pub task_done-IsBalanced :
      (s : PeerTracker Q) (x : Task T D)
      → IsBalanced s
      → (r : PeerTracker Q) × (task_done Q s x ≡ some r) × IsBalanced r
  unfolding task_done work_of
  task_done-IsBalanced s x v = elim (Option-cases (Map.get s.active_tasks x.topic)) [
    | inl gone ↦ (s, rw (gone, task_done), v)
    | inr (active, found) ↦
        let (left, work_done) = retire x active in
        let removed = Map.total-remove work_of s.active_tasks x.topic v.distinct in
        let inserted = Map.total-insert work_of s.active_tasks x.topic left in
        (
          record s {
            active_work = s.active_work - work_done;
            active_tasks =
                if is_empty left
                then Map.remove s.active_tasks x.topic
                else Map.insert s.active_tasks x.topic left;
          },
          ground (arith, v.balanced, removed, work_of-retire x active),
          record {
            distinct = ground (
              arith,
              Map.remove-HasKeys s.active_tasks x.topic v.distinct,
              Map.insert-HasKeys s.active_tasks x.topic left v.distinct,
            );
            balanced = ground (arith, v.balanced, removed, inserted, work_of-retire x active);
          },
        )
  ]

  pub pop_tasks-IsBalanced :
      (s : PeerTracker Q) (least : ℕ) → IsBalanced s → IsBalanced (pop_tasks Q s least).0
  unfolding pop_tasks
  pop_tasks-IsBalanced s least v =
      pop_loop-IsBalanced (length (PeerTracker.pending Q s)) s least 0 [] v

  -- A method that leaves all that is active keeps the balance.
  pub same_work-IsBalanced :
      (s r : PeerTracker Q)
      → r.active_tasks ≡ s.active_tasks
      → r.active_work ≡ s.active_work
      → IsBalanced s
      → IsBalanced r
  same_work-IsBalanced s r h k v = record {
    distinct = subst Map.HasKeys (sym h) v.distinct;
    balanced = k ∙ v.balanced ∙ ap (Map.total work_of) (sym h);
  }

  -- The trackers that calls lead to, where no assertion fails.
  pub data Reach : PeerTracker Q → Type 0 where
    start : (q : Peer) (m : TaskMerger T D) (most : ℕ) → Reach (new Q q m most)
    pushed :
        {s : PeerTracker Q} (now : ℕ) (xs : List (Task T D))
        → Reach s
        → Reach (push_tasks Q s now xs)
    popped : {s : PeerTracker Q} (least : ℕ) → Reach s → Reach (pop_tasks Q s least).0
    done : {s r : PeerTracker Q} (x : Task T D) → Reach s → task_done Q s x ≡ some r → Reach r
    removed : {s : PeerTracker Q} (topic : T) → Reach s → Reach (remove Q s topic).0
    frozen : {s : PeerTracker Q} → Reach s → Reach (freeze Q s)
    thawed : {s : PeerTracker Q} → Reach s → Reach (thaw Q s).0
    fully_thawed : {s : PeerTracker Q} → Reach s → Reach (full_thaw Q s)

  task_done-keeps :
      (s r : PeerTracker Q) (x : Task T D) → IsBalanced s → task_done Q s x ≡ some r → IsBalanced r
  task_done-keeps s r x v h =
      let (q, e, u) = task_done-IsBalanced s x v in
      let same : q ≡ r = cc e in subst IsBalanced same u

  -- Whatever calls were made on a tracker, its active work is the work of its active tasks.
  pub Reach-IsBalanced : {s : PeerTracker Q} → Reach s → IsBalanced s
  unfolding remove freeze thaw full_thaw
  Reach-IsBalanced (start q m most) = new-IsBalanced q m most
  Reach-IsBalanced (pushed {s} now xs r) = push_tasks-IsBalanced s now xs (Reach-IsBalanced r)
  Reach-IsBalanced (popped {s} least r) = pop_tasks-IsBalanced s least (Reach-IsBalanced r)
  Reach-IsBalanced (done {s} {r} x q h) = task_done-keeps s r x (Reach-IsBalanced q) h
  Reach-IsBalanced (removed {s} topic r) = same_work-IsBalanced s _ refl refl (Reach-IsBalanced r)
  Reach-IsBalanced (frozen {s} r) = same_work-IsBalanced s _ refl refl (Reach-IsBalanced r)
  Reach-IsBalanced (thawed {s} r) = same_work-IsBalanced s _ refl refl (Reach-IsBalanced r)
  Reach-IsBalanced (fully_thawed {s} r) = same_work-IsBalanced s _ refl refl (Reach-IsBalanced r)
