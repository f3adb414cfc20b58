-- ===== src/TaskQueue/PeerTracker/Freezing.antt =====
-- A frozen peer thaws in rounds, and where frozen peers stand in the order of the peers.
use rust_ipfs.Base.{
  ℕ, zero, suc, ◌+◌, ◌/◌, ◌<◌, false, ◌≡◌, refl, ◌∙◌, inl, inr, ◌≢◌, some, List, [], ◌∷◌, ◌++◌,
  arith, length, Eq, nat_eq, list_eq, Option-cases, Bool-cases,
}
use Prim.Native.Nat.{Ordering, ◌^◌}
use native.Mathlib.Nat.{pow-suc}
use rust_ipfs.TaskQueue.Task.{Task, QueueTask}
use rust_ipfs.TaskQueue.KeyedQueue.{KeyedQueue}
use rust_ipfs.TaskQueue.PeerTracker.{
  PeerTracker, pending, thaw, is_frozen, cmp, push_task, push_tasks, pop_loop, pop_tasks, task_done,
  goes_on, start_task,
}
use rust_ipfs.TaskQueue.PeerTracker.Pending.{push_task_lem}

module _ {T D Peer : Type 0} ⦃t : Eq T⦄ ⦃d : Eq D⦄ (Q : KeyedQueue T (QueueTask T D Peer)) where
  -- So many rounds of `thaw`.
  pub thaw_rounds : ℕ → PeerTracker Q → PeerTracker Q
  thaw_rounds zero s = s
  thaw_rounds (suc n) s = thaw_rounds n (thaw Q s).0

  freeze_val-thaw : (s : PeerTracker Q) → (thaw Q s).0.freeze_val ≡ s.freeze_val / 2
  unfolding thaw
  freeze_val-thaw s = omega arith

  -- A peer whose freeze value is below `2 ^ n` is not frozen after `n` rounds of `thaw`.
  pub thaw_rounds_end :
      (n : ℕ) (s : PeerTracker Q) → s.freeze_val < 2 ^ n → is_frozen Q (thaw_rounds n s) ≡ false
  unfolding thaw_rounds is_frozen
  thaw_rounds_end zero s h = ground arith
  thaw_rounds_end (suc n) s h =
      thaw_rounds_end n (thaw Q s).0 (omega (arith, freeze_val-thaw s, pow-suc 2 n))

  -- Of two peers with pending tasks, where the first is more frozen and has less active work than the
  -- second, each is less than the other: `cmp` is not antisymmetric.
  pub cmp_frozen :
      (a b : PeerTracker Q)
      → pending Q a ≢ []
      → pending Q b ≢ []
      → b.freeze_val < a.freeze_val
      → a.active_work < b.active_work
      → (cmp Q a b ≡ Ordering.lt) × (cmp Q b a ≡ Ordering.lt)
  unfolding cmp
  cmp_frozen a b p q h k = ground arith

  pub freeze_val-push_tasks :
      (s : PeerTracker Q) (now : ℕ) (xs : List (Task T D))
      → (push_tasks Q s now xs).freeze_val ≡ s.freeze_val
  unfolding push_tasks
  freeze_val-push_tasks s now [] = refl
  freeze_val-push_tasks s now (x ∷ xs) =
      freeze_val-push_tasks (push_task Q s now x) now xs ∙ (push_task_lem Q s now x x.topic).3

  freeze_val-pop_loop :
      (fuel : ℕ) (s : PeerTracker Q) (least work : ℕ) (out : List (Task T D))
      → (pop_loop Q fuel s least work out).0.freeze_val ≡ s.freeze_val
  unfolding pop_loop start_task
  freeze_val-pop_loop zero s least work out = refl
  freeze_val-pop_loop (suc fuel) s least work out = elim (Bool-cases (goes_on Q s least work)) [
    | inr stop ↦ rw (stop, pop_loop) refl
    | inl more ↦ elim (Option-cases (Q.pop s.pending_tasks)) [
      | inl gone ↦ rw (more, pop_loop, gone) (freeze_val-pop_loop fuel s least work out)
      | inr ((topic, x, rest), found) ↦
          rw (more, pop_loop, found)
            (freeze_val-pop_loop fuel (start_task Q (record s { pending_tasks = rest }) x.task)
              least (work + x.task.work) (out ++ x.task ∷ []))
    ]
  ]

  pub freeze_val-pop_tasks :
      (s : PeerTracker Q) (least : ℕ) → (pop_tasks Q s least).0.freeze_val ≡ s.freeze_val
  unfolding pop_tasks
  freeze_val-pop_tasks s least = freeze_val-pop_loop (length (pending Q s)) s least 0 []

  pub freeze_val-task_done :
      (s r : PeerTracker Q) (x : Task T D) → task_done Q s x ≡ some r → r.freeze_val ≡ s.freeze_val
  unfolding task_done
  freeze_val-task_done s r x h = ground (arith, h)
