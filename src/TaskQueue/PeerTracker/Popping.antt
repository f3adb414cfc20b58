-- ===== src/TaskQueue/PeerTracker/Popping.antt =====
-- `pop_tasks`: how much is popped, and when it stops.
use rust_ipfs.Base.{
  ℕ, zero, suc, ◌+◌, ◌≤◌, ◌<◌, true, false, not, ◌&&◌, ◌≡◌, refl, sym, ap, subst, ◌∙◌, ◌⊎◌, some,
  leb, inl, inr, List, [], ◌∷◌, ◌++◌, arith, length, length-append, is_empty, ltb, Eq, nat_eq,
  nat_beq, Option-cases, Bool-cases,
}
use mathlib.Core.List.{append-nil, append_assoc}
use rust_ipfs.TaskQueue.Task.{Task, QueueTask}
use rust_ipfs.TaskQueue.KeyedQueue.{KeyedQueue}
use rust_ipfs.TaskQueue.PeerTracker.{
  PeerTracker, pending, work_of, start_task, pop_loop, pop_tasks, goes_on, is_maxed_out,
}
use rust_ipfs.TaskQueue.PeerTracker.Work.{work_of-append}

stop_reason {ℓ} :
    {A : Type ℓ} (left : List A) (frozen least work max active : ℕ)
    → (not (is_empty left)
        && (nat_beq frozen 0 && (ltb work least && not (ltb 0 max && leb max active))))
      ≡ false
    → (length left ≡ 0) ⊎ ((0 < frozen) ⊎ ((least ≤ work) ⊎ ((0 < max) × (max ≤ active))))
stop_reason [] frozen least work max active h = inl refl
stop_reason (x ∷ left) frozen least work max active h = inr (ground (arith, h))

module _ {T D Peer : Type 0} ⦃t : Eq T⦄ ⦃d : Eq D⦄ (Q : KeyedQueue T (QueueTask T D Peer)) where
  -- The loop ends by its own test, its counter being the work popped so far; what it has popped is
  -- gone from the pending tasks and is active.
  abbrev Ends : PeerTracker Q → ℕ → List (Task T D) → PeerTracker Q × List (Task T D) → Type 0
  Ends s least out r =
      (goes_on Q r.0 least (work_of r.1) ≡ false)
      × (length (pending Q r.0) + length r.1 ≡ length (pending Q s) + length out)
      × (r.0.active_work + work_of out ≡ s.active_work + work_of r.1)

  goes_on_empty :
      (s : PeerTracker Q) (least work : ℕ)
      → length (pending Q s) ≡ 0
      → goes_on Q s least work ≡ false
  unfolding goes_on
  goes_on_empty s least work h = elim (Bool-cases (is_empty (pending Q s))) [
    | inl none_left ↦ rw none_left
    | inr some_left ↦ absurd (grind (arith, h, some_left))
  ]

  pop_loop-Ends :
      (fuel : ℕ) (s : PeerTracker Q) (least work : ℕ) (out : List (Task T D))
      → length (pending Q s) ≡ fuel
      → work ≡ work_of out
      → Ends s least out (pop_loop Q fuel s least work out)
  unfolding pop_loop start_task work_of
  pop_loop-Ends zero s least work out h k = (goes_on_empty s least (work_of out) h, refl, refl)
  pop_loop-Ends (suc fuel) s least work out h k = elim (Bool-cases (goes_on Q s least work)) [
    | inr stop ↦ rw (stop, pop_loop) (rw (← k) stop, refl, refl)
    | inl more ↦ elim (Option-cases (Q.pop s.pending_tasks)) [
      | inl gone ↦ absurd (omega (arith, ap length (Q.pop_none s.pending_tasks gone)))
      | inr ((topic, x, rest), found) ↦
          let next = start_task Q (record s { pending_tasks = rest }) x.task in
          let shorter = (Q.pop_some s.pending_tasks topic x rest found).1 in
          let grown = work_of-append out (x.task ∷ []) in
          let (ended, kept, active) =
            pop_loop-Ends fuel next least (work + x.task.work) (out ++ x.task ∷ [])
              (omega (arith, shorter)) (ground (arith, grown)) in
          rw (more, pop_loop, found)
            (
              ended,
              omega (arith, kept, shorter, length-append out (x.task ∷ [])),
              ground (arith, active, grown),
            )
    ]
  ]

  -- Another task may be popped: the peer is not frozen, the popped work is below the target, and the
  -- active work below the maximum, if there is one.
  abbrev pub IsFree : (frozen max active least work : ℕ) → Type 0
  IsFree frozen max active least work = (frozen ≡ 0) × (work < least) × ((max ≡ 0) ⊎ (active < max))

  -- The tasks are what the queue gives, one after the other, and before each one there is leave to pop
  -- it.
  abbrev pub Pops :
      (frozen max active least work : ℕ) → Q.Queue → List (Task T D) → Q.Queue → Type 0
  Pops frozen max active least work q [] left = left ≡ q
  Pops frozen max active least work q (x ∷ xs) left =
      IsFree frozen max active least work
      × ((topic : T) × (old : QueueTask T D Peer) × (rest : Q.Queue) × (Q.pop q
            ≡ some (topic, old, rest))
          × (old.task ≡ x)
          × Pops frozen max (active + x.work) least (work + x.work) rest xs left)

  goes_on-IsFree :
      (s : PeerTracker Q) (least work : ℕ)
      → goes_on Q s least work ≡ true
      → IsFree s.freeze_val s.max_active_work_per_peer s.active_work least work
  unfolding goes_on is_maxed_out
  goes_on-IsFree s least work h = ground (arith, h)

  -- What a run of the loop appends to what was popped before it.
  abbrev Appends :
      PeerTracker Q → ℕ → ℕ → List (Task T D) → PeerTracker Q × List (Task T D) → Type 0
  Appends s least work out r =
      (xs : List (Task T D)) × (r.1 ≡ out ++ xs)
      × Pops s.freeze_val s.max_active_work_per_peer s.active_work least work s.pending_tasks xs
          r.0.pending_tasks
      × (r.0.freeze_val ≡ s.freeze_val)
      × (r.0.max_active_work_per_peer ≡ s.max_active_work_per_peer)

  pop_loop-Appends :
      (fuel : ℕ) (s : PeerTracker Q) (least work : ℕ) (out : List (Task T D))
      → Appends s least work out (pop_loop Q fuel s least work out)
  unfolding pop_loop start_task
  pop_loop-Appends zero s least work out = ([], sym (append-nil out), refl, refl, refl)
  pop_loop-Appends (suc fuel) s least work out = elim (Bool-cases (goes_on Q s least work)) [
    | inr stop ↦ rw (stop, pop_loop) ([], sym (append-nil out), refl, refl, refl)
    | inl more ↦ elim (Option-cases (Q.pop s.pending_tasks)) [
      | inl gone ↦ rw (more, pop_loop, gone) (pop_loop-Appends fuel s least work out)
      | inr ((topic, x, rest), found) ↦
          let next = start_task Q (record s { pending_tasks = rest }) x.task in
          let (xs, all, pops, frozen, max) =
            pop_loop-Appends fuel next least (work + x.task.work) (out ++ x.task ∷ []) in
          rw (more, pop_loop, found)
            (
              x.task ∷ xs,
              all ∙ append_assoc out (x.task ∷ []) xs,
              (goes_on-IsFree s least work more, (topic, x, rest, found, refl, pops)),
              frozen,
              max,
            )
    ]
  ]

  -- `pop_tasks` pops tasks in the order of the queue, each one only while the peer is not frozen, the
  -- work popped before is below the target, and the active work is below the maximum, if there is one.
  -- It stops for one of four reasons: nothing is pending, the peer is frozen, the popped work covers
  -- the target, or the peer has all the active work that it may have. Each popped task is one less
  -- pending, its work is added to the active work, and the freeze value and the maximum stay.
  pub pop_tasks_lem :
      (s : PeerTracker Q) (least : ℕ)
      → let (s', out) = pop_tasks Q s least in
        Pops s.freeze_val s.max_active_work_per_peer s.active_work least 0 s.pending_tasks out
          s'.pending_tasks
        × ((length (pending Q s') ≡ 0)
            ⊎ ((0 < s'.freeze_val)
                ⊎ ((least ≤ work_of out)
                    ⊎ ((0 < s'.max_active_work_per_peer)
                        × (s'.max_active_work_per_peer ≤ s'.active_work)))))
        × (length (pending Q s') + length out ≡ length (pending Q s))
        × (s'.active_work ≡ s.active_work + work_of out)
        × (s'.freeze_val ≡ s.freeze_val)
        × (s'.max_active_work_per_peer ≡ s.max_active_work_per_peer)
  unfolding pop_tasks goes_on is_maxed_out work_of
  pop_tasks_lem s least =
      let (s', out) = pop_tasks Q s least in
      let (ended, kept, active) = pop_loop-Ends (length (pending Q s)) s least 0 [] refl refl in
      let (xs, all, pops, frozen, max) = pop_loop-Appends (length (pending Q s)) s least 0 [] in
      (
        subst
            (λ ys.
              Pops s.freeze_val s.max_active_work_per_peer s.active_work least 0 s.pending_tasks ys
                s'.pending_tasks)
            (sym all) pops,
        stop_reason (pending Q s') s'.freeze_val least (work_of out) s'.max_active_work_per_peer
            s'.active_work ended,
        omega (arith, kept),
        omega (arith, active),
        frozen,
        max,
      )
