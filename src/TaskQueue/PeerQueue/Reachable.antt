-- ===== src/TaskQueue/PeerQueue/Reachable.antt =====
-- Every method keeps the trackers balanced and the frozen peers known, so that none panics.
use rust_ipfs.Base.{
  ℕ, not, ◌&&◌, ◌≡◌, refl, sym, ap, subst, ◌∙◌, inl, inr, none, some, List, [], ◌∷◌, arith,
  if◌then◌else◌, ltb, Eq, nat_eq, list_eq, Option-cases, Bool-cases,
}
use rust_ipfs.Base.Map
use rust_ipfs.Base.Map.{Map}
use rust_ipfs.Base.Set
use rust_ipfs.TaskQueue.Task.{Task, QueueTask}
use rust_ipfs.TaskQueue.KeyedQueue.{KeyedQueue}
use rust_ipfs.TaskQueue.PeerTracker
use rust_ipfs.TaskQueue.PeerTracker.{PeerTracker}
use rust_ipfs.TaskQueue.PeerTracker.Work.{
  IsBalanced, new-IsBalanced, push_tasks-IsBalanced, pop_tasks-IsBalanced, task_done-IsBalanced,
  same_work-IsBalanced,
}
use rust_ipfs.TaskQueue.PeerTracker.Freezing.{
  freeze_val-push_tasks, freeze_val-pop_tasks, freeze_val-task_done,
}
use rust_ipfs.TaskQueue.PeerQueue.{
  Inner, peers, put, push_tasks, pop_tasks, all_done, tasks_done, remove, full_thaw_peer, thaw_peer,
}
use rust_ipfs.TaskQueue.PeerQueue.Frozen.{
  is_frozen_at, IsBalancedAt, IsSound, changed-IsSound, get-put, put-IsSound,
}

module _ {T D Peer : Type 0} ⦃t : Eq T⦄ ⦃d : Eq D⦄ ⦃p : Eq Peer⦄
    (Q : KeyedQueue T (QueueTask T D Peer)) (R : KeyedQueue Peer (PeerTracker Q)) where
  -- What a sound queue says of a tracker that it holds.
  tracker_lem :
      (s : Inner Q R) (peer : Peer) (x : PeerTracker Q)
      → IsSound Q R s
      → Map.get (peers Q R s) peer ≡ some x
      → IsBalanced Q x × (PeerTracker.is_frozen Q x ≡ Set.contains s.frozen_peers peer)
  tracker_lem s peer x v found = (
    subst (IsBalancedAt Q R) found (v.balanced peer),
    sym (v.frozen peer ∙ ap (is_frozen_at Q R) found),
  )

  pub all_done-returns :
      (x : PeerTracker Q) (tasks : List (Task T D))
      → IsBalanced Q x
      → (r : PeerTracker Q) × (all_done Q R x tasks ≡ some r)
        × IsBalanced Q r
        × (r.freeze_val ≡ x.freeze_val)
  unfolding all_done
  all_done-returns x [] b = (x, refl, b, refl)
  all_done-returns x (task ∷ tasks) b =
      let (y, done, c) = task_done-IsBalanced Q x task b in
      let (r, all, e, f) = all_done-returns y tasks c in
      (r, rw (done, all_done) all, e, f ∙ freeze_val-task_done Q x y task done)

  pub push_tasks-IsSound :
      (s : Inner Q R) (now : ℕ) (peer : Peer) (tasks : List (Task T D))
      → IsSound Q R s
      → IsSound Q R (push_tasks Q R s now peer tasks).0
  unfolding push_tasks PeerTracker.is_frozen PeerTracker.new
  push_tasks-IsSound s now peer tasks v = elim (Option-cases (Map.get (peers Q R s) peer)) [
    | inl gone ↦
        let x = PeerTracker.new Q peer s.task_merger s.max_outstanding_work_per_peer in
        rw (gone, push_tasks)
          (put-IsSound Q R s peer (PeerTracker.push_tasks Q x now tasks) v
            (push_tasks-IsBalanced Q x now tasks
              (new-IsBalanced Q peer s.task_merger s.max_outstanding_work_per_peer))
            (ap (ltb 0) (freeze_val-push_tasks Q x now tasks)
              ∙ sym (v.frozen peer ∙ ap (is_frozen_at Q R) gone)))
    | inr (x, found) ↦
        let (b, f) = tracker_lem s peer x v found in
        rw (found, push_tasks)
          (put-IsSound Q R s peer (PeerTracker.push_tasks Q x now tasks) v
            (push_tasks-IsBalanced Q x now tasks b)
            (ap (ltb 0) (freeze_val-push_tasks Q x now tasks) ∙ f))
  ]

  pub tasks_done-IsSound :
      (s : Inner Q R) (peer : Peer) (tasks : List (Task T D))
      → IsSound Q R s
      → (r : Inner Q R) × (tasks_done Q R s peer tasks ≡ some r) × IsSound Q R r
  unfolding tasks_done PeerTracker.is_frozen
  tasks_done-IsSound s peer tasks v = elim (Option-cases (Map.get (peers Q R s) peer)) [
    | inl gone ↦ (s, rw (gone, tasks_done) refl, v)
    | inr (x, found) ↦
        let (b, f) = tracker_lem s peer x v found in
        let (r, all, c, e) = all_done-returns x tasks b in
        (
          put Q R s peer r,
          rw (found, tasks_done, all) refl,
          put-IsSound Q R s peer r v c (ap (ltb 0) e ∙ f),
        )
  ]

  pub pop_tasks-IsSound :
      (s : Inner Q R) (least : ℕ) → IsSound Q R s → IsSound Q R (pop_tasks Q R s least).0
  unfolding pop_tasks PeerTracker.is_frozen
  pop_tasks-IsSound s least v = elim (Option-cases (R.pop s.peer_queue)) [
    | inl gone ↦ rw (gone, pop_tasks) v
    | inr ((peer, x, rest), found) ↦
        let (here, shorter, others) = R.pop_some s.peer_queue peer x rest found in
        let left = (PeerTracker.pop_tasks Q x least).0 in
        let (b, f) = tracker_lem s peer x v here in
        elim (Bool-cases (PeerTracker.is_idle Q left)) [
          | inl idle ↦
              rw (found, pop_tasks, idle)
                (changed-IsSound Q R s
                  (record s { peer_queue = rest; frozen_peers = Set.remove s.frozen_peers peer })
                  peer none v others tt
                  (λ j. ground (arith, Set.contains-remove s.frozen_peers peer j)))
          | inr busy ↦
              rw (found, pop_tasks, busy)
                (changed-IsSound Q R s (record s { peer_queue = R.push rest peer left }) peer
                  (some left) v (λ j. ground (arith, R.get-push rest peer left j, others j))
                  (pop_tasks-IsBalanced Q x least b)
                  (λ j. ground (
                    arith,
                    ap (ltb 0) (freeze_val-pop_tasks Q x least) ∙ f,
                    Set.contains_same s.frozen_peers peer j,
                  )))
        ]
  ]

  pub remove-IsSound :
      (s : Inner Q R) (topic : T) (peer : Peer)
      → IsSound Q R s
      → IsSound Q R (remove Q R s topic peer)
  unfolding remove PeerTracker.remove PeerTracker.freeze PeerTracker.is_frozen
  remove-IsSound s topic peer v = elim (Option-cases (Map.get (peers Q R s) peer)) [
    | inl gone ↦ rw (gone, remove) v
    | inr (x, held) ↦
        let (b, f) = tracker_lem s peer x v held in
        let (left, found) = PeerTracker.remove Q x topic in
        elim (Bool-cases (found && not s.ignore_freezing)) [
          | inl freezes ↦
              rw (held, remove, freezes)
                (changed-IsSound Q R s
                  (record (put Q R s peer (PeerTracker.freeze Q left)) {
                    frozen_peers =
                        if not (PeerTracker.is_frozen Q left)
                        then Set.insert s.frozen_peers peer
                        else s.frozen_peers;
                  })
                  peer (some (PeerTracker.freeze Q left)) v
                  (get-put Q R s peer (PeerTracker.freeze Q left))
                  (same_work-IsBalanced Q x _ refl refl b)
                  (λ j. ground (
                    arith,
                    f,
                    Set.contains-insert s.frozen_peers peer j,
                    Set.contains_same s.frozen_peers peer j,
                  )))
          | inr stays ↦
              rw (held, remove, stays)
                (put-IsSound Q R s peer left v (same_work-IsBalanced Q x _ refl refl b) f)
        ]
  ]

  pub thaw_peer-IsSound :
      (s : Inner Q R) (peer : Peer) → IsSound Q R s → IsSound Q R (thaw_peer Q R s peer)
  unfolding thaw_peer PeerTracker.thaw PeerTracker.is_frozen
  thaw_peer-IsSound s peer v = elim (Option-cases (Map.get (peers Q R s) peer)) [
    | inl gone ↦ rw (gone, thaw_peer) v
    | inr (x, held) ↦
        let (b, f) = tracker_lem s peer x v held in
        let (left, thawed) = PeerTracker.thaw Q x in
        rw (held, thaw_peer)
          (changed-IsSound Q R s
            (record (put Q R s peer left) {
              frozen_peers = if thawed then Set.remove s.frozen_peers peer else s.frozen_peers;
            })
            peer (some left) v (get-put Q R s peer left) (same_work-IsBalanced Q x _ refl refl b)
            (λ j. ground (
              arith,
              f,
              Set.contains-remove s.frozen_peers peer j,
              Set.contains_same s.frozen_peers peer j,
            )))
  ]

  pub full_thaw_peer-IsSound :
      (s : Inner Q R) (peer : Peer) → IsSound Q R s → IsSound Q R (full_thaw_peer Q R s peer)
  unfolding full_thaw_peer PeerTracker.full_thaw PeerTracker.is_frozen
  full_thaw_peer-IsSound s peer v = elim (Option-cases (Map.get (peers Q R s) peer)) [
    | inl gone ↦ rw (gone, full_thaw_peer) v
    | inr (x, held) ↦
        let (b, f) = tracker_lem s peer x v held in
        rw (held, full_thaw_peer)
          (changed-IsSound Q R s
            (record (put Q R s peer (PeerTracker.full_thaw Q x)) {
              frozen_peers = Set.remove s.frozen_peers peer;
            })
            peer (some (PeerTracker.full_thaw Q x)) v
            (get-put Q R s peer (PeerTracker.full_thaw Q x))
            (same_work-IsBalanced Q x _ refl refl b)
            (λ j. ground (arith, Set.contains-remove s.frozen_peers peer j)))
  ]
