-- ===== src/TaskQueue/PeerQueue/Frozen.antt =====
-- The state that every method keeps: the trackers are balanced, and the frozen peers are known.
use rust_ipfs.Base.{
  Bool, false, ◌≡◌, refl, sym, ap, subst, ◌∙◌, inl, inr, Option, none, some, arith, if◌then◌else◌,
  Eq, nat_eq, list_eq, ◌==◌, Bool-cases,
}
use rust_ipfs.Base.Map
use rust_ipfs.Base.Map.{Map}
use rust_ipfs.Base.Set
use rust_ipfs.TaskQueue.Task.{QueueTask, TaskMerger}
use rust_ipfs.TaskQueue.KeyedQueue.{KeyedQueue}
use rust_ipfs.TaskQueue.PeerTracker
use rust_ipfs.TaskQueue.PeerTracker.{PeerTracker}
use rust_ipfs.TaskQueue.PeerTracker.Work.{IsBalanced}
use rust_ipfs.TaskQueue.PeerQueue.{Inner, Config, peers, put, new}

module _ {T D Peer : Type 0} ⦃t : Eq T⦄ ⦃d : Eq D⦄ ⦃p : Eq Peer⦄
    (Q : KeyedQueue T (QueueTask T D Peer)) (R : KeyedQueue Peer (PeerTracker Q)) where
  abbrev pub is_frozen_at : Option (PeerTracker Q) → Bool
  is_frozen_at none = false
  is_frozen_at (some x) = PeerTracker.is_frozen Q x

  abbrev pub IsBalancedAt : Option (PeerTracker Q) → Type 0
  IsBalancedAt none = Unit
  IsBalancedAt (some x) = IsBalanced Q x

  -- Of each peer: it is among the frozen peers exactly where it is tracked with a freeze value above
  -- zero, and its active work is the work of its active tasks.
  pub record IsSound (s : Inner Q R) : Type 0 where
    pub frozen : (j : Peer) → Set.contains s.frozen_peers j ≡ is_frozen_at (Map.get (peers Q R s) j)
    pub balanced : (j : Peer) → IsBalancedAt (Map.get (peers Q R s) j)

  pub new-IsSound : (m : TaskMerger T D) (c : Config) → IsSound (new Q R m c)
  unfolding new Set.contains Map.get
  new-IsSound m c = record {
    frozen = λ j. rw R.entries-new refl;
    balanced = λ j. rw R.entries-new tt;
  }

  -- A queue that differs from a sound one at one peer, where it holds a balanced tracker or none.
  pub changed-IsSound :
      (s r : Inner Q R) (peer : Peer) (o : Option (PeerTracker Q))
      → IsSound s
      → ((j : Peer) → Map.get (peers Q R r) j ≡ (if peer == j then o else Map.get (peers Q R s) j))
      → IsBalancedAt o
      → ((j : Peer)
          → Set.contains r.frozen_peers j
            ≡ (if peer == j then is_frozen_at o else Set.contains s.frozen_peers j))
      → IsSound r
  changed-IsSound s r peer o v h b f = record {
    frozen = λ j. elim (Bool-cases (peer == j)) [
      | inl here ↦ ground (arith, f j, h j, here)
      | inr other ↦ ground (arith, f j, h j, other, v.frozen j)
    ];
    balanced = λ j. elim (Bool-cases (peer == j)) [
      | inl here ↦
          subst IsBalancedAt (sym (h j ∙ ap (λ x. if x then o else Map.get (peers Q R s) j) here)) b
      | inr other ↦
          subst IsBalancedAt (sym (h j ∙ ap (λ x. if x then o else Map.get (peers Q R s) j) other))
            (v.balanced j)
    ];
  }

  pub get-put :
      (s : Inner Q R) (peer : Peer) (x : PeerTracker Q) (j : Peer)
      → Map.get (peers Q R (put Q R s peer x)) j
        ≡ (if peer == j then some x else Map.get (peers Q R s) j)
  get-put s peer x j =
      ground
        (arith, R.get-push (R.remove s.peer_queue peer) peer x j, R.get-remove s.peer_queue peer j)

  -- A tracker is put back as frozen as it was.
  pub put-IsSound :
      (s : Inner Q R) (peer : Peer) (x : PeerTracker Q)
      → IsSound s
      → IsBalanced Q x
      → PeerTracker.is_frozen Q x ≡ Set.contains s.frozen_peers peer
      → IsSound (put Q R s peer x)
  put-IsSound s peer x v b f =
      changed-IsSound s (put Q R s peer x) peer (some x) v (get-put s peer x) b
        (λ j. ground (arith, f, Set.contains_same s.frozen_peers peer j))
