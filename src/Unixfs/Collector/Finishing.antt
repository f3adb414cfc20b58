-- ===== src/Unixfs/Collector/Finishing.antt =====
-- `flush_links` at the end of a file, against the tree of groups of groups.
use mathlib.Core.List.{append_assoc, append-nil}
use rust_ipfs.Base.{
  ℕ, zero, suc, ◌+◌, ◌≤◌, ◌<◌, Bool, true, false, ◌≡◌, refl, inl, inr, List, [], ◌∷◌, ◌++◌, arith,
  if◌then◌else◌, length, length-append, nat_eq, list_eq, nat_beq, le_cases,
}
use rust_ipfs.Base.Outcome.{returned}
use rust_ipfs.Unixfs.Nodes.{Bytes, FlatUnixFs}
use rust_ipfs.Unixfs.Collector.{
  Link, BalancedCollector, is_settled, flush_level, start_level, close_level, flush_levels,
  flush_links,
}
use rust_ipfs.Unixfs.Collector.Grouping.{
  IsAt, IsAt-IsPast, IsAt-append, groups, length-groups-le, length-groups-lt, length-groups-pos,
}
use rust_ipfs.Unixfs.Collector.Levels.{new_links, new_blocks, level_groups}

module _ {Cid : Type 0} (to_bytes : Cid → Bytes) (render_and_hash : FlatUnixFs → Cid × Bytes) where
  -- The links that are left of the links of a level, and the blocks that are written.
  abbrev pub rooted : ℕ → ℕ → ℕ → List (Link Cid) → List (Link Cid) × List (Cid × Bytes)
  rooted zero size level ls = (ls, [])
  rooted (suc n) size level ls =
      let gs = groups (length ls + 1) size ls in
      let (root, blocks) =
        rooted n size (suc level) (new_links to_bytes render_and_hash level gs) in
      if nat_beq (length ls) 1
      then (ls, [])
      else (root, new_blocks to_bytes render_and_hash gs ++ blocks)

  pub new_links-IsAt :
      (level : ℕ) (gs : List (List (Link Cid)))
      → IsAt (suc level) (new_links to_bytes render_and_hash level gs)
  new_links-IsAt level [] = tt
  new_links-IsAt level (g ∷ gs) = (omega arith, new_links-IsAt level gs)

  pub length-new_links :
      (level : ℕ) (gs : List (List (Link Cid)))
      → length (new_links to_bytes render_and_hash level gs) ≡ length gs
  length-new_links level [] = refl
  length-new_links level (g ∷ gs) = omega (arith, length-new_links level gs)

  pub levels_next :
      (n : ℕ) (bc : BalancedCollector) (finishing stop : Bool) (level : ℕ)
      (ls next : List (Link Cid)) (ret out : List (Cid × Bytes))
      → is_settled bc.branching_factor finishing ls ≡ false
      → close_level (
          flush_level to_bytes render_and_hash
            (length ls + 1)
            bc
            finishing
            level
            (start_level ls ret))
        ≡ returned (stop, next, out)
      → flush_levels to_bytes render_and_hash (suc n) bc finishing level ls ret ≡ (
          if stop
          then returned (next, out)
          else flush_levels to_bytes render_and_hash n bc finishing (suc level) next out)
  unfolding flush_levels
  levels_next n bc finishing true level ls next ret out h k = rw (flush_levels, h, k) refl
  levels_next n bc finishing false level ls next ret out h k = rw (flush_levels, h, k) refl

  pub not_settled :
      (size : ℕ) (ls : List (Link Cid)) → 2 ≤ length ls → is_settled size true ls ≡ false
  unfolding is_settled
  not_settled size ls h = ground (arith, h)

  pub flush_levels-rooted :
      (n : ℕ) (bc : BalancedCollector) (level : ℕ) (ls : List (Link Cid)) (ret : List (Cid × Bytes))
      → 2 ≤ bc.branching_factor
      → 1 ≤ length ls
      → length ls < n
      → IsAt level ls
      → flush_levels to_bytes render_and_hash n bc true level ls ret
        ≡ returned (
          (rooted n bc.branching_factor level ls).0,
          ret ++ (rooted n bc.branching_factor level ls).1,
        )
  unfolding is_settled flush_levels
  flush_levels-rooted zero bc level ls ret two some_ enough at = ground (arith, enough)
  flush_levels-rooted (suc n) bc level [] ret two some_ enough at = ground (arith, some_)
  flush_levels-rooted (suc n) bc level (l ∷ []) ret two some_ enough at = rw (append-nil ret) refl
  flush_levels-rooted (suc n) bc level (l ∷ k ∷ ls) ret two some_ enough at =
      let size = bc.branching_factor in
      let links = l ∷ k ∷ ls in
      let gs = groups (length links + 1) size links in
      let one =
        level_groups to_bytes render_and_hash (length links + 1) bc level [] l (k ∷ ls) ret
          (omega (arith, two)) (omega arith) tt at in
      let more : nat_beq (length links) 1 ≡ false = ground arith in
      let ih =
        flush_levels-rooted n bc (suc level) (new_links to_bytes render_and_hash level gs)
          (ret ++ new_blocks to_bytes render_and_hash gs) two
          (omega (
            arith,
            length-new_links level gs,
            length-groups-pos (length links + 1) size links (omega arith) (omega arith),
          ))
          (omega (
            arith,
            enough,
            length-new_links level gs,
            length-groups-lt (length links + 1) size links two (omega arith),
          ))
          (new_links-IsAt level gs) in
      rw
        (
          levels_next n bc true false level links (new_links to_bytes render_and_hash level gs) ret
              (ret ++ new_blocks to_bytes render_and_hash gs) (not_settled size links (omega arith))
              one,
          ih,
          more,
          append_assoc ret (new_blocks to_bytes render_and_hash gs)
              (rooted n size (suc level) (new_links to_bytes render_and_hash level gs)).1,
        )
        refl

  -- The levels of a file whose links are of the second level, then leaves.
  abbrev pub finished : ℕ → List (Link Cid) → List (Link Cid) → List (Link Cid) × List (Cid × Bytes)
  finished size above leaves =
      let n = length (above ++ leaves) + 1 in
      let gs = groups n size leaves in
      let (root, blocks) = rooted n size 1 (above ++ new_links to_bytes render_and_hash 0 gs) in
      if nat_beq (length (above ++ leaves)) 1
      then (above ++ leaves, [])
      else (root, new_blocks to_bytes render_and_hash gs ++ blocks)

  -- With a branching factor of at least two, and links of the second level before at least one leaf,
  -- the loops of `flush_links` at the end of a file write the blocks of the groups of as many links as
  -- the branching factor, level by level, and leave what is left when one link is.
  pub flush_links-finished :
      (bc : BalancedCollector) (above : List (Link Cid)) (l : Link Cid) (leaves : List (Link Cid))
      → 2 ≤ bc.branching_factor
      → IsAt 1 above
      → IsAt 0 (l ∷ leaves)
      → flush_links to_bytes render_and_hash bc (above ++ l ∷ leaves) true
        ≡ returned (finished bc.branching_factor above (l ∷ leaves))
  unfolding flush_links is_settled flush_levels
  flush_links-finished bc above l leaves two at_one at_zero =
      let size = bc.branching_factor in
      let ls = above ++ l ∷ leaves in
      let gs = groups (length ls + 1) size (l ∷ leaves) in
      let count = length-append above (l ∷ leaves) in
      elim (le_cases 2 (length ls)) [
        | inl many ↦
            let one =
              level_groups to_bytes render_and_hash (length ls + 1) bc 0 above l leaves []
                (omega (arith, two)) (omega (arith, count)) (IsAt-IsPast above at_one) at_zero in
            let more : nat_beq (length ls) 1 ≡ false = ground (arith, many) in
            let next = above ++ new_links to_bytes render_and_hash 0 gs in
            let fewer : length next ≤ length ls = omega (
              arith,
              count,
              length-append above (new_links to_bytes render_and_hash 0 gs),
              length-new_links 0 gs,
              length-groups-le (length ls + 1) size (l ∷ leaves) (omega (arith, two)),
            ) in
            let some_ : 1 ≤ length next = omega (
              arith,
              length-append above (new_links to_bytes render_and_hash 0 gs),
              length-new_links 0 gs,
              length-groups-pos (length ls + 1) size (l ∷ leaves) (omega arith) (omega arith),
            ) in
            let rest =
              flush_levels-rooted (length ls + 1) bc 1 next (new_blocks to_bytes render_and_hash gs)
                two some_ (omega (arith, fewer))
                (IsAt-append 1 above (new_links to_bytes render_and_hash 0 gs) at_one
                  (new_links-IsAt 0 gs)) in
            let fuel : length ls + 2 ≡ suc (length ls + 1) = omega arith in
            rw
              (
                fuel,
                levels_next (length ls + 1) bc true false 0 ls next []
                    (new_blocks to_bytes render_and_hash gs) (not_settled size ls many) one,
                rest,
                more,
              )
              refl
        | inr few ↦
            let single : nat_beq (length ls) 1 ≡ true = ground (arith, few, count) in
            let fuel : length ls + 2 ≡ suc (length ls + 1) = omega arith in
            rw (fuel, flush_levels, single) refl
      ]
