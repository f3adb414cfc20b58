-- ===== src/Unixfs/Collector/Unending.antt =====
-- A branching factor of one, which the collector accepts.
use rust_ipfs.Base.{
  ℕ, zero, suc, ◌+◌, ◌≤◌, true, false, ◌≡◌, refl, ◌∙◌, List, [], ◌∷◌, ◌++◌, arith, length,
  length-append, some, nat_eq, list_eq,
}
use rust_ipfs.Base.Outcome.{unfinished}
use rust_ipfs.Unixfs.Nodes.{Bytes, FlatUnixFs}
use rust_ipfs.Unixfs.Collector.{Link, BalancedCollector, with_branching_factor, flush_levels}
use rust_ipfs.Unixfs.Collector.Grouping.{IsAt, IsAt-IsPast, IsAt-append, groups}
use rust_ipfs.Unixfs.Collector.Levels.{new_links, new_blocks, level_groups}
use rust_ipfs.Unixfs.Collector.Finishing.{
  levels_next, not_settled, new_links-IsAt, length-new_links,
}

module _ {Cid : Type 0} (to_bytes : Cid → Bytes) (render_and_hash : FlatUnixFs → Cid × Bytes) where
  length-groups_one :
      (n : ℕ) (ls : List (Link Cid)) → length ls ≤ n → length (groups n 1 ls) ≡ length ls
  length-groups_one zero [] h = refl
  length-groups_one zero (l ∷ ls) h = ground (arith, h)
  length-groups_one (suc n) [] h = refl
  length-groups_one (suc n) (l ∷ ls) h = omega (arith, length-groups_one n ls (omega (arith, h)))

  levels_unending :
      (n level : ℕ) (bc : BalancedCollector) (ls : List (Link Cid)) (ret : List (Cid × Bytes))
      → bc.branching_factor ≡ 1
      → 2 ≤ length ls
      → IsAt level ls
      → flush_levels to_bytes render_and_hash n bc true level ls ret ≡ unfinished
  unfolding flush_levels
  levels_unending zero level bc ls ret one two at = refl
  levels_unending (suc n) level bc [] ret one two at = ground (arith, two)
  levels_unending (suc n) level bc (l ∷ ls) ret one two at =
      let links = l ∷ ls in
      let gs = groups (length links + 1) bc.branching_factor links in
      let same : length gs ≡ length links =
        rw one (length-groups_one (length links + 1) links (omega arith)) in
      let step =
        level_groups to_bytes render_and_hash (length links + 1) bc level [] l ls ret
          (omega (arith, one)) (omega arith) tt at in
      let next = new_links to_bytes render_and_hash level gs in
      let out = ret ++ new_blocks to_bytes render_and_hash gs in
      levels_next to_bytes render_and_hash n bc true false level links next ret out
        (not_settled to_bytes render_and_hash bc.branching_factor links two) step
      ∙ levels_unending n (suc level) bc next out one
          (omega (arith, same, two, length-new_links to_bytes render_and_hash level gs))
          (new_links-IsAt to_bytes render_and_hash level gs)

  factor_one :
      (bc : BalancedCollector) → with_branching_factor 1 ≡ some bc → bc.branching_factor ≡ 1
  unfolding with_branching_factor
  factor_one bc h = ground (arith, h)

  -- `with_branching_factor` makes a collector of one, and with it the loop over the levels never ends
  -- at the end of a file: whatever number of levels it goes through, it has not finished. The links
  -- are two or more, those of the second level before at least one leaf, as the pushes leave them.
  pub flush_levels_unending :
      (n : ℕ) (bc : BalancedCollector) (above : List (Link Cid)) (l : Link Cid)
      (leaves : List (Link Cid))
      → with_branching_factor 1 ≡ some bc
      → IsAt 1 above
      → IsAt 0 (l ∷ leaves)
      → 2 ≤ length (above ++ l ∷ leaves)
      → flush_levels to_bytes render_and_hash n bc true 0 (above ++ l ∷ leaves) [] ≡ unfinished
  unfolding flush_levels
  flush_levels_unending zero bc above l leaves made at_one at_zero two = refl
  flush_levels_unending (suc n) bc above l leaves made at_one at_zero two =
      let one = factor_one bc made in
      let links = above ++ l ∷ leaves in
      let count = length-append above (l ∷ leaves) in
      let gs = groups (length links + 1) bc.branching_factor (l ∷ leaves) in
      let same : length gs ≡ length (l ∷ leaves) =
        rw one (length-groups_one (length links + 1) (l ∷ leaves) (omega (arith, count))) in
      let step =
        level_groups to_bytes render_and_hash (length links + 1) bc 0 above l leaves []
          (omega (arith, one)) (omega (arith, count)) (IsAt-IsPast above at_one) at_zero in
      let made_links = new_links to_bytes render_and_hash 0 gs in
      let next = above ++ made_links in
      let out = new_blocks to_bytes render_and_hash gs in
      levels_next to_bytes render_and_hash n bc true false 0 links next [] out
        (not_settled to_bytes render_and_hash bc.branching_factor links two) step
      ∙ levels_unending n 1 bc next out one
          (omega (
            arith,
            same,
            two,
            count,
            length-append above made_links,
            length-new_links to_bytes render_and_hash 0 gs,
          ))
          (IsAt-append 1 above made_links at_one (new_links-IsAt to_bytes render_and_hash 0 gs))
