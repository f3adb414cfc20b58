-- ===== src/Unixfs/Collector/Growing.antt =====
-- `flush_links` after a leaf that is not the last: at most one block of leaves is written.
use mathlib.Core.List.{append_assoc, append-nil}
use rust_ipfs.Base.{
  ℕ, zero, suc, ◌+◌, ◌≤◌, ◌<◌, true, false, ◌≡◌, refl, inl, inr, some, List, [], ◌∷◌, ◌++◌, arith,
  if◌then◌else◌, length, length-append, length-drop, leb, nat_eq, list_eq, Bool-cases, le_cases,
  take, drop, drop-length-append, take_last,
}
use rust_ipfs.Base.Outcome.{returned}
use rust_ipfs.Unixfs.Nodes.{Bytes, FlatUnixFs}
use rust_ipfs.Unixfs.Collector.{
  Link, BalancedCollector, position, drain_level, overwrite_index, is_settled, flush_level,
  start_level, close_level, flush_levels, flush_links,
}
use rust_ipfs.Unixfs.Collector.Grouping.{
  IsAt, position-append, position_first, IsAt-IsPast, IsAt-drop, block_of, link_to, after_block,
  flush_block_lem,
}
use rust_ipfs.Unixfs.Collector.Levels.{level_stop, level_some}
use rust_ipfs.Unixfs.Collector.Finishing.{levels_next}

module _ {Cid : Type 0} where
  still_open :
      (size : ℕ) (ls : List (Link Cid)) → size < length ls → is_settled size false ls ≡ false
  unfolding is_settled
  still_open size ls h = ground (arith, h)

module _ {Cid : Type 0} (to_bytes : Cid → Bytes) (render_and_hash : FlatUnixFs → Cid × Bytes) where
  level_few :
      (n : ℕ) (bc : BalancedCollector) (above : List (Link Cid)) (l : Link Cid)
      (leaves : List (Link Cid))
      → 2 ≤ n
      → IsAt 1 above
      → IsAt 0 (l ∷ leaves)
      → length (l ∷ leaves) ≤ bc.branching_factor
      → close_level
          (flush_level to_bytes render_and_hash n bc false 0 (start_level (above ++ l ∷ leaves) []))
        ≡ returned (true, above ++ l ∷ leaves, [])
  unfolding drain_level
  level_few zero bc above l leaves h one at few = ground (arith, h)
  level_few (suc n) bc above l leaves h one at few =
      let same : drop (length above + 0) (above ++ l ∷ leaves) ≡ l ∷ leaves =
        (let z : length above + 0 ≡ length above = omega arith in
          rw z (drop-length-append above (l ∷ leaves))) in
      rw
        (level_stop to_bytes render_and_hash n bc 0 (length above)
          (start_level (above ++ l ∷ leaves) [])
          (position-append 0 above leaves l (IsAt-IsPast above one) at.0) (rw same few))
        refl

  level_full :
      (n : ℕ) (bc : BalancedCollector) (above leaves : List (Link Cid))
      → 2 ≤ n
      → 1 ≤ bc.branching_factor
      → IsAt 1 above
      → IsAt 0 leaves
      → length leaves ≡ bc.branching_factor + 1
      → close_level
          (flush_level to_bytes render_and_hash n bc false 0 (start_level (above ++ leaves) []))
        ≡ returned (
          true,
          (above ++ link_to to_bytes render_and_hash 0 (take bc.branching_factor leaves) ∷ [])
              ++ drop bc.branching_factor leaves,
          render_and_hash (block_of to_bytes (take bc.branching_factor leaves)) ∷ [],
        )
  unfolding drain_level overwrite_index
  level_full zero bc above leaves h pos one at full = ground (arith, h)
  level_full (suc zero) bc above leaves h pos one at full = ground (arith, h)
  level_full (suc (suc n)) bc above [] h pos one at full = ground (arith, full)
  level_full (suc (suc n)) bc above (l ∷ leaves) h pos one at full =
      let size = bc.branching_factor in
      let ls = l ∷ leaves in
      let s = start_level (above ++ ls) [] in
      let new = link_to to_bytes render_and_hash 0 (take size ls) in
      let junk = drop 1 (take size ls) in
      let out = render_and_hash (block_of to_bytes (take size ls)) ∷ [] in
      let s' = after_block above new junk (drop size ls) out in
      let first : length above + 0 ≡ length (above ++ []) = rw (append-nil above) (omega arith) in
      let block =
        flush_block_lem to_bytes render_and_hash bc 0 above [] ls s pos (omega arith) at
          (rw (append-nil above) refl) (rw (append-nil above) refl) in
      let same : drop (length above + 0) (above ++ ls) ≡ ls =
        (let z : length above + 0 ≡ length above = omega arith in
          rw z (drop-length-append above ls)) in
      let go =
        level_some to_bytes render_and_hash (suc n) bc false 0 (length above) s
          (position-append 0 above leaves l (IsAt-IsPast above one) at.0)
          (inr (rw same (omega (arith, full)))) in
      let rest : drop (0 + length (above ++ new ∷ junk)) ((above ++ new ∷ junk) ++ drop size ls)
          ≡ drop size ls =
        (let z : 0 + length (above ++ new ∷ junk) ≡ length (above ++ new ∷ junk) = omega arith in
          rw z (drop-length-append (above ++ new ∷ junk) (drop size ls))) in
      let found : position 0 (drop s'.starting_point s'.pending) ≡ some 0 =
        rw (drop-length-append (above ++ new ∷ junk) (drop size ls)) (
          position_first 0 (drop size ls) (omega (arith, full, length-drop size ls))
            (IsAt-drop 0 size ls at)) in
      let stop =
        level_stop to_bytes render_and_hash n bc 0 0 s' found
          (rw rest (omega (arith, full, pos, length-drop size ls))) in
      rw
        (
          go,
          first,
          block,
          stop,
          rest,
          append_assoc above (new ∷ junk) (drop size ls),
          take_last above (junk ++ drop size ls) new,
        )
        refl

  -- What is left and what is written after a leaf.
  abbrev pub grown : ℕ → List (Link Cid) → List (Link Cid) → List (Link Cid) × List (Cid × Bytes)
  grown size above leaves = if leb (length leaves) size then (above ++ leaves, []) else (
    (above ++ link_to to_bytes render_and_hash 0 (take size leaves) ∷ []) ++ drop size leaves,
    render_and_hash (block_of to_bytes (take size leaves)) ∷ [],
  )

  -- While a file grows, with links of the second level before at least one and at most one more leaves
  -- than the branching factor, nothing is written while the leaves are no more than that; the first
  -- ones are then linked by one block, and no block is ever linked above it.
  pub flush_links-grown :
      (bc : BalancedCollector) (above : List (Link Cid)) (l : Link Cid) (leaves : List (Link Cid))
      → 1 ≤ bc.branching_factor
      → IsAt 1 above
      → IsAt 0 (l ∷ leaves)
      → length (l ∷ leaves) ≤ bc.branching_factor + 1
      → flush_links to_bytes render_and_hash bc (above ++ l ∷ leaves) false
        ≡ returned (grown bc.branching_factor above (l ∷ leaves))
  unfolding flush_links flush_levels
  flush_links-grown bc above l leaves pos one at most =
      let size = bc.branching_factor in
      let ls = l ∷ leaves in
      let all = above ++ ls in
      let count = length-append above ls in
      let fuel : length all + 2 ≡ suc (length all + 1) = omega arith in
      elim (le_cases (length ls) size) [
        | inl few ↦
            let kept : leb (length ls) size ≡ true = ground (arith, few) in
            elim (Bool-cases (is_settled size false all)) [
              | inl done ↦ rw (fuel, flush_levels, done, kept) refl
              | inr open_ ↦
                  rw
                    (
                      fuel,
                      levels_next to_bytes render_and_hash (length all + 1) bc false true 0 all all
                          [] [] open_
                          (level_few (length all + 1) bc above l leaves (omega (arith, count)) one
                            at few),
                      kept,
                    )
                    refl
            ]
        | inr many ↦
            let linked : leb (length ls) size ≡ false = ground (arith, many) in
            rw
              (
                fuel,
                levels_next to_bytes render_and_hash (length all + 1) bc false true 0 all
                    (grown size above ls).0 [] (grown size above ls).1
                    (still_open size all (omega (arith, many, count)))
                    (rw linked (
                      level_full (length all + 1) bc above ls (omega (arith, count)) pos one at
                        (omega (arith, many, most)))),
                linked,
              )
              refl
      ]
