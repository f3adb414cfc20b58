-- ===== src/Unixfs/Tests.antt =====
-- Runs of the file adder. A content id is what its block reads as.
use Prim.Native.Nat.{min}
use rust_ipfs.Base.{ℕ, ◌≤◌, true, false, ◌≡◌, refl, List, [], ◌∷◌, map, arith, length, take}
use rust_ipfs.Base.{none, some}
use rust_ipfs.Base.Outcome.{returned, unfinished}
use rust_ipfs.Unixfs.Nodes.{Bytes, FlatUnixFs}
use rust_ipfs.Unixfs.Collector.{
  with_branching_factor, Link, BalancedCollector, no_parts, position, truncate_level, drain_level,
  overwrite_index, is_settled, partition_link, partition_links, flush_block, flush_level,
  flush_levels, flush_links,
}
use rust_ipfs.Unixfs.Collector.Finishing.{finished, flush_links-finished}
use rust_ipfs.Unixfs.Collector.Growing.{grown, flush_links-grown}
use rust_ipfs.Unixfs.Collector.Content.{read_flat, after, IsWritten}
use rust_ipfs.Unixfs.Adder.{
  size, accept, FileAdder, build, flush_buffered_leaf, flush_buffered_links, flush_chunk, push,
  finish, collect_loop, collect_blocks,
}
use rust_ipfs.Unixfs.Adder.Pushing.{IsAdding, push_lem}
use rust_ipfs.Unixfs.Adder.Finishing.{ReadsBack, finish_lem}
use rust_ipfs.Unixfs.Adder.Collecting.{new-IsAdding, collect_blocks_lem}
use rust_ipfs.Unixfs.Collector.Unending.{flush_levels_unending}
use rust_ipfs.Unixfs.Adder.Pushing.{leaf_of}
use rust_ipfs.Unixfs.Reader.{ok}
use rust_ipfs.Unixfs.Visit.{target_slice, start_from_parsed}
use rust_ipfs.Unixfs.Visit.Slicing.{target_slice_lem, start_from_parsed-leaf_of}
use rust_ipfs.Unixfs.Collector.Grouping.{block_of}
use rust_ipfs.Unixfs.Reader.{tree_coverage}
use rust_ipfs.Unixfs.Visit.{block_is_in_target_range, in_target}
use rust_ipfs.Unixfs.Visit.Linked.{start_from_parsed-block_of}

abbrev same_bytes : Bytes → Bytes
same_bytes b = b

abbrev render : FlatUnixFs → Bytes × Bytes
render f = (read_flat same_bytes f, 0 ∷ [])

render_reads : (f : FlatUnixFs) → same_bytes (same_bytes (render f).0) ≡ read_flat same_bytes f
render_reads f = refl

abbrev two_links : BalancedCollector
two_links = record { branching_factor = 2 }

abbrev one_link : BalancedCollector
one_link = record { branching_factor = 1 }

abbrev word : Bytes
word = 1 ∷ 2 ∷ 3 ∷ 4 ∷ 5 ∷ 6 ∷ 7 ∷ []

abbrev leaf_at : ℕ → ℕ → Link Bytes
leaf_at depth b = record { depth = depth; target = b ∷ []; total_size = 1; file_size = 1 }

collect_blocks_lem_example :
    (out : List (Bytes × Bytes)) × (collect_blocks same_bytes render
        (build (size 2) two_links)
        word
        3
      ≡ returned out)
    × IsWritten same_bytes render 2 [] out
    × ReadsBack same_bytes render same_bytes render_reads (after same_bytes [] out) word
collect_blocks_lem_example =
    collect_blocks_lem same_bytes render same_bytes render_reads 2 3 two_links word (omega arith)
      (omega arith)

collected :
    collect_blocks same_bytes render (build (size 2) two_links) word 3
    ≡ returned (
        map
          (λ b. (b, 0 ∷ []))
          ((1 ∷ 2 ∷ [])
            ∷ (3 ∷ 4 ∷ [])
            ∷ (5 ∷ 6 ∷ [])
            ∷ (1 ∷ 2 ∷ 3 ∷ 4 ∷ [])
            ∷ (7 ∷ [])
            ∷ (5 ∷ 6 ∷ 7 ∷ [])
            ∷ word
            ∷ []))
unfolding collect_blocks collect_loop push accept flush_chunk flush_buffered_leaf
    flush_buffered_links flush_links flush_levels is_settled flush_level position flush_block
    partition_links overwrite_index finish drain_level no_parts partition_link truncate_level
collected = refl

push_lem_example :
    (next : FileAdder Bytes) × (out : List (Bytes × Bytes)) × (n : ℕ) × (push same_bytes render
        (build (size 2) two_links)
        word
      ≡ returned (next, out, n))
    × (n ≡ min 7 2)
    × (next.collector ≡ two_links)
    × IsAdding same_bytes render same_bytes render_reads 2
        (after same_bytes [] out)
        (take n word)
        next
    × IsWritten same_bytes render 2 [] out
    × (length out ≤ 2)
push_lem_example =
    push_lem same_bytes render same_bytes render_reads 2 [] [] word (build (size 2) two_links) (
      new-IsAdding same_bytes render same_bytes render_reads 2 two_links (omega arith)
        (omega arith))

finish_lem_example :
    (out : List (Bytes × Bytes)) × (finish same_bytes render (build (size 2) two_links)
      ≡ returned out)
    × IsWritten same_bytes render 2 [] out
    × ReadsBack same_bytes render same_bytes render_reads (after same_bytes [] out) []
finish_lem_example =
    finish_lem same_bytes render same_bytes render_reads 2 [] [] (build (size 2) two_links) (
      new-IsAdding same_bytes render same_bytes render_reads 2 two_links (omega arith)
        (omega arith))

flush_links-finished_example :
    flush_links same_bytes render two_links
      (leaf_at 1 1 ∷ leaf_at 0 2 ∷ leaf_at 0 3 ∷ leaf_at 0 4 ∷ [])
      true
    ≡ returned (
        finished same_bytes render 2
          (leaf_at 1 1 ∷ [])
          (leaf_at 0 2 ∷ leaf_at 0 3 ∷ leaf_at 0 4 ∷ []))
flush_links-finished_example =
    flush_links-finished same_bytes render two_links (leaf_at 1 1 ∷ []) (leaf_at 0 2)
      (leaf_at 0 3 ∷ leaf_at 0 4 ∷ []) (omega arith) (refl, tt) (refl, (refl, (refl, tt)))

flush_links-grown_example :
    flush_links same_bytes render two_links
      (leaf_at 1 1 ∷ leaf_at 0 2 ∷ leaf_at 0 3 ∷ leaf_at 0 4 ∷ [])
      false
    ≡ returned (
        grown same_bytes render 2 (leaf_at 1 1 ∷ []) (leaf_at 0 2 ∷ leaf_at 0 3 ∷ leaf_at 0 4 ∷ []))
flush_links-grown_example =
    flush_links-grown same_bytes render two_links (leaf_at 1 1 ∷ []) (leaf_at 0 2)
      (leaf_at 0 3 ∷ leaf_at 0 4 ∷ []) (omega arith) (refl, tt) (refl, (refl, (refl, tt)))
      (omega arith)

flush_levels_unending_example :
    flush_levels same_bytes render 5 one_link true 0 (leaf_at 0 1 ∷ leaf_at 0 2 ∷ []) []
    ≡ unfinished
unfolding with_branching_factor
flush_levels_unending_example =
    flush_levels_unending same_bytes render 5 one_link [] (leaf_at 0 1) (leaf_at 0 2 ∷ []) refl tt
      (refl, (refl, tt)) (omega arith)

target_slice_lem_example :
    target_slice word (record { start = 10; end = 17 }) (record { start = 12; end = 90 })
    ≡ returned (3 ∷ 4 ∷ 5 ∷ 6 ∷ 7 ∷ [])
target_slice_lem_example =
    target_slice_lem word (record { start = 10; end = 17 }) (record { start = 12; end = 90 })
      (omega arith) (omega arith)

start_from_parsed-leaf_of_example :
    start_from_parsed (λ b. none) some (some (record { start = 2; end = 5 })) (leaf_of word)
    ≡ returned (ok (3 ∷ 4 ∷ 5 ∷ [], 7, record { mode = none; mtime = none }, none))
start_from_parsed-leaf_of_example =
    start_from_parsed-leaf_of (λ b. none) some word (record { start = 2; end = 5 }) (omega arith)

start_from_parsed-block_of_example :
    start_from_parsed
      (λ b. none)
      some
      (some (record { start = 0; end = 1 }))
      (block_of same_bytes (leaf_at 0 1 ∷ leaf_at 0 2 ∷ leaf_at 0 3 ∷ []))
    ≡ returned (
        ok (
          [],
          3,
          record { mode = none; mtime = none },
          some (record {
            pending =
                (2 ∷ [], record { start = 1; end = 2 })
                ∷ (1 ∷ [], record { start = 0; end = 1 })
                ∷ [];
            target = some (record { start = 0; end = 1 });
            state = record {
              last_ending = tree_coverage 3;
              last_offset = 0;
              traversed_size = 3;
              traversed_metadata = record { mode = none; mtime = none };
            };
          }),
        ))
unfolding block_is_in_target_range in_target
start_from_parsed-block_of_example =
    start_from_parsed-block_of (λ b. none) some same_bytes (λ c. refl) (leaf_at 0 1)
      (leaf_at 0 2 ∷ leaf_at 0 3 ∷ []) (some (record { start = 0; end = 1 }))
