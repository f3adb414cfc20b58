-- ===== src/Unixfs/Adder/Collecting.antt =====
-- A whole file: the loop that pushes it slice by slice.
use mathlib.Core.List.{append_assoc}
use rust_ipfs.Base.{
  ℕ, zero, suc, ◌+◌, ◌-◌, ◌≤◌, ◌<◌, true, false, ◌≡◌, refl, sym, ap, subst, ◌∙◌, ◌⊎◌, inl, inr,
  List, [], ◌++◌, arith, if◌then◌else◌, length, take-take, take_add, length-take, length-drop, leb,
  nat_eq, list_eq, nat_beq, le_cases, take, drop, take_all,
}
use Prim.Native.Nat.{min}
use rust_ipfs.Base.Outcome.{returned}
use rust_ipfs.Unixfs.Nodes.{Bytes, FlatUnixFs}
use rust_ipfs.Unixfs.Collector.{BalancedCollector}
use rust_ipfs.Unixfs.Collector.Content.{read_flat, after, after-append, IsWritten, IsWritten-append}
use rust_ipfs.Unixfs.Adder.{size, FileAdder, build, collect_loop, collect_blocks}
use rust_ipfs.Unixfs.Adder.Pushing.{IsAdding, push_lem}
use rust_ipfs.Unixfs.Adder.Finishing.{ReadsBack, finish_lem}

module _ {Cid : Type 0} (to_bytes : Cid → Bytes) (render_and_hash : FlatUnixFs → Cid × Bytes)
    (reads : Bytes → Bytes)
    (reads_block : (f : FlatUnixFs)
      → reads (to_bytes (render_and_hash f).0) ≡ read_flat reads f) where
  collect_loop_lem :
      (n max amt written : ℕ) (e : List Bytes) (all : Bytes) (f : FileAdder Cid)
      (blocks : List (Cid × Bytes))
      → IsAdding to_bytes render_and_hash reads reads_block max e (take written all) f
      → written ≤ length all
      → length all < written + n
      → (1 ≤ amt) ⊎ (length all ≡ written)
      → (out : List (Cid × Bytes)) × (collect_loop to_bytes render_and_hash n f all amt written
            blocks
          ≡ returned (blocks ++ out))
        × IsWritten to_bytes render_and_hash f.collector.branching_factor e out
        × ReadsBack to_bytes render_and_hash reads reads_block (after to_bytes e out) all
  unfolding collect_loop
  collect_loop_lem zero max amt written e all f blocks a h enough moves = ground (arith, h, enough)
  collect_loop_lem (suc n) max amt written e all f blocks a h enough moves =
      elim (le_cases (length all) written) [
        | inl done ↦
            let (out, run, written_, back) =
              finish_lem to_bytes render_and_hash reads reads_block max e (take written all) f a in
            let full : leb (length all) written ≡ true = ground (arith, done) in
            (
              out,
              rw (collect_loop, full, run) refl,
              written_,
              subst
                  (λ b.
                    ReadsBack to_bytes render_and_hash reads reads_block (after to_bytes e out) b)
                  (take_all written all done) back,
            )
        | inr more ↦
            let end = written + min (length all - written) amt in
            let slice = take (end - written) (drop written all) in
            let (next, first, m, run, taken, same, adding, written_, short) =
              push_lem to_bytes render_and_hash reads reads_block max e (take written all) slice f
                a in
            let slice_size : length slice ≡ min (length all - written) amt =
              omega
                (arith, length-take (end - written) (drop written all), length-drop written all) in
            let moved : 1 ≤ m = ground (arith, taken, slice_size, more, moves, a.room) in
            let inside : m ≤ length slice = omega (arith, taken) in
            let now : take written all ++ take m slice ≡ take (written + m) all =
              ap (take written all ++◌)
                (take-take m (end - written) (drop written all) (omega (arith, inside, slice_size)))
              ∙ sym (take_add written m all) in
            let (rest, run', written', back) =
              collect_loop_lem n max amt (written + m) (after to_bytes e first) all next
                (blocks ++ first)
                (subst
                  (λ b.
                    IsAdding to_bytes render_and_hash reads reads_block max (after to_bytes e first)
                      b next)
                  now adding)
                (omega (arith, inside, slice_size, more)) (omega (arith, moved, enough))
                (ground (arith, moves, more)) in
            let open_ : leb (length all) written ≡ false = ground (arith, more) in
            (
              first ++ rest,
              rw (collect_loop, open_, run, run', append_assoc blocks first rest) refl,
              IsWritten-append to_bytes render_and_hash f.collector.branching_factor e first rest
                  written_
                  (subst
                    (λ c.
                      IsWritten to_bytes render_and_hash c.branching_factor (after to_bytes e first)
                        rest)
                    same written'),
              rw (after-append to_bytes e first rest) back,
            )
      ]

  pub new-IsAdding :
      (max : ℕ) (bc : BalancedCollector)
      → 1 ≤ max
      → 2 ≤ bc.branching_factor
      → IsAdding to_bytes render_and_hash reads reads_block max [] [] (build (size max) bc)
  new-IsAdding max bc some_ two = record {
    linked = [];
    chunked = refl;
    branches = two;
    growing = record {
      above = [];
      leaves = [];
      split = refl;
      above-IsAt = tt;
      leaves-IsAt = tt;
      few = omega (arith, two);
      none_above = λ z. refl;
      above-IsFit = (tt, tt);
      leaves-IsFit = (tt, tt);
      reads_back = refl;
      is_last = tt;
    };
    all_bytes = refl;
    room = some_;
  }

  -- With a chunk size of at least one and a branching factor of at least two, a file of any length
  -- that is pushed in slices of any size is added without a panic, and the loop ends. Each block that
  -- is written is of at most as many links as the branching factor, all of them to blocks written
  -- before it. For a reader that takes a block without links for its own bytes, and one with links
  -- for what its links read as in turn, the block written last reads as the content of the file.
  pub collect_blocks_lem :
      (max amt : ℕ) (bc : BalancedCollector) (all : Bytes)
      → 1 ≤ max
      → 2 ≤ bc.branching_factor
      → (out : List (Cid × Bytes)) × (collect_blocks to_bytes render_and_hash
            (build (size max) bc)
            all
            amt
          ≡ returned out)
        × IsWritten to_bytes render_and_hash bc.branching_factor [] out
        × ReadsBack to_bytes render_and_hash reads reads_block (after to_bytes [] out) all
  unfolding collect_blocks
  collect_blocks_lem max amt bc all some_ two =
      let slice = (if nat_beq amt 0 then length all else amt) in
      collect_loop_lem (length all + 1) max slice 0 [] all (build (size max) bc) []
        (new-IsAdding max bc some_ two) (omega arith) (omega arith) (ground arith)
