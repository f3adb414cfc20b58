-- ===== src/Unixfs/Adder/Finishing.antt =====
-- The end of a file, and a whole file.
use mathlib.Core.List.{append_assoc, append-nil}
use rust_ipfs.Base.{
  ℕ, ◌≤◌, true, false, not, ◌&&◌, ◌≡◌, refl, sym, ap, subst, ◌∙◌, inl, inr, some, List, [], ◌∷◌,
  ◌++◌, arith, length, length-append, is_empty-false, is_empty, nat_eq, list_eq, Bool-cases,
}
use rust_ipfs.Base.Outcome.{returned}
use rust_ipfs.Unixfs.Nodes.{Bytes, FlatUnixFs}
use rust_ipfs.Unixfs.Collector.{Link, BalancedCollector, flush_links}
use rust_ipfs.Unixfs.Collector.Grouping.{IsAt, IsAt-append}
use rust_ipfs.Unixfs.Collector.Finishing.{finished, flush_links-finished}
use rust_ipfs.Unixfs.Collector.Content.{
  read_flat, head?, after, IsWritten, content_of, IsStored-later,
}
use rust_ipfs.Unixfs.Collector.Rooted.{IsRooted, IsFit-append, finished_lem}
use rust_ipfs.Unixfs.Adder.{FileAdder, flush_buffered_leaf, flush_buffered_links, finish}
use rust_ipfs.Unixfs.Adder.Growing.{content_last, leaf-IsLast}
use rust_ipfs.Unixfs.Adder.Pushing.{
  IsAdding, leaf_of, leaf_link, reads-leaf_of, leaf_link-IsFit, empty_nil,
}

module _ {Cid : Type 0} (to_bytes : Cid → Bytes) (render_and_hash : FlatUnixFs → Cid × Bytes)
    (reads : Bytes → Bytes)
    (reads_block : (f : FlatUnixFs)
      → reads (to_bytes (render_and_hash f).0) ≡ read_flat reads f) where
  -- The block written last reads as these bytes.
  abbrev pub ReadsBack : List Bytes → Bytes → Type 0
  ReadsBack e bytes = (h : Bytes) × (head? e ≡ some h) × (reads h ≡ bytes)

  reads_root :
      (branching : ℕ) (e : List Bytes) (bytes : Bytes) (root : List (Link Cid))
      (blocks : List (Cid × Bytes))
      → IsRooted to_bytes render_and_hash reads reads_block branching e bytes root blocks
      → ReadsBack (after to_bytes e blocks) bytes
  reads_root branching e bytes [] blocks r = ground (arith, r.0)
  reads_root branching e bytes (l ∷ []) blocks r =
      (to_bytes l.target, r.4, sym (append-nil (reads (to_bytes l.target))) ∙ r.1)
  reads_root branching e bytes (l ∷ k ∷ ls) blocks r = ground (arith, r.0)

  finished_any :
      (bc : BalancedCollector) (above leaves : List (Link Cid))
      → 2 ≤ bc.branching_factor
      → 1 ≤ length leaves
      → IsAt 1 above
      → IsAt 0 leaves
      → flush_links to_bytes render_and_hash bc (above ++ leaves) true
        ≡ returned (finished to_bytes render_and_hash bc.branching_factor above leaves)
  finished_any bc above [] two some_ one at = ground (arith, some_)
  finished_any bc above (l ∷ leaves) two some_ one at =
      flush_links-finished to_bytes render_and_hash bc above l leaves two one at

  -- With the last leaf, if one is written.
  finish_leaf :
      (max : ℕ) (e : List Bytes) (bytes : Bytes) (f : FileAdder Cid)
      → IsAdding to_bytes render_and_hash reads reads_block max e bytes f
      → (is_empty f.block_buffer && not (is_empty f.unflushed_links)) ≡ false
      → (out : List (Cid × Bytes)) × (finish to_bytes render_and_hash f ≡ returned out)
        × IsWritten to_bytes render_and_hash f.collector.branching_factor e out
        × ReadsBack (after to_bytes e out) bytes
  unfolding finish flush_buffered_leaf flush_buffered_links
  finish_leaf max e bytes f a needed =
      let g = a.growing in
      let branching = f.collector.branching_factor in
      let leaf = leaf_link to_bytes render_and_hash reads reads_block f.block_buffer in
      let block = render_and_hash (leaf_of f.block_buffer) in
      let full = g.leaves ++ leaf ∷ [] in
      let e' = to_bytes leaf.target ∷ e in
      let count = length-append g.leaves (leaf ∷ []) in
      let some_ : 1 ≤ length full = omega (arith, count) in
      let fits =
        IsFit-append to_bytes render_and_hash reads reads_block e' g.leaves (leaf ∷ [])
          (
            g.leaves-IsFit.0,
            IsStored-later to_bytes (to_bytes leaf.target) e g.leaves g.leaves-IsFit.1,
          )
          (leaf_link-IsFit to_bytes render_and_hash reads reads_block e f.block_buffer) in
      let rooted_ =
        finished_lem to_bytes render_and_hash reads reads_block branching e' g.above full a.branches
          some_
          (
            g.above-IsFit.0,
            IsStored-later to_bytes (to_bytes leaf.target) e g.above g.above-IsFit.1,
          )
          fits (leaf-IsLast to_bytes render_and_hash reads reads_block e g.above g.leaves leaf) in
      let run =
        finished_any f.collector g.above full a.branches some_ g.above-IsAt
          (IsAt-append 0 g.leaves (leaf ∷ []) g.leaves-IsAt (refl, tt)) in
      let assoc : f.unflushed_links ++ leaf ∷ [] ≡ g.above ++ full =
        rw (g.split) (append_assoc g.above g.leaves (leaf ∷ [])) in
      let whole =
        content_last to_bytes render_and_hash reads reads_block g.above g.leaves leaf a.linked
          g.reads_back
        ∙ ap (a.linked ++◌)
            (reads-leaf_of to_bytes render_and_hash reads reads_block f.block_buffer)
        ∙ a.all_bytes in
      let r = finished to_bytes render_and_hash branching g.above full in
      (
        block ∷ r.1,
        rw (finish, needed, assoc, run) refl,
        ((leaf_of f.block_buffer, refl, omega arith, tt), rooted_.3),
        subst (λ b. ReadsBack (after to_bytes e' r.1) b) whole
            (reads_root branching e'
              (content_of to_bytes render_and_hash reads reads_block (g.above ++ full)) r.0 r.1
              rooted_),
      )

  some_leaf :
      (above leaves : List (Link Cid))
      → 1 ≤ length (above ++ leaves)
      → (length leaves ≡ 0 → length above ≡ 0)
      → 1 ≤ length leaves
  some_leaf above [] h k = omega (arith, h, k refl, length-append above [])
  some_leaf above (l ∷ leaves) h k = omega arith

  finish_links :
      (max : ℕ) (e : List Bytes) (bytes : Bytes) (f : FileAdder Cid)
      → IsAdding to_bytes render_and_hash reads reads_block max e bytes f
      → (is_empty f.block_buffer && not (is_empty f.unflushed_links)) ≡ true
      → (out : List (Cid × Bytes)) × (finish to_bytes render_and_hash f ≡ returned out)
        × IsWritten to_bytes render_and_hash f.collector.branching_factor e out
        × ReadsBack (after to_bytes e out) bytes
  unfolding finish flush_buffered_leaf flush_buffered_links
  finish_links max e bytes f a skipped =
      let g = a.growing in
      let branching = f.collector.branching_factor in
      let some_ : 1 ≤ length g.leaves =
        some_leaf g.above g.leaves
          (rw (← g.split) (is_empty-false f.unflushed_links (ground (arith, skipped))))
          g.none_above in
      let rooted_ =
        finished_lem to_bytes render_and_hash reads reads_block branching e g.above g.leaves
          a.branches some_ g.above-IsFit g.leaves-IsFit g.is_last in
      let run =
        finished_any f.collector g.above g.leaves a.branches some_ g.above-IsAt g.leaves-IsAt in
      let same : flush_links to_bytes render_and_hash f.collector f.unflushed_links true
          ≡ returned (finished to_bytes render_and_hash branching g.above g.leaves) =
        rw (g.split) run in
      let r = finished to_bytes render_and_hash branching g.above g.leaves in
      let nothing : f.block_buffer ≡ [] =
        empty_nil to_bytes render_and_hash reads reads_block f.block_buffer
          (ground (arith, skipped)) in
      let whole : content_of to_bytes render_and_hash reads reads_block (g.above ++ g.leaves)
          ≡ bytes =
        g.reads_back ∙ sym (append-nil a.linked) ∙ ap (a.linked ++◌) (sym nothing) ∙ a.all_bytes in
      (
        r.1,
        rw (finish, skipped, same) refl,
        rooted_.3,
        subst (λ b. ReadsBack (after to_bytes e r.1) b) whole
            (reads_root branching e
              (content_of to_bytes render_and_hash reads reads_block (g.above ++ g.leaves)) r.0 r.1
              rooted_),
      )

  -- For a file adder as pushes leave it (`IsAdding`), its branching factor two or more: the end of the
  -- file does not panic, and ends. The blocks that it writes are of at most as many links as the
  -- branching factor, all to blocks written before; the block that is then the last one written, by it
  -- or by a push before, reads as all the bytes that were pushed.
  pub finish_lem :
      (max : ℕ) (e : List Bytes) (bytes : Bytes) (f : FileAdder Cid)
      → IsAdding to_bytes render_and_hash reads reads_block max e bytes f
      → (out : List (Cid × Bytes)) × (finish to_bytes render_and_hash f ≡ returned out)
        × IsWritten to_bytes render_and_hash f.collector.branching_factor e out
        × ReadsBack (after to_bytes e out) bytes
  finish_lem max e bytes f a =
      elim (Bool-cases (is_empty f.block_buffer && not (is_empty f.unflushed_links))) [
        | inl skipped ↦ finish_links max e bytes f a skipped
        | inr needed ↦ finish_leaf max e bytes f a needed
      ]
