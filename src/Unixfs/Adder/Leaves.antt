-- ===== src/Unixfs/Adder/Leaves.antt =====
-- A leaf that was just written: it is kept, or linked with those before it.
use mathlib.Core.List.{append_assoc}
use rust_ipfs.Base.{
  ℕ, ◌+◌, ◌≤◌, ◌<◌, true, false, ◌≡◌, refl, ◌∙◌, inl, inr, List, [], ◌∷◌, ◌++◌, arith, length,
  length-append, length-drop, leb, nat_eq, list_eq, le_cases, take, drop,
}
use rust_ipfs.Base.Outcome.{returned}
use rust_ipfs.Unixfs.Nodes.{Bytes, FlatUnixFs}
use rust_ipfs.Unixfs.Collector.{Link, BalancedCollector, flush_links}
use rust_ipfs.Unixfs.Collector.Grouping.{IsAt, IsAt-append, IsAt-drop, block_of, link_to}
use rust_ipfs.Unixfs.Collector.Growing.{grown, flush_links-grown}
use rust_ipfs.Unixfs.Collector.Content.{
  read_flat, after, IsLast, IsWritten, content_of, IsStored-take, IsStored-Refers, IsStored-later,
  length-map_le,
}
use rust_ipfs.Unixfs.Collector.Rooted.{IsFit, IsFit-append, IsFit-after, IsLast-two}
use rust_ipfs.Unixfs.Adder.Growing.{
  IsGrowing, content_last, content_linked, new_link-IsFit, leaf-IsLast, IsFit-drop,
}

module _ {Cid : Type 0} (to_bytes : Cid → Bytes) (render_and_hash : FlatUnixFs → Cid × Bytes)
    (reads : Bytes → Bytes)
    (reads_block : (f : FlatUnixFs)
      → reads (to_bytes (render_and_hash f).0) ≡ read_flat reads f) where
  abbrev content : List (Link Cid) → Bytes
  content = content_of to_bytes render_and_hash reads reads_block

  abbrev IsFitHere : List Bytes → List (Link Cid) → Type 0
  IsFitHere = IsFit to_bytes render_and_hash reads reads_block

  abbrev IsGrowingHere : ℕ → List Bytes → Bytes → List (Link Cid) → Type 0
  IsGrowingHere = IsGrowing to_bytes render_and_hash reads reads_block

  -- The links with the new leaf, of which there may be one too many.
  record IsFull (size : ℕ) (e : List Bytes) (whole : Bytes) (top full : List (Link Cid))
      : Type 0 where
    top-IsAt : IsAt 1 top
    full-IsAt : IsAt 0 full
    any : 1 ≤ length full
    most : length full ≤ size + 1
    top-IsFit : IsFitHere e top
    full-IsFit : IsFitHere e full
    reads_whole : content (top ++ full) ≡ whole
    ends : IsLast to_bytes e (top ++ full)

  full_lem :
      (size : ℕ) (e : List Bytes) (bytes : Bytes) (ls : List (Link Cid)) (leaf : Link Cid)
      (g : IsGrowingHere size e bytes ls)
      → leaf.depth ≡ 0
      → IsFitHere (to_bytes leaf.target ∷ e) (leaf ∷ [])
      → IsFull size
          (to_bytes leaf.target ∷ e)
          (bytes ++ reads (to_bytes leaf.target))
          g.above
          (g.leaves ++ leaf ∷ [])
  full_lem size e bytes ls leaf g depth fit =
      let h = to_bytes leaf.target in
      let count = length-append g.leaves (leaf ∷ []) in
      record {
        top-IsAt = g.above-IsAt;
        full-IsAt = IsAt-append 0 g.leaves (leaf ∷ []) g.leaves-IsAt (depth, tt);
        any = omega (arith, count);
        most = omega (arith, count, g.few);
        top-IsFit = (g.above-IsFit.0, IsStored-later to_bytes h e g.above g.above-IsFit.1);
        full-IsFit =
            IsFit-append to_bytes render_and_hash reads reads_block (h ∷ e) g.leaves (leaf ∷ [])
              (g.leaves-IsFit.0, IsStored-later to_bytes h e g.leaves g.leaves-IsFit.1) fit;
        reads_whole =
            content_last to_bytes render_and_hash reads reads_block g.above g.leaves leaf bytes
              g.reads_back;
        ends = leaf-IsLast to_bytes render_and_hash reads reads_block e g.above g.leaves leaf;
      }

  -- The leaves are kept while there are not too many.
  kept-IsGrowing :
      (size : ℕ) (e : List Bytes) (whole : Bytes) (top full : List (Link Cid))
      → IsFull size e whole top full
      → length full ≤ size
      → IsGrowingHere size e whole (top ++ full)
  kept-IsGrowing size e whole top full f few = record {
    above = top;
    leaves = full;
    split = refl;
    above-IsAt = f.top-IsAt;
    leaves-IsAt = f.full-IsAt;
    few = few;
    none_above = λ z. omega (arith, z, f.any);
    above-IsFit = f.top-IsFit;
    leaves-IsFit = f.full-IsFit;
    reads_back = f.reads_whole;
    is_last = f.ends;
  }

  abbrev block : ℕ → List (Link Cid) → List (Cid × Bytes)
  block size full = render_and_hash (block_of to_bytes (take size full)) ∷ []

  -- One too many, and all but the last are linked by one block.
  linked-IsGrowing :
      (size : ℕ) (e : List Bytes) (whole : Bytes) (top full : List (Link Cid))
      → 1 ≤ size
      → IsFull size e whole top full
      → size < length full
      → IsGrowingHere size
          (after to_bytes e (block size full))
          whole
          ((top ++ link_to to_bytes render_and_hash 0 (take size full) ∷ []) ++ drop size full)
  linked-IsGrowing size e whole top full pos f many =
      let new = link_to to_bytes render_and_hash 0 (take size full) in
      let out = block size full in
      let e' = after to_bytes e out in
      let left : length (drop size full) ≡ 1 = omega (arith, many, f.most, length-drop size full) in
      let top_fits = IsFit-after to_bytes render_and_hash reads reads_block e out top f.top-IsFit in
      let count = length-append (top ++ new ∷ []) (drop size full) in
      record {
        above = top ++ new ∷ [];
        leaves = drop size full;
        split = refl;
        above-IsAt = IsAt-append 1 top (new ∷ []) f.top-IsAt (refl, tt);
        leaves-IsAt = IsAt-drop 0 size full f.full-IsAt;
        few = omega (arith, left, pos);
        none_above = λ z. omega (arith, z, left);
        above-IsFit =
            IsFit-append to_bytes render_and_hash reads reads_block e' top (new ∷ []) top_fits (
              new_link-IsFit to_bytes render_and_hash reads reads_block size e full pos f.any
                f.full-IsFit);
        leaves-IsFit =
            IsFit-after to_bytes render_and_hash reads reads_block e out (drop size full)
              (IsFit-drop to_bytes render_and_hash reads reads_block size e full f.full-IsFit);
        reads_back =
            content_linked to_bytes render_and_hash reads reads_block size top full pos f.any
            ∙ f.reads_whole;
        is_last =
            IsLast-two to_bytes render_and_hash reads reads_block e'
              ((top ++ new ∷ []) ++ drop size full)
              (omega (arith, left, count, length-append top (new ∷ [])));
      }

  block-IsWritten :
      (size : ℕ) (e : List Bytes) (full : List (Link Cid))
      → IsFitHere e full
      → IsWritten to_bytes render_and_hash size e (block size full)
  block-IsWritten size e full fit =
      let refers =
        IsStored-Refers to_bytes e (take size full) (IsStored-take to_bytes size e full fit.1) in
      (
        (
          block_of to_bytes (take size full),
          refl,
          length-map_le to_bytes render_and_hash reads reads_block size full,
          refers,
        ),
        tt,
      )

  flush_links_any :
      (bc : BalancedCollector) (above leaves : List (Link Cid))
      → 1 ≤ length leaves
      → 1 ≤ bc.branching_factor
      → IsAt 1 above
      → IsAt 0 leaves
      → length leaves ≤ bc.branching_factor + 1
      → flush_links to_bytes render_and_hash bc (above ++ leaves) false
        ≡ returned (grown to_bytes render_and_hash bc.branching_factor above leaves)
  flush_links_any bc above [] some_ pos one at most = ground (arith, some_)
  flush_links_any bc above (l ∷ leaves) some_ pos one at most =
      flush_links-grown to_bytes render_and_hash bc above l leaves pos one at most

  -- A leaf is kept, and linked with those before it when there is one more than the branching factor.
  pub grow_lem :
      (bc : BalancedCollector) (e : List Bytes) (bytes : Bytes) (ls : List (Link Cid))
      (leaf : Link Cid)
      → 1 ≤ bc.branching_factor
      → IsGrowingHere bc.branching_factor e bytes ls
      → leaf.depth ≡ 0
      → IsFitHere (to_bytes leaf.target ∷ e) (leaf ∷ [])
      → (next : List (Link Cid)) × (out : List (Cid × Bytes)) × (flush_links to_bytes
            render_and_hash bc
            (ls ++ leaf ∷ [])
            false
          ≡ returned (next, out))
        × IsGrowingHere bc.branching_factor
            (after to_bytes (to_bytes leaf.target ∷ e) out)
            (bytes ++ reads (to_bytes leaf.target))
            next
        × IsWritten to_bytes render_and_hash bc.branching_factor (to_bytes leaf.target ∷ e) out
        × (length out ≤ 1)
  grow_lem bc e bytes ls leaf pos g depth fit =
      let size = bc.branching_factor in
      let full = g.leaves ++ leaf ∷ [] in
      let whole = bytes ++ reads (to_bytes leaf.target) in
      let e' = to_bytes leaf.target ∷ e in
      let f = full_lem size e bytes ls leaf g depth fit in
      let run = flush_links_any bc g.above full f.any pos f.top-IsAt f.full-IsAt f.most in
      let assoc : ls ++ leaf ∷ [] ≡ g.above ++ full =
        rw (g.split) (append_assoc g.above g.leaves (leaf ∷ [])) in
      elim (le_cases (length full) size) [
        | inl few ↦
            let kept : leb (length full) size ≡ true = ground (arith, few) in
            (
              g.above ++ full,
              [],
              rw assoc (run ∙ rw kept refl),
              kept-IsGrowing size e' whole g.above full f few,
              tt,
              omega arith,
            )
        | inr many ↦
            let linked : leb (length full) size ≡ false = ground (arith, many) in
            (
              (g.above ++ link_to to_bytes render_and_hash 0 (take size full) ∷ [])
                  ++ drop size full,
              block size full,
              rw assoc (run ∙ rw linked refl),
              linked-IsGrowing size e' whole g.above full pos f many,
              block-IsWritten size e' full f.full-IsFit,
              omega arith,
            )
      ]
