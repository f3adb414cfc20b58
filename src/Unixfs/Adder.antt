-- ===== src/Unixfs/Adder.antt =====
-- unixfs/src/file/adder.rs: the file adder, which cuts bytes into leaves and has the collector link
-- them. A failed assertion, an index out of range or a difference below zero is `panicked`.
pub mod Growing
pub mod Leaves
pub mod Pushing
pub mod Finishing
pub mod Collecting
use rust_ipfs.Base.{
  ℕ, zero, suc, ◌+◌, ◌-◌, ◌*◌, ◌/◌, ◌≤◌, ◌<◌, Bool, true, false, not, ◌&&◌, ◌||◌, ◌≡◌, refl, sym,
  ap, subst, ◌∙◌, ◌⊎◌, inl, inr, ◌↔◌, ◌≢◌, Option, none, some, List, [], ◌∷◌, ◌++◌, map, arith,
  if◌then◌else◌, All, length, length-append, is_empty, retain, ltb, leb, Eq, nat_eq, list_eq,
  nat_beq, get_elem?, ◌==◌, ==_iff, ==_refl, Option-cases, Bool-cases, if_elim, is_some, take, drop,
  set_at,
}
use Prim.Native.Nat.{min}
use rust_ipfs.Base.Outcome.{Outcome, returned, panicked, unfinished, and_then}
use rust_ipfs.Unixfs.Nodes.{Bytes, DataType, raw, file, UnixFs, PbLink, FlatUnixFs, add64, wrap64}
use rust_ipfs.Unixfs.Collector.{
  Link, BalancedCollector, with_branching_factor, unixfs_file, flush_links,
}

pub data Chunker : Type 0 where
  size : ℕ → Chunker

abbrev pub default_chunker : Chunker
default_chunker = size (256 * 1024)

unfoldable pub size_hint : Chunker → ℕ
size_hint (size max) = max

-- What is taken of the input, and whether the chunk is complete.
unfoldable pub accept : Chunker → Bytes → Bytes → Outcome (Bytes × Bool)
accept (size max) input buffered =
    if ltb max (length buffered)
    then panicked
    else let l = min (length input) (max - length buffered) in
      returned (take l input, leb max (length buffered + l))

pub record FileAdder (Cid : Type 0) : Type 0 where
  pub chunker : Chunker
  pub collector : BalancedCollector
  pub block_buffer : Bytes
  pub unflushed_links : List (Link Cid)

abbrev pub build : {Cid : Type 0} → Chunker → BalancedCollector → FileAdder Cid
build chunker collector = record {
  chunker = chunker;
  collector = collector;
  block_buffer = [];
  unflushed_links = [];
}

-- `option.into_iter()`
abbrev pub option_list : {A : Type 0} → Option A → List A
option_list none = []
option_list (some a) = a ∷ []

abbrev pub is_complete : ℕ → Bytes → Bool
is_complete written content = leb (length content) written

module _ {Cid : Type 0} (to_bytes : Cid → Bytes) (render_and_hash : FlatUnixFs → Cid × Bytes) where
  -- The leaf, if one is written, and the links with the one to it.
  unfoldable pub flush_buffered_leaf :
      Bytes → List (Link Cid) → Bool → Option (Cid × Bytes) × List (Link Cid)
  flush_buffered_leaf input unflushed_links finishing =
      if is_empty input && (not finishing || not (is_empty unflushed_links))
      then (none, unflushed_links)
      else let (cid, vec) = render_and_hash (record {
        links = [];
        unixfs =
            unixfs_file (if is_empty input then none else some input) (wrap64 (length input)) [];
      }) in
        (
          some (cid, vec),
          unflushed_links
              ++ record {
                depth = 0;
                target = cid;
                total_size = wrap64 (length vec);
                file_size = wrap64 (length input);
              }
                ∷ [],
        )

  unfoldable pub flush_buffered_links :
      FileAdder Cid → Bool → Outcome (FileAdder Cid × List (Cid × Bytes))
  flush_buffered_links f finishing =
      and_then (flush_links to_bytes render_and_hash f.collector f.unflushed_links finishing)
        λ r. returned (record f { unflushed_links = r.0 }, r.1)

  -- A complete chunk becomes a leaf, and what links there are to write follow it.
  unfoldable pub flush_chunk : FileAdder Cid → Bytes → Outcome (FileAdder Cid × List (Cid × Bytes))
  flush_chunk f chunk =
      let (leaf, links) = flush_buffered_leaf chunk f.unflushed_links false in
      elim leaf [
        | none ↦ panicked
        | some block ↦
            and_then
              (flush_buffered_links (record f { block_buffer = []; unflushed_links = links }) false)
              λ r. returned (r.0, block ∷ r.1)
      ]

  -- The new blocks, and how much of the input was consumed.
  unfoldable pub push : FileAdder Cid → Bytes → Outcome (FileAdder Cid × List (Cid × Bytes) × ℕ)
  push f input = and_then (accept f.chunker input f.block_buffer) λ a.
      let (accepted, ready) = a in
      if is_empty f.block_buffer && ready
      then and_then (flush_chunk f accepted) (λ r. returned (r.0, r.1, length accepted))
      else let buffered = record f { block_buffer = f.block_buffer ++ accepted } in
        if not ready
        then returned (buffered, [], length accepted)
        else and_then (flush_chunk buffered buffered.block_buffer)
            (λ r. returned (r.0, r.1, length accepted))

  unfoldable pub finish : FileAdder Cid → Outcome (List (Cid × Bytes))
  finish f =
      let (leaf, links) = flush_buffered_leaf f.block_buffer f.unflushed_links true in
      and_then (flush_buffered_links (record f { unflushed_links = links }) true)
        λ r. returned (option_list leaf ++ r.1)

  -- The loop of `collect_blocks`; a push consumes a byte, so that the fuel is one more than there
  -- are bytes.
  unfoldable pub collect_loop :
      ℕ → FileAdder Cid → Bytes → ℕ → ℕ → List (Cid × Bytes) → Outcome (List (Cid × Bytes))
  collect_loop zero f all_content amt written blocks = unfinished
  collect_loop (suc n) f all_content amt written blocks = elim (is_complete written all_content) [
    | true ↦ and_then (finish f) (λ last. returned (blocks ++ last))
    | false ↦
        let left = length all_content - written in
        let end = written + min left amt in
        and_then (push f (take (end - written) (drop written all_content)))
          λ r. collect_loop n r.0 all_content amt (written + r.2) (blocks ++ r.1)
  ]

  unfoldable pub collect_blocks : FileAdder Cid → Bytes → ℕ → Outcome (List (Cid × Bytes))
  collect_blocks f all_content amt =
      collect_loop (length all_content + 1) f all_content
        (if nat_beq amt 0 then length all_content else amt) 0 []
