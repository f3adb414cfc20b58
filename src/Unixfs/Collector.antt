-- ===== src/Unixfs/Collector.antt =====
-- unixfs/src/file/adder.rs: the balanced collector, which writes blocks of links. What renders and
-- hashes a block (`quick_protobuf`, `sha2`, `libipld`) and the bytes of a content id are parameters.
-- The links and sizes that are reused between blocks only save allocations, and are left out.
pub mod Grouping
pub mod Levels
pub mod Finishing
pub mod Growing
pub mod Content
pub mod Rooted
pub mod Unending
use rust_ipfs.Base.{
  ℕ, zero, suc, ◌+◌, ◌-◌, ◌*◌, ◌/◌, ◌≤◌, ◌<◌, Bool, true, false, not, ◌&&◌, ◌||◌, ◌≡◌, refl, sym,
  ap, subst, ◌∙◌, ◌⊎◌, inl, inr, ◌↔◌, ◌≢◌, Option, none, some, List, [], ◌∷◌, ◌++◌, map, arith,
  if◌then◌else◌, All, length, length-append, is_empty, retain, ltb, leb, Eq, nat_eq, list_eq,
  nat_beq, get_elem?, ◌==◌, ==_iff, ==_refl, Option-cases, Bool-cases, if_elim, is_some, take, drop,
  set_at,
}
use Prim.Native.Nat.{min}
use rust_ipfs.Base.Outcome.{Outcome, returned, panicked, unfinished, and_then}
use rust_ipfs.Unixfs.Nodes.{Bytes, DataType, raw, file, UnixFs, PbLink, FlatUnixFs, add64, wrap64}

pub record Link (Cid : Type 0) : Type 0 where
  pub depth : ℕ
  pub target : Cid
  pub total_size : ℕ
  pub file_size : ℕ

pub record BalancedCollector : Type 0 where
  pub branching_factor : ℕ

unfoldable pub with_branching_factor : ℕ → Option BalancedCollector
with_branching_factor n = if ltb 0 n then some (record { branching_factor = n }) else none

-- `BalancedCollector::default`
abbrev pub default_collector : BalancedCollector
default_collector = record { branching_factor = 174 }

-- The four arguments that `partition_link` writes to.
pub record Parts : Type 0 where
  pub links : List PbLink
  pub blocksizes : List ℕ
  pub nested_size : ℕ
  pub nested_total_size : ℕ

unfoldable pub no_parts : Parts
no_parts = record { links = []; blocksizes = []; nested_size = 0; nested_total_size = 0 }

-- The block of a file with these parts of it.
abbrev pub unixfs_file : Option Bytes → ℕ → List ℕ → UnixFs
unixfs_file content filesize blocksizes = record {
  type_ = file;
  content = content;
  filesize = some filesize;
  blocksizes = blocksizes;
  hash_type = none;
  fanout = none;
  mode = none;
  mtime = none;
}

-- `pending`, what is flushed, and the two indices of one level.
pub record Level (Cid : Type 0) : Type 0 where
  pub pending : List (Link Cid)
  pub ret : List (Cid × Bytes)
  pub starting_point : ℕ
  pub last_overwrite : Option ℕ

unfoldable pub overwrite_index : Option ℕ → ℕ → ℕ
overwrite_index none first_at = first_at
overwrite_index (some i) first_at = i + 1

module _ {Cid : Type 0} where
  unfoldable pub position : ℕ → List (Link Cid) → Option ℕ
  position level [] = none
  position level (l ∷ ls) =
      let rest = position level ls in
      if nat_beq l.depth level then some 0 else elim rest [ none ↦ none | some i ↦ some (suc i) ]

  unfoldable pub truncate_level : Option ℕ → List (Link Cid) → List (Link Cid)
  truncate_level none pending = pending
  truncate_level (some i) pending = take (i + 1) pending

  -- `pending.drain((last_overwrite + 1)..first_at)`
  unfoldable pub drain_level : Option ℕ → ℕ → List (Link Cid) → List (Link Cid)
  drain_level none first_at pending = pending
  drain_level (some i) first_at pending = take (i + 1) pending ++ drop first_at pending

  abbrev pub start_level : List (Link Cid) → List (Cid × Bytes) → Level Cid
  start_level pending ret = record {
    pending = pending;
    ret = ret;
    starting_point = 0;
    last_overwrite = none;
  }

  -- A level that was not broken out of ends with the links truncated.
  abbrev pub close_level :
      Outcome (Bool × Level Cid) → Outcome (Bool × List (Link Cid) × List (Cid × Bytes))
  close_level r = and_then r λ s.
      returned
        (s.0, if s.0 then s.1.pending else truncate_level s.1.last_overwrite s.1.pending, s.1.ret)

  unfoldable pub is_settled : ℕ → Bool → List (Link Cid) → Bool
  is_settled branching_factor finishing pending =
      nat_beq (length pending) 1 && finishing
      || leb (length pending) branching_factor && not finishing

module _ {Cid : Type 0} (to_bytes : Cid → Bytes) where
  unfoldable pub partition_link : Link Cid → Parts → Parts
  partition_link link p = record {
    links =
        p.links
        ++ record {
          hash = some (to_bytes link.target);
          name = some [];
          tsize = some link.total_size;
        }
          ∷ [];
    blocksizes = p.blocksizes ++ link.file_size ∷ [];
    nested_size = add64 p.nested_size link.file_size;
    nested_total_size = add64 p.nested_total_size link.total_size;
  }

  -- The loop over the links of a block; `assert_eq!(link.depth, level)` is the test.
  unfoldable pub partition_links : ℕ → List (Link Cid) → Parts → Option Parts
  partition_links level [] p = some p
  partition_links level (l ∷ ls) p =
      let rest = partition_links level ls (partition_link l p) in
      if nat_beq l.depth level then rest else none

module _ {Cid : Type 0} (to_bytes : Cid → Bytes) (render_and_hash : FlatUnixFs → Cid × Bytes) where
  -- One link block, from the links at `first_at` on.
  unfoldable pub flush_block : BalancedCollector → ℕ → ℕ → Level Cid → Outcome (Level Cid)
  flush_block bc level first_at s =
      let last = min (first_at + bc.branching_factor) (length s.pending) in
      elim (partition_links to_bytes level (take (last - first_at) (drop first_at s.pending))
        no_parts) [
          | none ↦ panicked
          | some p ↦
              let (cid, vec) = render_and_hash (record {
                links = p.links;
                unixfs = unixfs_file none p.nested_size p.blocksizes;
              }) in
              let index = overwrite_index s.last_overwrite first_at in
              returned (record {
                pending =
                    set_at index
                      (record {
                        depth = level + 1;
                        target = cid;
                        total_size = add64 p.nested_total_size (wrap64 (length vec));
                        file_size = p.nested_size;
                      })
                      s.pending;
                ret = s.ret ++ (cid, vec) ∷ [];
                starting_point = last;
                last_overwrite = some index;
              })
        ]

  -- The `while let` loop; the answer `true` is `break 'outer`.
  unfoldable pub flush_level :
      ℕ → BalancedCollector → Bool → ℕ → Level Cid → Outcome (Bool × Level Cid)
  flush_level zero bc finishing level s = unfinished
  flush_level (suc n) bc finishing level s =
      elim (position level (drop s.starting_point s.pending)) [
        | none ↦ returned (false, s)
        | some i ↦
            let first_at = i + s.starting_point in
            elim (not finishing && leb (length (drop first_at s.pending)) bc.branching_factor) [
              | true ↦
                  returned
                    (true, record s { pending = drain_level s.last_overwrite first_at s.pending })
              | false ↦
                  and_then (flush_block bc level first_at s)
                    λ s'. flush_level n bc finishing level s'
            ]
      ]

  -- The loop over the levels. A level has no more blocks than links.
  unfoldable pub flush_levels :
      ℕ
      → BalancedCollector
      → Bool
      → ℕ
      → List (Link Cid)
      → List (Cid × Bytes)
      → Outcome (List (Link Cid) × List (Cid × Bytes))
  flush_levels zero bc finishing level pending ret = unfinished
  flush_levels (suc n) bc finishing level pending ret =
      elim (is_settled bc.branching_factor finishing pending) [
        | true ↦ returned (pending, ret)
        | false ↦
            and_then
              (close_level
                (flush_level (length pending + 1) bc finishing level (start_level pending ret)))
              λ s. elim s.0 [
                | true ↦ returned (s.1, s.2)
                | false ↦ flush_levels n bc finishing (suc level) s.1 s.2
              ]
      ]

  -- The fuel is one more level than there are links.
  unfoldable pub flush_links :
      BalancedCollector → List (Link Cid) → Bool → Outcome (List (Link Cid) × List (Cid × Bytes))
  flush_links bc pending finishing = flush_levels (length pending + 2) bc finishing 0 pending []
