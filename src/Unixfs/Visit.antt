-- ===== src/Unixfs/Visit.antt =====
-- unixfs/src/file/visit.rs: walking the blocks of a file, or of a range of it. The cache, which only
-- saves an allocation, is left out. The links that are pending are a vector whose last entry is next.
pub mod Slicing
pub mod Linked
use Prim.Native.Nat.{min, max}
use rust_ipfs.Base.{
  ℕ, zero, suc, ◌+◌, ◌-◌, ◌*◌, ◌/◌, ◌≤◌, ◌<◌, Bool, true, false, not, ◌&&◌, ◌||◌, ◌≡◌, refl, sym,
  ap, subst, ◌∙◌, ◌⊎◌, inl, inr, ◌↔◌, ◌≢◌, Option, none, some, List, [], ◌∷◌, ◌++◌, map, arith,
  if◌then◌else◌, All, length, length-append, is_empty, retain, ltb, leb, Eq, nat_eq, list_eq,
  nat_beq, get_elem?, ◌==◌, ==_iff, ==_refl, Option-cases, Bool-cases, if_elim, is_some, take, drop,
}
use rust_ipfs.Base.Outcome.{Outcome, returned, panicked, unfinished, and_then}
use rust_ipfs.Unixfs.Nodes.{
  Bytes, DataType, raw, file, UnixFs, UnixTime, PbLink, FlatUnixFs, add64, wrap64,
}
use rust_ipfs.Unixfs.Reader.{
  Metadata, Range, FileReadFailed, invalid_cid, ReadResult, ok, err, bytes_or_empty, FileReader,
  Traversal, from_parsed, from_block, continue_walk, FileContent, bytes, ranges, content_of_reader,
}

-- `block_is_in_target_range` for some target.
unfoldable pub in_target : Range → Range → Bool
in_target block target = leb (max block.start target.start) (min block.end target.end)

unfoldable pub block_is_in_target_range : Range → Option Range → Bool
block_is_in_target_range block none = true
block_is_in_target_range block (some target) = in_target block target

-- `&content[start..end]`
unfoldable pub slice : Bytes → ℕ → ℕ → Outcome Bytes
slice content from to =
    if ltb to from || ltb (length content) to
    then panicked
    else returned (take (to - from) (drop from content))

-- A difference below zero.
unfoldable pub minus : ℕ → ℕ → Outcome ℕ
minus a b = if ltb a b then panicked else returned (a - b)

-- `start` and `end` of the slice for a block that is in the target range.
unfoldable pub slice_bounds : Range → Range → Outcome (ℕ × ℕ)
slice_bounds block target =
    if ltb target.start block.start
    then and_then (minus (min target.end block.end) block.start) (λ to. returned (0, to))
    else if ltb block.end target.end
    then (and_then (minus target.start block.start)
        λ from. and_then (minus (min target.end block.end) block.start) (λ to. returned (from, to)))
    else (and_then (minus target.start block.start)
        λ from. and_then (minus target.end target.start) (λ len. returned (from, from + len)))

unfoldable pub target_slice : Bytes → Range → Range → Outcome Bytes
target_slice content block target =
    if not (in_target block target)
    then returned []
    else and_then (slice_bounds block target) (λ bounds. slice content bounds.0 bounds.1)

unfoldable pub maybe_target_slice : Bytes → Range → Option Range → Outcome Bytes
maybe_target_slice content block none = returned content
maybe_target_slice content block (some target) = target_slice content block target

abbrev pub reverse {ℓ} : {A : Type ℓ} → List A → List A
reverse [] = []
reverse (x ∷ xs) = reverse xs ++ x ∷ []

-- `Vec::pop`
abbrev pub pop {ℓ} : {A : Type ℓ} → List A → Option (A × List A)
pop [] = none
pop (x ∷ xs) = elim (pop xs) [ none ↦ some (x, []) | some p ↦ some (p.0, x ∷ p.1) ]

pub record FileVisit (Cid : Type 0) : Type 0 where
  pub pending : List (Cid × Range)
  pub target : Option Range
  pub state : Traversal

-- The content id to go on with, and the others in the order of the walk.
unfoldable pub pending_links : {Cid : Type 0} → FileVisit Cid → Outcome (Cid × List Cid)
pending_links v = elim (pop v.pending) [
  | none ↦ panicked
  | some p ↦ returned (p.0.0, map (λ q. q.0) (reverse p.1))
]

module _ {Cid : Type 0} (parse : Bytes → Option FlatUnixFs) (try_cid : Bytes → Option Cid) where
  unfoldable pub to_pending : ℕ → PbLink → Range → ReadResult (Cid × Range)
  to_pending nth link range = elim (try_cid (bytes_or_empty link.hash)) [
    | none ↦ err (invalid_cid nth)
    | some cid ↦ ok (cid, range)
  ]

  -- The links of a block that are in the target range, numbered from `nth` on, or the first that is
  -- not a content id.
  unfoldable pub pending_of :
      ℕ → Option Range → List (PbLink × Range) → ReadResult (List (Cid × Range))
  pending_of nth target [] = ok []
  pending_of nth target (l ∷ ls) =
      let rest = pending_of (nth + 1) target ls in
      if not (block_is_in_target_range l.1 target) then rest else elim (to_pending nth l.0 l.1) [
        | err failed ↦ err failed
        | ok item ↦ elim rest [ err failed ↦ err failed | ok items ↦ ok (item ∷ items) ]
      ]

  abbrev pub Started : Type 0
  Started = Bytes × ℕ × Metadata × Option (FileVisit Cid)

  unfoldable pub start_from_reader : Option Range → FileReader → Outcome (ReadResult Started)
  start_from_reader target fr =
      let (content, traversal) = content_of_reader fr in
      elim content [
        | bytes content ↦
            and_then
              (maybe_target_slice content (record { start = 0; end = length content }) target)
              λ part. returned (ok (part, traversal.traversed_size, fr.metadata, none))
        | ranges iter ↦ elim (pending_of 0 target iter) [
          | err failed ↦ returned (err failed)
          | ok links ↦ returned (
              ok (
                [],
                traversal.traversed_size,
                fr.metadata,
                if is_empty links
                    then none
                    else some
                        (record { pending = reverse links; target = target; state = traversal }),
              ))
        ]
      ]

  unfoldable pub start_from_parsed : Option Range → FlatUnixFs → Outcome (ReadResult Started)
  start_from_parsed target block =
      and_then (from_parsed block)
        λ r. elim r [ err failed ↦ returned (err failed) | ok fr ↦ start_from_reader target fr ]

  unfoldable pub start : Option Range → Bytes → Outcome (ReadResult Started)
  start target block =
      and_then (from_block parse block)
        λ r. elim r [ err failed ↦ returned (err failed) | ok fr ↦ start_from_reader target fr ]

  unfoldable pub visit_content :
      FileVisit Cid
      → List (Cid × Range)
      → Range
      → FileReader
      → Outcome (ReadResult (Bytes × Option (FileVisit Cid)))
  visit_content v pending range fr =
      let (content, traversal) = content_of_reader fr in
      elim content [
        | bytes content ↦ and_then (maybe_target_slice content range v.target) λ part. returned (
            ok (
              part,
              if not (is_empty pending)
                  then some (record v { pending = pending; state = traversal })
                  else none,
            ))
        | ranges iter ↦ elim (pending_of 0 v.target iter) [
          | err failed ↦ returned (err failed)
          | ok links ↦
              returned
                (ok ([], some (record v { pending = pending ++ reverse links; state = traversal })))
        ]
      ]

  -- That nothing is pending is a panic.
  unfoldable pub continue_visit :
      FileVisit Cid → Bytes → Outcome (ReadResult (Bytes × Option (FileVisit Cid)))
  continue_visit v next = elim (pop v.pending) [
    | none ↦ panicked
    | some p ↦
        and_then (continue_walk parse v.state next p.0.1)
          λ r. elim r [ err failed ↦ returned (err failed) | ok fr ↦ visit_content v p.1 p.0.1 fr ]
  ]
