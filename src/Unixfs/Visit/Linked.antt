-- ===== src/Unixfs/Visit/Linked.antt =====
-- The visit of a block of links that the file adder writes.
use rust_ipfs.Base.{
  ℕ, ◌+◌, Bool, ◌&&◌, leb, true, ◌≡◌, refl, inl, inr, Option, none, some, List, [], ◌∷◌, map, arith,
  if◌then◌else◌, length, is_empty, retain, nat_eq, list_eq, nat_beq, Bool-cases,
}
use rust_ipfs.Base.Outcome.{returned}
use rust_ipfs.Unixfs.Nodes.{Bytes, FlatUnixFs, add64}
use rust_ipfs.Unixfs.Reader.{
  Metadata, Range, ok, FileReader, from_parsed, content_of_reader, from_parts, ending_of,
  is_file_or_raw, metadata_of, tree_coverage, range_links,
}
use rust_ipfs.Unixfs.Visit.{
  block_is_in_target_range, in_target, reverse, to_pending, pending_of, start_from_reader,
  start_from_parsed,
}
use rust_ipfs.Unixfs.Collector.{Link}
use rust_ipfs.Unixfs.Collector.Grouping.{sum64, file_sizes, pb_link, block_of}

-- The links with the ranges of the file that they cover, from a place on.
abbrev pub covers : {Cid : Type 0} → ℕ → List (Link Cid) → List (Cid × Range)
covers base [] = []
covers base (l ∷ ls) =
    (l.target, record { start = base; end = add64 base l.file_size })
    ∷ covers (add64 base l.file_size) ls

-- Two ranges that do not end before they start, of which neither ends before the other starts; a
-- whole file is touched by any.
abbrev pub touches : Range → Option Range → Bool
touches part none = true
touches part (some target) =
    (leb part.start part.end && leb target.start target.end)
    && (leb part.start target.end && leb target.start part.end)

-- Those that a range asks for.
abbrev pub asked_for : {Cid : Type 0} → Option Range → List (Cid × Range) → List (Cid × Range)
asked_for target = retain (λ p. touches p.1 target)

block_is_in_target_range-eq-touches :
    (part : Range) (target : Option Range)
    → block_is_in_target_range part target ≡ touches part target
unfolding block_is_in_target_range in_target
block_is_in_target_range-eq-touches part none = refl
block_is_in_target_range-eq-touches part (some target) = ground arith

module _ {Cid : Type 0} (parse : Bytes → Option FlatUnixFs) (try_cid : Bytes → Option Cid)
    (to_bytes : Cid → Bytes) (try_cid-to_bytes : (c : Cid) → try_cid (to_bytes c) ≡ some c) where
  pending_of-covers :
      (nth base : ℕ) (target : Option Range) (ls : List (Link Cid))
      → pending_of parse try_cid nth target
          (range_links base (map (pb_link to_bytes) ls) (file_sizes ls))
        ≡ ok (asked_for target (covers base ls))
  unfolding pending_of range_links to_pending
  pending_of-covers nth base target [] = refl
  pending_of-covers nth base target (l ∷ ls) =
      let ih = pending_of-covers (nth + 1) (add64 base l.file_size) target ls in
      let read = try_cid-to_bytes l.target in
      let range : Range = record { start = base; end = add64 base l.file_size } in
      let same = block_is_in_target_range-eq-touches range target in
      elim (Bool-cases (touches range target)) [
        | inl inside ↦ rw (pending_of, same, inside, read, ih) refl
        | inr outside ↦ rw (pending_of, same, outside, ih) refl
      ]

  same_length : (ls : List (Link Cid)) → length (map (pb_link to_bytes) ls) ≡ length (file_sizes ls)
  same_length [] = refl
  same_length (l ∷ ls) = omega (arith, same_length ls)

  length-file_sizes :
      (ls : List (Link Cid))
      → nat_beq (length (map (pb_link to_bytes) ls)) (length (file_sizes ls)) ≡ true
  length-file_sizes ls = let z = same_length ls in ground (arith, z)

  abbrev no_metadata : Metadata
  no_metadata = record { mode = none; mtime = none }

  -- The reader of a block of links.
  abbrev linked_reader : Link Cid → List (Link Cid) → FileReader
  linked_reader l ls = record {
    offset = 0;
    ending = tree_coverage (add64 0 (sum64 0 (file_sizes (l ∷ ls))));
    links = map (pb_link to_bytes) (l ∷ ls);
    content = [];
    blocksizes = file_sizes (l ∷ ls);
    metadata = no_metadata;
    file_size = sum64 0 (file_sizes (l ∷ ls));
  }

  from_parsed-block_of :
      (l : Link Cid) (ls : List (Link Cid))
      → from_parsed (block_of to_bytes (l ∷ ls)) ≡ returned (ok (linked_reader l ls))
  unfolding from_parsed from_parts ending_of is_file_or_raw metadata_of
  from_parsed-block_of l ls =
      let z = length-file_sizes (l ∷ ls) in
      elim (Bool-cases (nat_beq (sum64 0 (file_sizes (l ∷ ls))) 0)) [
        | inl e ↦ rw (from_parsed, from_parts, z, e) refl
        | inr e ↦ rw (from_parsed, from_parts, z, e) refl
      ]

  -- To go down one level of a file: a block of links that the file adder writes, visited for a range or
  -- for the whole file, gives no bytes yet and the sum of the sizes of the links, and what is left to
  -- visit are, the first one last, the links whose part of the file touches the range, so that neither
  -- of the two ends before the other starts; the visit is over where there are none.
  pub start_from_parsed-block_of :
      (l : Link Cid) (ls : List (Link Cid)) (target : Option Range)
      → start_from_parsed parse try_cid target (block_of to_bytes (l ∷ ls))
        ≡ returned (
            ok (
              [],
              sum64 0 (file_sizes (l ∷ ls)),
              record { mode = none; mtime = none },
              if is_empty (asked_for target (covers 0 (l ∷ ls)))
                  then none
                  else some (record {
                    pending = reverse (asked_for target (covers 0 (l ∷ ls)));
                    target = target;
                    state = record {
                      last_ending = tree_coverage (add64 0 (sum64 0 (file_sizes (l ∷ ls))));
                      last_offset = 0;
                      traversed_size = sum64 0 (file_sizes (l ∷ ls));
                      traversed_metadata = record { mode = none; mtime = none };
                    };
                  }),
            ))
  unfolding start_from_parsed start_from_reader content_of_reader
  start_from_parsed-block_of l ls target =
      rw
        (
          start_from_parsed,
          from_parsed-block_of l ls,
          start_from_reader,
          pending_of-covers 0 0 target (l ∷ ls),
        )
        refl
