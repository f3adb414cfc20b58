-- ===== src/Unixfs/Visit/Slicing.antt =====
-- The part of a block that a range asks for.
use Prim.Native.Nat.{min}
use rust_ipfs.Base.{
  ℕ, zero, suc, ◌+◌, ◌-◌, ◌≤◌, true, false, ◌||◌, ◌≡◌, refl, sym, ap, ◌∙◌, ◌⊎◌, inl, inr, Option,
  none, some, [], ◌∷◌, arith, length, ltb, nat_eq, list_eq, Bool-cases, le_cases, take, drop,
  take_all, drop_all, length-take,
}
use rust_ipfs.Base.Outcome.{returned}
use rust_ipfs.Unixfs.Nodes.{Bytes, FlatUnixFs, wrap64}
use rust_ipfs.Unixfs.Reader.{
  Range, ok, from_parsed, content_of_reader, from_parts, ending_of, is_file_or_raw, metadata_of,
}
use rust_ipfs.Unixfs.Visit.{
  in_target, slice, minus, slice_bounds, target_slice, maybe_target_slice, start_from_reader,
  start_from_parsed,
}
use rust_ipfs.Unixfs.Adder.Pushing.{leaf_of}

drop-take : (m n : ℕ) (xs : Bytes) → drop m (take (m + n) xs) ≡ take n (drop m xs)
drop-take zero n xs = let z : 0 + n ≡ n = omega arith in rw z refl
drop-take (suc m) n [] =
    let z : suc m + n ≡ suc (m + n) = omega arith in rw z (sym (take_all n [] (omega arith)))
drop-take (suc m) n (x ∷ xs) =
    let z : suc m + n ≡ suc (m + n) = omega arith in rw z (drop-take m n xs)

slice_lem :
    (content : Bytes) (from to : ℕ)
    → from ≤ to
    → to ≤ length content
    → slice content from to ≡ returned (drop from (take to content))
unfolding slice
slice_lem content from to h k =
    let fits : (ltb to from || ltb (length content) to) ≡ false = ground (arith, h, k) in
    let z : from + (to - from) ≡ to = omega (arith, h) in
    rw (slice, fits, ← drop-take from (to - from) content, z) refl

minus_lem : (a b : ℕ) → b ≤ a → minus a b ≡ returned (a - b)
unfolding minus
minus_lem a b h = let fits : ltb a b ≡ false = ground (arith, h) in rw fits refl

-- To take up to a place that is not in the content, or up to its end, is the same.
take_past :
    (content : Bytes) (m n : ℕ)
    → length content ≤ m
    → length content ≤ n
    → take m content ≡ take n content
take_past content m n h k = take_all m content h ∙ sym (take_all n content k)

reaches :
    (content : Bytes) (m n : ℕ)
    → (m ≡ n) ⊎ ((length content ≤ m) × (length content ≤ n))
    → take m content ≡ take n content
reaches content m n (inl h) = ap (λ k. take k content) h
reaches content m n (inr h) = take_past content m n h.0 h.1

-- Where the slice begins is what the range asked for is after the block, and it ends where the range
-- or the block does.
slice_bounds_lem :
    (block target : Range)
    → target.start ≤ target.end
    → in_target block target ≡ true
    → (to : ℕ) × (slice_bounds block target ≡ returned (target.start - block.start, to))
      × (to ≡ min target.end block.end - block.start)
unfolding slice_bounds in_target
slice_bounds_lem block target order inside =
    let last = min target.end block.end in
    let begins : block.start ≤ last = ground (arith, inside) in
    elim (le_cases block.start target.start) [
      | inr early ↦
          let is_early : ltb target.start block.start ≡ true = ground (arith, early) in
          let zero_ : target.start - block.start ≡ 0 = omega (arith, early) in
          (
            last - block.start,
            rw (slice_bounds, is_early, minus_lem last block.start begins, zero_) refl,
            refl,
          )
      | inl late ↦
          let is_late : ltb target.start block.start ≡ false = ground (arith, late) in
          elim (le_cases target.end block.end) [
            | inr past ↦
                let is_past : ltb block.end target.end ≡ true = ground (arith, past) in
                (
                  last - block.start,
                  rw
                      (
                        slice_bounds,
                        is_late,
                        is_past,
                        minus_lem target.start block.start late,
                        minus_lem last block.start begins,
                      )
                      refl,
                  refl,
                )
            | inl within ↦
                let is_within : ltb block.end target.end ≡ false = ground (arith, within) in
                let from = target.start - block.start in
                (
                  from + (target.end - target.start),
                  rw
                      (
                        slice_bounds,
                        is_late,
                        is_within,
                        minus_lem target.start block.start late,
                        minus_lem target.end target.start order,
                      )
                      refl,
                  omega (arith, late, within, order),
                )
          ]
    ]

-- For a block whose content is as long as its range, and any range that is asked for, the slice does
-- not panic and is what the content holds of the range asked for: what is before it is dropped, and
-- what is after it is not taken.
pub target_slice_lem :
    (content : Bytes) (block target : Range)
    → block.start + length content ≡ block.end
    → target.start ≤ target.end
    → target_slice content block target
      ≡ returned (drop (target.start - block.start) (take (target.end - block.start) content))
unfolding target_slice in_target
target_slice_lem content block target size order =
    let from = target.start - block.start in
    let to = target.end - block.start in
    elim (Bool-cases (in_target block target)) [
      | inr outside ↦
          let none_left : length (take to content) ≤ from =
            ground (arith, size, order, outside, length-take to content) in
          rw (target_slice, outside, drop_all from (take to content) none_left) refl
      | inl inside ↦
          let len = length content in
          let (to', bounds, same) = slice_bounds_lem block target order inside in
          let fits : (from ≤ to') × (to' ≤ len) = ground (arith, size, order, inside, same) in
          rw (target_slice, inside, bounds, slice_lem content from to' fits.0 fits.1)
            (ap (λ bs. returned (drop from bs))
              (reaches content to' to (ground (arith, size, same))))
    ]

whole_slice :
    (input : Bytes) (target : Range)
    → target.start ≤ target.end
    → target_slice input (record { start = 0; end = length input }) target
      ≡ returned (drop target.start (take target.end input))
whole_slice input target order =
    let z : target.start - 0 ≡ target.start = omega arith in
    let w : target.end - 0 ≡ target.end = omega arith in
    target_slice_lem input (record { start = 0; end = length input }) target (omega arith) order
    ∙ rw (z, w) refl

-- To read back a file of one block: the leaf that the file adder writes for some bytes, visited for a
-- range, gives those of its bytes that are in the range, their number, no metadata, and nothing that
-- is left to visit.
pub start_from_parsed-leaf_of :
    {Cid : Type 0} (parse : Bytes → Option FlatUnixFs) (try_cid : Bytes → Option Cid)
    (input : Bytes) (target : Range)
    → target.start ≤ target.end
    → start_from_parsed parse try_cid (some target) (leaf_of input)
      ≡ returned (
          ok (
            drop target.start (take target.end input),
            wrap64 (length input),
            record { mode = none; mtime = none },
            none,
          ))
unfolding start_from_parsed start_from_reader content_of_reader maybe_target_slice from_parsed
    from_parts ending_of is_file_or_raw metadata_of
start_from_parsed-leaf_of parse try_cid [] target order = rw (whole_slice [] target order) refl
start_from_parsed-leaf_of parse try_cid (b ∷ input) target order =
    rw (whole_slice (b ∷ input) target order) refl
