-- ===== src/Unixfs/Collector/Levels.antt =====
-- The loop over the links of one level, against the groups of that level.
use mathlib.Core.List.{append_assoc, append-nil}
use rust_ipfs.Base.{
  ℕ, zero, suc, ◌+◌, ◌≤◌, ◌<◌, Bool, true, false, not, ◌&&◌, ◌≡◌, refl, ◌⊎◌, inl, none, some, List,
  [], ◌∷◌, ◌++◌, map, arith, length, length-append, length-drop, leb, nat_eq, list_eq, take, drop,
  drop-length-append, take_last,
}
use rust_ipfs.Base.Outcome.{returned, and_then}
use rust_ipfs.Unixfs.Nodes.{Bytes, FlatUnixFs}
use rust_ipfs.Unixfs.Collector.{
  Link, BalancedCollector, position, Level, truncate_level, drain_level, overwrite_index,
  flush_block, flush_level, start_level, close_level,
}
use rust_ipfs.Unixfs.Collector.Grouping.{
  IsAt, IsPast, position-append, position-none, IsAt-drop, block_of, link_to, groups, after_block,
  flush_block_lem,
}

module _ {Cid : Type 0} (to_bytes : Cid → Bytes) (render_and_hash : FlatUnixFs → Cid × Bytes) where
  abbrev pub new_links : ℕ → List (List (Link Cid)) → List (Link Cid)
  new_links level = map (link_to to_bytes render_and_hash level)

  abbrev pub new_blocks : List (List (Link Cid)) → List (Cid × Bytes)
  new_blocks = map (λ ls. render_and_hash (block_of to_bytes ls))

  abbrev first_group : ℕ → ℕ → List (Link Cid) → Link Cid
  first_group level size ls = link_to to_bytes render_and_hash level (take size ls)

  pub level_none :
      (n : ℕ) (bc : BalancedCollector) (finishing : Bool) (level : ℕ) (s : Level Cid)
      → position level (drop s.starting_point s.pending) ≡ none
      → flush_level to_bytes render_and_hash (suc n) bc finishing level s ≡ returned (false, s)
  unfolding flush_level
  level_none n bc finishing level s h = rw (flush_level, h) refl

  pub level_stop :
      (n : ℕ) (bc : BalancedCollector) (level i : ℕ) (s : Level Cid)
      → position level (drop s.starting_point s.pending) ≡ some i
      → length (drop (i + s.starting_point) s.pending) ≤ bc.branching_factor
      → flush_level to_bytes render_and_hash (suc n) bc false level s
        ≡ returned (
          true,
          record s { pending = drain_level s.last_overwrite (i + s.starting_point) s.pending },
        )
  unfolding flush_level
  level_stop n bc level i s h k =
      let few : leb (length (drop (i + s.starting_point) s.pending)) bc.branching_factor ≡ true =
        ground (arith, k) in
      rw (flush_level, h, few) refl

  pub level_some :
      (n : ℕ) (bc : BalancedCollector) (finishing : Bool) (level i : ℕ) (s : Level Cid)
      → position level (drop s.starting_point s.pending) ≡ some i
      → (finishing ≡ true) ⊎ (bc.branching_factor < length (drop (i + s.starting_point) s.pending))
      → flush_level to_bytes render_and_hash (suc n) bc finishing level s
        ≡ and_then
            (flush_block to_bytes render_and_hash bc level (i + s.starting_point) s)
            (λ s'. flush_level to_bytes render_and_hash n bc finishing level s')
  unfolding flush_level
  level_some n bc finishing level i s h k =
      let go : (not finishing
            && leb (length (drop (i + s.starting_point) s.pending)) bc.branching_factor)
          ≡ false =
        ground (arith, k) in
      rw (flush_level, h, go) refl

  level_rest :
      (n : ℕ) (bc : BalancedCollector) (level : ℕ) (before junk rest : List (Link Cid))
      (new : Link Cid) (ret : List (Cid × Bytes))
      → 1 ≤ bc.branching_factor
      → length rest < n
      → IsAt level rest
      → close_level (
          flush_level to_bytes render_and_hash n bc true level
            (after_block before new junk rest ret))
        ≡ returned (
          false,
          before ++ new ∷ new_links level (groups n bc.branching_factor rest),
          ret ++ new_blocks (groups n bc.branching_factor rest),
        )
  unfolding truncate_level overwrite_index
  level_rest zero bc level before junk rest new ret pos enough at = ground (arith, enough)
  level_rest (suc n) bc level before junk [] new ret pos enough at =
      rw
        (
          level_none n bc true level (after_block before new junk [] ret)
              (rw (drop-length-append (before ++ new ∷ junk) []) (position-none level [] tt)),
          append-nil (before ++ new ∷ junk),
          truncate_level,
          take_last before junk new,
          append-nil ret,
        )
        refl
  level_rest (suc n) bc level before junk (l ∷ rest) new ret pos enough at =
      let size = bc.branching_factor in
      let shift : (before ++ new ∷ []) ++ junk ≡ before ++ new ∷ junk =
        append_assoc before (new ∷ []) junk in
      let s = after_block before new junk (l ∷ rest) ret in
      let block =
        flush_block_lem to_bytes render_and_hash bc level (before ++ new ∷ []) junk (l ∷ rest) s pos
          (omega arith) at (rw shift refl) (omega (arith, length-append before (new ∷ []))) in
      let ih =
        level_rest n bc level (before ++ new ∷ []) (drop 1 (junk ++ take size (l ∷ rest)))
          (drop size (l ∷ rest)) (first_group level size (l ∷ rest))
          (ret ++ render_and_hash (block_of to_bytes (take size (l ∷ rest))) ∷ []) pos
          (omega (arith, enough, length-drop size (l ∷ rest), pos))
          (IsAt-drop level size (l ∷ rest) at) in
      let here : position level (drop s.starting_point s.pending) ≡ some 0 =
        rw (drop-length-append (before ++ new ∷ junk) (l ∷ rest))
          (position-append level [] rest l tt at.0) in
      let first : 0 + s.starting_point ≡ length ((before ++ new ∷ []) ++ junk) =
        rw shift (omega arith) in
      rw
        (
          level_some n bc true level 0 s here (inl refl),
          first,
          block,
          ih,
          append_assoc before (new ∷ []) (
              first_group level size (l ∷ rest)
              ∷ new_links level (groups n size (drop size (l ∷ rest)))),
          append_assoc ret (render_and_hash (block_of to_bytes (take size (l ∷ rest))) ∷ [])
              (new_blocks (groups n size (drop size (l ∷ rest)))),
        )
        refl

  -- A level with links is replaced by links to its groups.
  pub level_groups :
      (n : ℕ) (bc : BalancedCollector) (level : ℕ) (before : List (Link Cid)) (l : Link Cid)
      (rest : List (Link Cid)) (ret : List (Cid × Bytes))
      → 1 ≤ bc.branching_factor
      → length (l ∷ rest) < n
      → IsPast level before
      → IsAt level (l ∷ rest)
      → close_level (
          flush_level to_bytes render_and_hash n bc true level
            (start_level (before ++ l ∷ rest) ret))
        ≡ returned (
          false,
          before ++ new_links level (groups n bc.branching_factor (l ∷ rest)),
          ret ++ new_blocks (groups n bc.branching_factor (l ∷ rest)),
        )
  unfolding overwrite_index
  level_groups zero bc level before l rest ret pos enough past at = ground (arith, enough)
  level_groups (suc n) bc level before l rest ret pos enough past at =
      let size = bc.branching_factor in
      let s = start_level (before ++ l ∷ rest) ret in
      let block =
        flush_block_lem to_bytes render_and_hash bc level before [] (l ∷ rest) s pos (omega arith)
          at (rw (append-nil before) refl) (rw (append-nil before) refl) in
      let ih =
        level_rest n bc level before (drop 1 (take size (l ∷ rest))) (drop size (l ∷ rest))
          (first_group level size (l ∷ rest))
          (ret ++ render_and_hash (block_of to_bytes (take size (l ∷ rest))) ∷ []) pos
          (omega (arith, enough, length-drop size (l ∷ rest), pos))
          (IsAt-drop level size (l ∷ rest) at) in
      let first : length before + 0 ≡ length (before ++ []) =
        rw (append-nil before) (omega arith) in
      rw
        (
          level_some n bc true level (length before) s
              (position-append level before rest l past at.0) (inl refl),
          first,
          block,
          ih,
          append_assoc ret (render_and_hash (block_of to_bytes (take size (l ∷ rest))) ∷ [])
              (new_blocks (groups n size (drop size (l ∷ rest)))),
        )
        refl
