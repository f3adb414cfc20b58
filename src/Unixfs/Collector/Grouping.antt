-- ===== src/Unixfs/Collector/Grouping.antt =====
-- One level of links, cut into groups of the branching factor with one block for each.
use mathlib.Core.List.{append_assoc, append-nil}
use rust_ipfs.Base.{
  ℕ, zero, suc, ◌+◌, ◌-◌, ◌≤◌, ◌<◌, false, ◌≡◌, refl, ap, ◌∙◌, inl, inr, none, some, List, [], ◌∷◌,
  ◌++◌, map, arith, All, length, length-append, length-take, length-drop, nat_eq, list_eq, nat_beq,
  le_cases, take, drop, set_at, set_at_append, drop-length-append, take_all, take-append-drop,
}
use Prim.Native.Nat.{min}
use rust_ipfs.Base.Outcome.{returned}
use rust_ipfs.Unixfs.Nodes.{Bytes, PbLink, FlatUnixFs, add64, wrap64}
use rust_ipfs.Unixfs.Collector.{
  Link, BalancedCollector, Parts, no_parts, unixfs_file, position, Level, overwrite_index,
  partition_link, partition_links, flush_block,
}

abbrev pub sum64 : ℕ → List ℕ → ℕ
sum64 acc [] = acc
sum64 acc (n ∷ ns) = sum64 (add64 acc n) ns

module _ {Cid : Type 0} where
  abbrev pub file_sizes : List (Link Cid) → List ℕ
  file_sizes = map (λ l. l.file_size)

  abbrev pub IsAt : ℕ → List (Link Cid) → Type 0
  IsAt level = All (λ l. l.depth ≡ level)

  -- No link of this depth.
  abbrev pub IsPast : ℕ → List (Link Cid) → Type 0
  IsPast level = All (λ l. nat_beq l.depth level ≡ false)

  pub position-append :
      (level : ℕ) (skip rest : List (Link Cid)) (l : Link Cid)
      → IsPast level skip
      → l.depth ≡ level
      → position level (skip ++ l ∷ rest) ≡ some (length skip)
  unfolding position
  position-append level [] rest l h k = ground (arith, k)
  position-append level (x ∷ skip) rest l h k =
      ground (arith, h, position-append level skip rest l h.1 k)

  pub position_first :
      (level : ℕ) (ls : List (Link Cid))
      → 1 ≤ length ls
      → IsAt level ls
      → position level ls ≡ some 0
  position_first level [] h k = ground (arith, h)
  position_first level (l ∷ ls) h k = position-append level [] ls l tt k.0

  pub position-none :
      (level : ℕ) (ls : List (Link Cid)) → IsPast level ls → position level ls ≡ none
  unfolding position
  position-none level [] h = refl
  position-none level (x ∷ ls) h = ground (arith, h, position-none level ls h.1)

  pub IsAt-IsPast : (ls : List (Link Cid)) → IsAt 1 ls → IsPast 0 ls
  IsAt-IsPast [] h = tt
  IsAt-IsPast (l ∷ ls) h = (ground (arith, h.0), IsAt-IsPast ls h.1)

  pub IsAt-append :
      (level : ℕ) (xs ys : List (Link Cid)) → IsAt level xs → IsAt level ys → IsAt level (xs ++ ys)
  IsAt-append level [] ys h k = k
  IsAt-append level (x ∷ xs) ys h k = (h.0, IsAt-append level xs ys h.1 k)

  pub IsAt-take : (level n : ℕ) (ls : List (Link Cid)) → IsAt level ls → IsAt level (take n ls)
  IsAt-take level zero ls h = tt
  IsAt-take level (suc n) [] h = tt
  IsAt-take level (suc n) (x ∷ ls) h = (h.0, IsAt-take level n ls h.1)

  pub IsAt-drop : (level n : ℕ) (ls : List (Link Cid)) → IsAt level ls → IsAt level (drop n ls)
  IsAt-drop level zero ls h = h
  IsAt-drop level (suc n) [] h = tt
  IsAt-drop level (suc n) (x ∷ ls) h = IsAt-drop level n ls h.1

  -- The groups of a level, at most so many.
  abbrev pub groups : ℕ → ℕ → List (Link Cid) → List (List (Link Cid))
  groups zero size ls = []
  groups (suc n) size [] = []
  groups (suc n) size (l ∷ ls) = take size (l ∷ ls) ∷ groups n size (drop size (l ∷ ls))

  -- A state of the loop after a block: the link to it stands before links that are done with.
  abbrev pub after_block :
      List (Link Cid)
      → Link Cid
      → List (Link Cid)
      → List (Link Cid)
      → List (Cid × Bytes)
      → Level Cid
  after_block before new junk rest ret = record {
    pending = (before ++ new ∷ junk) ++ rest;
    ret = ret;
    starting_point = length (before ++ new ∷ junk);
    last_overwrite = some (length before);
  }

  pub length-groups-le :
      (n size : ℕ) (ls : List (Link Cid)) → 1 ≤ size → length (groups n size ls) ≤ length ls
  length-groups-le zero size ls h = omega arith
  length-groups-le (suc n) size [] h = omega arith
  length-groups-le (suc n) size (l ∷ ls) h =
      omega (arith, length-groups-le n size (drop size (l ∷ ls)) h, length-drop size (l ∷ ls), h)

  pub length-groups-pos :
      (n size : ℕ) (ls : List (Link Cid)) → 1 ≤ n → 1 ≤ length ls → 1 ≤ length (groups n size ls)
  length-groups-pos zero size ls h k = ground (arith, h)
  length-groups-pos (suc n) size [] h k = ground (arith, k)
  length-groups-pos (suc n) size (l ∷ ls) h k = omega arith

  -- Two or more links make fewer groups than there are links.
  pub length-groups-lt :
      (n size : ℕ) (ls : List (Link Cid))
      → 2 ≤ size
      → 2 ≤ length ls
      → length (groups n size ls) < length ls
  length-groups-lt zero size ls h k = omega (arith, k)
  length-groups-lt (suc n) size [] h k = ground (arith, k)
  length-groups-lt (suc n) size (l ∷ ls) h k = omega (
    arith,
    length-groups-le n size (drop size (l ∷ ls)) (omega (arith, h)),
    length-drop size (l ∷ ls),
    h,
    k,
  )

  drop_first :
      (size : ℕ) (mid ls : List (Link Cid))
      → 1 ≤ size
      → 1 ≤ length ls
      → drop 1 (mid ++ take size ls) ++ drop size ls ≡ drop 1 (mid ++ ls)
  drop_first zero mid ls h k = ground (arith, h)
  drop_first (suc n) [] [] h k = ground (arith, k)
  drop_first (suc n) [] (l ∷ ls) h k = take-append-drop n ls
  drop_first (suc n) (m ∷ mid) ls h k =
      append_assoc mid (take (suc n) ls) (drop (suc n) ls)
      ∙ ap (mid ++◌) (take-append-drop (suc n) ls)

  take_end :
      (size first len : ℕ) (ls : List (Link Cid))
      → len ≡ first + length ls
      → take (min (first + size) len - first) ls ≡ take size ls
  take_end size first len ls h = elim (le_cases size (length ls)) [
    | inl le ↦
        let same : min (first + size) len - first ≡ size = omega (arith, h, le) in rw same refl
    | inr lt ↦
        let same : min (first + size) len - first ≡ length ls = omega (arith, h, lt) in
        rw (same, take_all (length ls) ls (omega arith), take_all size ls (omega (arith, lt))) refl
  ]

module _ {Cid : Type 0} (to_bytes : Cid → Bytes) where
  abbrev pub pb_link : Link Cid → PbLink
  pb_link l = record { hash = some (to_bytes l.target); name = some []; tsize = some l.total_size }

  abbrev pub parts_of : List (Link Cid) → Parts → Parts
  parts_of ls p = record {
    links = p.links ++ map pb_link ls;
    blocksizes = p.blocksizes ++ file_sizes ls;
    nested_size = sum64 p.nested_size (file_sizes ls);
    nested_total_size = sum64 p.nested_total_size (map (λ l. l.total_size) ls);
  }

  parts_of_cons :
      (l : Link Cid) (ls : List (Link Cid)) (p : Parts)
      → parts_of ls (partition_link to_bytes l p) ≡ parts_of (l ∷ ls) p
  unfolding partition_link
  parts_of_cons l ls p =
      rw
        (
          append_assoc p.links (pb_link l ∷ []) (map pb_link ls),
          append_assoc p.blocksizes (l.file_size ∷ []) (file_sizes ls),
        )
        refl

  pub partition_links_lem :
      (level : ℕ) (ls : List (Link Cid)) (p : Parts)
      → IsAt level ls
      → partition_links to_bytes level ls p ≡ some (parts_of ls p)
  unfolding partition_links
  partition_links_lem level [] p h = ground (arith, append-nil p.links, append-nil p.blocksizes)
  partition_links_lem level (l ∷ ls) p h = ground (
    arith,
    h,
    partition_links_lem level ls (partition_link to_bytes l p) h.1,
    parts_of_cons l ls p,
  )

  -- The message of a block of links.
  abbrev pub block_of : List (Link Cid) → FlatUnixFs
  block_of ls = record {
    links = map pb_link ls;
    unixfs = unixfs_file none (sum64 0 (file_sizes ls)) (file_sizes ls);
  }

module _ {Cid : Type 0} (to_bytes : Cid → Bytes) (render_and_hash : FlatUnixFs → Cid × Bytes) where
  -- The link to it.
  abbrev pub link_to : ℕ → List (Link Cid) → Link Cid
  link_to level ls = record {
    depth = level + 1;
    target = (render_and_hash (block_of to_bytes ls)).0;
    total_size =
        add64 (sum64 0 (map (λ l. l.total_size) ls))
          (wrap64 (length (render_and_hash (block_of to_bytes ls)).1));
    file_size = sum64 0 (file_sizes ls);
  }

  overwritten :
      (size : ℕ) (before mid ls : List (Link Cid)) (new : Link Cid)
      → 1 ≤ size
      → 1 ≤ length ls
      → set_at (length before) new ((before ++ mid) ++ ls)
        ≡ (before ++ new ∷ drop 1 (mid ++ take size ls)) ++ drop size ls
  overwritten size before mid ls new h k =
      rw
        (
          append_assoc before mid ls,
          set_at_append before (mid ++ ls) new (omega (arith, length-append mid ls, k)),
          append_assoc before (new ∷ drop 1 (mid ++ take size ls)) (drop size ls),
          drop_first size mid ls h k,
        )
        refl

  reached :
      (size : ℕ) (before mid ls : List (Link Cid)) (new : Link Cid)
      → 1 ≤ size
      → 1 ≤ length ls
      → min (length (before ++ mid) + size) (length ((before ++ mid) ++ ls))
        ≡ length (before ++ new ∷ drop 1 (mid ++ take size ls))
  reached size before mid ls new h k = omega (
    arith,
    h,
    k,
    length-append before mid,
    length-append (before ++ mid) ls,
    length-append before (new ∷ drop 1 (mid ++ take size ls)),
    length-drop 1 (mid ++ take size ls),
    length-append mid (take size ls),
    length-take size ls,
  )

  pub flush_block_lem :
      (bc : BalancedCollector) (level : ℕ) (before mid ls : List (Link Cid)) (s : Level Cid)
      → 1 ≤ bc.branching_factor
      → 1 ≤ length ls
      → IsAt level ls
      → s.pending ≡ (before ++ mid) ++ ls
      → overwrite_index s.last_overwrite (length (before ++ mid)) ≡ length before
      → flush_block to_bytes render_and_hash bc level (length (before ++ mid)) s
        ≡ returned (
            after_block before
              (link_to level (take bc.branching_factor ls))
              (drop 1 (mid ++ take bc.branching_factor ls))
              (drop bc.branching_factor ls)
              (s.ret ++ render_and_hash (block_of to_bytes (take bc.branching_factor ls)) ∷ []))
  unfolding flush_block no_parts
  flush_block_lem bc level before mid ls s pos some_ at eq index =
      rw
        (
          eq,
          flush_block,
          drop-length-append (before ++ mid) ls,
          take_end bc.branching_factor (length (before ++ mid)) (length ((before ++ mid) ++ ls)) ls
              (length-append (before ++ mid) ls),
          partition_links_lem to_bytes level (take bc.branching_factor ls) no_parts
              (IsAt-take level bc.branching_factor ls at),
          index,
          eq,
          overwritten bc.branching_factor before mid ls
              (link_to level (take bc.branching_factor ls)) pos some_,
          reached bc.branching_factor before mid ls (link_to level (take bc.branching_factor ls))
              pos some_,
        )
        refl
