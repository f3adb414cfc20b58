-- ===== src/Unixfs/Adder/Growing.antt =====
-- The links of a file that grows: some of the second level, then leaves.
use mathlib.Core.List.{append_assoc, append-nil}
use rust_ipfs.Base.{
  ℕ, zero, suc, ◌≤◌, ◌≡◌, refl, sym, ap, ◌∙◌, inl, List, [], ◌∷◌, ◌++◌, arith, length,
  length-append, nat_eq, list_eq, take, drop, take-append-drop,
}
use rust_ipfs.Unixfs.Nodes.{Bytes, FlatUnixFs}
use rust_ipfs.Unixfs.Collector.{Link}
use rust_ipfs.Unixfs.Collector.Grouping.{IsAt, block_of, link_to}
use rust_ipfs.Unixfs.Collector.Content.{
  read_flat, after, IsLast, content_of, content_of-append, content_of-link_to, link_to-IsSized,
  IsSized-take, IsSized-drop, IsStored-take, IsStored-drop,
}
use rust_ipfs.Unixfs.Collector.Rooted.{IsFit, IsLast-two}

module _ {Cid : Type 0} (to_bytes : Cid → Bytes) (render_and_hash : FlatUnixFs → Cid × Bytes)
    (reads : Bytes → Bytes)
    (reads_block : (f : FlatUnixFs)
      → reads (to_bytes (render_and_hash f).0) ≡ read_flat reads f) where
  abbrev content : List (Link Cid) → Bytes
  content = content_of to_bytes render_and_hash reads reads_block

  abbrev IsFitHere : List Bytes → List (Link Cid) → Type 0
  IsFitHere = IsFit to_bytes render_and_hash reads reads_block

  pub record IsGrowing (size : ℕ) (e : List Bytes) (bytes : Bytes) (ls : List (Link Cid))
      : Type 0 where
    pub above : List (Link Cid)
    pub leaves : List (Link Cid)
    pub split : ls ≡ above ++ leaves
    pub above-IsAt : IsAt 1 above
    pub leaves-IsAt : IsAt 0 leaves
    pub few : length leaves ≤ size
    pub none_above : length leaves ≡ 0 → length above ≡ 0
    pub above-IsFit : IsFitHere e above
    pub leaves-IsFit : IsFitHere e leaves
    pub reads_back : content (above ++ leaves) ≡ bytes
    pub is_last : IsLast to_bytes e (above ++ leaves)

  pub content_last :
      (above leaves : List (Link Cid)) (leaf : Link Cid) (bytes : Bytes)
      → content (above ++ leaves) ≡ bytes
      → content (above ++ (leaves ++ leaf ∷ [])) ≡ bytes ++ reads (to_bytes leaf.target)
  content_last above leaves leaf bytes h =
      rw
        (
          ← append_assoc above leaves (leaf ∷ []),
          content_of-append to_bytes render_and_hash reads reads_block (above ++ leaves)
              (leaf ∷ []),
          h,
          append-nil (reads (to_bytes leaf.target)),
        )
        refl

  pub IsFit-take :
      (n : ℕ) (e : List Bytes) (ls : List (Link Cid)) → IsFitHere e ls → IsFitHere e (take n ls)
  IsFit-take n e ls h = (
    IsSized-take to_bytes render_and_hash reads reads_block n ls h.0,
    IsStored-take to_bytes n e ls h.1,
  )

  pub IsFit-drop :
      (n : ℕ) (e : List Bytes) (ls : List (Link Cid)) → IsFitHere e ls → IsFitHere e (drop n ls)
  IsFit-drop n e ls h = (
    IsSized-drop to_bytes render_and_hash reads reads_block n ls h.0,
    IsStored-drop to_bytes n e ls h.1,
  )

  pub content_linked :
      (size : ℕ) (above leaves : List (Link Cid))
      → 1 ≤ size
      → 1 ≤ length leaves
      → content (
          (above ++ link_to to_bytes render_and_hash 0 (take size leaves) ∷ []) ++ drop size leaves)
        ≡ content (above ++ leaves)
  content_linked zero above leaves pos some_ = ground (arith, pos)
  content_linked (suc m) above [] pos some_ = ground (arith, some_)
  content_linked (suc m) above (l ∷ leaves) pos some_ =
      let of = content_of-append to_bytes render_and_hash reads reads_block in
      let new = link_to to_bytes render_and_hash 0 (l ∷ take m leaves) in
      let read : content (new ∷ drop m leaves) ≡ content (l ∷ leaves) =
        ap (◌++ content (drop m leaves))
          (content_of-link_to to_bytes render_and_hash reads reads_block 0 l (take m leaves))
        ∙ append_assoc (reads (to_bytes l.target)) (content (take m leaves))
            (content (drop m leaves))
        ∙ ap (reads (to_bytes l.target) ++◌)
            (sym (of (take m leaves) (drop m leaves)) ∙ ap content (take-append-drop m leaves)) in
      rw
        (
          append_assoc above (new ∷ []) (drop m leaves),
          of above (new ∷ drop m leaves),
          read,
          of above (l ∷ leaves),
        )
        refl

  pub new_link-IsFit :
      (size : ℕ) (e : List Bytes) (leaves : List (Link Cid))
      → 1 ≤ size
      → 1 ≤ length leaves
      → IsFitHere e leaves
      → IsFitHere
          (after to_bytes e (render_and_hash (block_of to_bytes (take size leaves)) ∷ []))
          (link_to to_bytes render_and_hash 0 (take size leaves) ∷ [])
  new_link-IsFit zero e leaves pos some_ fit = ground (arith, pos)
  new_link-IsFit (suc m) e [] pos some_ fit = ground (arith, some_)
  new_link-IsFit (suc m) e (l ∷ leaves) pos some_ fit = (
    link_to-IsSized to_bytes render_and_hash reads reads_block 0 l (take m leaves)
        (IsFit-take (suc m) e (l ∷ leaves) fit).0,
    (inl refl, tt),
  )

  pub leaf-IsLast :
      (e : List Bytes) (above leaves : List (Link Cid)) (leaf : Link Cid)
      → IsLast to_bytes (to_bytes leaf.target ∷ e) (above ++ (leaves ++ leaf ∷ []))
  leaf-IsLast e [] [] leaf = refl
  leaf-IsLast e [] (l ∷ leaves) leaf =
      IsLast-two to_bytes render_and_hash reads reads_block (to_bytes leaf.target ∷ e)
        (l ∷ leaves ++ leaf ∷ []) (omega (arith, length-append leaves (leaf ∷ [])))
  leaf-IsLast e (a ∷ above) leaves leaf =
      IsLast-two to_bytes render_and_hash reads reads_block (to_bytes leaf.target ∷ e)
        (a ∷ above ++ (leaves ++ leaf ∷ []))
        (omega (arith, length-append above (leaves ++ leaf ∷ []), length-append leaves (leaf ∷ [])))
