-- ===== src/Unixfs/Collector/Rooted.antt =====
-- The one link that is left at the end of a file: it is to the block written last, and reads as the
-- whole file.
use rust_ipfs.Base.{
  ℕ, zero, suc, ◌+◌, ◌≤◌, ◌<◌, false, ◌≡◌, refl, sym, ap, ◌∙◌, inl, inr, List, [], ◌∷◌, ◌++◌, arith,
  length, length-append, nat_eq, list_eq, nat_beq, Bool-cases,
}
use rust_ipfs.Unixfs.Nodes.{Bytes, FlatUnixFs}
use rust_ipfs.Unixfs.Collector.{Link}
use rust_ipfs.Unixfs.Collector.Grouping.{
  groups, length-groups-le, length-groups-lt, length-groups-pos,
}
use rust_ipfs.Unixfs.Collector.Levels.{new_links, new_blocks}
use rust_ipfs.Unixfs.Collector.Finishing.{rooted, length-new_links, finished}
use rust_ipfs.Unixfs.Collector.Content.{
  read_flat, after, IsStored, IsLast, after-append, IsStored-after, IsStored-append, IsWritten,
  IsWritten-append, content_of, IsSized, content_of-append, IsSized-append, groups_lem,
}

module _ {Cid : Type 0} (to_bytes : Cid → Bytes) (render_and_hash : FlatUnixFs → Cid × Bytes)
    (reads : Bytes → Bytes)
    (reads_block : (f : FlatUnixFs)
      → reads (to_bytes (render_and_hash f).0) ≡ read_flat reads f) where
  abbrev links_of : ℕ → List (List (Link Cid)) → List (Link Cid)
  links_of = new_links to_bytes render_and_hash

  abbrev blocks_of : List (List (Link Cid)) → List (Cid × Bytes)
  blocks_of = new_blocks to_bytes render_and_hash

  abbrev content : List (Link Cid) → Bytes
  content = content_of to_bytes render_and_hash reads reads_block

  abbrev pub IsFit : List Bytes → List (Link Cid) → Type 0
  IsFit e ls = IsSized to_bytes render_and_hash reads reads_block ls × IsStored to_bytes e ls

  -- From links with these bytes, one link with them, after well written blocks of which the last one
  -- is its target.
  abbrev pub IsRooted : ℕ → List Bytes → Bytes → List (Link Cid) → List (Cid × Bytes) → Type 0
  IsRooted size e bytes root blocks =
      (length root ≡ 1)
      × (content root ≡ bytes)
      × IsFit (after to_bytes e blocks) root
      × IsWritten to_bytes render_and_hash size e blocks
      × IsLast to_bytes (after to_bytes e blocks) root

  IsLast-groups :
      (level : ℕ) (e : List Bytes) (gs : List (List (Link Cid)))
      → IsLast to_bytes (after to_bytes e (blocks_of gs)) (links_of level gs)
  IsLast-groups level e [] = tt
  IsLast-groups level e (g ∷ []) = refl
  IsLast-groups level e (g ∷ h ∷ gs) = tt

  pub IsRooted-append :
      (size : ℕ) (e : List Bytes) (bytes : Bytes) (root : List (Link Cid))
      (cs bs : List (Cid × Bytes))
      → IsWritten to_bytes render_and_hash size e cs
      → IsRooted size (after to_bytes e cs) bytes root bs
      → IsRooted size e bytes root (cs ++ bs)
  IsRooted-append size e bytes root cs bs h k =
      rw (after-append to_bytes e cs bs)
        (k.0, k.1, k.2, IsWritten-append to_bytes render_and_hash size e cs bs h k.3, k.4)

  rooted_lem :
      (n size level : ℕ) (e : List Bytes) (ls : List (Link Cid))
      → 2 ≤ size
      → 1 ≤ length ls
      → length ls ≤ n
      → IsFit e ls
      → IsLast to_bytes e ls
      → IsRooted size e
          (content ls)
          (rooted to_bytes render_and_hash n size level ls).0
          (rooted to_bytes render_and_hash n size level ls).1
  rooted_lem zero size level e ls two some_ enough fit last = ground (arith, some_, enough)
  rooted_lem (suc n) size level e [] two some_ enough fit last = ground (arith, some_)
  rooted_lem (suc n) size level e (l ∷ []) two some_ enough fit last = (refl, refl, fit, tt, last)
  rooted_lem (suc n) size level e (l ∷ k ∷ ls) two some_ enough fit last =
      let links = l ∷ k ∷ ls in
      let gs = groups (length links + 1) size links in
      let e' = after to_bytes e (blocks_of gs) in
      let step =
        groups_lem to_bytes render_and_hash reads reads_block (length links + 1) size level e links
          (omega (arith, two)) (omega arith) fit.0 fit.1 in
      let fewer : length (links_of level gs) < length links = omega (
        arith,
        length-new_links to_bytes render_and_hash level gs,
        length-groups-lt (length links + 1) size links two (omega arith),
      ) in
      let any : 1 ≤ length (links_of level gs) = omega (
        arith,
        length-new_links to_bytes render_and_hash level gs,
        length-groups-pos (length links + 1) size links (omega arith) (omega arith),
      ) in
      let more : nat_beq (length links) 1 ≡ false = ground arith in
      let ih =
        rooted_lem n size (suc level) e' (links_of level gs) two any (omega (arith, enough, fewer))
          (step.1, step.2) (IsLast-groups level e gs) in
      rw more (
        IsRooted-append size e (content links)
          (rooted to_bytes render_and_hash n size (suc level) (links_of level gs)).0 (blocks_of gs)
          (rooted to_bytes render_and_hash n size (suc level) (links_of level gs)).1 step.3
          (rw (sym step.0) ih))

  pub IsLast-two : (e : List Bytes) (ls : List (Link Cid)) → 2 ≤ length ls → IsLast to_bytes e ls
  IsLast-two e [] h = ground (arith, h)
  IsLast-two e (l ∷ []) h = ground (arith, h)
  IsLast-two e (l ∷ k ∷ ls) h = tt

  IsLast-append_groups :
      (level : ℕ) (e : List Bytes) (above : List (Link Cid)) (gs : List (List (Link Cid)))
      → 1 ≤ length gs
      → IsLast to_bytes (after to_bytes e (blocks_of gs)) (above ++ links_of level gs)
  IsLast-append_groups level e [] gs h = IsLast-groups level e gs
  IsLast-append_groups level e (a ∷ above) gs h =
      IsLast-two (after to_bytes e (blocks_of gs)) (a ∷ above ++ links_of level gs) (
        omega (
          arith,
          h,
          length-new_links to_bytes render_and_hash level gs,
          length-append above (links_of level gs),
        ))

  pub IsFit-append :
      (e : List Bytes) (xs ys : List (Link Cid)) → IsFit e xs → IsFit e ys → IsFit e (xs ++ ys)
  IsFit-append e xs ys h k = (
    IsSized-append to_bytes render_and_hash reads reads_block xs ys h.0 k.0,
    IsStored-append to_bytes e xs ys h.1 k.1,
  )

  pub IsFit-after :
      (e : List Bytes) (bs : List (Cid × Bytes)) (xs : List (Link Cid))
      → IsFit e xs
      → IsFit (after to_bytes e bs) xs
  IsFit-after e bs xs h = (h.0, IsStored-after to_bytes e bs xs h.1)

  -- The end of a file, whose links are of the second level, then leaves.
  pub finished_lem :
      (size : ℕ) (e : List Bytes) (above leaves : List (Link Cid))
      → 2 ≤ size
      → 1 ≤ length leaves
      → IsFit e above
      → IsFit e leaves
      → IsLast to_bytes e (above ++ leaves)
      → IsRooted size e
          (content (above ++ leaves))
          (finished to_bytes render_and_hash size above leaves).0
          (finished to_bytes render_and_hash size above leaves).1
  finished_lem size e above leaves two some_ fit_above fit last =
      let n = length (above ++ leaves) + 1 in
      let gs = groups n size leaves in
      let e' = after to_bytes e (blocks_of gs) in
      let next = above ++ links_of 0 gs in
      let count = length-append above leaves in
      let step =
        groups_lem to_bytes render_and_hash reads reads_block n size 0 e leaves (omega (arith, two))
          (omega (arith, count)) fit.0 fit.1 in
      let grew = length-append above (links_of 0 gs) in
      let same = length-new_links to_bytes render_and_hash 0 gs in
      let any = length-groups-pos n size leaves (omega arith) some_ in
      let fewer = length-groups-le n size leaves (omega (arith, two)) in
      let whole : content next ≡ content (above ++ leaves) =
        content_of-append to_bytes render_and_hash reads reads_block above (links_of 0 gs)
        ∙ ap (content above ++◌) step.0
        ∙ sym (content_of-append to_bytes render_and_hash reads reads_block above leaves) in
      let rest =
        rooted_lem n size 1 e' next two (omega (arith, grew, same, any))
          (omega (arith, grew, same, fewer, count))
          (IsFit-append e' above (links_of 0 gs) (IsFit-after e (blocks_of gs) above fit_above)
            (step.1, step.2))
          (IsLast-append_groups 0 e above gs any) in
      elim (Bool-cases (nat_beq (length (above ++ leaves)) 1)) [
        | inl one ↦
            rw one (ground (arith, one), refl, IsFit-append e above leaves fit_above fit, tt, last)
        | inr more ↦ rw more (
            IsRooted-append size e (content (above ++ leaves))
              (rooted to_bytes render_and_hash n size 1 next).0 (blocks_of gs)
              (rooted to_bytes render_and_hash n size 1 next).1 step.3 (rw (sym whole) rest))
      ]
