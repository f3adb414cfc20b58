-- ===== src/Unixfs/Collector/Content.antt =====
-- What the links and the blocks of a file stand for: the bytes, their number, and the blocks that
-- were written before.
use mathlib.Core.List.{append_assoc}
use rust_ipfs.Base.{
  ℕ, zero, suc, ◌+◌, ◌≤◌, ◌<◌, ◌≡◌, refl, sym, ap, ◌∙◌, ◌⊎◌, inl, inr, Option, none, some, List, [],
  ◌∷◌, ◌++◌, map, arith, if◌then◌else◌, All, length, length-append, length-drop, is_empty, nat_eq,
  list_eq, take, drop, take-append-drop,
}
use rust_ipfs.Unixfs.Nodes.{Bytes, PbLink, FlatUnixFs, add64, wrap64}
use rust_ipfs.Unixfs.Collector.{Link}
use rust_ipfs.Unixfs.Collector.Grouping.{sum64, file_sizes, pb_link, block_of, link_to, groups}
use rust_ipfs.Unixfs.Collector.Levels.{new_links, new_blocks}

-- What a reader of blocks makes of a message: the bytes of a leaf, or those of its links in turn.
abbrev pub read_links : (Bytes → Bytes) → List PbLink → Bytes
read_links reads [] = []
read_links reads (l ∷ ls) = elim l.hash [ none ↦ [] | some h ↦ reads h ] ++ read_links reads ls

abbrev pub read_flat : (Bytes → Bytes) → FlatUnixFs → Bytes
read_flat reads f =
    if is_empty f.links
    then elim f.unixfs.content [ none ↦ [] | some bytes ↦ bytes ]
    else read_links reads f.links

abbrev pub Among : {A : Type 0} → A → List A → Type 0
Among x [] = ⊥
Among x (y ∷ ys) = (x ≡ y) ⊎ Among x ys

abbrev pub head? {ℓ} : {A : Type ℓ} → List A → Option A
head? [] = none
head? (x ∷ xs) = some x

module _ {Cid : Type 0} (to_bytes : Cid → Bytes) where
  -- The hashes of the blocks written so far, the last one first.
  abbrev pub after : List Bytes → List (Cid × Bytes) → List Bytes
  after earlier [] = earlier
  after earlier (b ∷ bs) = after (to_bytes b.0 ∷ earlier) bs

  abbrev pub IsStored : List Bytes → List (Link Cid) → Type 0
  IsStored earlier = All (λ l. Among (to_bytes l.target) earlier)

  -- A single link is to the block written last.
  abbrev pub IsLast : List Bytes → List (Link Cid) → Type 0
  IsLast earlier [] = Unit
  IsLast earlier (l ∷ []) = head? earlier ≡ some (to_bytes l.target)
  IsLast earlier (l ∷ k ∷ ls) = Unit

  -- The link's block was written before.
  abbrev pub Refers : List Bytes → PbLink → Type 0
  Refers earlier l = (h : Bytes) × (l.hash ≡ some h) × Among h earlier

  pub after-append :
      (e : List Bytes) (cs bs : List (Cid × Bytes)) → after e (cs ++ bs) ≡ after (after e cs) bs
  after-append e [] bs = refl
  after-append e (c ∷ cs) bs = after-append (to_bytes c.0 ∷ e) cs bs

  pub Among-after :
      (x : Bytes) (e : List Bytes) (bs : List (Cid × Bytes)) → Among x e → Among x (after e bs)
  Among-after x e [] h = h
  Among-after x e (b ∷ bs) h = Among-after x (to_bytes b.0 ∷ e) bs (inr h)

  pub IsStored-after :
      (e : List Bytes) (bs : List (Cid × Bytes)) (ls : List (Link Cid))
      → IsStored e ls
      → IsStored (after e bs) ls
  IsStored-after e bs [] h = tt
  IsStored-after e bs (l ∷ ls) h =
      (Among-after (to_bytes l.target) e bs h.0, IsStored-after e bs ls h.1)

  pub IsStored-take :
      (n : ℕ) (e : List Bytes) (ls : List (Link Cid)) → IsStored e ls → IsStored e (take n ls)
  IsStored-take zero e ls h = tt
  IsStored-take (suc n) e [] h = tt
  IsStored-take (suc n) e (l ∷ ls) h = (h.0, IsStored-take n e ls h.1)

  pub IsStored-drop :
      (n : ℕ) (e : List Bytes) (ls : List (Link Cid)) → IsStored e ls → IsStored e (drop n ls)
  IsStored-drop zero e ls h = h
  IsStored-drop (suc n) e [] h = tt
  IsStored-drop (suc n) e (l ∷ ls) h = IsStored-drop n e ls h.1

  pub IsStored-append :
      (e : List Bytes) (xs ys : List (Link Cid))
      → IsStored e xs
      → IsStored e ys
      → IsStored e (xs ++ ys)
  IsStored-append e [] ys h k = k
  IsStored-append e (x ∷ xs) ys h k = (h.0, IsStored-append e xs ys h.1 k)

  pub IsStored-later :
      (h : Bytes) (e : List Bytes) (ls : List (Link Cid)) → IsStored e ls → IsStored (h ∷ e) ls
  IsStored-later h e [] k = tt
  IsStored-later h e (l ∷ ls) k = (inr k.0, IsStored-later h e ls k.1)

  pub IsStored-Refers :
      (e : List Bytes) (ls : List (Link Cid))
      → IsStored e ls
      → All (Refers e) (map (pb_link to_bytes) ls)
  IsStored-Refers e [] h = tt
  IsStored-Refers e (l ∷ ls) h = ((to_bytes l.target, refl, h.0), IsStored-Refers e ls h.1)

module _ {Cid : Type 0} (to_bytes : Cid → Bytes) (render_and_hash : FlatUnixFs → Cid × Bytes) where
  -- Each block is the rendering of a message of at most so many links, all to blocks before it.
  abbrev pub IsWritten : ℕ → List Bytes → List (Cid × Bytes) → Type 0
  IsWritten size earlier [] = Unit
  IsWritten size earlier (b ∷ bs) =
      ((f : FlatUnixFs) × (b ≡ render_and_hash f)
        × (length f.links ≤ size)
        × All (Refers to_bytes earlier) f.links)
      × IsWritten size (to_bytes b.0 ∷ earlier) bs

  pub IsWritten-append :
      (size : ℕ) (e : List Bytes) (cs bs : List (Cid × Bytes))
      → IsWritten size e cs
      → IsWritten size (after to_bytes e cs) bs
      → IsWritten size e (cs ++ bs)
  IsWritten-append size e [] bs h k = k
  IsWritten-append size e (c ∷ cs) bs h k =
      (h.0, IsWritten-append size (to_bytes c.0 ∷ e) cs bs h.1 k)

module _ {Cid : Type 0} (to_bytes : Cid → Bytes) (render_and_hash : FlatUnixFs → Cid × Bytes)
    (reads : Bytes → Bytes)
    (reads_block : (f : FlatUnixFs)
      → reads (to_bytes (render_and_hash f).0) ≡ read_flat reads f) where
  abbrev pub content_of : List (Link Cid) → Bytes
  content_of [] = []
  content_of (l ∷ ls) = reads (to_bytes l.target) ++ content_of ls

  abbrev pub IsSized : List (Link Cid) → Type 0
  IsSized = All (λ l. l.file_size ≡ wrap64 (length (reads (to_bytes l.target))))

  content_of-pb_link :
      (ls : List (Link Cid)) → read_links reads (map (pb_link to_bytes) ls) ≡ content_of ls
  content_of-pb_link [] = refl
  content_of-pb_link (l ∷ ls) = ap (reads (to_bytes l.target) ++◌) (content_of-pb_link ls)

  pub content_of-append :
      (xs ys : List (Link Cid)) → content_of (xs ++ ys) ≡ content_of xs ++ content_of ys
  content_of-append [] ys = refl
  content_of-append (x ∷ xs) ys =
      rw
        (
          content_of-append xs ys,
          append_assoc (reads (to_bytes x.target)) (content_of xs) (content_of ys),
        )
        refl

  -- A link to a block of links reads as they do.
  pub content_of-link_to :
      (level : ℕ) (l : Link Cid) (ls : List (Link Cid))
      → reads (to_bytes (link_to to_bytes render_and_hash level (l ∷ ls)).target)
        ≡ content_of (l ∷ ls)
  content_of-link_to level l ls =
      reads_block (block_of to_bytes (l ∷ ls)) ∙ content_of-pb_link (l ∷ ls)

  sum64_sized :
      (acc : ℕ) (ls : List (Link Cid))
      → IsSized ls
      → sum64 (wrap64 acc) (file_sizes ls) ≡ wrap64 (acc + length (content_of ls))
  sum64_sized acc [] h = omega arith
  sum64_sized acc (l ∷ ls) h =
      let own = length (reads (to_bytes l.target)) in
      let step : add64 (wrap64 acc) l.file_size ≡ wrap64 (acc + own) = rw h.0 (omega arith) in
      ap (λ a. sum64 a (file_sizes ls)) step
      ∙ sum64_sized (acc + own) ls h.1
      ∙ omega (arith, length-append (reads (to_bytes l.target)) (content_of ls))

  pub link_to-IsSized :
      (level : ℕ) (l : Link Cid) (ls : List (Link Cid))
      → IsSized (l ∷ ls)
      → IsSized (link_to to_bytes render_and_hash level (l ∷ ls) ∷ [])
  link_to-IsSized level l ls h =
      (rw (content_of-link_to level l ls) (sum64_sized 0 (l ∷ ls) h ∙ omega arith), tt)

  pub IsSized-take : (n : ℕ) (ls : List (Link Cid)) → IsSized ls → IsSized (take n ls)
  IsSized-take zero ls h = tt
  IsSized-take (suc n) [] h = tt
  IsSized-take (suc n) (l ∷ ls) h = (h.0, IsSized-take n ls h.1)

  pub IsSized-drop : (n : ℕ) (ls : List (Link Cid)) → IsSized ls → IsSized (drop n ls)
  IsSized-drop zero ls h = h
  IsSized-drop (suc n) [] h = tt
  IsSized-drop (suc n) (l ∷ ls) h = IsSized-drop n ls h.1

  pub IsSized-append : (xs ys : List (Link Cid)) → IsSized xs → IsSized ys → IsSized (xs ++ ys)
  IsSized-append [] ys h k = k
  IsSized-append (x ∷ xs) ys h k = (h.0, IsSized-append xs ys h.1 k)

  pub length-map_le :
      (n : ℕ) (ls : List (Link Cid)) → length (map (pb_link to_bytes) (take n ls)) ≤ n
  length-map_le zero ls = omega arith
  length-map_le (suc n) [] = omega arith
  length-map_le (suc n) (l ∷ ls) = omega (arith, length-map_le n ls)

  -- The links to the groups stand for the same bytes, and the blocks of the groups are well written.
  pub groups_lem :
      (n size level : ℕ) (e : List Bytes) (ls : List (Link Cid))
      → 1 ≤ size
      → length ls < n
      → IsSized ls
      → IsStored to_bytes e ls
      → (content_of (new_links to_bytes render_and_hash level (groups n size ls)) ≡ content_of ls)
        × IsSized (new_links to_bytes render_and_hash level (groups n size ls))
        × IsStored to_bytes
            (after to_bytes e (new_blocks to_bytes render_and_hash (groups n size ls)))
            (new_links to_bytes render_and_hash level (groups n size ls))
        × IsWritten to_bytes render_and_hash size e
            (new_blocks to_bytes render_and_hash (groups n size ls))
  groups_lem zero size level e ls pos enough sized stored = ground (arith, enough)
  groups_lem (suc n) size level e [] pos enough sized stored = (refl, tt, tt, tt)
  groups_lem (suc n) zero level e (l ∷ ls) pos enough sized stored = ground (arith, pos)
  groups_lem (suc n) (suc m) level e (l ∷ ls) pos enough sized stored =
      let group = take m ls in
      let rest = drop m ls in
      let block = render_and_hash (block_of to_bytes (l ∷ group)) in
      let e' = to_bytes block.0 ∷ e in
      let ih =
        groups_lem n (suc m) level e' rest pos (omega (arith, enough, length-drop m ls))
          (IsSized-drop m ls sized.1)
          (IsStored-drop to_bytes m e' ls (IsStored-after to_bytes e (block ∷ []) ls stored.1)) in
      (
        ap (◌++ content_of (new_links to_bytes render_and_hash level (groups n (suc m) rest)))
              (content_of-link_to level l group)
            ∙ ap (content_of (l ∷ group) ++◌) ih.0
            ∙ append_assoc (reads (to_bytes l.target)) (content_of group) (content_of rest)
            ∙ ap (reads (to_bytes l.target) ++◌)
                (sym (content_of-append group rest) ∙ ap content_of (take-append-drop m ls)),
        ((link_to-IsSized level l group (sized.0, IsSized-take m ls sized.1)).0, ih.1),
        (
          Among-after to_bytes (to_bytes block.0) e'
              (new_blocks to_bytes render_and_hash (groups n (suc m) rest)) (inl refl),
          ih.2,
        ),
        (
          (
            block_of to_bytes (l ∷ group),
            refl,
            length-map_le (suc m) (l ∷ ls),
            IsStored-Refers to_bytes e (l ∷ group)
                (stored.0, IsStored-take to_bytes m e ls stored.1),
          ),
          ih.3,
        ),
      )
