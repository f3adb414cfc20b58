-- ===== src/Path/RoundTrip.antt =====
-- Printing a path and parsing it again, and what parsing returns.
use rust_ipfs.Base.{
  false, ◌≡◌, refl, ap, subst, ◌∙◌, List, [], ◌∷◌, ◌++◌, arith, if◌then◌else◌, All, is_empty,
  nat_eq, list_eq,
}
use rust_ipfs.Base.Set
use mathlib.Core.List.{append_assoc}
use rust_ipfs.Path.{
  Text, ipfs, ipns, IsSegment, Ids, PathRoot, ipld_root, ipns_root, dns_root, IpfsPath, Result, ok,
  err, split_slash, push_split, display_more, display_path, display_root, to_string, from_str,
  from_pieces, with_segments, rooted, ipns_key, cid_key,
}
use rust_ipfs.Path.Splitting.{
  split_slash-append, split_slash-display_more, push_split_segments, push_split-IsSegment,
  split_slash_clean,
}

-- What `display` puts after the root.
tail-display_more :
    (path : List Text)
    → (if is_empty path then [] else b'/' ∷ display_path path) ≡ display_more path
unfolding display_path display_more
tail-display_more [] = refl
tail-display_more (s ∷ path) = refl

-- The text of a root of a kind with a key, and of segments.
abbrev text_of : Text → Text → List Text → Text
text_of kind key path = b'/' ∷ (kind ++ b'/' ∷ (key ++ display_more path))

text_of_lem :
    (kind key : Text) (path : List Text)
    → (b'/' ∷ kind) ++ (b'/' ∷ key) ++ (if is_empty path then [] else b'/' ∷ display_path path)
      ≡ text_of kind key path
text_of_lem kind key path =
    rw (tail-display_more path) (ap (◌∷◌ b'/') (append_assoc kind (b'/' ∷ key) (display_more path)))

-- The text of a path is split into an empty piece, the kind, the key and the segments.
split_slash-rooted :
    (kind key : Text) (path : List Text)
    → IsSegment kind
    → IsSegment key
    → All IsSegment path
    → split_slash (text_of kind key path) ≡ ([], kind ∷ key ∷ path)
unfolding split_slash
split_slash-rooted kind key path h k l =
    rw
      (
        split_slash-append kind (key ++ display_more path) h.1,
        split_slash-display_more key path k.1 l,
      )
      refl

module _ {Cid Peer : Type 0} (I : Ids Cid Peer) where
  -- A root that the parser can return: a domain name reads as neither a peer id nor the content id
  -- of a peer's key.
  pub data IsRoot : PathRoot Cid Peer → Type 0 where
    of_cid : (c : Cid) → IsRoot (ipld_root c)
    of_peer : (p : Peer) → IsRoot (ipns_root p)
    of_domain : (d : Text) → IsSegment d → ipns_key I d ≡ dns_root d → IsRoot (dns_root d)

  with_segments-segments :
      (s : Text) (root : PathRoot Cid Peer) (path : List Text)
      → All IsSegment path
      → with_segments I s (ok root) path ≡ ok (record { root = root; path = path })
  unfolding with_segments
  with_segments-segments s root path h = rw (push_split_segments [] path h) refl

  -- A text of a kind, a key and segments parses to the root of the kind and the key.
  from_str-rooted :
      (kind key : Text) (path : List Text) (root : PathRoot Cid Peer)
      → IsSegment kind
      → IsSegment key
      → All IsSegment path
      → let s = text_of kind key path in
        rooted I s kind key ≡ ok root → from_str I s ≡ ok (record { root = root; path = path })
  unfolding from_str from_pieces
  from_str-rooted kind key path root h k l e =
      let s = text_of kind key path in
      ap (from_pieces I s) (split_slash-rooted kind key path h k l)
      ∙ ap (λ r. with_segments I s r path) e
      ∙ with_segments-segments s root path l

  cid_key-to_string : (c : Cid) → cid_key I (I.cid_to_string c) ≡ ok (ipld_root c)
  unfolding cid_key
  cid_key-to_string c = rw (I.cid_from_str-to_string c, cid_key) refl

  ipns_key-to_base58 : (p : Peer) → ipns_key I (I.to_base58 p) ≡ ipns_root p
  unfolding ipns_key
  ipns_key-to_base58 p = rw (I.peer_from_str-to_base58 p, ipns_key) refl

  rooted_lem :
      (root : PathRoot Cid Peer)
      → IsRoot root
      → (kind : Text) × (key : Text) × (IsSegment kind)
        × (IsSegment key)
        × (display_root I root ≡ (b'/' ∷ kind) ++ (b'/' ∷ key))
        × ((s : Text) → rooted I s kind key ≡ ok root)
  unfolding display_root rooted cid_key ipns_key Set.contains
  rooted_lem _ (of_cid c) = (
    ipfs,
    I.cid_to_string c,
    (refl, refl),
    I.cid_to_string-IsSegment c,
    refl,
    λ s. cid_key-to_string c,
  )
  rooted_lem _ (of_peer p) = (
    ipns,
    I.to_base58 p,
    (refl, refl),
    I.to_base58-IsSegment p,
    refl,
    λ s. ap ok (ipns_key-to_base58 p),
  )
  rooted_lem _ (of_domain d h e) = (ipns, d, (refl, refl), h, refl, λ s. ap ok e)

  -- Printing a path and parsing the text gives the path back, where its segments are not empty and
  -- hold no slash, and a domain name at its root reads neither as a peer id nor as the content id of
  -- a peer's key.
  pub from_str-to_string :
      (p : IpfsPath Cid Peer)
      → IsRoot p.root
      → All IsSegment p.path
      → from_str I (to_string I p) ≡ ok p
  unfolding to_string
  from_str-to_string p r h =
      let (kind, key, k, l, shown, parsed) = rooted_lem p.root r in
      rw (shown, text_of_lem kind key p.path)
        (from_str-rooted kind key p.path p.root k l h (parsed (text_of kind key p.path)))

  with_segments-IsSegment :
      (s : Text) (r : Result (PathRoot Cid Peer)) (pieces : List Text) (p : IpfsPath Cid Peer)
      → All (λ piece. Set.contains piece b'/' ≡ false) pieces
      → with_segments I s r pieces ≡ ok p
      → All IsSegment p.path
  unfolding with_segments
  with_segments-IsSegment s (err e) pieces p k h = absurd cc
  with_segments-IsSegment s (ok root) pieces p k h =
      let (path, pushed) = push_split [] pieces in
      let same : path ≡ p.path = ground (arith, h) in
      subst (All IsSegment) same (push_split-IsSegment [] pieces tt k)

  from_pieces-IsSegment :
      (s : Text) (pieces : Text × List Text) (p : IpfsPath Cid Peer)
      → All (λ piece. Set.contains piece b'/' ≡ false) pieces.1
      → from_pieces I s pieces ≡ ok p
      → All IsSegment p.path
  unfolding from_pieces
  from_pieces-IsSegment s ([], []) p k h = absurd cc
  from_pieces-IsSegment s ([], a ∷ []) p k h = absurd cc
  from_pieces-IsSegment s ([], a ∷ b ∷ more) p k h =
      with_segments-IsSegment s (rooted I s a b) more p k.1.1 h
  from_pieces-IsSegment s (c ∷ first, more) p k h =
      with_segments-IsSegment s (cid_key I (c ∷ first)) more p k h

  -- Whatever text parses, the segments of the path are not empty and hold no slash.
  pub from_str-IsSegment :
      (s : Text) (p : IpfsPath Cid Peer) → from_str I s ≡ ok p → All IsSegment p.path
  unfolding from_str
  from_str-IsSegment s p h = from_pieces-IsSegment s (split_slash s) p (split_slash_clean s).1 h
