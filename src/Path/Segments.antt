-- ===== src/Path/Segments.antt =====
-- Sub-paths, the two ends of a path, and the comparison with a list of segments.
use rust_ipfs.Base.{
  ℕ, ◌≤◌, true, false, ◌≡◌, refl, ap, some, List, [], ◌∷◌, ◌++◌, arith, All, length, is_empty,
  nat_eq, list_eq, take, drop, take-append-drop, length-take, ==_refl,
}
use rust_ipfs.Path.{
  Text, IsSegment, IpfsPath, ok, err, split_slash, push_split, push_path, push_str, sub_path,
  display_more, display_path, shift, truncate, into_shifted, into_truncated, eq_segments,
}
use rust_ipfs.Path.Splitting.{split_slash-display_more, push_split_segments}

push_path_pieces :
    (path left : List Text) (s first : Text) (more : List Text)
    → is_empty s ≡ false
    → split_slash s ≡ (first, more)
    → push_split path (first ∷ more) ≡ (left, true)
    → push_path path s ≡ (left, ok tt)
unfolding push_path
push_path_pieces path left s first more h k l = rw (h, k, l) refl

is_empty-append {ℓ} :
    {A : Type ℓ} (xs ys : List A) → is_empty xs ≡ false → is_empty (xs ++ ys) ≡ false
is_empty-append [] ys h = absurd cc
is_empty-append (x ∷ xs) ys h = refl

module _ {Cid Peer : Type 0} where
  sub_path_pushed :
      (p : IpfsPath Cid Peer) (s : Text) (path : List Text)
      → push_path p.path s ≡ (path, ok tt)
      → sub_path p s ≡ ok (record p { path = path })
  unfolding sub_path push_str
  sub_path_pushed p s path h =
      ap (λ r. elim r.1 [ ok u ↦ ok (record p { path = r.0 }) | err e ↦ err e ]) h

  -- To append the text of some segments, at least one, is to append the segments.
  pub sub_path-display_path :
      (p : IpfsPath Cid Peer) (s : Text) (segments : List Text)
      → All IsSegment (s ∷ segments)
      → sub_path p (display_path (s ∷ segments)) ≡ ok (record p { path = p.path ++ s ∷ segments })
  unfolding sub_path push_str push_path display_path
  sub_path-display_path p s segments h =
      sub_path_pushed p (s ++ display_more segments) (p.path ++ s ∷ segments) (
        push_path_pieces p.path (p.path ++ s ∷ segments) (s ++ display_more segments) s segments
          (is_empty-append s (display_more segments) h.0.0)
          (split_slash-display_more s segments h.0.1 h.1)
          (push_split_segments p.path (s ∷ segments) h))

  -- The first `n` segments and those after them make up the path, and both are there exactly where
  -- the path has at least `n`.
  pub into_truncated-into_shifted :
      (p : IpfsPath Cid Peer) (n : ℕ)
      → n ≤ length p.path
      → (front : List Text) × (back : List Text) × (into_truncated p n ≡ some front)
        × (into_shifted p n ≡ some back)
        × (front ++ back ≡ p.path)
        × (length front ≡ n)
  unfolding into_truncated into_shifted shift truncate
  into_truncated-into_shifted p n h = (
    take n p.path,
    drop n p.path,
    ground arith,
    ground arith,
    take-append-drop n p.path,
    omega (arith, length-take n p.path),
  )

-- The comparison with a list of segments looks at the common length only: a path equals each of its
-- beginnings, and each list of segments that it is a beginning of.
pub eq_segments-append :
    (path more : List Text)
    → (eq_segments (path ++ more) path ≡ true) × (eq_segments path (path ++ more) ≡ true)
unfolding eq_segments
eq_segments-append [] [] = (refl, refl)
eq_segments-append [] (s ∷ more) = (refl, refl)
eq_segments-append (s ∷ path) more = ground (arith, ==_refl s, eq_segments-append path more)
