-- ===== src/Path.antt =====
-- src/path.rs: paths of content-addressed data. A text is the list of its code points. How content
-- ids and peer ids are written is the business of other crates, and a parameter. A failed `assert!`
-- is `none`; of an error of another crate only its kind is kept.
pub mod Splitting
pub mod RoundTrip
pub mod Segments
pub mod Tests
use rust_ipfs.Base.{
  ℕ, Bool, true, false, not, ◌&&◌, ◌||◌, ◌≡◌, Option, none, some, List, [], ◌∷◌, ◌++◌,
  if◌then◌else◌, length, is_empty, ltb, leb, nat_eq, list_eq, nat_beq, take, drop, ◌==◌,
}
use rust_ipfs.Base.Set

abbrev pub Text : Type 0
Text = List ℕ

abbrev pub ipfs : Text
ipfs = b'i' ∷ b'p' ∷ b'f' ∷ b's' ∷ []

abbrev pub ipld : Text
ipld = b'i' ∷ b'p' ∷ b'l' ∷ b'd' ∷ []

abbrev pub ipns : Text
ipns = b'i' ∷ b'p' ∷ b'n' ∷ b's' ∷ []

-- A segment of a path: not empty, and without a slash.
abbrev pub IsSegment : Text → Type 0
IsSegment s = (is_empty s ≡ false) × (Set.contains s b'/' ≡ false)

-- The crates `cid` and `libp2p`: texts of content ids and peer ids, which read back as what they are
-- texts of and can stand in a path.
pub record Ids (Cid Peer : Type 0) : Type 0 where
  pub cid_from_str : Text → Option Cid
  pub cid_to_string : Cid → Text
  pub peer_from_str : Text → Option Peer
  pub to_base58 : Peer → Text
  -- `PeerId::from_bytes` of the multihash of a content id.
  pub peer_from_cid : Cid → Option Peer
  pub cid_from_str-to_string : (c : Cid) → cid_from_str (cid_to_string c) ≡ some c
  pub cid_to_string-IsSegment : (c : Cid) → IsSegment (cid_to_string c)
  pub peer_from_str-to_base58 : (p : Peer) → peer_from_str (to_base58 p) ≡ some p
  pub to_base58-IsSegment : (p : Peer) → IsSegment (to_base58 p)

pub data PathRoot (Cid Peer : Type 0) : Type 0 where
  ipld_root : Cid → PathRoot Cid Peer
  ipns_root : Peer → PathRoot Cid Peer
  dns_root : Text → PathRoot Cid Peer

pub record IpfsPath (Cid Peer : Type 0) : Type 0 where
  pub root : PathRoot Cid Peer
  pub path : List Text

-- `IpfsPathError`, and the error of a content id that does not parse.
pub data PathError : Type 0 where
  invalid_path : Text → PathError
  segment_contains_slash : Text → PathError
  invalid_cid : Text → PathError

pub data Result (A : Type 0) : Type 0 where
  ok : A → Result A
  err : PathError → Result A

-- `split('/')`: the first piece, and those after the first slash.
unfoldable pub split_slash : Text → Text × List Text
split_slash [] = ([], [])
split_slash (c ∷ s) =
    let (first, more) = split_slash s in
    if nat_beq c b'/' then ([], first ∷ more) else (c ∷ first, more)

-- `SlashedPath::push_split`: what has been pushed when it returns, and whether it is `Ok`. An empty
-- piece is allowed at the end only, and dropped.
unfoldable pub push_split : List Text → List Text → List Text × Bool
push_split path [] = (path, true)
push_split path (piece ∷ split) =
    if is_empty piece then (path, is_empty split) else push_split (path ++ piece ∷ []) split

unfoldable pub push_path : List Text → Text → List Text × Result Unit
unfolding push_split split_slash
push_path path s =
    let (first, more) = split_slash s in
    let (left, pushed) = push_split path (first ∷ more) in
    if is_empty s
    then (path, ok tt)
    else (left, if pushed then ok tt else err (segment_contains_slash s))

-- `Display for SlashedPath`: the segments after the first with a slash before each.
unfoldable pub display_more : List Text → Text
display_more [] = []
display_more (s ∷ path) = b'/' ∷ s ++ display_more path

unfoldable pub display_path : List Text → Text
unfolding display_more
display_path [] = []
display_path (s ∷ path) = s ++ display_more path

unfoldable pub shift : List Text → ℕ → Option (List Text)
shift path n = if ltb (length path) n then none else some (drop n path)

unfoldable pub truncate : List Text → ℕ → List Text
truncate path len = take len path

-- `PartialEq<[&str]> for SlashedPath`
unfoldable pub eq_segments : List Text → List Text → Bool
eq_segments [] other = true
eq_segments (s ∷ path) [] = true
eq_segments (s ∷ path) (o ∷ other) = (s == o) && eq_segments path other

module _ {Cid Peer : Type 0} where
  unfoldable pub new : PathRoot Cid Peer → IpfsPath Cid Peer
  new root = record { root = root; path = [] }

  -- `PathRoot::cid`
  unfoldable pub cid : PathRoot Cid Peer → Option Cid
  cid (ipld_root c) = some c
  cid (ipns_root p) = none
  cid (dns_root d) = none

  -- `TryInto<PeerId> for PathRoot`
  unfoldable pub peer_id : PathRoot Cid Peer → Option Peer
  peer_id (ipld_root c) = none
  peer_id (ipns_root p) = some p
  peer_id (dns_root d) = none

  unfoldable pub push_str : IpfsPath Cid Peer → Text → IpfsPath Cid Peer × Result Unit
  unfolding push_path
  push_str p s = let (path, r) = push_path p.path s in (record p { path = path }, r)

  unfoldable pub sub_path : IpfsPath Cid Peer → Text → Result (IpfsPath Cid Peer)
  unfolding push_str
  sub_path p segments = let (q, r) = push_str p segments in elim r [ ok u ↦ ok q | err e ↦ err e ]

  unfoldable pub into_shifted : IpfsPath Cid Peer → ℕ → Option (List Text)
  unfolding shift
  into_shifted p shifted = if leb shifted (length p.path) then shift p.path shifted else none

  unfoldable pub into_truncated : IpfsPath Cid Peer → ℕ → Option (List Text)
  unfolding truncate
  into_truncated p len = if leb len (length p.path) then some (truncate p.path len) else none

module _ {Cid Peer : Type 0} (I : Ids Cid Peer) where
  -- The key after `/ipns/`: a peer id, the content id of a peer's key, else a domain name.
  unfoldable pub ipns_key : Text → PathRoot Cid Peer
  ipns_key key = elim (I.peer_from_str key) [
    | some peer ↦ ipns_root peer
    | none ↦ elim (I.cid_from_str key) [
      | none ↦ dns_root key
      | some c ↦ elim (I.peer_from_cid c) [ none ↦ dns_root key | some peer ↦ ipns_root peer ]
    ]
  ]

  unfoldable pub cid_key : Text → Result (PathRoot Cid Peer)
  cid_key key = elim (I.cid_from_str key) [
    | none ↦ err (invalid_cid key)
    | some c ↦ ok (ipld_root c)
  ]

  -- The root of a text that begins with a slash, from its second and third piece.
  unfoldable pub rooted : Text → Text → Text → Result (PathRoot Cid Peer)
  unfolding ipns_key cid_key
  rooted string root_type key =
      if root_type == ipfs || root_type == ipld
      then cid_key key
      else if root_type == ipns
      then ok (ipns_key key)
      else err (invalid_path string)

  unfoldable pub with_segments :
      Text → Result (PathRoot Cid Peer) → List Text → Result (IpfsPath Cid Peer)
  unfolding push_split
  with_segments string (err e) pieces = err e
  with_segments string (ok root) pieces =
      let (path, pushed) = push_split [] pieces in
      if pushed then ok (record { root = root; path = path }) else err (invalid_path string)

  -- `from_str` once the text is split.
  unfoldable pub from_pieces : Text → Text × List Text → Result (IpfsPath Cid Peer)
  unfolding with_segments rooted cid_key
  from_pieces string ([], []) = err (invalid_path string)
  from_pieces string ([], root_type ∷ []) = err (invalid_path string)
  from_pieces string ([], root_type ∷ key ∷ subpath) =
      with_segments string (rooted string root_type key) subpath
  from_pieces string (c ∷ first, subpath) = with_segments string (cid_key (c ∷ first)) subpath

  unfoldable pub from_str : Text → Result (IpfsPath Cid Peer)
  unfolding split_slash from_pieces
  from_str string = from_pieces string (split_slash string)

  -- `Display for PathRoot`
  unfoldable pub display_root : PathRoot Cid Peer → Text
  display_root (ipld_root c) = b'/' ∷ ipfs ++ b'/' ∷ I.cid_to_string c
  display_root (ipns_root p) = b'/' ∷ ipns ++ b'/' ∷ I.to_base58 p
  display_root (dns_root domain) = b'/' ∷ ipns ++ b'/' ∷ domain

  unfoldable pub to_string : IpfsPath Cid Peer → Text
  unfolding display_root display_path
  to_string p = display_root p.root ++ (if is_empty p.path then [] else b'/' ∷ display_path p.path)
