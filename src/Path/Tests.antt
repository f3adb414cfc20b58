-- ===== src/Path/Tests.antt =====
-- Runs of the paths, with digits as content ids and peer ids.
use rust_ipfs.Base.{
  ℕ, ◌+◌, ◌-◌, true, ◌≡◌, refl, Option, none, some, [], ◌∷◌, arith, if◌then◌else◌, All, ltb, nat_eq,
  list_eq, nat_beq,
}
use rust_ipfs.Base.Set
use rust_ipfs.Path.{
  Text, IsSegment, Ids, ipld_root, IpfsPath, ok, err, invalid_path, from_str, to_string,
  eq_segments,
}
use rust_ipfs.Path.RoundTrip.{of_cid, from_str-to_string, from_str-IsSegment}
use rust_ipfs.Path.Segments.{eq_segments-append}

-- A content id is written as a character above the slash, a peer id as a letter before one.
unfoldable read_id : Text → Option ℕ
read_id [] = none
read_id (c ∷ []) = if ltb c 48 then none else some (c - 48)
read_id (c ∷ d ∷ s) = none

unfoldable read_peer : Text → Option ℕ
unfolding read_id
read_peer [] = none
read_peer (c ∷ s) = if nat_beq c b'P' then read_id s else none

read_id-digit : (c : ℕ) → read_id ((c + 48) ∷ []) ≡ some c
unfolding read_id
read_id-digit c = ground arith

digit-IsSegment : (c : ℕ) → IsSegment ((c + 48) ∷ [])
unfolding Set.contains
digit-IsSegment c = (refl, ground arith)

read_peer-digit : (p : ℕ) → read_peer (b'P' ∷ (p + 48) ∷ []) ≡ some p
unfolding read_peer
read_peer-digit p = read_id-digit p

letter-IsSegment : (p : ℕ) → IsSegment (b'P' ∷ (p + 48) ∷ [])
unfolding Set.contains
letter-IsSegment p = (refl, ground arith)

abbrev ids : Ids ℕ ℕ
ids = record {
  cid_from_str = read_id;
  cid_to_string = λ c. (c + 48) ∷ [];
  peer_from_str = read_peer;
  to_base58 = λ p. b'P' ∷ (p + 48) ∷ [];
  peer_from_cid = λ c. none;
  cid_from_str-to_string = read_id-digit;
  cid_to_string-IsSegment = digit-IsSegment;
  peer_from_str-to_base58 = read_peer-digit;
  to_base58-IsSegment = letter-IsSegment;
}

abbrev file : IpfsPath ℕ ℕ
file = record { root = ipld_root 7; path = (b'a' ∷ []) ∷ (b'b' ∷ b'c' ∷ []) ∷ [] }

abbrev file_text : Text
file_text = b'/' ∷ b'i' ∷ b'p' ∷ b'f' ∷ b's' ∷ b'/' ∷ 55 ∷ b'/' ∷ b'a' ∷ b'/' ∷ b'b' ∷ b'c' ∷ []

printed : to_string ids file ≡ file_text
unfolding to_string
printed = refl

parsed : from_str ids file_text ≡ ok file
unfolding from_str read_id
parsed = refl

empty_segment :
    from_str ids (55 ∷ b'/' ∷ b'/' ∷ b'a' ∷ []) ≡ err (invalid_path (55 ∷ b'/' ∷ b'/' ∷ b'a' ∷ []))
unfolding from_str read_id
empty_segment = refl

trailing_slash : from_str ids (55 ∷ b'/' ∷ []) ≡ ok (record { root = ipld_root 7; path = [] })
unfolding from_str read_id
trailing_slash = refl

file-IsSegment : All IsSegment file.path
unfolding Set.contains
file-IsSegment = ((refl, refl), ((refl, refl), tt))

from_str-to_string_example : from_str ids (to_string ids file) ≡ ok file
from_str-to_string_example = from_str-to_string ids file (of_cid 7) file-IsSegment

from_str-IsSegment_example : All IsSegment file.path
from_str-IsSegment_example = from_str-IsSegment ids file_text file parsed

eq_segments-append_example :
    (eq_segments file.path ((b'a' ∷ []) ∷ []) ≡ true)
    × (eq_segments ((b'a' ∷ []) ∷ []) file.path ≡ true)
eq_segments-append_example = eq_segments-append ((b'a' ∷ []) ∷ []) ((b'b' ∷ b'c' ∷ []) ∷ [])
