-- ===== src/Unixfs/Reader.antt =====
-- unixfs/src/file/reader.rs, and RangeLinks of unixfs/src/pb.rs: one block of a file at a time. The
-- parser of blocks, which is generated code over `quick_protobuf`, is a parameter.
use rust_ipfs.Base.{
  ℕ, Bool, true, false, not, ◌&&◌, ◌||◌, Option, none, some, List, [], ◌∷◌, if◌then◌else◌, length,
  is_empty, ltb, leb, nat_eq, list_eq, nat_beq, is_some,
}
use rust_ipfs.Base.Int.{ℤ}
use rust_ipfs.Base.Outcome.{Outcome, returned, panicked}
use rust_ipfs.Unixfs.Nodes.{Bytes, DataType, raw, file, UnixFs, PbLink, FlatUnixFs, add64}

pub record Metadata : Type 0 where
  pub mode : Option ℕ
  pub mtime : Option (ℤ × ℕ)

abbrev pub or_zero : Option ℕ → ℕ
or_zero none = 0
or_zero (some n) = n

unfoldable pub metadata_of : UnixFs → Metadata
metadata_of u = record {
  mode = u.mode;
  mtime = elim u.mtime [
    | none ↦ none
    | some t ↦ some (t.seconds, or_zero t.fractional_nanoseconds)
  ];
}

pub record Range : Type 0 where
  pub start : ℕ
  pub end : ℕ

pub data FileError : Type 0 where
  links_and_blocksizes_mismatch : FileError
  no_links_no_content : FileError
  non_root_defines_metadata : Metadata → FileError
  intermediate_node_without_file_size : FileError
  tree_expands_on_links : FileError
  tree_overlaps_between_links : FileError
  earlier_link : FileError
  tree_jumps_between_links : FileError
  unexpected_raw_or_file_properties : Option ℕ → Option ℕ → FileError

pub data FileReadFailed : Type 0 where
  file_error : FileError → FileReadFailed
  unexpected_type : DataType → FileReadFailed
  read_failed : FileReadFailed
  invalid_cid : ℕ → FileReadFailed

pub data ReadResult (A : Type 0) : Type 0 where
  ok : A → ReadResult A
  err : FileReadFailed → ReadResult A

pub data Ending : Type 0 where
  tree_coverage : ℕ → Ending
  chunk : ℕ → Ending

-- The error, if there is one.
unfoldable pub check_is_suitable_next : Ending → ℕ → Range → Option FileError
check_is_suitable_next (tree_coverage cover_end) offset next =
    if leb next.start offset && ltb cover_end next.end
    then some tree_expands_on_links
    else if ltb next.start cover_end && ltb cover_end next.end
    then some tree_overlaps_between_links
    else if ltb next.start offset
    then some earlier_link
    else none
check_is_suitable_next (chunk chunk_end) offset next =
    if not (nat_beq next.start chunk_end) then some tree_jumps_between_links else none

pub record FileReader : Type 0 where
  pub offset : ℕ
  pub ending : Ending
  pub links : List PbLink
  pub content : Bytes
  pub blocksizes : List ℕ
  pub metadata : Metadata
  pub file_size : ℕ

pub record Traversal : Type 0 where
  pub last_ending : Ending
  pub last_offset : ℕ
  pub traversed_size : ℕ
  pub traversed_metadata : Metadata

unfoldable pub is_file_or_raw : DataType → Bool
is_file_or_raw t = elim t [ file ↦ true | raw ↦ true | _ ↦ false ]

abbrev pub bytes_or_empty : Option Bytes → Bytes
bytes_or_empty none = []
bytes_or_empty (some bytes) = bytes

-- The end of a block, or the error; `filesize` and `links` are those of the block.
unfoldable pub ending_of : ℕ → FlatUnixFs → ReadResult Ending
ending_of offset inner =
    if is_empty inner.links
    then ok (
        chunk (
          add64 offset (elim inner.unixfs.filesize [
            | none ↦ length (bytes_or_empty inner.unixfs.content)
            | some n ↦ n
          ])))
    else elim inner.unixfs.filesize [
      | none ↦ err (file_error intermediate_node_without_file_size)
      | some n ↦ ok (tree_coverage (add64 offset n))
    ]

-- The last field is unwrapped, which is a panic where the block has no size.
unfoldable pub from_parts : FlatUnixFs → ℕ → Metadata → Outcome (ReadResult FileReader)
from_parts inner offset metadata =
    if not (is_file_or_raw inner.unixfs.type_)
    then returned (err (unexpected_type inner.unixfs.type_))
    else if not (nat_beq (length inner.links) (length inner.unixfs.blocksizes))
    then returned (err (file_error links_and_blocksizes_mismatch))
    else if is_empty (bytes_or_empty inner.unixfs.content)
        && not (nat_beq (or_zero inner.unixfs.filesize) 0)
        && is_empty inner.links
    then returned (err (file_error no_links_no_content))
    else if is_some inner.unixfs.hash_type || is_some inner.unixfs.fanout
    then returned (
        err (
          file_error
            (unexpected_raw_or_file_properties inner.unixfs.hash_type inner.unixfs.fanout)))
    else elim (ending_of offset inner) [
      | err failed ↦ returned (err failed)
      | ok ending ↦ elim inner.unixfs.filesize [
        | none ↦ panicked
        | some n ↦ returned (
            ok (record {
              offset = offset;
              ending = ending;
              links = inner.links;
              content = bytes_or_empty inner.unixfs.content;
              blocksizes = inner.unixfs.blocksizes;
              metadata = metadata;
              file_size = n;
            }))
      ]
    ]

unfoldable pub from_parsed : FlatUnixFs → Outcome (ReadResult FileReader)
from_parsed inner = from_parts inner 0 (metadata_of inner.unixfs)

-- `RangeLinks`: the links with the ranges that they cover, from an offset on.
unfoldable pub range_links : ℕ → List PbLink → List ℕ → List (PbLink × Range)
range_links base [] sizes = []
range_links base (l ∷ ls) [] = []
range_links base (l ∷ ls) (n ∷ sizes) =
    (l, record { start = base; end = add64 base n }) ∷ range_links (add64 base n) ls sizes

pub data FileContent : Type 0 where
  bytes : Bytes → FileContent
  ranges : List (PbLink × Range) → FileContent

unfoldable pub content_of_reader : FileReader → FileContent × Traversal
content_of_reader r = (
  if is_empty r.links then bytes r.content else ranges (range_links r.offset r.links r.blocksizes),
  record {
    last_ending = r.ending;
    last_offset = r.offset;
    traversed_size = r.file_size;
    traversed_metadata = r.metadata;
  },
)

module _ (parse : Bytes → Option FlatUnixFs) where
  unfoldable pub from_block : Bytes → Outcome (ReadResult FileReader)
  from_block block = elim (parse block) [
    | none ↦ returned (err read_failed)
    | some inner ↦ from_parsed inner
  ]

  unfoldable pub from_continued : Traversal → ℕ → Bytes → Outcome (ReadResult FileReader)
  from_continued t offset block = elim (parse block) [
    | none ↦ returned (err read_failed)
    | some inner ↦
        if is_some inner.unixfs.mode || is_some inner.unixfs.mtime
        then returned (err (file_error (non_root_defines_metadata (metadata_of inner.unixfs))))
        else from_parts inner offset t.traversed_metadata
  ]

  unfoldable pub continue_walk : Traversal → Bytes → Range → Outcome (ReadResult FileReader)
  continue_walk t next_block tree_range =
      elim (check_is_suitable_next t.last_ending t.last_offset tree_range) [
        | some failed ↦ returned (err (file_error failed))
        | none ↦ from_continued t tree_range.start next_block
      ]
