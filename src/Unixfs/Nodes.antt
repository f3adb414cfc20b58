-- ===== src/Unixfs/Nodes.antt =====
-- unixfs/src/pb: the protobuf messages of a file's blocks.
use rust_ipfs.Base.{ℕ, Option, List, ◌+◌, ◌%◌}
use rust_ipfs.Base.Int.{ℤ}

abbrev pub Bytes : Type 0
Bytes = List ℕ

pub data DataType : Type 0 where
  raw : DataType
  directory : DataType
  file : DataType
  metadata : DataType
  symlink : DataType
  hamt_shard : DataType

pub record UnixTime : Type 0 where
  pub seconds : ℤ
  pub fractional_nanoseconds : Option ℕ

pub record UnixFs : Type 0 where
  pub type_ : DataType
  pub content : Option Bytes
  pub filesize : Option ℕ
  pub blocksizes : List ℕ
  pub hash_type : Option ℕ
  pub fanout : Option ℕ
  pub mode : Option ℕ
  pub mtime : Option UnixTime

pub record PbLink : Type 0 where
  pub hash : Option Bytes
  pub name : Option Bytes
  pub tsize : Option ℕ

pub record FlatUnixFs : Type 0 where
  pub links : List PbLink
  pub unixfs : UnixFs

-- A number as a `u64`, and the sum of two.
abbrev pub wrap64 : ℕ → ℕ
wrap64 n = n % 18446744073709551616

abbrev pub add64 : ℕ → ℕ → ℕ
add64 a b = wrap64 (a + b)
