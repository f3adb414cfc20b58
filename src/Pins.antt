-- ===== src/Pins.antt =====
-- src/repo/datastore/memory.rs and src/repo/mod.rs: what is pinned, in the store in memory. A document
-- is kept as the JSON that `serde_json` makes of it; that crate and `libipld` are parameters. A key
-- stands for the bytes of the content id. An operation holds the lock throughout; one that fails
-- leaves what it did before.
pub mod Store
pub mod Documents
pub mod Validity
pub mod Reachable
pub mod Direct
pub mod Contents
pub mod RecursivePins
pub mod Kinds
pub mod Queries
pub mod Tests
use rust_ipfs.Base.{
  ℕ, zero, suc, ◌+◌, ◌-◌, ◌*◌, ◌/◌, ◌≤◌, ◌<◌, Bool, true, false, not, ◌&&◌, ◌||◌, ◌≡◌, refl, sym,
  ap, subst, ◌∙◌, ◌⊎◌, inl, inr, ◌↔◌, ◌≢◌, Option, none, some, List, [], ◌∷◌, ◌++◌, map, arith,
  if◌then◌else◌, All, length, length-append, is_empty, retain, ltb, leb, Eq, nat_eq, list_eq,
  nat_beq, get_elem?, ◌==◌, ==_iff, ==_refl, Option-cases, Bool-cases, if_elim, is_some,
}
use rust_ipfs.Base.Map
use rust_ipfs.Base.Map.{Map}
use rust_ipfs.Base.Set

abbrev pub Text : Type 0
Text = List ℕ

pub data PinMode : Type 0 where
  indirect : PinMode
  direct : PinMode
  recursive : PinMode

pub data PinModeRequirement : Type 0 where
  only : PinMode → PinModeRequirement
  any : PinModeRequirement

pub data PinKind (Cid : Type 0) : Type 0 where
  indirect_from : Cid → PinKind Cid
  direct_kind : PinKind Cid
  recursive_kind : ℕ → PinKind Cid
  recursive_intention : PinKind Cid

pub data Recursive : Type 0 where
  count : ℕ → Recursive
  intent : Recursive
  not_recursive : Recursive

pub record PinDocument : Type 0 where
  pub version : ℕ
  pub is_direct : Bool
  pub is_recursive : Recursive
  pub cid_version : ℕ
  pub indirect_by : List Text

pub data PinUpdateError : Type 0 where
  unexpected_number_of_descendants : ℕ → ℕ → PinUpdateError
  not_pinned_recursive : PinUpdateError
  already_pinned_recursive : PinUpdateError
  cannot_unpin_unpinned : PinUpdateError
  cannot_unpin_direct_on_recursively_pinned : PinUpdateError

-- The errors of the store, the panic of an `unwrap` among them; those of other crates are kept by their kind.
pub data PinError (Cid : Type 0) : Type 0 where
  update_error : PinUpdateError → PinError Cid
  unwrap_panic : PinUpdateError → PinError Cid
  json_error : PinError Cid
  cid_error : PinError Cid
  invalid_mode : PinError Cid
  not_pinned : PinError Cid
  not_pinned_or_indirect : PinError Cid
  pinned_through : Cid → PinError Cid
  is_not_pinned : Cid → PinError Cid
  is_not_pinned_as : Cid → PinMode → PinError Cid

pub data Result (E A : Type 0) : Type 0 where
  ok : A → Result E A
  err : E → Result E A

-- `libipld`: the versions of content ids, and their texts.
pub record Cids (Cid : Type 0) : Type 0 where
  pub is_v1 : Cid → Bool
  pub new_v1 : Cid → Cid
  pub to_text : Cid → Text
  pub from_text : Text → Option Cid
  pub from_text-to_text : (c : Cid) → from_text (to_text c) ≡ some c

-- `serde_json`, which reads what it wrote.
pub record Json : Type 0 where
  pub to_vec : PinDocument → List ℕ
  pub from_slice : List ℕ → Option PinDocument
  pub from_slice-to_vec : (d : PinDocument) → from_slice (to_vec d) ≡ some d

unfoldable pub is_set : Recursive → Bool
is_set (count n) = true
is_set intent = true
is_set not_recursive = false

-- The order of `String`.
unfoldable pub text_lt : Text → Text → Bool
text_lt s [] = false
text_lt [] (d ∷ t) = true
text_lt (c ∷ s) (d ∷ t) =
    let rest = text_lt s t in if ltb c d then true else if ltb d c then false else rest

-- `BTreeSet`: an ascending list.
unfoldable pub btree_insert : List Text → Text → List Text
unfolding text_lt
btree_insert [] x = x ∷ []
btree_insert (y ∷ ys) x =
    let rest = btree_insert ys x in
    if x == y then y ∷ ys else if text_lt x y then x ∷ y ∷ ys else y ∷ rest

unfoldable pub btree_collect : List Text → List Text
btree_collect [] = []
btree_collect (x ∷ xs) = btree_insert (btree_collect xs) x

unfoldable pub can_remove : PinDocument → Bool
can_remove d = not d.is_direct && not (is_set d.is_recursive) && is_empty d.indirect_by

unfoldable pub mode : PinDocument → Option PinMode
mode d =
    if is_set d.is_recursive
    then some recursive
    else if not (is_empty d.indirect_by)
    then some indirect
    else if d.is_direct
    then some direct
    else none

-- The document with the text of a root added to those it is pinned by or removed, and whether it was
-- modified.
unfoldable pub update_indirect : Bool → Text → PinDocument → Bool × PinDocument
update_indirect add root d =
    if is_empty d.indirect_by
    then if add then (true, record d { indirect_by = root ∷ [] }) else (false, d)
    else let set = btree_collect d.indirect_by in
      if add
      then (not (Set.contains set root), record d { indirect_by = btree_insert set root })
      else (Set.contains set root, record d { indirect_by = Set.remove set root })

unfoldable pub update_direct : Bool → PinDocument → Result PinUpdateError (Bool × PinDocument)
update_direct add d =
    if is_set d.is_recursive && not d.is_direct && add
    then err already_pinned_recursive
    else if not add && not d.is_direct
    then (if not (is_set d.is_recursive)
        then err cannot_unpin_unpinned
        else err cannot_unpin_direct_on_recursively_pinned)
    else ok (if add then not d.is_direct else d.is_direct, record d { is_direct = add })

unfoldable pub update_intention : Bool → PinDocument → Result PinUpdateError (Bool × PinDocument)
update_intention true d = elim d.is_recursive [
  | count n ↦ err already_pinned_recursive
  | intent ↦ ok (false, d)
  | not_recursive ↦ ok (true, record d { is_recursive = intent; is_direct = false })
]
update_intention false d = elim d.is_recursive [
  | count n ↦ ok (true, record d { is_recursive = not_recursive })
  | intent ↦ ok (true, record d { is_recursive = not_recursive })
  | not_recursive ↦ ok (false, d)
]

unfoldable pub update_recursive :
    Bool → ℕ → PinDocument → Result PinUpdateError (Bool × PinDocument)
update_recursive true descendants d = elim d.is_recursive [
  | count other ↦
      if nat_beq other descendants
      then ok (false, d)
      else err (unexpected_number_of_descendants other descendants)
  | intent ↦ ok (true, record d { is_recursive = count descendants; is_direct = false })
  | not_recursive ↦ ok (true, record d { is_recursive = count descendants; is_direct = false })
]
update_recursive false descendants d = elim d.is_recursive [
  | count other ↦
      if nat_beq other descendants
      then ok (true, record d { is_recursive = not_recursive })
      else err (unexpected_number_of_descendants other descendants)
  | intent ↦ ok (true, record d { is_recursive = not_recursive })
  | not_recursive ↦ err not_pinned_recursive
]
