-- ===== src/Bitswap/Wantlist.antt =====
-- packages/beetle-bitswap-next/src/client/wantlist.rs, and `WantType` of src/message.rs: the list
-- of wanted blocks, with a sorted copy that is computed on demand. An `Arc` around an entry leaves
-- no trace, and `shrink_to_fit` frees memory only.
pub mod Sorting
pub mod Invariant
pub mod Merging
pub mod Tests
use mathlib.Core.List.{reverse}
use rust_ipfs.Base.{
  ℕ, Bool, true, false, ◌||◌, ◌&&◌, not, Option, none, some, List, [], ◌∷◌, ◌++◌, if◌then◌else◌,
  is_empty, is_some, length, Eq, ◌==◌,
}
use rust_ipfs.Base.Int.{ℤ, leb_ℤ}
use rust_ipfs.Base.Map
use rust_ipfs.Base.Map.{Map}

pub data WantType : Type 0 where
  block have : WantType

abbrev pub is_block : WantType → Bool
is_block block = true
is_block have = false

-- Adding a want-have does not override a want-block.
abbrev pub is_kept : WantType → WantType → Bool
is_kept old new = is_block old || not (is_block new)

-- `InnerEntry`
pub record Entry (Cid : Type 0) : Type 0 where
  pub cid : Cid
  pub priority : ℤ
  pub want_type : WantType

pub record Wantlist (Cid : Type 0) : Type 0 where
  pub set : Map Cid (Entry Cid)
  pub cached : List (Entry Cid)

-- `sort_by_cached_key(|e| e.priority)`: the standard library's stable sort, ascending.
module _ {Cid : Type 0} where
  insert_sorted : Entry Cid → List (Entry Cid) → List (Entry Cid)
  insert_sorted e [] = e ∷ []
  insert_sorted e (f ∷ fs) =
      if leb_ℤ e.priority f.priority then e ∷ f ∷ fs else f ∷ insert_sorted e fs

  unfoldable pub sort_by_priority : List (Entry Cid) → List (Entry Cid)
  unfolding insert_sorted
  sort_by_priority [] = []
  sort_by_priority (e ∷ es) = insert_sorted e (sort_by_priority es)

  unfoldable pub entry : Cid → ℤ → WantType → Entry Cid
  entry cid priority want_type = record { cid = cid; priority = priority; want_type = want_type }

  unfoldable pub empty : Wantlist Cid
  empty = record { set = []; cached = [] }

  unfoldable pub len : Wantlist Cid → ℕ
  len w = length w.set

  unfoldable pub clear : Wantlist Cid → Wantlist Cid
  clear w = record { set = []; cached = [] }

  -- The entries by descending priority, from the cache if there is one.
  unfoldable pub entries : Wantlist Cid → Wantlist Cid × List (Entry Cid)
  unfolding sort_by_priority Map.values
  entries w =
      if is_empty w.cached
      then (
        record w { cached = reverse (sort_by_priority (Map.values w.set)) },
        reverse (sort_by_priority (Map.values w.set)),
      )
      else (w, w.cached)

module _ {Cid : Type 0} ⦃e : Eq Cid⦄ where
  unfoldable pub get : Wantlist Cid → Cid → Option (Entry Cid)
  get w cid = Map.get w.set cid

  unfoldable pub contains : Wantlist Cid → Cid → Bool
  contains w cid = Map.contains_key w.set cid

  unfoldable pub add : Wantlist Cid → Cid → ℤ → WantType → Wantlist Cid × Bool
  unfolding entry
  add w cid priority want_type = elim (Map.get w.set cid) [
    | none ↦
        (record { set = Map.insert w.set cid (entry cid priority want_type); cached = [] }, true)
    | some old ↦ if is_kept old.want_type want_type then (w, false) else (
      record { set = Map.insert w.set cid (entry cid priority want_type); cached = [] },
      true,
    )
  ]

  unfoldable pub remove : Wantlist Cid → Cid → Wantlist Cid × Option (Entry Cid)
  remove w cid = (record { set = Map.remove w.set cid; cached = [] }, Map.get w.set cid)

  -- Cancelling a want-have leaves a want-block in place.
  unfoldable pub remove_type : Wantlist Cid → Cid → WantType → Wantlist Cid × Option (Entry Cid)
  remove_type w cid want_type = elim (Map.get w.set cid) [
    | none ↦ (w, none)
    | some old ↦
        if is_block old.want_type && not (is_block want_type)
        then (w, none)
        else (record { set = Map.remove w.set cid; cached = [] }, some old)
  ]

  -- One round of the loop of `extend`.
  merge_entry : Map Cid (Entry Cid) → Cid → Entry Cid → Map Cid (Entry Cid)
  merge_entry set cid new = elim (Map.get set cid) [
    | none ↦ Map.insert set cid new
    | some old ↦ if is_kept old.want_type new.want_type then set else Map.insert set cid new
  ]

  merge_entries : Map Cid (Entry Cid) → Map Cid (Entry Cid) → Map Cid (Entry Cid)
  unfolding merge_entry
  merge_entries set [] = set
  merge_entries set ((cid, new) ∷ other) = merge_entries (merge_entry set cid new) other

  unfoldable pub extend : Wantlist Cid → Wantlist Cid → Wantlist Cid
  unfolding merge_entries
  extend w other = record { set = merge_entries w.set other.set; cached = [] }
