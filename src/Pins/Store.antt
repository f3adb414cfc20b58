-- ===== src/Pins/Store.antt =====
-- src/repo/datastore/memory.rs: the operations of the pin store on its documents.
use rust_ipfs.Base.{
  ℕ, ◌+◌, Bool, true, false, not, Option, none, some, List, [], ◌∷◌, map, if◌then◌else◌, retain, Eq,
  nat_eq, list_eq,
}
use rust_ipfs.Base.Map
use rust_ipfs.Base.Map.{Map}
use rust_ipfs.Pins.{
  PinMode, indirect, direct, recursive, PinModeRequirement, only, any, PinKind, indirect_from,
  direct_kind, recursive_kind, recursive_intention, count, intent, not_recursive, PinDocument,
  PinUpdateError, PinError, update_error, unwrap_panic, json_error, cid_error, invalid_mode,
  not_pinned, not_pinned_or_indirect, pinned_through, is_not_pinned, is_not_pinned_as, Result, ok,
  err, Cids, Json, can_remove, mode, update_indirect, update_direct, update_intention,
  update_recursive,
}

abbrev pub Store : Type 0 → Type 0
Store Cid = Map Cid (List ℕ)

unfoldable pub mode_beq : PinMode → PinMode → Bool
mode_beq indirect indirect = true
mode_beq direct direct = true
mode_beq recursive recursive = true
mode_beq indirect direct = false
mode_beq indirect recursive = false
mode_beq direct indirect = false
mode_beq direct recursive = false
mode_beq recursive indirect = false
mode_beq recursive direct = false

unfoldable pub kind_mode_beq : {Cid : Type 0} → PinKind Cid → PinMode → Bool
kind_mode_beq (indirect_from c) indirect = true
kind_mode_beq (indirect_from c) direct = false
kind_mode_beq (indirect_from c) recursive = false
kind_mode_beq direct_kind indirect = false
kind_mode_beq direct_kind direct = true
kind_mode_beq direct_kind recursive = false
kind_mode_beq (recursive_kind n) indirect = false
kind_mode_beq (recursive_kind n) direct = false
kind_mode_beq (recursive_kind n) recursive = true
kind_mode_beq recursive_intention indirect = false
kind_mode_beq recursive_intention direct = false
kind_mode_beq recursive_intention recursive = true

-- `PinModeRequirement::from` and `matches`, with the comparison of what is matched.
abbrev pub requirement : Option PinMode → PinModeRequirement
requirement none = any
requirement (some one) = only one

abbrev pub matches : (PinMode → Bool) → PinModeRequirement → Bool
matches is (only one) = is one
matches is any = true

module _ {Cid : Type 0} ⦃e : Eq Cid⦄ (cids : Cids Cid) (json : Json) where
  abbrev pub to_v1 : Cid → Cid
  to_v1 c = if cids.is_v1 c then c else cids.new_v1 c

  unfoldable pub update :
      Bool → PinKind Cid → PinDocument → Result PinUpdateError (Bool × PinDocument)
  update add (indirect_from root) d = ok (update_indirect add (cids.to_text (to_v1 root)) d)
  update add direct_kind d = update_direct add d
  update add recursive_intention d = update_intention add d
  update add (recursive_kind n) d = update_recursive add n d

  unfoldable pub pick_kind : PinDocument → Option (Result (PinError Cid) (PinKind Cid))
  pick_kind d = elim (mode d) [
    | none ↦ none
    | some m ↦ elim m [
      | recursive ↦ elim d.is_recursive [
        | count n ↦ some (ok (recursive_kind n))
        | intent ↦ some (ok recursive_intention)
        | not_recursive ↦ none
      ]
      | indirect ↦ elim d.indirect_by [
        | [] ↦ none
        | text ∷ more ↦ elim (cids.from_text text) [
          | none ↦ some (err cid_error)
          | some c ↦ some (ok (indirect_from c))
        ]
      ]
      | direct ↦ some (ok direct_kind)
    ]
  ]

  abbrev pub new_document : Cid → PinDocument
  new_document target = record {
    version = 0;
    is_direct = false;
    is_recursive = not_recursive;
    cid_version = if cids.is_v1 target then 1 else 0;
    indirect_by = [];
  }

  unfoldable pub insert_pin : Store Cid → Cid → PinKind Cid → Result (PinError Cid) Bool × Store Cid
  insert_pin g target kind = elim (Map.get g target) [
    | none ↦ elim (update true kind (new_document target)) [
      | err failed ↦ (err (unwrap_panic failed), g)
      | ok r ↦ (ok true, Map.insert g target (json.to_vec r.1))
    ]
    | some raw ↦ elim (json.from_slice raw) [
      | none ↦ (err json_error, g)
      | some d ↦ elim (update true kind d) [
        | err failed ↦ (err (update_error failed), g)
        | ok r ↦ if r.0 then (ok true, Map.insert g target (json.to_vec r.1)) else (ok false, g)
      ]
    ]
  ]

  unfoldable pub remove_pin : Store Cid → Cid → PinKind Cid → Result (PinError Cid) Bool × Store Cid
  remove_pin g target kind = elim (Map.get g target) [
    | none ↦ (err not_pinned, g)
    | some raw ↦ elim (json.from_slice raw) [
      | none ↦ (err json_error, g)
      | some d ↦ elim (update false kind d) [
        | err failed ↦ (err (update_error failed), g)
        | ok r ↦
            if not r.0
            then (ok false, g)
            else if can_remove r.1
            then (ok true, Map.remove g target)
            else (ok true, Map.insert g target (json.to_vec r.1))
      ]
    ]
  ]

  unfoldable pub is_pinned : Store Cid → Cid → Bool
  is_pinned g block = Map.contains_key g block

  -- `?` on a result whose value is dropped.
  abbrev pub and_then :
      Result (PinError Cid) Bool × Store Cid
      → (Store Cid → Result (PinError Cid) Unit × Store Cid)
      → Result (PinError Cid) Unit × Store Cid
  and_then r f = elim r.0 [ err failed ↦ (err failed, r.1) | ok b ↦ f r.1 ]

  unfoldable pub insert_direct_pin : Store Cid → Cid → Result (PinError Cid) Unit × Store Cid
  insert_direct_pin g target = and_then (insert_pin g target direct_kind) (λ g. (ok tt, g))

  unfoldable pub remove_direct_pin : Store Cid → Cid → Result (PinError Cid) Unit × Store Cid
  remove_direct_pin g target = and_then (remove_pin g target direct_kind) (λ g. (ok tt, g))

  -- The loop over the stream of references, an entry of which may be an error, and the number of
  -- those before its end.
  unfoldable pub insert_refs :
      Store Cid
      → PinKind Cid
      → List (Result (PinError Cid) Cid)
      → ℕ
      → Result (PinError Cid) ℕ × Store Cid
  insert_refs g kind [] n = (ok n, g)
  insert_refs g kind (err failed ∷ refs) n = (err failed, g)
  insert_refs g kind (ok next ∷ refs) n =
      let r = insert_pin g next kind in
      elim r.0 [ err failed ↦ (err failed, r.1) | ok b ↦ insert_refs r.1 kind refs (n + 1) ]

  unfoldable pub insert_recursive_pin :
      Store Cid → Cid → List (Result (PinError Cid) Cid) → Result (PinError Cid) Unit × Store Cid
  insert_recursive_pin g target refs = and_then (insert_pin g target recursive_intention) λ g.
      let r = insert_refs g (indirect_from (to_v1 target)) refs 0 in
      elim r.0 [
        | err failed ↦ (err failed, r.1)
        | ok n ↦ and_then (insert_pin r.1 target (recursive_kind n)) (λ g. (ok tt, g))
      ]

  unfoldable pub remove_refs :
      Store Cid
      → PinKind Cid
      → List (Result (PinError Cid) Cid)
      → Result (PinError Cid) Unit × Store Cid
  remove_refs g kind [] = (ok tt, g)
  remove_refs g kind (err failed ∷ refs) = (err failed, g)
  remove_refs g kind (ok next ∷ refs) =
      let r = remove_pin g next kind in
      elim r.0 [ err failed ↦ (err failed, r.1) | ok b ↦ remove_refs r.1 kind refs ]

  unfoldable pub remove_recursive_kind :
      Store Cid
      → Cid
      → PinKind Cid
      → List (Result (PinError Cid) Cid)
      → Result (PinError Cid) Unit × Store Cid
  remove_recursive_kind g target kind refs =
      and_then (remove_pin g target kind) (λ g. remove_refs g (indirect_from (to_v1 target)) refs)

  unfoldable pub remove_picked :
      Store Cid
      → Cid
      → PinKind Cid
      → List (Result (PinError Cid) Cid)
      → Result (PinError Cid) Unit × Store Cid
  remove_picked g target (recursive_kind n) refs =
      remove_recursive_kind g target (recursive_kind n) refs
  remove_picked g target recursive_intention refs =
      remove_recursive_kind g target recursive_intention refs
  remove_picked g target direct_kind refs =
      and_then (remove_pin g target direct_kind) (λ g. (ok tt, g))
  remove_picked g target (indirect_from c) refs = (err (pinned_through c), g)

  unfoldable pub remove_recursive_pin :
      Store Cid → Cid → List (Result (PinError Cid) Cid) → Result (PinError Cid) Unit × Store Cid
  remove_recursive_pin g target refs = elim (Map.get g target) [
    | none ↦ (err not_pinned_or_indirect, g)
    | some raw ↦ elim (json.from_slice raw) [
      | none ↦ (err json_error, g)
      | some d ↦ elim (pick_kind d) [
        | none ↦ (err not_pinned_or_indirect, g)
        | some picked ↦ elim picked [
          | err failed ↦ (err not_pinned_or_indirect, g)
          | ok kind ↦ remove_picked g target kind refs
        ]
      ]
    ]
  ]

  unfoldable pub list_entry : Cid × List ℕ → Result (PinError Cid) (Cid × PinMode)
  list_entry entry = elim (json.from_slice entry.1) [
    | none ↦ err json_error
    | some d ↦ elim (mode d) [ none ↦ err invalid_mode | some m ↦ ok (entry.0, m) ]
  ]

  unfoldable pub is_listed : PinModeRequirement → Result (PinError Cid) (Cid × PinMode) → Bool
  is_listed needed (err failed) = true
  is_listed needed (ok entry) = matches (mode_beq entry.1) needed

  unfoldable pub list : Store Cid → Option PinMode → List (Result (PinError Cid) (Cid × PinMode))
  list g needed = retain (is_listed (requirement needed)) (map list_entry g)

  unfoldable pub query_one :
      Store Cid → Option PinMode → Cid → Result (PinError Cid) (Cid × PinKind Cid)
  query_one g needed cid = elim (Map.get g cid) [
    | none ↦ err (is_not_pinned cid)
    | some raw ↦ elim (json.from_slice raw) [
      | none ↦ err json_error
      | some d ↦ elim (pick_kind d) [
        | none ↦ err (is_not_pinned cid)
        | some picked ↦ elim picked [
          | err failed ↦ err failed
          | ok kind ↦ elim needed [
            | none ↦ ok (cid, kind)
            | some one ↦
                if kind_mode_beq kind one then ok (cid, kind) else err (is_not_pinned_as cid one)
          ]
        ]
      ]
    ]
  ]

  unfoldable pub query :
      Store Cid → Option PinMode → List Cid → Result (PinError Cid) (List (Cid × PinKind Cid))
  query g needed [] = ok []
  query g needed (c ∷ cs) =
      let rest = query g needed cs in
      elim (query_one g needed c) [
        | err failed ↦ err failed
        | ok entry ↦ elim rest [ err failed ↦ err failed | ok entries ↦ ok (entry ∷ entries) ]
      ]
