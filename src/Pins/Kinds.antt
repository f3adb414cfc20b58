-- ===== src/Pins/Kinds.antt =====
-- The kinds of pins and the modes that they stand for.
use rust_ipfs.Base.{
  list_eq, ℕ, Bool, true, false, ◌≡◌, refl, inl, inr, Option, none, some, List, [], ◌∷◌, arith,
  if◌then◌else◌, Eq, nat_eq, nat_beq, Option-cases,
}
use rust_ipfs.Pins.{
  can_remove, is_set, not_recursive, intent, count, Recursive, Text, PinMode, indirect, direct,
  recursive, PinKind, indirect_from, direct_kind, recursive_kind, recursive_intention, PinDocument,
  ok, Cids, Json, mode,
}
use rust_ipfs.Pins.Store.{mode_beq, kind_mode_beq, pick_kind}
use rust_ipfs.Pins.Documents.{IsFine}

-- The modes told apart by a number.
abbrev pub number : PinMode → ℕ
number indirect = 0
number direct = 1
number recursive = 2

pub mode_beq-eq-number : (m one : PinMode) → mode_beq m one ≡ nat_beq (number m) (number one)
unfolding mode_beq
mode_beq-eq-number indirect indirect = refl
mode_beq-eq-number indirect direct = refl
mode_beq-eq-number indirect recursive = refl
mode_beq-eq-number direct indirect = refl
mode_beq-eq-number direct direct = refl
mode_beq-eq-number direct recursive = refl
mode_beq-eq-number recursive indirect = refl
mode_beq-eq-number recursive direct = refl
mode_beq-eq-number recursive recursive = refl

-- A mode that a requirement leaves.
abbrev pub narrowed : Option PinMode → Option PinMode → Option PinMode
narrowed needed none = none
narrowed none (some m) = some m
narrowed (some one) (some m) = if nat_beq (number m) (number one) then some m else none

pub narrowed-none : (m : Option PinMode) → narrowed none m ≡ m
narrowed-none none = refl
narrowed-none (some m) = refl

-- The mode that a kind of pin stands for.
abbrev pub mode_of : {Cid : Type 0} → PinKind Cid → PinMode
mode_of (indirect_from c) = indirect
mode_of direct_kind = direct
mode_of (recursive_kind n) = recursive
mode_of recursive_intention = recursive

pub kind_mode_beq-eq-mode_of :
    {Cid : Type 0} (kind : PinKind Cid) (one : PinMode)
    → kind_mode_beq kind one ≡ mode_beq (mode_of kind) one
unfolding kind_mode_beq mode_beq
kind_mode_beq-eq-mode_of (indirect_from c) one = elim one [
  | indirect ↦ refl
  | direct ↦ refl
  | recursive ↦ refl
]
kind_mode_beq-eq-mode_of direct_kind one = elim one [
  | indirect ↦ refl
  | direct ↦ refl
  | recursive ↦ refl
]
kind_mode_beq-eq-mode_of (recursive_kind n) one = elim one [
  | indirect ↦ refl
  | direct ↦ refl
  | recursive ↦ refl
]
kind_mode_beq-eq-mode_of recursive_intention one = elim one [
  | indirect ↦ refl
  | direct ↦ refl
  | recursive ↦ refl
]

pub mode_same : (m n : PinMode) → mode_beq m n ≡ true → m ≡ n
unfolding mode_beq
mode_same indirect indirect h = refl
mode_same direct direct h = refl
mode_same recursive recursive h = refl
mode_same indirect direct h = ground (arith, h)
mode_same indirect recursive h = ground (arith, h)
mode_same direct indirect h = ground (arith, h)
mode_same direct recursive h = ground (arith, h)
mode_same recursive indirect h = ground (arith, h)
mode_same recursive direct h = ground (arith, h)

pub mode_beq_refl : (m : PinMode) → mode_beq m m ≡ true
unfolding mode_beq
mode_beq_refl indirect = refl
mode_beq_refl direct = refl
mode_beq_refl recursive = refl

module _ {Cid : Type 0} ⦃e : Eq Cid⦄ (cids : Cids Cid) (json : Json) where
  abbrev document : ℕ → Bool → Recursive → ℕ → List Text → PinDocument
  document v b set w by = record {
    version = v;
    is_direct = b;
    is_recursive = set;
    cid_version = w;
    indirect_by = by;
  }

  -- A kind and the mode that it stands for.
  abbrev pub Picks : PinDocument → Type 0
  Picks d =
      (m : PinMode) × (kind : PinKind Cid) × (mode d ≡ some m)
      × (pick_kind cids json d ≡ some (ok kind))
      × ((one : PinMode) → kind_mode_beq kind one ≡ mode_beq m one)

  pick_fields :
      (v w : ℕ) (b : Bool) (set : Recursive) (by : List Text)
      → IsFine cids json (document v b set w by)
      → can_remove (document v b set w by) ≡ false
      → Picks (document v b set w by)
  unfolding can_remove mode pick_kind is_set kind_mode_beq mode_beq
  pick_fields v w b (count n) by fine stays = (
    recursive,
    recursive_kind n,
    refl,
    refl,
    λ one. elim one [ indirect ↦ refl | direct ↦ refl | recursive ↦ refl ],
  )
  pick_fields v w b intent by fine stays = (
    recursive,
    recursive_intention,
    refl,
    refl,
    λ one. elim one [ indirect ↦ refl | direct ↦ refl | recursive ↦ refl ],
  )
  pick_fields v w true not_recursive [] fine stays = (
    direct,
    direct_kind,
    refl,
    refl,
    λ one. elim one [ indirect ↦ refl | direct ↦ refl | recursive ↦ refl ],
  )
  pick_fields v w false not_recursive [] fine stays = cc
  pick_fields v w b not_recursive (t ∷ by) fine stays = elim (Option-cases (cids.from_text t)) [
    | inl gone ↦ ground (arith, gone, fine.1.0)
    | inr (c, read) ↦ (
      indirect,
      indirect_from c,
      refl,
      rw read refl,
      λ one. elim one [ indirect ↦ refl | direct ↦ refl | recursive ↦ refl ],
    )
  ]

  pub pick_kind_lem : (d : PinDocument) → IsFine cids json d → can_remove d ≡ false → Picks d
  pick_kind_lem d fine stays =
      pick_fields d.version d.cid_version d.is_direct d.is_recursive d.indirect_by fine stays
