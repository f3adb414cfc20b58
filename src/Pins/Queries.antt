-- ===== src/Pins/Queries.antt =====
-- `list` and `query` on the same store.
use rust_ipfs.Base.{
  list_eq, ℕ, Bool, true, false, ◌≡◌, refl, sym, ap, ◌∙◌, inl, inr, Option, none, some, List, [],
  ◌∷◌, arith, if◌then◌else◌, All, Eq, nat_eq, nat_beq, ◌==◌, Option-cases, Bool-cases, if_elim,
  is_some,
}
use rust_ipfs.Base.Map
use rust_ipfs.Base.Map.{Map}
use rust_ipfs.Pins.{
  PinMode, PinKind, PinDocument, PinError, is_not_pinned, is_not_pinned_as, Result, ok, err, Cids,
  Json, mode,
}
use rust_ipfs.Pins.Store.{
  Store, mode_beq, kind_mode_beq, requirement, pick_kind, list_entry, is_listed, list, query_one,
  query,
}
use rust_ipfs.Pins.Validity.{IsPin, IsValid, get-AllValues}
use rust_ipfs.Pins.Reachable.{Reach, Reach-IsValid_store, Reach-HasKeys}
use rust_ipfs.Pins.Kinds.{
  number, mode_beq-eq-number, narrowed, narrowed-none, mode_of, kind_mode_beq-eq-mode_of, mode_same,
  mode_beq_refl, pick_kind_lem,
}

module _ {Cid : Type 0} ⦃e : Eq Cid⦄ (cids : Cids Cid) (json : Json) where
  -- The mode that a listing gives for a content id.
  abbrev pub listed : List (Result (PinError Cid) (Cid × PinMode)) → Cid → Option PinMode
  listed [] c = none
  listed (err failed ∷ entries) c = listed entries c
  listed (ok entry ∷ entries) c = if entry.0 == c then some entry.1 else listed entries c

  -- The error for a content id that is not listed.
  abbrev pub refusal : Option PinMode → Cid → Option (List ℕ) → PinError Cid
  refusal needed c none = is_not_pinned c
  refusal none c (some raw) = is_not_pinned c
  refusal (some one) c (some raw) = is_not_pinned_as c one

  -- The answer of a query for what is stored with this mode.
  abbrev answer :
      Option PinMode → Cid → PinMode → PinKind Cid → Result (PinError Cid) (Cid × PinKind Cid)
  answer none c m kind = ok (c, kind)
  answer (some one) c m kind =
      if nat_beq (number m) (number one) then ok (c, kind) else err (is_not_pinned_as c one)

  query_one-answer :
      (g : Store Cid) (needed : Option PinMode) (c : Cid) (raw : List ℕ) (d : PinDocument)
      (m : PinMode) (kind : PinKind Cid)
      → Map.get g c ≡ some raw
      → json.from_slice raw ≡ some d
      → pick_kind cids json d ≡ some (ok kind)
      → ((one : PinMode) → kind_mode_beq kind one ≡ mode_beq m one)
      → query_one cids json g needed c ≡ answer needed c m kind
  unfolding query_one
  query_one-answer g none c raw d m kind found read picked same =
      rw (query_one, found, read, picked) refl
  query_one-answer g (some one) c raw d m kind found read picked same =
      rw (query_one, found, read, picked, same one, mode_beq-eq-number m one) refl

  -- The mode of what is stored.
  abbrev stored_mode : Option (List ℕ) → Option PinMode
  stored_mode none = none
  stored_mode (some raw) = elim (json.from_slice raw) [ none ↦ none | some d ↦ mode d ]

  -- What `list` and `query` make of a stored document.
  abbrev Reads : Cid → List ℕ → Type 0
  Reads c raw =
      (m : PinMode) × (kind : PinKind Cid) × (list_entry cids json (c, raw) ≡ ok (c, m))
      × (mode_of kind ≡ m)
      × (stored_mode (some raw) ≡ some m)
      × ((g : Store Cid) (needed : Option PinMode)
          → Map.get g c ≡ some raw
          → query_one cids json g needed c ≡ answer needed c m kind)

  IsPin-Reads : (c : Cid) (raw : List ℕ) → IsPin cids json raw → Reads c raw
  unfolding list_entry
  IsPin-Reads c raw (d, read, fine, stays) =
      let (m, kind, is_mode, picked, same) = pick_kind_lem cids json d fine stays in
      (
        m,
        kind,
        rw (list_entry, read, is_mode) refl,
        mode_same (mode_of kind) m
            (sym (kind_mode_beq-eq-mode_of kind m) ∙ same m ∙ mode_beq_refl m),
        rw (stored_mode, read) is_mode,
        λ g needed found. query_one-answer g needed c raw d m kind found read picked same,
      )

  stored_mode-is_some :
      (g : Store Cid) (c : Cid)
      → IsValid cids json g
      → is_some (stored_mode (Map.get g c)) ≡ is_some (Map.get g c)
  stored_mode-is_some g c a = elim (Option-cases (Map.get g c)) [
    | inl gone ↦ rw gone refl
    | inr (raw, found) ↦
        let (m, kind, entry, is_kind, is_mode, answers) =
          IsPin-Reads c raw (get-AllValues (IsPin cids json) g c raw a found) in
        rw found (ap is_some is_mode)
  ]

  is_listed-narrowed :
      (needed : Option PinMode) (k : Cid) (m : PinMode) (rest : Option PinMode)
      → rest ≡ none
      → (if is_listed cids json (requirement needed) (ok (k, m)) then some m else rest)
        ≡ narrowed needed (some m)
  unfolding is_listed
  is_listed-narrowed none k m rest gone = refl
  is_listed-narrowed (some one) k m rest gone = rw (mode_beq-eq-number m one, gone) refl

  -- One more entry of a listing.
  listed_step :
      (b : Bool) (k c : Cid) (m : PinMode) (ls : List (Result (PinError Cid) (Cid × PinMode)))
      → listed (if b then ok (k, m) ∷ ls else ls) c
        ≡ (if k == c then (if b then some m else listed ls c) else listed ls c)
  listed_step true k c m ls = refl
  listed_step false k c m ls = ground arith

  listed-list :
      (g : Store Cid) (needed : Option PinMode) (c : Cid)
      → IsValid cids json g
      → Map.HasKeys g
      → listed (list cids json g needed) c ≡ narrowed needed (stored_mode (Map.get g c))
  unfolding list Map.get Map.keys
  listed-list [] needed c a keys = refl
  listed-list ((k, raw) ∷ g) needed c a keys =
      let (m, kind, entry, is_kind, is_mode, answers) = IsPin-Reads k raw a.0 in
      let ih = listed-list g needed c a.1 keys.1 in
      let kept = is_listed cids json (requirement needed) (ok (k, m)) in
      rw (entry, listed_step kept k c m (list cids json g needed))
        (elim (Bool-cases (k == c)) [
          | inl same ↦
              let gone : Map.get g c ≡ none =
                ground (arith, keys.0, Map.contains-keys g k, Map.get_same g k c) in
              rw (same, is_mode)
                (is_listed-narrowed needed k m (listed (list cids json g needed) c)
                  (ih ∙ rw gone refl))
          | inr other ↦ rw other ih
        ])

  -- The listing has no error in it.
  abbrev pub IsOk : Result (PinError Cid) (Cid × PinMode) → Type 0
  IsOk r = (entry : Cid × PinMode) × (r ≡ ok entry)

  list-IsOk :
      (g : Store Cid) (needed : Option PinMode)
      → IsValid cids json g
      → All IsOk (list cids json g needed)
  unfolding list
  list-IsOk [] needed a = tt
  list-IsOk ((k, raw) ∷ g) needed a =
      let (m, kind, entry, is_kind, is_mode, answers) = IsPin-Reads k raw a.0 in
      let rest = list-IsOk g needed a.1 in
      if_elim (All IsOk) (is_listed cids json (requirement needed) (list_entry cids json (k, raw)))
        (list_entry cids json (k, raw) ∷ list cids json g needed) (list cids json g needed)
        (((k, m), entry), rest) rest

  abbrev pub Answered : Type 0
  Answered = Result (PinError Cid) (List (Cid × PinKind Cid))

  -- The answer for a content id and for those after it: where it is listed, a pin of the listed mode
  -- before the answer for those, if that is no error, else the refusal.
  abbrev pub AnswersNext :
      Cid → Option PinMode → PinError Cid → (Answered → Type 0) → Answered → Type 0
  AnswersNext c none refused Rest r = r ≡ err refused
  AnswersNext c (some m) refused Rest r =
      (kind : PinKind Cid) × (rest : Answered) × (mode_of kind ≡ m)
      × Rest rest
      × (r ≡ (elim rest [ err failed ↦ err failed | ok entries ↦ ok ((c, kind) ∷ entries) ]))

  abbrev pub Answers : Store Cid → Option PinMode → List Cid → Answered → Type 0
  Answers g needed [] r = r ≡ ok []
  Answers g needed (c ∷ cs) r =
      AnswersNext c (listed (list cids json g needed) c) (refusal needed c (Map.get g c))
        (Answers g needed cs) r

  abbrev next_answer : Result (PinError Cid) (Cid × PinKind Cid) → Answered → Answered
  next_answer r rest = elim r [
    | err failed ↦ err failed
    | ok entry ↦ elim rest [ err failed ↦ err failed | ok entries ↦ ok (entry ∷ entries) ]
  ]

  next_answer-AnswersNext :
      (needed : Option PinMode) (c : Cid) (raw : List ℕ) (m : PinMode) (kind : PinKind Cid)
      (Rest : Answered → Type 0) (rest : Answered)
      → mode_of kind ≡ m
      → Rest rest
      → AnswersNext c
          (narrowed needed (some m))
          (refusal needed c (some raw))
          Rest
          (next_answer (answer needed c m kind) rest)
  next_answer-AnswersNext none c raw m kind Rest rest is_kind h = (kind, rest, is_kind, h, refl)
  next_answer-AnswersNext (some one) c raw m kind Rest rest is_kind h =
      elim (Bool-cases (nat_beq (number m) (number one))) [
        | inl same ↦ rw same (kind, rest, is_kind, h, refl)
        | inr other ↦ rw other refl
      ]

  query-Answers :
      (g : Store Cid) (needed : Option PinMode) (cs : List Cid)
      → IsValid cids json g
      → Map.HasKeys g
      → Answers g needed cs (query cids json g needed cs)
  unfolding query query_one
  query-Answers g needed [] a keys = refl
  query-Answers g needed (c ∷ cs) a keys =
      let rest = query cids json g needed cs in
      let ih = query-Answers g needed cs a keys in
      let shown = listed-list g needed c a keys in
      elim (Option-cases (Map.get g c)) [
        | inl gone ↦
            let step : query cids json g needed (c ∷ cs) ≡ err (is_not_pinned c) =
              rw (query, query_one, gone) refl in
            rw (shown, gone) step
        | inr (raw, found) ↦
            let (m, kind, entry, is_kind, is_mode, answers) =
              IsPin-Reads c raw (get-AllValues (IsPin cids json) g c raw a found) in
            let step : query cids json g needed (c ∷ cs)
                ≡ next_answer (answer needed c m kind) rest =
              rw (query, answers g needed found) refl in
            let shown_mode : listed (list cids json g needed) c ≡ narrowed needed (some m) =
              shown ∙ ap (narrowed needed) (ap stored_mode found ∙ is_mode) in
            rw (shown_mode, found, step)
              (next_answer-AnswersNext needed c raw m kind (Answers g needed cs) rest is_kind ih)
      ]

  -- `list` and `query` on a store that calls lead to. Without a requirement exactly the stored content ids are listed, and with one those of that mode; no entry
  -- is an error. `query` takes the content ids one after the other: for a listed one it gives a pin of
  -- the mode that is listed, and it fails at the first one that is not listed, with the error that it
  -- is not pinned, or not as required where it is pinned otherwise.
  pub list_query_lem :
      (g : Store Cid) (needed : Option PinMode) (c : Cid) (cs : List Cid)
      → Reach cids json g
      → (is_some (listed (list cids json g none) c) ≡ is_some (Map.get g c))
        × (listed (list cids json g needed) c ≡ narrowed needed (listed (list cids json g none) c))
        × All IsOk (list cids json g needed)
        × Answers g needed cs (query cids json g needed cs)
  list_query_lem g needed c cs reach =
      let keys = Reach-HasKeys cids json g reach in
      let a = Reach-IsValid_store cids json g reach in
      let every : listed (list cids json g none) c ≡ stored_mode (Map.get g c) =
        listed-list g none c a keys ∙ narrowed-none (stored_mode (Map.get g c)) in
      (
        ap is_some every ∙ stored_mode-is_some g c a,
        listed-list g needed c a keys ∙ ap (narrowed needed) (sym every),
        list-IsOk g needed a,
        query-Answers g needed cs a keys,
      )
