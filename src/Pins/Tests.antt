-- ===== src/Pins/Tests.antt =====
-- Runs of the pin store, with numbers as content ids.
use rust_ipfs.Base.{
  is_some, All, ℕ, zero, suc, Bool, true, false, ◌≡◌, refl, ap, ◌∙◌, Option, none, some, List, [],
  ◌∷◌, nat_eq, list_eq,
}
use rust_ipfs.Base.Map
use rust_ipfs.Base.Map.{Map}
use rust_ipfs.Base.Set
use rust_ipfs.Pins.{
  direct, Text, Recursive, count, intent, not_recursive, PinDocument, already_pinned_recursive,
  cannot_unpin_direct_on_recursively_pinned, update_error, ok, err, Cids, Json, is_set, text_lt,
  btree_insert, btree_collect, can_remove, mode, update_indirect, update_direct, update_intention,
  update_recursive,
}
use rust_ipfs.Pins.Store.{
  query, list, Store, update, pick_kind, insert_pin, remove_pin, is_pinned, insert_direct_pin,
  remove_direct_pin, insert_refs, insert_recursive_pin, remove_refs, remove_recursive_kind,
  remove_picked, remove_recursive_pin,
}
use rust_ipfs.Pins.Validity.{IsValid}
use rust_ipfs.Pins.Reachable.{Reach, Reach-IsValid_store, init, insert_direct, insert_recursive}
use rust_ipfs.Pins.Direct.{remove_direct_pin-insert_direct_pin, direct_pin_refused}
use rust_ipfs.Pins.Contents.{recursion, document}
use rust_ipfs.Pins.Kinds.{narrowed}
use rust_ipfs.Pins.Queries.{listed, IsOk, Answers, list_query_lem}
use rust_ipfs.Pins.RecursivePins.{IsThrough, insert_recursive_pin_lem}

abbrev to_text : ℕ → Text
to_text c = c ∷ []

abbrev from_text : Text → Option ℕ
from_text [] = none
from_text (c ∷ []) = some c
from_text (c ∷ d ∷ t) = none

abbrev numbers : Cids ℕ
numbers = record {
  is_v1 = λ c. true;
  new_v1 = λ c. c;
  to_text = to_text;
  from_text = from_text;
  from_text-to_text = λ c. refl;
}

-- Texts are written with their characters raised by one and a zero at the end.
abbrev write_text : Text → List ℕ → List ℕ
write_text [] rest = 0 ∷ rest
write_text (c ∷ t) rest = suc c ∷ write_text t rest

abbrev write_texts : List Text → List ℕ
write_texts [] = []
write_texts (t ∷ ts) = write_text t (write_texts ts)

abbrev push_char : ℕ → List Text → List Text
push_char c [] = (c ∷ []) ∷ []
push_char c (t ∷ ts) = (c ∷ t) ∷ ts

abbrev read_texts : List ℕ → List Text
read_texts [] = []
read_texts (zero ∷ xs) = [] ∷ read_texts xs
read_texts (suc c ∷ xs) = push_char c (read_texts xs)

read_texts-write_text : (t : Text) (xs : List ℕ) → read_texts (write_text t xs) ≡ t ∷ read_texts xs
read_texts-write_text [] xs = refl
read_texts-write_text (c ∷ t) xs = rw (read_texts-write_text t xs) refl

read_texts-write_texts : (ts : List Text) → read_texts (write_texts ts) ≡ ts
read_texts-write_texts [] = refl
read_texts-write_texts (t ∷ ts) =
    read_texts-write_text t (write_texts ts) ∙ ap (◌∷◌ t) (read_texts-write_texts ts)

abbrev write_bool : Bool → ℕ
write_bool true = 1
write_bool false = 0

abbrev read_bool : ℕ → Bool
read_bool zero = false
read_bool (suc n) = true

abbrev write_recursive : Recursive → ℕ
write_recursive intent = 0
write_recursive not_recursive = 1
write_recursive (count n) = suc (suc n)

abbrev read_recursive : ℕ → Recursive
read_recursive zero = intent
read_recursive (suc zero) = not_recursive
read_recursive (suc (suc n)) = count n

abbrev to_vec : PinDocument → List ℕ
to_vec d =
    d.version
    ∷ write_bool d.is_direct
    ∷ write_recursive d.is_recursive
    ∷ d.cid_version
    ∷ write_texts d.indirect_by

abbrev from_slice : List ℕ → Option PinDocument
from_slice [] = none
from_slice (v ∷ []) = none
from_slice (v ∷ b ∷ []) = none
from_slice (v ∷ b ∷ r ∷ []) = none
from_slice (v ∷ b ∷ r ∷ w ∷ texts) = some (record {
  version = v;
  is_direct = read_bool b;
  is_recursive = read_recursive r;
  cid_version = w;
  indirect_by = read_texts texts;
})

read_bool-write_bool : (b : Bool) → read_bool (write_bool b) ≡ b
read_bool-write_bool true = refl
read_bool-write_bool false = refl

read_recursive-write_recursive : (r : Recursive) → read_recursive (write_recursive r) ≡ r
read_recursive-write_recursive intent = refl
read_recursive-write_recursive not_recursive = refl
read_recursive-write_recursive (count n) = refl

abbrev digits : Json
digits = record {
  to_vec = to_vec;
  from_slice = from_slice;
  from_slice-to_vec = λ d.
      rw
        (
          read_bool-write_bool d.is_direct,
          read_recursive-write_recursive d.is_recursive,
          read_texts-write_texts d.indirect_by,
        )
        refl;
}

-- The roots 7 and 9, of which 7 refers to 9, are pinned, and 9 directly as well.
abbrev pinned : Store ℕ
pinned =
    (insert_direct_pin numbers digits
      (insert_recursive_pin numbers digits [] 7 (ok 9 ∷ ok 8 ∷ [])).1 9).1

pinned-Reach : Reach numbers digits pinned
pinned-Reach =
    insert_direct (insert_recursive_pin numbers digits [] 7 (ok 9 ∷ ok 8 ∷ [])).1 9
      (insert_recursive [] 7 (ok 9 ∷ ok 8 ∷ []) init)

Reach-IsValid_store_example : IsValid numbers digits pinned
Reach-IsValid_store_example = Reach-IsValid_store numbers digits pinned pinned-Reach

remove_direct_pin-insert_direct_pin_example :
    (is_pinned numbers digits (insert_direct_pin numbers digits pinned 3).1 3 ≡ true)
    × (insert_direct_pin numbers digits pinned 3).0 ≡ ok tt
    × remove_direct_pin numbers digits (insert_direct_pin numbers digits pinned 3).1 3
      ≡ (ok tt, pinned)
unfolding Map.get insert_direct_pin insert_pin insert_recursive_pin update update_intention
    insert_refs Map.insert update_recursive update_direct is_set update_indirect
remove_direct_pin-insert_direct_pin_example =
    remove_direct_pin-insert_direct_pin numbers digits pinned 3 refl

direct_pin_refused_example :
    (insert_direct_pin numbers digits pinned 7
      ≡ (err (update_error already_pinned_recursive), pinned))
    × (remove_direct_pin numbers digits pinned 7
        ≡ (err (update_error cannot_unpin_direct_on_recursively_pinned), pinned))
unfolding Map.get insert_direct_pin insert_pin insert_recursive_pin update update_intention
    insert_refs Map.insert update_recursive update_direct is_set update_indirect
direct_pin_refused_example =
    direct_pin_refused numbers digits pinned 7 (0 ∷ 0 ∷ 4 ∷ 1 ∷ [])
      (record {
        version = 0;
        is_direct = false;
        is_recursive = count 2;
        cid_version = 1;
        indirect_by = [];
      })
      pinned-Reach refl refl refl

unpinned : (remove_recursive_pin numbers digits pinned 7 (ok 9 ∷ ok 8 ∷ [])).0 ≡ ok tt
unfolding remove_recursive_pin Map.get insert_direct_pin insert_pin insert_recursive_pin update
    update_intention insert_refs Map.insert update_recursive update_direct is_set update_indirect
    pick_kind mode remove_picked remove_recursive_kind remove_pin remove_refs can_remove
    btree_insert btree_collect Set.contains Set.remove Map.remove text_lt
unpinned = refl

insert_recursive_pin_lem_example :
    let g = (insert_recursive_pin numbers digits pinned 3 (ok 7 ∷ ok 9 ∷ [])).1 in
    (recursion (document numbers digits g 3) ≡ count 2)
    × All (IsThrough numbers digits g 3) (ok 7 ∷ ok 9 ∷ [])
unfolding Map.get insert_direct_pin insert_pin insert_recursive_pin update update_intention
    insert_refs Map.insert update_recursive update_direct is_set update_indirect Set.contains
    btree_collect btree_insert
insert_recursive_pin_lem_example =
    insert_recursive_pin_lem numbers digits pinned 3 (ok 7 ∷ ok 9 ∷ []) pinned-Reach refl

list_query_lem_example :
    (is_some (listed numbers digits (list numbers digits pinned none) 9) ≡ true)
    × (listed numbers digits (list numbers digits pinned (some direct)) 9
        ≡ narrowed (some direct) (listed numbers digits (list numbers digits pinned none) 9))
    × All (IsOk numbers digits) (list numbers digits pinned (some direct))
    × Answers numbers digits pinned
        (some direct)
        (9 ∷ 4 ∷ [])
        (query numbers digits pinned (some direct) (9 ∷ 4 ∷ []))
unfolding Map.get insert_direct_pin insert_pin insert_recursive_pin update update_intention
    insert_refs Map.insert update_recursive update_direct is_set update_indirect
list_query_lem_example =
    list_query_lem numbers digits pinned (some direct) 9 (9 ∷ 4 ∷ []) pinned-Reach
