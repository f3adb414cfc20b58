-- ===== src/Bitswap/Wantlist/Tests.antt =====
-- Runs of the want lists, with numbers as content ids.
use rust_ipfs.Base.{ℕ, ◌≡◌, refl, [], ◌∷◌, nat_eq}
use rust_ipfs.Base.Map
use rust_ipfs.Base.Map.{Map}
use mathlib.Core.List.{Perm}
use rust_ipfs.Base.Int.{pos}
use rust_ipfs.Bitswap.Wantlist.{
  sort_by_priority, Wantlist, block, have, entry, empty, add, get, entries, extend,
}
use rust_ipfs.Bitswap.Wantlist.Sorting.{IsDescending}
use rust_ipfs.Bitswap.Wantlist.Invariant.{IsValid, Built, Built-IsValid, entries_lem}
use rust_ipfs.Bitswap.Wantlist.Merging.{add_all, extend-eq-add_all}

abbrev wants : Wantlist ℕ
wants = record {
  set =
      (1, record { cid = 1; priority = pos 3; want_type = have })
      ∷ (2, record { cid = 2; priority = pos 8; want_type = block })
      ∷ [];
  cached = [];
}

wants-Built : Built wants
unfolding empty add entry Map.get Map.insert
wants-Built = Built.added 2 (pos 8) block (Built.added 1 (pos 3) have Built.start)

sorted :
    (entries wants).1
    ≡ (record { cid = 2; priority = pos 8; want_type = block })
      ∷ (record { cid = 1; priority = pos 3; want_type = have })
      ∷ []
unfolding entries sort_by_priority
sorted = refl

Built-IsValid_example : IsValid wants
Built-IsValid_example = Built-IsValid wants-Built

entries_lem_example :
    IsDescending (entries wants).1
    × Perm (entries wants).1 (Map.values wants.set)
    × ((entries wants).0.set ≡ wants.set)
    × ((entries (entries wants).0).1 ≡ (entries wants).1)
entries_lem_example = entries_lem wants wants-Built

extend-eq-add_all_example : get (extend wants wants) 2 ≡ get (add_all wants wants.set) 2
extend-eq-add_all_example = extend-eq-add_all wants wants (refl, (refl, tt)) 2
