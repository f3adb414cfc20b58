-- ===== src/Bitswap/CidQueue/Tests.antt =====
-- Runs of the queue, with numbers as content ids.
use rust_ipfs.Base.{ℕ, ◌≡◌, refl, some, [], ◌∷◌, nat_eq}
use rust_ipfs.Base.Set
use rust_ipfs.Bitswap.CidQueue.{CidQueue, pop, cids}
use rust_ipfs.Bitswap.CidQueue.Laws.{pending, pop_lem}

-- 4 was removed and is still among the elements.
abbrev queue : CidQueue ℕ
queue = record { elements = 4 ∷ 5 ∷ 6 ∷ []; set = 5 ∷ 6 ∷ [] }

live : (cids queue).1 ≡ 5 ∷ 6 ∷ []
unfolding cids Set.contains
live = refl

pop_lem_example : ((pop queue).0 ≡ some 5) × (pending (pop queue).1 ≡ 6 ∷ [])
unfolding Set.contains
pop_lem_example = pop_lem queue
