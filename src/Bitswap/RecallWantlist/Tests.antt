-- ===== src/Bitswap/RecallWantlist/Tests.antt =====
-- Runs of the want list that recalls what was sent, with numbers as content ids.
use rust_ipfs.Base.{ℕ, ◌≡◌, refl, [], ◌∷◌, nat_eq}
use rust_ipfs.Base.Map
use rust_ipfs.Base.Map.{Map}
use rust_ipfs.Base.Int.{pos}
use rust_ipfs.Bitswap.Wantlist
use rust_ipfs.Bitswap.Wantlist.{Wantlist, WantType, Entry, block, have, entry}
use rust_ipfs.Bitswap.RecallWantlist.{RecallWantlist, mark_sent, sent_at}
use rust_ipfs.Bitswap.RecallWantlist.Laws.{sent_at-mark_sent}

abbrev want : Entry ℕ
want = record { cid = 1; priority = pos 3; want_type = block }

abbrev recall : RecallWantlist ℕ
recall = record {
  pending = record { set = (1, want) ∷ []; cached = [] };
  sent = record { set = []; cached = [] };
  sent_times = [];
}

sent_at-mark_sent_example : sent_at (mark_sent recall want).0 1 9 ≡ (mark_sent recall want).0
unfolding mark_sent Wantlist.remove_type Map.get
sent_at-mark_sent_example = sent_at-mark_sent recall want 9 refl
