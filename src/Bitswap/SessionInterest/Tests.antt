-- ===== src/Bitswap/SessionInterest/Tests.antt =====
-- Runs of the session interest manager, with numbers as content ids and as blocks.
use rust_ipfs.Base.{ℕ, true, false, ◌≡◌, refl, none, List, [], ◌∷◌, nat_eq}
use rust_ipfs.Base.Map
use rust_ipfs.Base.Map.{Map}
use rust_ipfs.Base.Set
use rust_ipfs.Bitswap.SessionInterest.{
  Interests, record_session_interest, remove_session_wants, remove_session_interested,
}
use rust_ipfs.Bitswap.SessionInterest.View.{interest}
use rust_ipfs.Bitswap.SessionInterest.Removal.{remove_session_interested_lem}

-- Session 1 wants 5 and has received 6, session 2 wants 6.
abbrev interests : Interests ℕ
interests = (5, (1, true) ∷ []) ∷ (6, (1, false) ∷ (2, true) ∷ []) ∷ []

recorded :
    remove_session_wants
      (record_session_interest (record_session_interest [] 1 (5 ∷ 6 ∷ [])) 2 (6 ∷ []))
      1
      (6 ∷ [])
    ≡ interests
unfolding remove_session_wants Map.get record_session_interest Map.insert
recorded = refl

remove_session_interested_lem_example :
    (interest (remove_session_interested interests 1 (5 ∷ [])).0 5 1 ≡ none)
    × (Set.contains (remove_session_interested interests 1 (5 ∷ [])).1 5 ≡ true)
unfolding Set.contains Map.get Map.remove
remove_session_interested_lem_example = remove_session_interested_lem interests 1 (5 ∷ []) 5 1

abbrev blocks : List (ℕ × ℕ)
blocks = (5, 50) ∷ (7, 70) ∷ []
