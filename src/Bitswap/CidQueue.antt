-- ===== src/Bitswap/CidQueue.antt =====
-- packages/beetle-bitswap-next/src/client/session/cid_queue.rs: a queue of content ids from which
-- entries are deleted lazily.
pub mod Laws
pub mod Tests
use rust_ipfs.Base.{
  ℕ, zero, suc, ◌+◌, ◌-◌, ◌≤◌, ◌<◌, Bool, true, false, not, ◌&&◌, ◌||◌, ◌≡◌, refl, sym, ap, subst,
  ◌∙◌, ◌⊎◌, inl, inr, ◌↔◌, ◌≢◌, Option, none, some, List, [], ◌∷◌, ◌++◌, map, arith, if◌then◌else◌,
  All, length, length-append, is_empty, retain, ltb, leb, Eq, ◌==◌, ==_iff, ==_refl, Option-cases,
  Bool-cases, is_some,
}
use rust_ipfs.Base.Map
use rust_ipfs.Base.Map.{Map}
use rust_ipfs.Base.Set

pub record CidQueue (Cid : Type 0) : Type 0 where
  pub elements : List Cid
  pub set : List Cid

module _ {Cid : Type 0} where
  unfoldable pub empty : CidQueue Cid
  empty = record { elements = []; set = [] }

  unfoldable pub len : CidQueue Cid → ℕ
  len q = length q.set

module _ {Cid : Type 0} ⦃e : Eq Cid⦄ where
  -- Drops elements that are not in the set, up to the first that is.
  unfoldable pub pop_loop : List Cid → List Cid → Option Cid × List Cid
  pop_loop set [] = (none, [])
  pop_loop set (el ∷ elements) =
      let rest = pop_loop set elements in if Set.contains set el then (some el, elements) else rest

  unfoldable pub pop : CidQueue Cid → Option Cid × CidQueue Cid
  unfolding pop_loop
  pop q = let (el, rest) = pop_loop q.set q.elements in (el, record q { elements = rest })

  unfoldable pub cids : CidQueue Cid → CidQueue Cid × List Cid
  cids q = let live = retain (Set.contains q.set) q.elements in (record q { elements = live }, live)

  unfoldable pub push : CidQueue Cid → Cid → CidQueue Cid
  push q cid =
      if Set.contains q.set cid
      then q
      else record { elements = q.elements ++ cid ∷ []; set = Set.insert q.set cid }

  unfoldable pub remove : CidQueue Cid → Cid → CidQueue Cid
  remove q cid = record q { set = Set.remove q.set cid }

  unfoldable pub has : CidQueue Cid → Cid → Bool
  has q cid = Set.contains q.set cid
