-- ===== src/Base/Equality.antt =====
-- `Eq` of the standard library: a Boolean test that decides equality. Content ids, peer ids and
-- topics are used by the program through this test alone.
use Prim.Native.Nat.{ℕ}
use mathlib.Core.Path.{◌≡◌, refl}
use mathlib.Core.Logic.{◌↔◌}
use mathlib.Core.Bool.{Bool, true, false, ◌&&◌}
use mathlib.Core.List.{List, [], ◌∷◌}
use native.Mathlib.Omega.{arith}
use rust_ipfs.Base.Tests.{nat_beq, nat_beq_iff}

pub record Eq {κ} (K : Type κ) : Type κ where
  pub same : K → K → Bool
  pub decides : (k j : K) → (same k j ≡ true) ↔ (k ≡ j)

instance abbrev pub nat_eq : Eq ℕ
nat_eq = record { decides = nat_beq_iff; same = nat_beq }

infix 50 ◌==◌
abbrev pub ◌==◌ {κ} : {K : Type κ} ⦃e : Eq K⦄ → K → K → Bool
◌==◌ ⦃e⦄ k j = e.same k j

module _ {κ} {K : Type κ} ⦃e : Eq K⦄ where
  pub ==_iff : (k j : K) → ((k == j) ≡ true) ↔ (k ≡ j)
  ==_iff k j = e.decides k j

  pub ==_refl : (k : K) → (k == k) ≡ true
  ==_refl k = (e.decides k k).1 refl

-- Lists of equal length with equal entries.
abbrev pub list_same {κ} : {K : Type κ} ⦃e : Eq K⦄ → List K → List K → Bool
list_same [] [] = true
list_same [] (j ∷ js) = false
list_same (k ∷ ks) [] = false
list_same (k ∷ ks) (j ∷ js) = (k == j) && list_same ks js

pub list_same_iff {κ} :
    {K : Type κ} ⦃e : Eq K⦄ (ks js : List K) → (list_same ks js ≡ true) ↔ (ks ≡ js)
list_same_iff [] [] = (λ h. refl, λ h. refl)
list_same_iff [] (j ∷ js) = (λ h. absurd cc, λ h. absurd cc)
list_same_iff (k ∷ ks) [] = (λ h. absurd cc, λ h. absurd cc)
list_same_iff (k ∷ ks) (j ∷ js) = ground (arith, ==_iff k j, list_same_iff ks js)

instance abbrev pub list_eq {κ} : {K : Type κ} ⦃e : Eq K⦄ → Eq (List K)
list_eq = record { same = list_same; decides = list_same_iff }
