-- ===== src/Base/Outcome.antt =====
-- What comes of a run: a value, a panic, or no end within the fuel.
pub data Outcome {ℓ} (A : Type ℓ) : Type ℓ where
  returned : A → Outcome A
  panicked : Outcome A
  unfinished : Outcome A

abbrev pub and_then {ℓ κ} : {A : Type ℓ} {B : Type κ} → Outcome A → (A → Outcome B) → Outcome B
and_then (returned a) f = f a
and_then panicked f = panicked
and_then unfinished f = unfinished
