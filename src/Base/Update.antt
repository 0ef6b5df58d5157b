-- ===== src/Base/Update.antt =====
-- Arrays and memories as functions, written at one index.
use Prim.Native.Nat.{ℕ}
use mathlib.Core.Path.{◌≡◌, subst}
use mathlib.Core.Logic.{◌≢◌}
use native.Mathlib.Decide.{ℕ_discrete}
use native.Mathlib.Omega.{arith}
use pindos.Base.Tests.{◌==◌, if◌then◌else◌}

abbrev pub update {ℓ} : {A : Type ℓ} → (ℕ → A) → ℕ → A → ℕ → A
update f k v j = if k == j then v else f j

pub update_self {ℓ} : {A : Type ℓ} (f : ℕ → A) (k : ℕ) (v : A) → update f k v k ≡ v
update_self f k v = ground arith

pub update_ne {ℓ} : {A : Type ℓ} (f : ℕ → A) (k j : ℕ) (v : A) → k ≢ j → update f k v j ≡ f j
update_ne f k j v h = ground arith

module _ {ℓ κ μ} {A : Type ℓ} {B : Type κ} (P : ℕ → A → B → Type μ) where
  -- What holds of the written values and of all others holds of the updated arrays.
  pub at_update :
      (f : ℕ → A) (g : ℕ → B) (k : ℕ) (a : A) (b : B)
      → P k a b
      → ((j : ℕ) → k ≢ j → P j (f j) (g j))
      → (j : ℕ) → P j (update f k a j) (update g k b j)
  at_update f g k a b at others j = elim (ℕ_discrete k j) [
    | yes e ↦
        subst (λ i. P i (update f k a i) (update g k b i)) e
          (rw (update_self f k a, update_self g k b) at)
    | no ne ↦ rw (update_ne f k j a ne, update_ne g k j b ne) (others j ne)
  ]

module _ {ℓ μ} {A : Type ℓ} (P : ℕ → A → Type μ) where
  pub at_update_one :
      (f : ℕ → A) (k : ℕ) (a : A)
      → P k a
      → ((j : ℕ) → k ≢ j → P j (f j))
      → (j : ℕ) → P j (update f k a j)
  at_update_one f k a at others j = elim (ℕ_discrete k j) [
    | yes e ↦ subst (λ i. P i (update f k a i)) e (rw (update_self f k a) at)
    | no ne ↦ rw (update_ne f k j a ne) (others j ne)
  ]
