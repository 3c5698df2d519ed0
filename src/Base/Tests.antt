-- ===== src/Base/Tests.antt =====
-- Boolean tests on the native numbers, the conditional, and stores: functions from addresses to
-- values, written at one address.
use Prim.Native.Nat.{ℕ, compare, Ordering}
use mathlib.Core.Path.{◌≡◌, refl}
use mathlib.Core.Logic.{◌↔◌, ◌⊎◌, inl, inr}
use mathlib.Core.Bool.{Bool, true, false}
use mathlib.Core.List.{List, [], ◌∷◌}
use native.Mathlib.Omega.{arith}

abbrev pub ltb : ℕ → ℕ → Bool
ltb a b = elim (compare a b) [ Ordering.lt ↦ true | _ ↦ false ]

abbrev pub leb : ℕ → ℕ → Bool
leb a b = elim (compare a b) [ Ordering.gt ↦ false | _ ↦ true ]

infix 50 ◌==◌
abbrev pub ◌==◌ : ℕ → ℕ → Bool
a == b = elim (compare a b) [ Ordering.eq ↦ true | _ ↦ false ]

infix 1 if◌then◌else◌
abbrev pub if◌then◌else◌ {ℓ} : {A : Type ℓ} → Bool → A → A → A
if true then x else y = x
if false then x else y = y

pub ==_iff : (a b : ℕ) → ((a == b) ≡ true) ↔ (a ≡ b)
==_iff a b = ground arith

pub Bool-cases : (b : Bool) → (b ≡ true) ⊎ (b ≡ false)
Bool-cases true = inl refl
Bool-cases false = inr refl

-- `a[k] = v`, for an array as a function of its index.
abbrev pub update {ℓ} : {A : Type ℓ} → (ℕ → A) → ℕ → A → ℕ → A
update f k v j = if k == j then v else f j

-- `switch (k) { case j: … default: … }`
unfoldable pub switch {ℓ} : {A : Type ℓ} → ℕ → List (ℕ × A) → A → A
switch k [] d = d
switch k ((j, x) ∷ r) d = if k == j then x else switch k r d

module _ {ℓ} {A : Type ℓ} where
  abbrev pub length : List A → ℕ
  length [] = 0
  length (x ∷ xs) = ℕ.suc (length xs)

-- All elements of a list, as nested pairs.
abbrev pub All {ℓ κ} : {A : Type ℓ} → (A → Type κ) → List A → Type κ
All P [] = Unit
All P (x ∷ xs) = P x × All P xs

-- What holds of every branch holds of the switch.
pub switch-All {ℓ κ} :
    {A : Type ℓ} (P : A → Type κ) (k : ℕ) (cs : List (ℕ × A)) (d : A)
    → All (λ c. P c.1) cs
    → P d
    → P (switch k cs d)
unfolding switch
switch-All P k [] d h hd = hd
switch-All P k ((j, x) ∷ r) d h hd = elim (Bool-cases (k == j)) [
  | inl e ↦ rw e h.0
  | inr e ↦ rw e (switch-All P k r d h.1 hd)
]
