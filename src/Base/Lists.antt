-- ===== src/Base/Lists.antt =====
-- Lists counted by the native numbers, and predicates on all members of a list.
use Prim.Native.Nat.{ℕ, zero, suc, ◌+◌, ◌≤◌}
use mathlib.Core.Path.{◌≡◌, refl}
use mathlib.Core.Logic.{◌⊎◌, inl, inr}
use mathlib.Core.Option.{Option, none, some}
use mathlib.Core.List.{List, [], ◌∷◌, ◌++◌, map}
use native.Mathlib.Omega.{arith}

module _ {ℓ} {A : Type ℓ} where
  abbrev pub length : List A → ℕ
  length [] = 0
  length (x ∷ xs) = suc (length xs)

  unfoldable pub take : ℕ → List A → List A
  take zero xs = []
  take (suc n) [] = []
  take (suc n) (x ∷ xs) = x ∷ take n xs

  pub length-append : (xs ys : List A) → length (xs ++ ys) ≡ length xs + length ys
  length-append [] ys = omega arith
  length-append (x ∷ xs) ys = omega (arith, length-append xs ys)

  pub length-take : (n : ℕ) (xs : List A) → n ≤ length xs → length (take n xs) ≡ n
  unfolding take
  length-take zero xs h = refl
  length-take (suc n) [] h = elim h [ ]
  length-take (suc n) (x ∷ xs) h = omega (arith, length-take n xs)

-- A predicate on every member computes to a tuple.
abbrev pub All {ℓ κ} : {A : Type ℓ} → (A → Type κ) → List A → Type κ
All P [] = Unit
All P (x ∷ xs) = P x × All P xs

module _ {ℓ κ} {A : Type ℓ} (P : A → Type κ) where
  pub All-append : (xs ys : List A) → All P xs → All P ys → All P (xs ++ ys)
  All-append [] ys hx hy = hy
  All-append (x ∷ xs) ys (h, hx) hy = (h, All-append xs ys hx hy)

  pub All-take : (n : ℕ) (xs : List A) → All P xs → All P (take n xs)
  unfolding take
  All-take zero xs h = tt
  All-take (suc n) [] h = tt
  All-take (suc n) (x ∷ xs) (h, hx) = (h, All-take n xs hx)

pub Option-cases {ℓ} : {A : Type ℓ} (o : Option A) → (o ≡ none) ⊎ ((a : A) × (o ≡ some a))
Option-cases none = inl refl
Option-cases (some a) = inr (a, refl)

-- One member of the second list for each of the first, in order and in the relation.
abbrev pub Each : {A B : Type 0} → (A → B → Type 0) → List A → List B → Type 0
Each P [] [] = Unit {0}
Each P [] (y ∷ ys) = ⊥
Each P (x ∷ xs) [] = ⊥
Each P (x ∷ xs) (y ∷ ys) = P x y × Each P xs ys

module _ {A B : Type 0} (P : A → B → Type 0) where
  pub Each-append :
      (xs xs' : List A) (ys ys' : List B)
      → Each P xs ys
      → Each P xs' ys'
      → Each P (xs ++ xs') (ys ++ ys')
  Each-append [] xs' [] ys' h k = k
  Each-append [] xs' (y ∷ ys) ys' h k = elim h [ ]
  Each-append (x ∷ xs) xs' [] ys' h k = elim h [ ]
  Each-append (x ∷ xs) xs' (y ∷ ys) ys' (h, hs) k = (h, Each-append xs xs' ys ys' hs k)

  pub Each-map :
      {C : Type 0} (f : C → A) (g : C → B) (cs : List C)
      → ((c : C) → P (f c) (g c))
      → Each P (map f cs) (map g cs)
  Each-map f g [] h = tt
  Each-map f g (c ∷ cs) h = (h c, Each-map f g cs h)
