-- ===== src/Base/Lists.antt =====
-- Lists of values: lengths over the native numbers, membership as a predicate by recursion.
use Prim.Native.Nat.{ℕ, suc}
use mathlib.Core.Bool.{Bool, true, false}
use hide_server.Base.Tests.{if◌then◌else◌}
use hide_server.Base.Text.{Key}
use mathlib.Core.Path.{◌≡◌}
use mathlib.Core.Logic.{ite, ◌⊎◌, inl, inr}
use mathlib.Core.List.{foldl, List, [], ◌∷◌, ◌++◌}

module _ {ℓ} {A : Type ℓ} where
  abbrev pub length : List A → ℕ
  length [] = 0
  length (x ∷ xs) = suc (length xs)

  abbrev pub All {κ} : (A → Type κ) → List A → Type κ
  All P [] = Unit
  All P (x ∷ xs) = P x × All P xs

abbrev pub In : {A : Type 0} → A → List A → Type 0
In a [] = ⊥
In a (x ∷ xs) = (x ≡ a) ⊎ In a xs

pub In-append_left : {A : Type 0} (a : A) (xs ys : List A) → In a xs → In a (xs ++ ys)
In-append_left a [] ys h = elim h [ ]
In-append_left a (x ∷ xs) ys (inl e) = inl e
In-append_left a (x ∷ xs) ys (inr h) = inr (In-append_left a xs ys h)

pub In-append_right : {A : Type 0} (a : A) (xs ys : List A) → In a ys → In a (xs ++ ys)
In-append_right a [] ys h = h
In-append_right a (x ∷ xs) ys h = inr (In-append_right a xs ys h)

-- `xs.includes(x)`
unfoldable pub member : {A : Type 0} ⦃key : Key A⦄ → A → List A → Bool
member x [] = false
member ⦃key⦄ x (y ∷ ys) = ite (key.dec y x) true (member x ys)

unfoldable pub add_new : {A : Type 0} ⦃key : Key A⦄ → List A → A → List A
unfolding member
add_new xs x = if member x xs then xs else xs ++ x ∷ []

-- `[...new Set(xs)]`: the first occurrence of each value, in order
unfoldable pub to_set : {A : Type 0} ⦃key : Key A⦄ → List A → List A
unfolding add_new
to_set = foldl add_new []

-- `for (const x of xs) s = step(x, s)`
abbrev pub for_each : {A S : Type 0} → (A → S → S) → List A → S → S
for_each step [] s = s
for_each step (x ∷ xs) s = for_each step xs (step x s)
