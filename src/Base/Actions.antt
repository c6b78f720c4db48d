-- ===== src/Base/Actions.antt =====
-- A service method: explicit state, and exceptions. What was written before a throw stays written.
use mathlib.Core.Path.{◌≡◌, refl, ap}
use mathlib.Core.Bool.{Bool, true, false}
use mathlib.Core.Option.{Option, none, some}
use Prim.Native.Nat.{ℕ}
use Prim.Native.String.{String}

-- An exception as the services throw it: the status of an `HttpException` or `RpcError`, and its
-- message. A failed remote call is one with the status 0.
pub record Failure : Type 0 where
  pub status : ℕ
  pub message : String

pub data Result (A : Type 0) : Type 0 where
  ok : A → Result A
  err : Failure → Result A

abbrev pub Action : Type 0 → Type 0 → Type 0
Action S A = S → Result A × S

abbrev pub Void : Type 0
Void = Unit {0}

module _ {S A : Type 0} where
  abbrev pub pure : A → Action S A
  pure a s = (ok a, s)

  abbrev pub throw : Failure → Action S A
  throw e s = (err e, s)

  abbrev pub gets : (S → A) → Action S A
  gets f s = (ok (f s), s)

  abbrev pub or_throw : Option A → Failure → Action S A
  or_throw none e = throw e
  or_throw (some a) e = pure a

infixl 5 ◌>>=◌ ◌>>◌
abbrev pub ◌>>=◌ : {S A B : Type 0} → Action S A → (A → Action S B) → Action S B
◌>>=◌ m f s = let (r, s') = m s in elim r [ ok a ↦ f a s' | err e ↦ (err e, s') ]

abbrev pub ◌>>◌ : {S A B : Type 0} → Action S A → Action S B → Action S B
m >> k = m >>= λ _. k

abbrev pub throw_if : {S : Type 0} → Bool → Failure → Action S Void
throw_if true e = throw e
throw_if false e = pure tt

abbrev pub modify : {S : Type 0} → (S → S) → Action S Void
modify f s = (ok tt, f s)

-- A step that succeeds hands its value and state on; one that fails ends the method.
pub bind_ok :
    {S A B : Type 0} (m : Action S A) (f : A → Action S B) (s s' : S) (a : A)
    → m s ≡ (ok a, s')
    → (m >>= f) s ≡ f a s'
bind_ok m f s s' a e = ap (λ r. elim r.0 [ ok b ↦ f b r.1 | err x ↦ (err x, r.1) ]) e

pub bind_err :
    {S A B : Type 0} (m : Action S A) (f : A → Action S B) (s s' : S) (x : Failure)
    → m s ≡ (err x, s')
    → (m >>= f) s ≡ (err x, s')
bind_err m f s s' x e = ap (λ r. elim r.0 [ ok b ↦ f b r.1 | err y ↦ (err y, r.1) ]) e

-- What a step leaves true, and each step that may follow it preserves, is true of the whole.
pub then_keeps :
    {S A B : Type 0} (P : S → Type 0) (m : Action S A) (k : A → Action S B) (s : S)
    → P (m s).1
    → ((a : A) (v : S) → P v → P (k a v).1)
    → P ((m >>= k) s).1
then_keeps {A = A} P m k s h next = go (m s).0 refl
  where
    go : (r : Result A) → (m s).0 ≡ r → P ((m >>= k) s).1
    go (err x) e = rw (e, ◌>>=◌) h
    go (ok a) e = rw (e, ◌>>=◌) (next a _ h)
