-- ===== src/Base/Text.antt =====
-- Texts are compared whole: identifiers of users, sessions, workspaces, instances. Keys of a map
-- are of a type with a decided equality.
use Prim.Native.Nat.{ℕ}
use Prim.Native.String.{String}
use mathlib.Core.Path.{◌≡◌, refl}
use mathlib.Core.Logic.{◌↔◌, ite}
use mathlib.Core.Bool.{Bool, true, false}
use native.Mathlib.Decide.{ℕ_discrete}
use text.Mathlib.Text.{◌==◌}
use text.Mathlib.TextEquality.{eq_iff}

pub unsound {ℓ} : {P : Type ℓ} → (false ≡ true) ↔ P → P → ⊥
unsound h p = cc (h.1 p)

abbrev dec_of {ℓ} : {P : Type ℓ} (b : Bool) → (b ≡ true) ↔ P → Dec P
dec_of true h = yes (h.0 refl)
dec_of false h = no (unsound h)

unfoldable pub str_dec : Discrete String
str_dec s t = dec_of (s == t) (eq_iff s t)

-- `!s` of a text that is defined
unfoldable pub str_empty : String → Bool
unfolding str_dec
str_empty s = ite (str_dec s "") true false

pub record Key (K : Type 0) : Type 0 where
  pub dec : Discrete K

instance abbrev pub str_key : Key String
str_key = record { dec = str_dec }

instance abbrev pub nat_key : Key ℕ
nat_key = record { dec = ℕ_discrete }
