-- ===== src/Base.antt =====
-- The names that the other modules share: the libraries', passed on, and those of the children.
mod Tests
mod Text
mod Lists
mod Maps
mod Actions
pub use Tests.*
unfoldable pub use Lists.{member, add_new, to_set}
pub use Lists.{length, All, In, In-append_left, In-append_right, for_each}
unfoldable pub use Text.{str_dec, str_empty}
pub use Text.{Key, str_key, nat_key}
unfoldable pub use Maps.{lookup, insert, erase}
pub use Maps.{
  Map, keys, values, has, lookup-insert, lookup-erase, lookup-insert_self, lookup-erase_self,
}
pub use Actions.*
pub use Prim.Native.Nat.{ℕ, zero, suc, ◌+◌, ◌-◌, ◌*◌, ◌/◌, ◌%◌, ◌≤◌, ◌<◌}
pub use Prim.Native.String.{String}
pub use mathlib.Core.Path.{◌≡◌, refl, sym, ap, subst, ◌∙◌}
pub use mathlib.Core.Logic.{◌≢◌, ◌↔◌, ◌⊎◌, inl, inr, ite}
pub use mathlib.Core.Bool.{Bool, true, false, not, ◌&&◌, ◌||◌}
pub use mathlib.Core.Option.{Option, none, some}
pub use mathlib.Core.List.{List, [], ◌∷◌, ◌++◌, map, flatten}
pub use native.Mathlib.Omega.{arith}
unfoldable pub use native.Mathlib.Decide.{dec_lt, dec_le, ℕ_discrete}
