-- ===== src/Prelude.antt =====
-- The names that the other modules share: the libraries', passed on, and those of the children.
mod Tests
mod Lists
mod Texts
mod Dicts
pub mod Order
pub use Tests.*
unfoldable pub use Lists.{keep}
pub use Lists.{
  length, take, head?, last_or, any, all, length-append, length-keep-le, keep-append,
  keep-keep_self, keep-concat_drop, keep-concat_keep, keep_none, keep-keep-not,
  any-false_of_keep-nil, All, All-append, All-keep, All-map, keep_sound,
}
unfoldable pub use Texts.{split, join, lower, upper, add_head}
pub use Texts.{
  listed, Member, listed_iff, NoCode-append, NoCode-join, NoCode, join-split, split-join,
  split_of_NoCode, split-ne-nil, split-NoCode, seq, slen, seq_self, differ,
}
unfoldable pub use Dicts.{get, put, remove}
pub use Dicts.{Dict, has, keys, get-put, get-remove, get-put_self, dict_laws}
unfoldable pub use Order.{insert_by, order_by, page}
pub use Order.{IsOrder, IsEquivalence, Sorted, DistinctKeys}
pub use Prim.Native.Nat.{ℕ, zero, suc, ◌+◌, ◌-◌, ◌*◌, ◌/◌, ◌%◌, ◌≤◌, ◌<◌, min}
pub use Prim.Native.String.{String}
pub use Prim.Native.String.{◌++◌ as append}
pub use Prim.Native.Char.{Char, code}
pub use mathlib.Core.Path.{◌≡◌, refl, sym, ap, subst, ◌∙◌}
pub use mathlib.Core.Logic.{◌≢◌, ◌↔◌, ◌⊎◌, inl, inr}
pub use mathlib.Core.Bool.{Bool, true, false, not, ◌&&◌, ◌||◌}
pub use mathlib.Core.Option.{Option, none, some}
pub use mathlib.Core.List.{List, [], ◌∷◌, ◌++◌, map}
pub use native.Mathlib.Omega.{arith}
pub use text.Mathlib.TextEquality.{eq_iff}
pub use text.Mathlib.TextPositions.{eq_refl}
