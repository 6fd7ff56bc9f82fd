-- ===== src/Prelude.antt =====
-- The names that the other modules share: the libraries', passed on, and those of two children.
pub mod Tests
pub mod Lists
pub mod Dict
pub mod Bytes
pub mod Int
pub mod Store
pub use Tests.*
pub use Lists.{
  length, take, drop, replicate, get_or, All, length-append, length-take, length-drop,
  length-replicate, take-append-take, take-all, take-append, All-append, find-put, find-put_self,
  put-put, take-length-take, All-find, All-put, All-map_of, Any, Selected, ends, keeps, skips,
}
unfoldable pub use Lists.{find, put}
pub use Prim.Native.Nat.{ℕ, zero, suc, ◌+◌, ◌-◌, ◌*◌, ◌/◌, ◌%◌, ◌^◌, ◌≤◌, ◌<◌, min, max}
pub use mathlib.Core.Path.{◌≡◌, refl, sym, ap, subst, ◌∙◌}
pub use mathlib.Core.Logic.{◌≢◌, ◌↔◌, ◌⊎◌, inl, inr}
pub use mathlib.Core.Bool.{Bool, true, false, not, ◌&&◌, ◌||◌}
pub use mathlib.Core.Option.{Option, none, some}
pub use mathlib.Core.List.{List, [], ◌∷◌, ◌++◌, map}
pub use native.Mathlib.Omega.{arith}
