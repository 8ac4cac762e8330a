-- ===== src/Base.antt =====
-- What the modules of the firmware model share: the library's names passed on, tests on numbers,
-- lists measured by native numbers, and the C operations the sources call (uint32_t arithmetic,
-- strncpy, memcpy, memcmp).
mod Tests
mod Lists
mod Clock
mod Memory
mod Program
mod Int
pub use Tests.*
pub use Lists.*
unfoldable pub use Clock.*
unfoldable pub use Memory.*
pub use Program.*
unfoldable pub use Int.*
pub use Prim.Native.Nat.{ℕ, zero, suc, ◌+◌, ◌-◌, ◌*◌, ◌/◌, ◌%◌, ◌^◌, ◌≤◌, ◌<◌}
pub use mathlib.Core.Path.{◌≡◌, refl, sym, ap, subst, ◌∙◌}
pub use mathlib.Core.Logic.{◌≢◌, ◌↔◌, ◌⊎◌, inl, inr}
pub use mathlib.Core.Bool.{Bool, true, false, ◌&&◌, ◌||◌, not}
pub use mathlib.Core.Option.{Option, none, some}
pub use mathlib.Core.List.{List, [], ◌∷◌, ◌++◌}
pub use native.Mathlib.Omega.{arith}

pub some_of_ne {ℓ} : {A : Type ℓ} (o : Option A) → o ≢ none → (a : A) × (o ≡ some a)
some_of_ne none h = elim (h refl) [ ]
some_of_ne (some a) h = (a, refl)

pub Option-cases {ℓ} : {A : Type ℓ} (o : Option A) → (o ≡ none) ⊎ ((a : A) × (o ≡ some a))
Option-cases none = inl refl
Option-cases (some a) = inr (a, refl)
