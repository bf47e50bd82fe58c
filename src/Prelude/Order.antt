-- ===== src/Prelude/Order.antt =====
-- `order by key` and `limit` of the SQL statements, over an order of the keys. The database's
-- collation is a parameter: `lt a b` is its test `a < b`.
pub mod Laws
pub mod Texts
use mathlib.Core.Path.{◌≡◌}
use mathlib.Core.Bool.{Bool, true, false}
use mathlib.Core.Logic.{◌≢◌}
use mathlib.Core.List.{List, [], ◌∷◌}
use Prim.Native.Nat.{ℕ}
use Prim.Native.String.{String}
use monasca_api.Prelude.Tests.{if◌then◌else◌}
use monasca_api.Prelude.Lists.{All, keep, take}

-- The keys are compared by a strict total order.
pub record IsOrder (lt : String → String → Bool) : Type 0 where
  pub irreflexive : (a : String) → lt a a ≡ false
  pub transitive : (a b c : String) → lt a b ≡ true → lt b c ≡ true → lt a c ≡ true
  pub total : (a b : String) → lt a b ≡ false → a ≢ b → lt b a ≡ true

-- A Boolean test that is an equivalence relation.
pub record IsEquivalence {A : Type 0} (eq : A → A → Bool) : Type 0 where
  pub reflexive : (a : A) → eq a a ≡ true
  pub symmetric : (a b : A) → eq a b ≡ true → eq b a ≡ true
  pub transitive : (a b c : A) → eq a b ≡ true → eq b c ≡ true → eq a c ≡ true

module _ {A : Type 0} (lt : String → String → Bool) (key : A → String) where
  unfoldable pub insert_by : A → List A → List A
  insert_by x [] = x ∷ []
  insert_by x (y ∷ l) =
      let rest = insert_by x l in if lt (key y) (key x) then y ∷ rest else x ∷ y ∷ l

  unfoldable pub order_by : List A → List A
  unfolding insert_by
  order_by [] = []
  order_by (x ∷ l) = insert_by x (order_by l)

  -- `where key > offset order by key limit n`
  unfoldable pub page : ℕ → String → List A → List A
  page n offset rows = take n (order_by (keep (λ r. lt offset (key r)) rows))

  -- strictly ascending keys
  abbrev pub Sorted : List A → Type 0
  Sorted [] = Unit
  Sorted (x ∷ l) = All (λ y. lt (key x) (key y) ≡ true) l × Sorted l

  abbrev pub DistinctKeys : List A → Type 0
  DistinctKeys [] = Unit
  DistinctKeys (x ∷ l) = All (λ y. key x ≢ key y) l × DistinctKeys l
