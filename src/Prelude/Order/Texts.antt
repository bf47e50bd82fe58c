-- ===== src/Prelude/Order/Texts.antt =====
-- Texts in the order of their characters' numbers, as a binary collation compares them.
use mathlib.Core.Path.{◌≡◌, refl}
use mathlib.Core.Bool.{Bool, true, false}
use mathlib.Core.Logic.{◌≢◌}
use Prim.Native.Char.{code}
use Prim.Native.String.{String, [], ◌∷◌}
use text.Mathlib.TextEquality.{Char-path}
use native.Mathlib.Omega.{arith}
use monasca_api.Prelude.Tests.{if◌then◌else◌, ltb}
use monasca_api.Prelude.Order.{IsOrder}

unfoldable pub text_lt : String → String → Bool
text_lt [] [] = false
text_lt [] (d ∷ t) = true
text_lt (c ∷ s) [] = false
text_lt (c ∷ s) (d ∷ t) =
    let rest = text_lt s t in
    if ltb (code c) (code d) then true else if ltb (code d) (code c) then false else rest

irreflexive : (a : String) → text_lt a a ≡ false
unfolding text_lt
irreflexive [] = refl
irreflexive (c ∷ s) = ground (arith, irreflexive s)

transitive : (a b c : String) → text_lt a b ≡ true → text_lt b c ≡ true → text_lt a c ≡ true
unfolding text_lt
transitive [] [] [] h k = h
transitive [] [] (e ∷ u) h k = refl
transitive [] (d ∷ t) [] h k = k
transitive [] (d ∷ t) (e ∷ u) h k = refl
transitive (c ∷ s) [] [] h k = h
transitive (c ∷ s) [] (e ∷ u) h k = ground arith
transitive (c ∷ s) (d ∷ t) [] h k = k
transitive (c ∷ s) (d ∷ t) (e ∷ u) h k = ground (arith, transitive s t u)

total : (a b : String) → text_lt a b ≡ false → a ≢ b → text_lt b a ≡ true
unfolding text_lt
total [] [] h n = absurd (n refl)
total [] (d ∷ t) h n = ground arith
total (c ∷ s) [] h n = refl
total (c ∷ s) (d ∷ t) h n =
    let tail : code c ≡ code d → text_lt s t ≡ false → text_lt t s ≡ true =
      λ e k. total s t k (λ q. n (λ i. Char-path c d e i ∷ q i)) in
    ground (arith, tail)

pub text_lt-IsOrder : IsOrder text_lt
text_lt-IsOrder = record { irreflexive = irreflexive; transitive = transitive; total = total }
