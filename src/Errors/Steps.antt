-- ===== src/Errors/Steps.antt =====
-- Sequencing of methods that change a shared state and may raise.
use monasca_api.Prelude.{◌≡◌, ap}
use monasca_api.Errors.{Result, ok, err, Exec, map_err, resource_error, resource_try_catch_block}

abbrev pub after : {S A B : Type 0} → (A → Exec S B) → Result A × S → Result B × S
after next (ok value, s) = next value s
after next (err e, s) = (err e, s)

infixl 5 ◌>>=◌ ◌>>◌
abbrev pub ◌>>=◌ : {S A B : Type 0} → Exec S A → (A → Exec S B) → Exec S B
◌>>=◌ first next s = after next (first s)

abbrev pub ◌>>◌ : {S A B : Type 0} → Exec S A → Exec S B → Exec S B
◌>>◌ first next s = after (λ _. next) (first s)

-- a value that is computed without the state, or an exception
abbrev pub returned : {S A : Type 0} → Result A → Exec S A
returned r s = (r, s)

abbrev pub IsErr : {A : Type 0} → Result A → Type 0
IsErr (ok a) = ⊥
IsErr (err e) = Unit

-- a statement that returns, and a block that does
pub after-ok :
    {S A B : Type 0} (next : A → Exec S B) (r : Result A × S) (a : A) (s : S)
    → r ≡ (ok a, s)
    → after next r ≡ next a s
after-ok next r a s e = ap (after next) e

pub caught-ok :
    {S A : Type 0} (body : Exec S A) (s s' : S) (a : A)
    → body s ≡ (ok a, s')
    → resource_try_catch_block body s ≡ (ok a, s')
unfolding resource_try_catch_block
caught-ok body s s' a e = ap (λ r. (map_err resource_error r.0, r.1)) e
