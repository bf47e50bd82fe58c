-- ===== src/Errors/Refusals.antt =====
-- Computations that raise, and calls that raise and leave the shared state as it was.
use monasca_api.Prelude.{◌≡◌, refl, ap}
use monasca_api.Errors.{
  Exec, Exn, Result, ok, err, ◌>>=◌, map_err, resource_error, resource_try_catch_block,
}
use monasca_api.Errors.Steps.{after}

-- a computation that raises, and a call that does and leaves the state as it is
abbrev pub Raises : {A : Type 0} → Result A → Type 0
Raises r = (e : Exn) × (r ≡ err e)

abbrev pub Refused : {S A : Type 0} → S → Result A × S → Type 0
Refused s r = (e : Exn) × (r ≡ (err e, s))

pub Raises-bind :
    {A B : Type 0} (m : Result A) (f : A → Result B) → ((a : A) → Raises (f a)) → Raises (m >>= f)
Raises-bind (ok a) f h = h a
Raises-bind (err e) f h = (e, refl)

pub Refused-after :
    {S A B : Type 0} (next : A → Exec S B) (s : S) (r : Result A × S)
    → Refused s r
    → Refused s (after next r)
Refused-after next s r (e, raised) = (e, ap (after next) raised)

pub Refused-caught :
    {S A : Type 0} (body : Exec S A) (s : S)
    → Refused s (body s)
    → Refused s (resource_try_catch_block body s)
unfolding resource_try_catch_block
Refused-caught body s (e, raised) =
    (resource_error e, ap (λ r. (map_err resource_error r.0, r.1)) raised)

-- a value that may be missing, and the statements with it
pub Refused-given :
    {S A B : Type 0} (next : A → Exec S B) (r : Result A) (s : S)
    → ((a : A) → r ≡ ok a → Refused s (next a s))
    → Refused s (after next (r, s))
Refused-given next (ok a) s h = h a refl
Refused-given next (err e) s h = (e, refl)
