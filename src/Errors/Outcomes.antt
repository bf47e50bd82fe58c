-- ===== src/Errors/Outcomes.antt =====
-- What a computation that may raise returns: `Yields P r` says that it returns, and with a P.
use monasca_api.Prelude.{◌≡◌, refl}
use monasca_api.Errors.{Result, ok, err, ◌>>=◌, ◌>>◌, mysql_try_catch_block, atomically}

abbrev pub Yields {ℓ} : {A : Type ℓ} → (A → Type 0) → Result A → Type 0
Yields P (ok a) = P a
Yields P (err e) = ⊥

pub Yields-bind {ℓ κ} :
    {A : Type ℓ} {B : Type κ} (P : A → Type 0) (Q : B → Type 0) (m : Result A) (f : A → Result B)
    → Yields P m
    → ((a : A) → P a → Yields Q (f a))
    → Yields Q (m >>= f)
Yields-bind P Q (ok a) f h k = k a h
Yields-bind P Q (err e) f h k = elim h [ ]

pub Yields-map {ℓ} :
    {A : Type ℓ} (P Q : A → Type 0) (m : Result A) → Yields P m → ((a : A) → P a → Q a) → Yields Q m
Yields-map P Q (ok a) h k = k a h
Yields-map P Q (err e) h k = elim h [ ]

-- What a committed block returns, with the state that it leaves.
module _ {S A : Type 0} (P : A → S → Type 0) (body : S → Result (A × S)) (s : S) where
  abbrev settled : Result (A × S) → Result A × S
  settled r = mysql_try_catch_block (atomically λ _. r) s

  Yields-settled :
      (r : Result (A × S))
      → Yields (λ r. P r.0 r.1) r
      → Yields (λ a. P a (settled r).1) (settled r).0
  unfolding mysql_try_catch_block atomically
  Yields-settled (ok (a, s')) h = h
  Yields-settled (err e) h = elim h [ ]

  pub Yields-atomically :
      Yields (λ r. P r.0 r.1) (body s)
      → Yields
          (λ a. P a (mysql_try_catch_block (atomically body) s).1)
          (mysql_try_catch_block (atomically body) s).0
  unfolding mysql_try_catch_block atomically
  Yields-atomically h = Yields-settled (body s) h

-- the steps of a chain that returned
module _ {ℓ κ} {V : Type ℓ} {W : Type κ} where
  pub returned_steps :
      (first : Result V) (next : V → Result W) {w : W}
      → (first >>= next) ≡ ok w
      → (value : V) × (first ≡ ok value) × (next value ≡ ok w)
  returned_steps (err e) next raised = absurd (cc)
  returned_steps (ok value) next same = (value, refl, same)

-- a check that returned, and what comes after it
pub checked_step {ℓ} :
    {W : Type ℓ} (check : Result (Unit {0})) (next : Result W) (w : W)
    → (check >> next) ≡ ok w
    → (check ≡ ok tt) × (next ≡ ok w)
checked_step (ok tt) next w h = (refl, h)
checked_step (err e) next w h = absurd (cc)

-- a computation that yields does return
pub Yields-returns {ℓ} :
    {A : Type ℓ} (P : A → Type 0) (r : Result A) → Yields P r → (a : A) × (r ≡ ok a) × P a
Yields-returns P (ok a) h = (a, refl, h)
Yields-returns P (err e) h = elim h [ ]

-- a committed block that returned
pub atomically-returns :
    {S A : Type 0} (body : S → Result (A × S)) (s : S) (a : A)
    → (mysql_try_catch_block (atomically body) s).0 ≡ ok a
    → (s' : S) × (body s ≡ ok (a, s')) × (mysql_try_catch_block (atomically body) s ≡ (ok a, s'))
unfolding mysql_try_catch_block atomically
atomically-returns {S = S} {A = A} body s a h = returned (body s) h
  where
    returned :
        (r : Result (A × S))
        → (mysql_try_catch_block (atomically λ _. r) s).0 ≡ ok a
        → (s' : S) × (r ≡ ok (a, s')) × (mysql_try_catch_block (atomically λ _. r) s ≡ (ok a, s'))
    returned (ok (b, s')) h = let e : b ≡ a = cc in (s', rw e, rw e)
    returned (err e) h = absurd (cc)
