-- ===== src/Prelude/Dicts.antt =====
-- Python's `dict` with text keys, as an association list. The order of the entries is that of
-- insertion; no theorem speaks of it.
use Prim.Native.String.{String}
use mathlib.Core.Path.{◌≡◌, refl}
use mathlib.Core.Bool.{Bool}
use mathlib.Core.Option.{Option, none, some}
use mathlib.Core.List.{List, [], ◌∷◌, map}
use native.Mathlib.Omega.{arith}
use text.Mathlib.TextEquality.{eq_iff}
use text.Mathlib.TextPositions.{eq_refl}
use monasca_api.Prelude.Tests.{if◌then◌else◌, is_some}
use monasca_api.Prelude.Texts.{seq}

abbrev pub Dict {ℓ} : Type ℓ → Type ℓ
Dict V = List (String × V)

module _ {ℓ} {V : Type ℓ} where
  -- `d.get(k)`
  unfoldable pub get : String → Dict V → Option V
  get k [] = none
  get k ((j, v) ∷ d) = if seq j k then some v else get k d

  -- `k in d`
  abbrev pub has : String → Dict V → Bool
  has k d = is_some (get k d)

  -- `d[k] = v`
  unfoldable pub put : String → V → Dict V → Dict V
  put k v [] = (k, v) ∷ []
  put k v ((j, w) ∷ d) = let rest = put k v d in if seq j k then (k, v) ∷ d else (j, w) ∷ rest

  -- `del d[k]`, and `d.pop(k, None)`: nothing happens to a dict without the key
  unfoldable pub remove : String → Dict V → Dict V
  remove k [] = []
  remove k ((j, w) ∷ d) = let rest = remove k d in if seq j k then rest else (j, w) ∷ rest

  abbrev pub keys : Dict V → List String
  keys d = map (λ e. e.0) d

  pub get-put :
      (k j : String) (v : V) (d : Dict V)
      → get j (put k v d) ≡ (if seq k j then some v else get j d)
  unfolding get put
  get-put k j v [] = refl
  get-put k j v ((i, w) ∷ d) = ground (arith, eq_iff k j, eq_iff i k, eq_iff i j, get-put k j v d)

  pub get-put_self : (k : String) (v : V) (d : Dict V) → get k (put k v d) ≡ some v
  get-put_self k v d = simp (get-put, eq_refl)

  pub get-remove :
      (k j : String) (d : Dict V) → get j (remove k d) ≡ (if seq k j then none else get j d)
  unfolding get remove
  get-remove k j [] = ground arith
  get-remove k j ((i, w) ∷ d) = ground (arith, eq_iff k j, eq_iff i k, eq_iff i j, get-remove k j d)

pub ruleset dict_laws = (get-put, get-remove)
