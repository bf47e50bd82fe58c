-- ===== src/AlarmDefinitions/Diff/Keys.antt =====
-- Lists with distinct keys: a test that asks for a key speaks of one element.
use monasca_api.Prelude.{
  ◌≡◌, refl, subst, Bool, true, false, ◌&&◌, String, List, [], ◌∷◌, map, arith, Dict, get, put, has,
  keys, any, keep, All, seq, eq_iff, eq_refl, Bool-cases, inl, inr, listed,
}
use monasca_api.AlarmDefinitions.Diff.Sets.{In, DistinctTexts}

module _ {A : Type 0} where
  pub any-keep : (p q : A → Bool) (xs : List A) → any p (keep q xs) ≡ any (λ x. q x && p x) xs
  unfolding keep
  any-keep p q [] = refl
  any-keep p q (x ∷ xs) = ground (arith, any-keep p q xs)

  pub any-In : (p : A → Bool) (xs : List A) → any p xs ≡ true → (a : A) × In a xs × (p a ≡ true)
  any-In p [] h = cc
  any-In p (x ∷ xs) h = elim (Bool-cases (p x)) [
    | inl here ↦ (x, inl refl, here)
    | inr there ↦ let (a, m, q) = any-In p xs (ground arith) in (a, inr m, q)
  ]

  pub any_none : (p : A → Bool) (xs : List A) → All (λ x. p x ≡ false) xs → any p xs ≡ false
  any_none p [] h = refl
  any_none p (x ∷ xs) (q, h) = ground (arith, any_none p xs h)

module _ {A : Type 0} (key : A → String) where
  pub listed-map : (xs : List A) (k : String) → listed (map key xs) k ≡ any (λ x. seq (key x) k) xs
  listed-map [] k = refl
  listed-map (x ∷ xs) k = ground (arith, listed-map xs k)

  key_apart :
      (x o : A) (xs : List A)
      → All (λ j. seq (key x) j ≡ false) (map key xs)
      → In o xs
      → seq (key x) (key o) ≡ false
  key_apart x o [] h m = absurd m
  key_apart x o (y ∷ xs) (p, h) (inl e) = rw (← e) p
  key_apart x o (y ∷ xs) (p, h) (inr m) = key_apart x o xs h m

  others_false :
      (g : A → Bool) (o : A) (xs : List A)
      → ((x : A) → seq (key x) (key o) ≡ false → g x ≡ false)
      → All (λ j. seq (key o) j ≡ false) (map key xs)
      → any g xs ≡ false
  others_false g o [] h n = refl
  others_false g o (x ∷ xs) h (p, n) =
      ground (arith, h x, eq_iff (key x) (key o), eq_iff (key o) (key x), others_false g o xs h n)

  -- A test that only an element with the key of `o` can pass holds of some element exactly if it
  -- holds of `o`.
  pub any_only :
      (g : A → Bool) (o : A) (xs : List A)
      → ((x : A) → seq (key x) (key o) ≡ false → g x ≡ false)
      → DistinctTexts (map key xs)
      → In o xs
      → any g xs ≡ g o
  any_only g o [] h d m = absurd m
  any_only g o (x ∷ xs) h (n, d) (inl e) =
      let n' : All (λ j. seq (key o) j ≡ false) (map key xs) =
        subst (λ y. All (λ j. seq (key y) j ≡ false) (map key xs)) e n in
      ground (arith, e, others_false g o xs h n')
  any_only g o (x ∷ xs) h (n, d) (inr m) =
      ground (arith, h x, key_apart x o xs n m, any_only g o xs h d m)

  pub All-map-keep :
      (P : String → Type 0) (q : A → Bool) (xs : List A)
      → All P (map key xs)
      → All P (map key (keep q xs))
  unfolding keep
  All-map-keep P q [] h = tt
  All-map-keep P q (x ∷ xs) (p, h) = ground (arith, All-map-keep P q xs h)

  pub DistinctTexts-keep :
      (q : A → Bool) (xs : List A)
      → DistinctTexts (map key xs)
      → DistinctTexts (map key (keep q xs))
  unfolding keep
  DistinctTexts-keep q [] d = tt
  DistinctTexts-keep q (x ∷ xs) (n, d) =
      ground (arith, DistinctTexts-keep q xs d, All-map-keep (λ j. seq (key x) j ≡ false) q xs n)

module _ {V : Type 0} where
  All-keys-put :
      (P : String → Type 0) (k : String) (v : V) (d : Dict V)
      → P k
      → All P (keys d)
      → All P (keys (put k v d))
  unfolding put
  All-keys-put P k v [] p h = (p, tt)
  All-keys-put P k v ((j, w) ∷ d) p (q, h) = ground (arith, All-keys-put P k v d p h)

  pub DistinctTexts-put :
      (k : String) (v : V) (d : Dict V) → DistinctTexts (keys d) → DistinctTexts (keys (put k v d))
  unfolding put
  DistinctTexts-put k v [] h = (tt, tt)
  DistinctTexts-put k v ((j, w) ∷ d) (n, h) = elim (Bool-cases (seq j k)) [
    | inl same ↦
        rw same (subst (λ i. All (λ t. seq i t ≡ false) (keys d)) ((eq_iff j k).0 same) n, h)
    | inr other ↦
        rw other (All-keys-put (λ t. seq j t ≡ false) k v d other n, DistinctTexts-put k v d h)
  ]

  pub listed-keys : (d : Dict V) (k : String) → listed (keys d) k ≡ has k d
  unfolding get
  listed-keys [] k = refl
  listed-keys ((j, w) ∷ d) k = ground (arith, listed-keys d k)

-- What holds of each listed text holds of all in the list.
pub All-of_listed :
    (P : String → Type 0) (ks : List String) → ((j : String) → listed ks j ≡ true → P j) → All P ks
All-of_listed P [] h = tt
All-of_listed P (k ∷ ks) h = (h k (rw eq_refl), All-of_listed P ks (λ j m. h j (ground arith)))
