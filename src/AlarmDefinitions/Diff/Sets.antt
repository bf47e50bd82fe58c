-- ===== src/AlarmDefinitions/Diff/Sets.antt =====
-- Membership in the sets and dicts that the loops build.
use monasca_api.Prelude.{
  ◌≡◌, refl, sym, ◌∙◌, Bool, true, false, not, ◌&&◌, ◌||◌, String, List, [], ◌∷◌, ◌++◌, arith, Dict,
  put, remove, has, any, All, seq, get-put, get-remove, ◌⊎◌, inl, inr, IsEquivalence, listed,
}
use mathlib.Core.List.{append-nil, append_assoc}
use monasca_api.Errors.{ok}
use monasca_api.AlarmDefinitions.Diff.{elem, set_add, add_all, set_of, del_all, index_by}

module _ {A : Type 0} where
  abbrev pub In : A → List A → Type 0
  In a [] = ⊥
  In a (x ∷ xs) = (x ≡ a) ⊎ In a xs

  pub any-append : (p : A → Bool) (xs ys : List A) → any p (xs ++ ys) ≡ (any p xs || any p ys)
  any-append p [] ys = refl
  any-append p (x ∷ xs) ys = ground (arith, any-append p xs ys)

  pub any-of_In : (p : A → Bool) (xs : List A) (a : A) → In a xs → p a ≡ true → any p xs ≡ true
  any-of_In p [] a m h = absurd m
  any-of_In p (x ∷ xs) a (inl e) h = rw (e, h)
  any-of_In p (x ∷ xs) a (inr m) h = ground (arith, any-of_In p xs a m h)

module _ {A : Type 0} (eq : A → A → Bool) (equiv : IsEquivalence eq) where
  -- equal elements are in the same sets
  pub elem_congr : (x y : A) (s : List A) → eq x y ≡ true → elem eq x s ≡ elem eq y s
  elem_congr x y [] h = refl
  elem_congr x y (z ∷ s) h = ground (
    arith,
    equiv.symmetric x y h,
    equiv.transitive x y z h,
    equiv.transitive y x z,
    elem_congr x y s h,
  )

  pub elem-set_add : (x y : A) (s : List A) → elem eq x (set_add eq y s) ≡ (elem eq x s || eq x y)
  unfolding set_add
  elem-set_add x y s = ground (arith, any-append (eq x) s (y ∷ []), elem_congr x y s)

  pub elem-add_all :
      (x : A) (s xs : List A) → elem eq x (add_all eq s xs) ≡ (elem eq x s || elem eq x xs)
  unfolding add_all
  elem-add_all x s [] = ground arith
  elem-add_all x s (y ∷ xs) = ground (arith, elem-add_all x (set_add eq y s) xs, elem-set_add x y s)

  -- no two of the list are equal
  abbrev pub Pairwise : List A → Type 0
  Pairwise [] = Unit
  Pairwise (x ∷ xs) = All (λ y. eq y x ≡ false) xs × Pairwise xs

  not-elem-concat :
      (x : A) (s ys : List A)
      → All (λ y. eq y x ≡ false) ys
      → All (λ y. elem eq y s ≡ false) ys
      → All (λ y. elem eq y (s ++ x ∷ []) ≡ false) ys
  not-elem-concat x s [] h g = tt
  not-elem-concat x s (y ∷ ys) (p, h) (q, g) =
      (ground (arith, any-append (eq y) s (x ∷ [])), not-elem-concat x s ys h g)

  add_all-distinct :
      (s xs : List A) → Pairwise xs → All (λ x. elem eq x s ≡ false) xs → add_all eq s xs ≡ s ++ xs
  unfolding add_all set_add
  add_all-distinct s [] d h = sym (append-nil s)
  add_all-distinct s (x ∷ xs) (p, d) (q, h) = rw q (
      add_all-distinct (s ++ x ∷ []) xs d (not-elem-concat x s xs p h) ∙ append_assoc s (x ∷ []) xs)

  All-absent : (xs : List A) → All (λ x. elem eq x [] ≡ false) xs
  All-absent [] = tt
  All-absent (x ∷ xs) = (refl, All-absent xs)

  -- A list without equal elements is its own set.
  pub set_of-distinct : (xs : List A) → Pairwise xs → set_of eq xs ≡ xs
  set_of-distinct xs d = add_all-distinct [] xs d (All-absent xs)

abbrev pub DistinctTexts : List String → Type 0
DistinctTexts [] = Unit
DistinctTexts (k ∷ ks) = All (λ j. seq k j ≡ false) ks × DistinctTexts ks

module _ {V : Type 0} where
  pub has-put : (k j : String) (v : V) (d : Dict V) → has j (put k v d) ≡ (seq k j || has j d)
  has-put k j v d = ground (arith, get-put k j v d)

  has-remove : (k j : String) (d : Dict V) → has j (remove k d) ≡ (not (seq k j) && has j d)
  has-remove k j d = ground (arith, get-remove k j d)

  still_there :
      (k : String) (ks : List String) (d : Dict V)
      → All (λ j. seq k j ≡ false) ks
      → All (λ j. has j d ≡ true) ks
      → All (λ j. has j (remove k d) ≡ true) ks
  still_there k [] d n h = tt
  still_there k (j ∷ ks) d (p, n) (q, h) =
      (ground (arith, has-remove k j d), still_there k ks d n h)

  -- What `del` leaves of a dict: everything but the deleted keys.
  abbrev pub Leaves : List String → Dict V → Dict V → Type 0
  Leaves ks d d' = (j : String) → has j d' ≡ (not (listed ks j) && has j d)

  -- No `KeyError`, if the keys are distinct and all there.
  pub del_all_outcome :
      (ks : List String) (d : Dict V)
      → DistinctTexts ks
      → All (λ j. has j d ≡ true) ks
      → (d' : Dict V) × (del_all ks d ≡ ok d') × Leaves ks d d'
  unfolding del_all
  del_all_outcome [] d n h = (d, refl, λ j. refl)
  del_all_outcome (k ∷ ks) d (p, n) (q, h) =
      let (d', done, leaves) = del_all_outcome ks (remove k d) n (still_there k ks d p h) in
      (d', rw q done, λ j. ground (arith, leaves j, has-remove k j d))

  pub has-index_by :
      (key : V → String) (j : String) (d : Dict V) (xs : List V)
      → has j (index_by key d xs) ≡ (has j d || any (λ x. seq (key x) j) xs)
  unfolding index_by
  has-index_by key j d [] = ground arith
  has-index_by key j d (x ∷ xs) =
      ground (arith, has-index_by key j (put (key x) x d) xs, has-put (key x) j x d)
