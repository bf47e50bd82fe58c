-- ===== src/Prelude/Order/Laws.antt =====
-- Sorting by key, and what a threshold on the key cuts off.
use Prim.Native.Nat.{ℕ, zero, suc, ◌<◌}
use Prim.Native.String.{String}
use mathlib.Core.Path.{◌≡◌, refl, ap, sym, subst, ◌∙◌}
use mathlib.Core.Bool.{Bool, true, false}
use mathlib.Core.Logic.{◌≢◌, inl, inr}
use mathlib.Core.List.{List, [], ◌∷◌, ◌++◌}
use native.Mathlib.Omega.{arith}
use monasca_api.Prelude.Tests.{if◌then◌else◌, Bool-cases}
use monasca_api.Prelude.Lists.{
  All, All-map, All-keep, keep, keep_sound, take, length, length-append, last_or,
}
use monasca_api.Prelude.Order.{IsOrder, insert_by, order_by, page, Sorted, DistinctKeys}

module _ {A : Type 0} where
  abbrev pub drop : ℕ → List A → List A
  drop zero xs = xs
  drop (suc n) [] = []
  drop (suc n) (x ∷ xs) = drop n xs

  pub take-append-drop : (n : ℕ) (xs : List A) → take n xs ++ drop n xs ≡ xs
  take-append-drop zero xs = refl
  take-append-drop (suc n) [] = refl
  take-append-drop (suc n) (x ∷ xs) = ap (◌∷◌ x) (take-append-drop n xs)

  pub take_of_short : (n : ℕ) (xs : List A) → length (take n xs) < n → take n xs ≡ xs
  take_of_short zero xs h = absurd (omega arith)
  take_of_short (suc n) [] h = refl
  take_of_short (suc n) (x ∷ xs) h = ap (◌∷◌ x) (take_of_short n xs (omega arith))

  pub keep-All : (p : A → Bool) (xs : List A) → All (λ x. p x ≡ true) xs → keep p xs ≡ xs
  unfolding keep
  keep-All p [] h = refl
  keep-All p (x ∷ xs) (q, h) = ground (arith, keep-All p xs h)

  -- a weaker test first changes nothing
  pub keep-keep :
      (p q : A → Bool) (xs : List A)
      → ((x : A) → p x ≡ true → q x ≡ true)
      → keep p (keep q xs) ≡ keep p xs
  unfolding keep
  keep-keep p q [] h = refl
  keep-keep p q (x ∷ xs) h = ground (arith, h x, keep-keep p q xs h)

  pub All-last_prefix {κ} :
      (P : A → Type κ) (x : A) (xs ys : List A) → All P (x ∷ xs ++ ys) → P (last_or x xs)
  All-last_prefix P x [] ys (p, h) = p
  All-last_prefix P x (y ∷ xs) ys (p, h) = All-last_prefix P y xs ys h

  All-if {κ} :
      (P : A → Type κ) (b : Bool) (xs ys : List A)
      → All P xs
      → All P ys
      → All P (if b then xs else ys)
  All-if P true xs ys h k = h
  All-if P false xs ys h k = k

module _ {A : Type 0} (lt : String → String → Bool) (key : A → String) where
  pub All-insert_by {κ} :
      (P : A → Type κ) (x : A) (l : List A) → P x → All P l → All P (insert_by lt key x l)
  unfolding insert_by
  All-insert_by P x [] p h = (p, tt)
  All-insert_by P x (y ∷ l) p (q, h) =
      All-if P (lt (key y) (key x)) _ _ (q, All-insert_by P x l p h) (p, (q, h))

  pub All-order_by {κ} : (P : A → Type κ) (l : List A) → All P l → All P (order_by lt key l)
  unfolding order_by
  All-order_by P [] h = tt
  All-order_by P (x ∷ l) (p, h) = All-insert_by P x (order_by lt key l) p (All-order_by P l h)

  module _ (o : IsOrder lt) where
    asymmetric : (a b : String) → lt a b ≡ true → lt b a ≡ false
    asymmetric a b h = ground (arith, o.irreflexive a, o.transitive a b a h)

    -- `a ≤ b < c` gives `a < c`
    le_lt_trans : (a b c : String) → a ≢ b → lt b a ≡ false → lt b c ≡ true → lt a c ≡ true
    le_lt_trans a b c n h k = o.transitive a b c (o.total b a h (λ e. n (sym e))) k

    insert_by-Sorted :
        (x : A) (l : List A)
        → All (λ y. key x ≢ key y) l
        → Sorted lt key l
        → Sorted lt key (insert_by lt key x l)
    unfolding insert_by
    insert_by-Sorted x [] n h = (tt, tt)
    insert_by-Sorted x (y ∷ l) (n, ns) (m, h) = elim (Bool-cases (lt (key y) (key x))) [
      | inl below ↦
          rw below
            (All-insert_by (λ z. lt (key y) (key z) ≡ true) x l below m, insert_by-Sorted x l ns h)
      | inr above ↦ rw above (
        (
          o.total (key y) (key x) above (λ e. n (sym e)),
          All-map l (λ z. le_lt_trans (key x) (key y) (key z) n above) m,
        ),
        (m, h),
      )
    ]

    pub order_by-Sorted : (l : List A) → DistinctKeys lt key l → Sorted lt key (order_by lt key l)
    unfolding order_by
    order_by-Sorted [] d = tt
    order_by-Sorted (x ∷ l) (n, d) =
        insert_by-Sorted x (order_by lt key l) (All-order_by (λ y. key x ≢ key y) l n)
          (order_by-Sorted l d)

    insert_by_first :
        (x : A) (l : List A)
        → All (λ y. lt (key y) (key x) ≡ false) l
        → insert_by lt key x l ≡ x ∷ l
    unfolding insert_by
    insert_by_first x [] h = refl
    insert_by_first x (y ∷ l) (p, h) = rw p

    keep-insert_by :
        (p : A → Bool) (x : A) (l : List A)
        → All (λ y. key x ≢ key y) l
        → Sorted lt key l
        → keep p (insert_by lt key x l) ≡ (if p x then insert_by lt key x (keep p l) else keep p l)
    unfolding keep insert_by
    keep-insert_by p x [] n h = ground arith
    keep-insert_by p x (y ∷ l) (n, ns) (m, h) = elim (Bool-cases (lt (key y) (key x))) [
      | inl below ↦ ground (arith, keep-insert_by p x l ns h)
      | inr above ↦ ground (
        arith,
        insert_by_first x (keep p l) (
            All-keep _ p l (
              All-map l
                (λ z k. asymmetric (key x) (key z) (le_lt_trans (key x) (key y) (key z) n above k))
                m)),
      )
    ]

    -- Filtering commutes with sorting.
    pub keep-order_by :
        (p : A → Bool) (l : List A)
        → DistinctKeys lt key l
        → keep p (order_by lt key l) ≡ order_by lt key (keep p l)
    unfolding order_by keep
    keep-order_by p [] d = refl
    keep-order_by p (x ∷ l) (n, d) = ground (
      arith,
      keep-insert_by p x (order_by lt key l) (All-order_by (λ y. key x ≢ key y) l n)
          (order_by-Sorted l d),
      keep-order_by p l d,
    )

    -- What lies behind the last row of a prefix of a sorted list is the rest of the list.
    pub keep_after :
        (x : A) (xs ys : List A)
        → Sorted lt key (x ∷ xs ++ ys)
        → keep (λ r. lt (key (last_or x xs)) (key r)) (x ∷ xs ++ ys) ≡ ys
    unfolding keep
    keep_after x [] ys (m, h) = rw o.irreflexive (keep-All _ ys m)
    keep_after x (y ∷ xs) ys (m, h) =
        rw
          (asymmetric (key x) (key (last_or y xs))
            (All-last_prefix (λ r. lt (key x) (key r) ≡ true) y xs ys m))
          (keep_after y xs ys h)

    keep-Sorted : (p : A → Bool) (l : List A) → Sorted lt key l → Sorted lt key (keep p l)
    unfolding keep
    keep-Sorted p [] h = tt
    keep-Sorted p (x ∷ l) (m, h) =
        ground (arith, keep-Sorted p l h, All-keep (λ y. lt (key x) (key y) ≡ true) p l m)

    page_whole :
        (n : ℕ) (rest p : List A) (x : A) → take n rest ≡ x ∷ p → (x ∷ p ++ drop n rest) ≡ rest
    page_whole n rest p x e = ap (λ t. t ++ drop n rest) (sym e) ∙ take-append-drop n rest

    -- The rows behind the last row of a page are those that the page left out.
    after_page :
        (n : ℕ) (offset : String) (l p : List A) (x : A)
        → Sorted lt key l
        → take n (keep (λ r. lt offset (key r)) l) ≡ x ∷ p
        → keep (λ r. lt (key (last_or x p)) (key r)) l ≡ drop n (keep (λ r. lt offset (key r)) l)
    after_page n offset l p x h e =
        let rest = keep (λ r. lt offset (key r)) l in
        let whole = page_whole n rest p x e in
        let k = key (last_or x p) in
        let P = λ (r : A). lt offset (key r) ≡ true in
        let above =
          All-last_prefix P x p (drop n rest) (subst (All P) (sym whole) (keep_sound _ l)) in
        sym (
          keep-keep (λ r. lt k (key r)) (λ r. lt offset (key r)) l
            (λ r. o.transitive offset k (key r) above))
        ∙ ap (keep (λ r. lt k (key r))) (sym whole)
        ∙ keep_after x p (drop n rest) (subst (Sorted lt key) (sym whole) (keep-Sorted _ l h))

    -- A page that is not the last: its rows, then what follows its last row.
    pub page_step :
        (n : ℕ) (offset : String) (rows p : List A) (x : A)
        → DistinctKeys lt key rows
        → page lt key n offset rows ≡ x ∷ p
        → (x ∷ p ++ order_by lt key (keep (λ r. lt (key (last_or x p)) (key r)) rows))
          ≡ order_by lt key (keep (λ r. lt offset (key r)) rows)
    unfolding page
    page_step n offset rows p x d e =
        let e' = ap (take n) (keep-order_by (λ r. lt offset (key r)) rows d) ∙ e in
        rw (← keep-order_by _ rows d, ← keep-order_by _ rows d)
          (rw (after_page n offset (order_by lt key rows) p x (order_by-Sorted rows d) e')
            (page_whole n _ p x e'))

    -- What is left after a full page is shorter than before.
    pub page-shrinks :
        (n : ℕ) (offset : String) (rows p : List A) (x : A)
        → DistinctKeys lt key rows
        → page lt key n offset rows ≡ x ∷ p
        → length (order_by lt key (keep (λ r. lt (key (last_or x p)) (key r)) rows))
          < length (order_by lt key (keep (λ r. lt offset (key r)) rows))
    page-shrinks n offset rows p x d e = omega (
      arith,
      ap length (page_step n offset rows p x d e),
      length-append p (order_by lt key (keep (λ r. lt (key (last_or x p)) (key r)) rows)),
    )
