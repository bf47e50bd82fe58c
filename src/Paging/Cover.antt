-- ===== src/Paging/Cover.antt =====
-- A client that follows the next links of a listing sees each row once, in the order of the keys.
use monasca_api.Prelude.{
  ◌≡◌, refl, ap, sym, ◌∙◌, ℕ, zero, suc, ◌<◌, Bool, true, String, List, [], ◌∷◌, ◌++◌, none, some,
  arith, leb, length, length-keep-le, keep, All, last_or, IsOrder, DistinctKeys, order_by,
  insert_by, page, Bool-cases, inl, inr,
}
use monasca_api.Prelude.Order.Laws.{page_step, page-shrinks, take_of_short, keep-All}
use monasca_api.Paging.Links.{next_offset_full, next_offset_short}
use monasca_api.Paging.{page_limit, next_offset}

module _ {A : Type 0} (lt : String → String → Bool) (key : A → String) where
  -- a page, and what follows it if the answer has a next link
  abbrev pub turn : List A → (String → List A) → List A
  turn p rest = elim (next_offset key p) [ none ↦ p | some last ↦ p ++ rest last ]

  -- The client: it asks for a page, and for the one behind its last row if the answer has a next
  -- link. The rows do not change meanwhile.
  unfoldable pub follow : ℕ → String → List A → List A
  follow zero offset rows = []
  follow (suc fuel) offset rows =
      turn (page lt key page_limit offset rows) (λ last. follow fuel last rows)

  length-insert_by : (x : A) (l : List A) → length (insert_by lt key x l) ≡ suc (length l)
  unfolding insert_by
  length-insert_by x [] = refl
  length-insert_by x (y ∷ l) = ground (arith, length-insert_by x l)

  length-order_by : (l : List A) → length (order_by lt key l) ≡ length l
  unfolding order_by
  length-order_by [] = refl
  length-order_by (x ∷ l) = omega (arith, length-insert_by x (order_by lt key l), length-order_by l)

  -- the rows behind an offset, in order
  abbrev pub behind : String → List A → List A
  behind offset rows = order_by lt key (keep (λ r. lt offset (key r)) rows)

  short_page :
      (offset : String) (rows p : List A)
      → page lt key page_limit offset rows ≡ p
      → length p < page_limit
      → p ≡ behind offset rows
  unfolding page
  short_page offset rows p e h =
      sym e ∙ take_of_short page_limit (behind offset rows) (omega (arith, ap length e))

  module _ (o : IsOrder lt) (rows : List A) (distinct : DistinctKeys lt key rows) where
    turn_lem :
        (fuel : ℕ) (offset : String) (rest : String → List A) (p : List A)
        → page lt key page_limit offset rows ≡ p
        → length (behind offset rows) < suc fuel
        → ((last : String) → length (behind last rows) < fuel → rest last ≡ behind last rows)
        → turn p rest ≡ behind offset rows
    turn_lem fuel offset rest [] e h ih =
        unfold next_offset in short_page offset rows [] e (omega arith)
    turn_lem fuel offset rest (x ∷ xs) e h ih =
        elim (Bool-cases (leb page_limit (length (x ∷ xs)))) [
          | inl full ↦
              rw (next_offset_full key x xs full, turn)
                (ap (λ t. x ∷ xs ++ t)
                    (ih (key (last_or x xs))
                      (omega (arith, page-shrinks lt key o page_limit offset rows xs x distinct e)))
                  ∙ page_step lt key o page_limit offset rows xs x distinct e)
          | inr short ↦
              rw (next_offset_short key x xs short, turn)
                (short_page offset rows (x ∷ xs) e (ground arith))
        ]

    follow_from :
        (fuel : ℕ) (offset : String)
        → length (behind offset rows) < fuel
        → follow fuel offset rows ≡ behind offset rows
    unfolding follow
    follow_from zero offset h = absurd (omega arith)
    follow_from (suc fuel) offset h =
        turn_lem fuel offset (λ last. follow fuel last rows) _ refl h
          (λ last k. follow_from fuel last k)

-- If the keys are distinct and lie behind the first offset, and more pages may be asked for than
-- there are rows, then a client that follows the next links gets exactly the rows, in the order of
-- their keys: none is missing and none comes twice, whatever the number of pages.
pub follow-order_by :
    {A : Type 0} (lt : String → String → Bool) (key : A → String)
    → IsOrder lt
    → (fuel : ℕ) (first : String) (rows : List A) → DistinctKeys lt key rows
    → All (λ r. lt first (key r) ≡ true) rows
    → length rows < fuel
    → follow lt key fuel first rows ≡ order_by lt key rows
follow-order_by lt key o fuel first rows d above h =
    follow_from lt key o rows d fuel first (
      omega (
        arith,
        length-order_by lt key (keep (λ r. lt first (key r)) rows),
        length-keep-le (λ r. lt first (key r)) rows,
      ))
    ∙ ap (order_by lt key) (keep-All (λ r. lt first (key r)) rows above)
