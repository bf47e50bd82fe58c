-- ===== src/AlarmDefinitions/Keys.antt =====
-- Keys that are new to a table: those of the rows that the alarm definitions repository of
-- monasca/common/repositories/mysql inserts, by the primary keys of alarm.sql.
use monasca_api.Prelude.{
  ◌≡◌, refl, Bool, true, false, not, ◌&&◌, ◌||◌, seq, String, List, [], ◌∷◌, ◌++◌, arith, listed,
}

-- None of the texts is among the used ones, and none stands twice.
abbrev pub new_to : List String → List String → Bool
new_to used [] = true
new_to used (x ∷ xs) = not (listed used x) && new_to (used ++ x ∷ []) xs

pub and_iff : (b c : Bool) → (b && c) ≡ true → (b ≡ true) × (c ≡ true)
and_iff b c h = ground arith

pub new_to_step :
    (used : List String) (x : String) (xs : List String)
    → new_to used (x ∷ xs) ≡ true
    → (listed used x ≡ false) × (new_to (used ++ x ∷ []) xs ≡ true)
new_to_step used x xs h = ground arith

pub new_to_cons :
    (used : List String) (x : String) (xs : List String)
    → listed used x ≡ false
    → new_to (used ++ x ∷ []) xs ≡ true
    → new_to used (x ∷ xs) ≡ true
new_to_cons used x xs h k = ground arith

listed-append :
    (used : List String) (x y : String) → listed (used ++ x ∷ []) y ≡ (listed used y || seq x y)
listed-append [] x y = ground arith
listed-append (u ∷ used) x y = ground (arith, listed-append used x y)

listed-subset :
    (fewer used : List String) (x : String)
    → ((y : String) → listed fewer y ≡ true → listed used y ≡ true)
    → (y : String) → listed (fewer ++ x ∷ []) y ≡ true
    → listed (used ++ x ∷ []) y ≡ true
listed-subset fewer used x sub y =
    ground (arith, sub y, listed-append fewer x y, listed-append used x y)

new_to-subset :
    (fewer used xs : List String)
    → ((y : String) → listed fewer y ≡ true → listed used y ≡ true)
    → new_to used xs ≡ true
    → new_to fewer xs ≡ true
new_to-subset fewer used [] sub h = refl
new_to-subset fewer used (x ∷ xs) sub h =
    let (free, rest) = new_to_step used x xs h in
    let absent : listed fewer x ≡ false = ground (arith, sub x) in
    new_to_cons fewer x xs absent
      (new_to-subset (fewer ++ x ∷ []) (used ++ x ∷ []) xs (listed-subset fewer used x sub) rest)

-- what is new to some texts has no repetition
pub new_to_nothing : (used xs : List String) → new_to used xs ≡ true → new_to [] xs ≡ true
new_to_nothing used xs h = new_to-subset [] used xs (λ y e. absurd (cc)) h
