-- ===== src/Http/Query/Laws.antt =====
-- What the query parameters mean: a list of dimensions is read back, and statistics are checked.
use monasca_api.Prelude.{
  ◌≡◌, ◌↔◌, ◌⊎◌, inl, inr, refl, true, String, List, [], ◌∷◌, map, none, some, arith, Dict, get,
  put, all, All, listed, listed_iff, Member, Option-cases, Bool-cases, split, join, split-join,
  NoCode, NoCode-join, lower, ap,
}
use monasca_api.Errors.{Result, ok, err}
use monasca_api.Http.{Request}
use monasca_api.Http.Query.{
  bad, name_value, collect, get_query_dimensions, allowed_statistics, get_query_statistics,
}

-- "name:value"
abbrev pub written : String × String → String
written (n, v) = join ":" (n ∷ v ∷ [])

-- no comma and no colon in the name and in the value
abbrev pub IsClean : String × String → Type 0
IsClean (n, v) = (NoCode b',' n × NoCode b',' v) × (NoCode b':' n × NoCode b':' v)

-- the later value of a name that stands twice wins
abbrev pub put_all : Dict String → List (String × String) → Dict String
put_all d [] = d
put_all d ((n, v) ∷ ps) = put_all (put n v d) ps

split-written : (p : String × String) → IsClean p → split b':' (written p) ≡ p.0 ∷ p.1 ∷ []
split-written (n, v) (_, h) = split-join ":" (n ∷ v ∷ []) (cc) (h.0, (h.1, tt))

collect-written :
    (d : Dict String) (ps : List (String × String))
    → All IsClean ps
    → collect d (map written ps) ≡ ok (put_all d ps)
unfolding collect
collect-written d [] h = refl
collect-written d ((n, v) ∷ ps) (p, h) =
    rw (split-written (n, v) p, collect) (collect-written (put n v d) ps h)

All-NoCode : (ps : List (String × String)) → All IsClean ps → All (NoCode b',') (map written ps)
All-NoCode [] h = tt
All-NoCode ((n, v) ∷ ps) ((c, _), h) =
    (NoCode-join b',' ":" (n ∷ v ∷ []) (omega arith) (c.0, (c.1, tt)), All-NoCode ps h)

-- A query that names dimensions as "n1:v1,n2:v2,…", with no comma or colon inside a name or value,
-- is read as the dict of those pairs; where a name stands twice, its last value counts.
pub get_query_dimensions_roundtrip :
    (req : Request) (p : String × String) (ps : List (String × String))
    → All IsClean (p ∷ ps)
    → get "dimensions" req.params ≡ some (join "," (map written (p ∷ ps)))
    → get_query_dimensions req ≡ ok (put_all [] (p ∷ ps))
unfolding get_query_dimensions
get_query_dimensions_roundtrip req p ps h e =
    rw (e, get_query_dimensions, split-join "," (map written (p ∷ ps)) (cc) (All-NoCode (p ∷ ps) h))
      (collect-written [] (p ∷ ps) h)

-- The loop ends without an error only if each part holds exactly one colon.
abbrev pub IsPair : String → Type 0
IsPair part = (n : String) × (v : String) × (split b':' part ≡ n ∷ v ∷ [])

name_value_sound :
    (parts : List String)
    → ¬ (name_value parts ≡ none)
    → (n : String) × (v : String) × (parts ≡ n ∷ v ∷ [])
name_value_sound [] h = absurd (h refl)
name_value_sound (a ∷ []) h = absurd (h refl)
name_value_sound (a ∷ b ∷ []) h = (a, b, refl)
name_value_sound (a ∷ b ∷ c ∷ r) h = absurd (h refl)

abbrev Outcome : Result (Dict String) → List String → Type 0
Outcome r parts =
    (All IsPair parts × (d : Dict String) × (r ≡ ok d))
    ⊎ ((¬ All IsPair parts) × (r ≡ err (bad "Dimensions are malformed")))

collect-Outcome : (d : Dict String) (parts : List String) → Outcome (collect d parts) parts
unfolding collect
collect-Outcome d [] = inl (tt, d, refl)
collect-Outcome d (part ∷ rest) = elim (Option-cases (name_value (split b':' part))) [
  | inl malformed ↦ inr (λ h. cc (malformed, ap name_value h.0.2), rw (malformed, collect))
  | inr ((n, v), pair) ↦ elim (collect-Outcome (put n v d) rest) [
    | inl (h, d', found) ↦
        inl (
          (name_value_sound (split b':' part) (λ e. cc (e, pair)), h),
          d',
          rw (pair, collect) found,
        )
    | inr (h, failed) ↦ inr (λ k. h k.1, rw (pair, collect) failed)
  ]
]

-- A request with the parameter `dimensions` is answered by a dict exactly when every part between
-- the commas holds one colon, and by 400 in every other case.
pub get_query_dimensions-Outcome :
    (req : Request) (given : String)
    → get "dimensions" req.params ≡ some given
    → Outcome (get_query_dimensions req) (split b',' given)
get_query_dimensions-Outcome req given e =
    unfold get_query_dimensions in
    rw (e, get_query_dimensions) (collect-Outcome [] (split b',' given))

all_iff_All :
    (statistics : List String)
    → (all (listed allowed_statistics) statistics ≡ true)
      ↔ All (λ s. Member s allowed_statistics) statistics
all_iff_All [] = ground arith
all_iff_All (s ∷ ss) = ground (arith, listed_iff allowed_statistics s, all_iff_All ss)

-- With the parameter `statistics` given, a handler goes on with its parts in lower case if each is
-- one of avg, min, max, count and sum, and answers 400 in every other case.
pub get_query_statistics_outcome :
    (req : Request) (given : String)
    → get "statistics" req.params ≡ some given
    → ((get_query_statistics req ≡ ok (map lower (split b',' given)))
        × All (λ s. Member s allowed_statistics) (map lower (split b',' given)))
      ⊎ ((get_query_statistics req ≡ err (bad "Invalid statistic"))
          × ¬ All (λ s. Member s allowed_statistics) (map lower (split b',' given)))
unfolding get_query_statistics
get_query_statistics_outcome req given present =
    let statistics = map lower (split b',' given) in
    elim (Bool-cases (all (listed allowed_statistics) statistics)) [
      | inl good ↦ inl (rw (present, get_query_statistics, good), (all_iff_All statistics).0 good)
      | inr wrong ↦
          inr (
            rw (present, get_query_statistics, wrong),
            λ h. cc (wrong, (all_iff_All statistics).1 h),
          )
    ]
