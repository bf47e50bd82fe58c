-- ===== src/Influx/History/Inputs.antt =====
-- Which ids reach the database.
use monasca_api.Prelude.{
  ◌≡◌, refl, ap, ℕ, Bool, true, false, String, List, [], ◌∷◌, any, Option, All, Bool-cases, ◌⊎◌,
  inl, inr, arith, NoCode,
}
use monasca_api.Errors.{Result, ok, err, repository, python, map_err}
use monasca_api.Json.{Json}
use monasca_api.Influx.Metrics.{Client}
use monasca_api.Influx.History.{AlarmPoint, is_unsafe, history_query, ask_history, alarm_history}

-- An id that passes the test holds neither of the two characters.
safe-NoCode : (s : String) → is_unsafe s ≡ false → NoCode 39 s × NoCode b';' s
unfolding is_unsafe
safe-NoCode String.[] h = (tt, tt)
safe-NoCode (String.◌∷◌ c s) h =
    let rest : is_unsafe s ≡ false = ground arith in
    let (p, q) = safe-NoCode s rest in ((ground arith, p), (ground arith, q))

safe-All :
    (ids : List String) → any is_unsafe ids ≡ false → All (λ id. NoCode 39 id × NoCode b';' id) ids
safe-All [] h = tt
safe-All (id ∷ ids) h =
    let p : is_unsafe id ≡ false = ground arith in
    let q : any is_unsafe ids ≡ false = ground arith in (safe-NoCode id p, safe-All ids q)

module _ (loads : String → Option Json) (utc : Json → Result Json) {W : Type 0} (query : Client W)
    (tenant_id : String) (ids : List String) (offset : Option String) (start end : Option ℕ)
    (w : W) where
  -- Nothing is ask_history: there is no id, or one of them is refused.
  abbrev pub NotAsked : Result (List AlarmPoint) × W → Type 0
  NotAsked r =
      (ids ≡ []) × (r ≡ (ok [], w))
      ⊎ ((any is_unsafe ids ≡ true) × (r ≡ (err (repository (python "Exception")), w)))

  -- One query is sent, in which no id can end its quotes or the query.
  abbrev pub Asked : Result (List AlarmPoint) × W → Type 0
  Asked r =
      All (λ id. NoCode 39 id × NoCode b';' id) ids
      × (r.1 ≡ (query (history_query tenant_id ids offset start end) w).1)

  abbrev after_test : List String → Bool → Result (List AlarmPoint) × W
  after_test l b = elim b [
    | true ↦ (err (repository (python "Exception")), w)
    | false ↦
        let (r, w') = ask_history loads utc query (history_query tenant_id l offset start end) w in
        (map_err repository r, w')
  ]

module _ (loads : String → Option Json) (utc : Json → Result Json) {W : Type 0} (query : Client W)
    (tenant_id : String) where
  -- Either nothing is sent to InfluxDB, since there is no id or since an id holds a quote or a
  -- semicolon, which is an error; or no id holds one of them, and the one query that is built from
  -- the ids is sent.
  pub alarm_history-inputs :
      (ids : List String) (offset : Option String) (start end : Option ℕ) (w : W)
      → NotAsked loads utc query tenant_id ids offset start end w
          (alarm_history loads utc query tenant_id ids offset start end w)
        ⊎ Asked loads utc query tenant_id ids offset start end w
            (alarm_history loads utc query tenant_id ids offset start end w)
  unfolding alarm_history ask_history
  alarm_history-inputs [] offset start end w = inl (inl (refl, refl))
  alarm_history-inputs (id ∷ ids) offset start end w =
      elim (Bool-cases (any is_unsafe (id ∷ ids))) [
        | inl e ↦ inl (
            inr (
              e,
              ap (after_test loads utc query tenant_id (id ∷ ids) offset start end w (id ∷ ids)) e,
            ))
        | inr e ↦ inr (
          safe-All (id ∷ ids) e,
          ap
              (λ b.
                (after_test loads utc query tenant_id (id ∷ ids) offset start end w (id ∷ ids) b).1)
              e,
        )
      ]
