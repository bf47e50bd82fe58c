-- ===== src/AlarmDefinitions/Create/Dimensions.antt =====
-- The rows that are inserted for a sub expression.
use monasca_api.Prelude.{
  ◌≡◌, refl, ◌∙◌, Bool, true, false, ◌&&◌, String, List, [], ◌∷◌, ◌++◌, map, seq, any, keep, All,
  arith, eq_refl, split, listed,
}
use monasca_api.Errors.{Result, ok, ◌>>=◌}
use monasca_api.Errors.Outcomes.{Yields, Yields-bind, Yields-map}
use monasca_api.Database.{Db, DimensionRow, SubAlarmDefinitionRow}
use monasca_api.AlarmDefinitions.Keys.{new_to, new_to_step}
use monasca_api.AlarmDefinitions.Create.{
  parsed_dimension, insert_dimension, insert_dimensions, add_sub_row, insert_sub_row,
}

-- What a view of the definition depends on is as before.
pub record SameView (db db' : Db) : Type 0 where
  pub notifications : db'.notification_method ≡ db.notification_method
  pub definitions : db'.alarm_definition ≡ db.alarm_definition
  pub actions : db'.alarm_action ≡ db.alarm_action

abbrev has_rows : String → List DimensionRow → Bool
has_rows id rows = any (λ r. seq r.sub_alarm_definition_id id) rows

abbrev has_sub : String → List SubAlarmDefinitionRow → Bool
has_sub id rows = any (λ r. seq r.id id) rows

-- no sub alarm definition and no dimension is stored under the id
abbrev pub Unused : String → Db → Type 0
Unused id db =
    (has_rows id db.sub_alarm_definition_dimension ≡ false)
    × (has_sub id db.sub_alarm_definition ≡ false)

-- the view is kept, and rows were only added under the id
pub record Wrote (id : String) (db db' : Db) : Type 0 where
  pub same : SameView db db'
  pub others : (i : String) → seq id i ≡ false → Unused i db → Unused i db'

pub Wrote-refl : (id : String) (db : Db) → Wrote id db db
Wrote-refl id db = record {
  same = record { notifications = refl; definitions = refl; actions = refl };
  others = λ i ne u. u;
}

pub Wrote-trans : (id : String) (a b c : Db) → Wrote id a b → Wrote id b c → Wrote id a c
Wrote-trans id a b c v w = record {
  same = record {
    notifications = w.same.notifications ∙ v.same.notifications;
    definitions = w.same.definitions ∙ v.same.definitions;
    actions = w.same.actions ∙ v.same.actions;
  };
  others = λ i ne u. w.others i ne (v.others i ne u);
}

another_sub :
    (rows : List SubAlarmDefinitionRow) (row : SubAlarmDefinitionRow) (i : String)
    → seq row.id i ≡ false
    → has_sub i rows ≡ false
    → has_sub i (rows ++ row ∷ []) ≡ false
another_sub [] row i ne h = rw (ne)
another_sub (r ∷ rows) row i ne h = ground (arith, another_sub rows row i ne)

pub Wrote-sub : (row : SubAlarmDefinitionRow) (db : Db) → Wrote row.id db (add_sub_row row db)
Wrote-sub row db = record {
  same = record { notifications = refl; definitions = refl; actions = refl };
  others = λ i ne (u, v). (u, another_sub db.sub_alarm_definition row i ne v);
}

pub insert_sub_row-new :
    (row : SubAlarmDefinitionRow) (db : Db)
    → has_sub row.id db.sub_alarm_definition ≡ false
    → insert_sub_row row db ≡ ok (add_sub_row row db)
unfolding insert_sub_row
insert_sub_row-new row db h = rw (h)

abbrev pub dimension_of : String → String → String → DimensionRow
dimension_of id name value = record {
  sub_alarm_definition_id = id;
  dimension_name = name;
  value = value;
}

abbrev pub with_dimension : String → String → String → Db → Db
with_dimension id name value db = record db {
  sub_alarm_definition_dimension =
      db.sub_alarm_definition_dimension ++ dimension_of id name value ∷ [];
}

-- the names of the dimensions of an id
abbrev pub names_for : String → List DimensionRow → List String
names_for id rows = map (λ r. r.dimension_name) (keep (λ r. seq r.sub_alarm_definition_id id) rows)

module _ (id : String) where
  pub inserted_key :
      (name : String) (rows : List DimensionRow)
      → any (λ r. seq r.sub_alarm_definition_id id && seq r.dimension_name name) rows
        ≡ listed (names_for id rows) name
  unfolding keep
  inserted_key name [] = refl
  inserted_key name (r ∷ rows) = ground (arith, inserted_key name rows)

  pub names_for-row :
      (rows : List DimensionRow) (name value : String)
      → names_for id (rows ++ dimension_of id name value ∷ []) ≡ names_for id rows ++ name ∷ []
  unfolding keep
  names_for-row [] name value = rw (eq_refl id)
  names_for-row (r ∷ rows) name value = ground (arith, names_for-row rows name value)

  pub names_for-Unused :
      (rows : List DimensionRow) → has_rows id rows ≡ false → names_for id rows ≡ []
  unfolding keep
  names_for-Unused [] h = refl
  names_for-Unused (r ∷ rows) h = ground (arith, names_for-Unused rows)

  still_unused :
      (rows : List DimensionRow) (name value i : String)
      → seq id i ≡ false
      → has_rows i rows ≡ false
      → has_rows i (rows ++ dimension_of id name value ∷ []) ≡ false
  still_unused [] name value i ne h = rw (ne)
  still_unused (r ∷ rows) name value i ne h = ground (arith, still_unused rows name value i ne)

  pub insert_dimension-new :
      (name value : String) (db : Db)
      → listed (names_for id db.sub_alarm_definition_dimension) name ≡ false
      → insert_dimension id name value db ≡ ok (with_dimension id name value db)
  unfolding insert_dimension
  insert_dimension-new name value db h = rw (inserted_key name db.sub_alarm_definition_dimension, h)

  Wrote-first :
      (name value : String) (db db' : Db)
      → Wrote id (with_dimension id name value db) db'
      → Wrote id db db'
  Wrote-first name value db db' w = record {
    same = record {
      notifications = w.same.notifications;
      definitions = w.same.definitions;
      actions = w.same.actions;
    };
    others = λ i ne (u, v).
        w.others i ne (still_unused db.sub_alarm_definition_dimension name value i ne u, v);
  }

  -- A row with a new name, and then what the rest of a loop writes.
  pub dimension_written :
      (name value : String) (names : List String) (db : Db) (rest : Db → Result Db)
      → new_to (names_for id db.sub_alarm_definition_dimension) (name ∷ names) ≡ true
      → ((db' : Db)
          → new_to (names_for id db'.sub_alarm_definition_dimension) names ≡ true
          → Yields (Wrote id db') (rest db'))
      → Yields (Wrote id db) (insert_dimension id name value db >>= rest)
  dimension_written name value names db rest n go =
      let (free, others) =
        new_to_step (names_for id db.sub_alarm_definition_dimension) name names n in
      let db1 = with_dimension id name value db in
      rw (insert_dimension-new name value db free) (
        Yields-map (Wrote id db1) (Wrote id db) (rest db1)
          (go db1 (rw (names_for-row db.sub_alarm_definition_dimension name value) others))
          (Wrote-first name value db))

-- The dimension has a "=".
abbrev pub Parses : String → Type 0
Parses d = Yields (λ _. Unit {0}) (parsed_dimension (split b'=' d))

-- the text before the first "="
abbrev pub first_part : List String → String
first_part [] = ""
first_part (name ∷ rest) = name

abbrev pub name_of : String → String
name_of d = first_part (split b'=' d)

pub parsed_name :
    (parts : List String)
    → Yields (λ _. Unit {0}) (parsed_dimension parts)
    → Yields (λ pair. pair.0 ≡ first_part parts) (parsed_dimension parts)
unfolding parsed_dimension
parsed_name [] h = elim h [ ]
parsed_name (name ∷ []) h = elim h [ ]
parsed_name (name ∷ value ∷ rest) h = refl

pub insert_dimensions-Wrote :
    (id : String) (ds : List String) (db : Db)
    → All Parses ds
    → new_to (names_for id db.sub_alarm_definition_dimension) (map name_of ds) ≡ true
    → Yields (Wrote id db) (insert_dimensions id ds db)
unfolding insert_dimensions
insert_dimensions-Wrote id [] db h n = Wrote-refl id db
insert_dimensions-Wrote id (d ∷ ds) db (p, h) n =
    Yields-bind (λ pair. pair.0 ≡ name_of d) (Wrote id db) (parsed_dimension (split b'=' d)) _
      (parsed_name (split b'=' d) p)
      λ pair e.
        dimension_written id pair.0 pair.1 (map name_of ds) db (insert_dimensions id ds) (rw (e, n))
          λ db' n'. insert_dimensions-Wrote id ds db' h n'

-- ids that stay unused while rows are written under another
pub All-Unused :
    (id : String) (db db' : Db) (ids : List String)
    → Wrote id db db'
    → All (λ i. seq id i ≡ false) ids
    → All (λ i. Unused i db) ids
    → All (λ i. Unused i db') ids
All-Unused id db db' [] w ne u = tt
All-Unused id db db' (i ∷ ids) w (n, ne) (u, us) =
    (w.others i n u, All-Unused id db db' ids w ne us)
