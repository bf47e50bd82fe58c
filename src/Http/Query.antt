-- ===== src/Http/Query.antt =====
-- The query parameters, `get_query_xxx` of monasca/v2/reference/helpers.py. Each catches every
-- exception of its own and answers 400. What `datetime.strptime` makes of a time is a parameter.
pub mod Laws
use monasca_api.Prelude.{
  ◌≡◌, ℕ, Bool, true, false, not, String, List, [], ◌∷◌, map, Option, none, some, Dict, get, put,
  seq, all, listed, split, lower, ltb, slen, append, if◌then◌else◌,
}
use monasca_api.Errors.{Result, ok, err, ◌>>=◌, Exn, http, bad_request, text, python}
use monasca_api.Http.{Request}

abbrev pub bad : String → Exn
bad message = http bad_request "Bad request" (text message)

-- The rule that `get_query_param`, `get_query_name`, `get_query_xxxtime_timestamp` share for a
-- parameter that is missing.
abbrev missing {ℓ} : {A : Type ℓ} → Bool → String → A → Result A
missing true what default = err (bad what)
missing false what default = ok default

unfoldable pub get_query_param : Request → String → Bool → Option String → Result (Option String)
get_query_param req param_name required default_val = elim (get param_name req.params) [
  | some param_val ↦ ok (some param_val)
  | none ↦ missing required (append "Missing " param_name) default_val
]

-- `u'' if offset == u'x' else offset`
unfoldable pub normalize_offset : Option String → Option String
normalize_offset none = none
normalize_offset (some offset) = if seq offset "x" then some "" else some offset

-- `normalize_offset(get_query_param(req, 'offset'))`, as the handlers of the listings read it
unfoldable pub offset_of : Request → Result (Option String)
unfolding get_query_param normalize_offset
offset_of req = do offset ← get_query_param req "offset" false none; ok (normalize_offset offset)

unfoldable pub get_query_name : Request → Bool → Result String
get_query_name req name_required = elim (get "name" req.params) [
  | some name ↦ ok name
  | none ↦ missing name_required "Missing name" ""
]

-- `len(dimension_name_value) == 2`
abbrev pub name_value : List String → Option (String × String)
name_value (name ∷ value ∷ []) = some (name, value)
name_value _ = none

-- the loop over `dimensions_str_array`
unfoldable pub collect : Dict String → List String → Result (Dict String)
collect dimensions [] = ok dimensions
collect dimensions (dimension ∷ rest) = elim (name_value (split b':' dimension)) [
  | none ↦ err (bad "Dimensions are malformed")
  | some (name, value) ↦ collect (put name value dimensions) rest
]

unfoldable pub get_query_dimensions : Request → Result (Dict String)
unfolding collect
get_query_dimensions req = elim (get "dimensions" req.params) [
  | none ↦ ok []
  | some dimensions_str ↦ collect [] (split b',' dimensions_str)
]

abbrev pub allowed_statistics : List String
allowed_statistics = "avg" ∷ "min" ∷ "max" ∷ "count" ∷ "sum" ∷ []

unfoldable pub get_query_statistics : Request → Result (List String)
get_query_statistics req = elim (get "statistics" req.params) [
  | none ↦ err (bad "Missing statistics")
  | some given ↦
      let statistics = map lower (split b',' given) in
      if all (listed allowed_statistics) statistics
      then ok statistics
      else err (bad "Invalid statistic")
]

unfoldable pub get_query_period : Request → Option String
get_query_period req = get "period" req.params

-- `_convert_time_string`, with its `ValueError` as `none`
module _ (convert_time_string : String → Option ℕ) where
  abbrev converted : String → Result (Option ℕ)
  converted s = elim (convert_time_string s) [
    | none ↦ err (bad "time data does not match format")
    | some t ↦ ok (some t)
  ]

  unfoldable pub get_query_starttime_timestamp : Request → Bool → Result (Option ℕ)
  get_query_starttime_timestamp req required = elim (get "start_time" req.params) [
    | some s ↦ converted s
    | none ↦ missing required "Missing start time" none
  ]

  unfoldable pub get_query_endtime_timestamp : Request → Bool → Result (Option ℕ)
  get_query_endtime_timestamp req required = elim (get "end_time" req.params) [
    | some s ↦ converted s
    | none ↦ missing required "Missing end time" none
  ]

-- metric_name_schema.py: a text of at most 64 characters
unfoldable pub validate_query_name : String → Result (Unit {0})
validate_query_name name =
    if ltb 64 (slen name) then err (bad "length of value must be at most 64") else ok tt

abbrev pub short_dimension : String × String → Bool
short_dimension (name, value) = if ltb 255 (slen name) then false else not (ltb 255 (slen value))

-- dimensions_schema.py: names and values of at most 255 characters
unfoldable pub validate_query_dimensions : Dict String → Result (Unit {0})
validate_query_dimensions dimensions =
    if all short_dimension dimensions
    then ok tt
    else err (bad "length of value must be at most 255")
