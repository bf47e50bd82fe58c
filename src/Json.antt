-- ===== src/Json.antt =====
-- The values that `json.loads` makes of a request's body. Numbers are natural numbers or stand for
-- any other number by their text.
use monasca_api.Prelude.{
  ℕ, Bool, true, false, ◌&&◌, String, List, Option, none, some, seq, if◌then◌else◌, ltb, slen, not,
  listed,
}
use monasca_api.Errors.{Result, ok, err}
use monasca_api.Http.Query.{bad}

mutual
  pub data Json : Type 0 where
    null : Json
    bool : Bool → Json
    int : ℕ → Json
    other_number : String → Json
    str : String → Json
    arr : Items → Json
    obj : Fields → Json

  pub data Items : Type 0 where
    nil : Items
    cons : Json → Items → Items

  pub data Fields : Type 0 where
    end : Fields
    field : String → Json → Fields → Fields

-- `d[key]`, `key in d` of a dict
unfoldable pub find : String → Fields → Option Json
find key end = none
find key (field k v fs) = if seq k key then some v else find key fs

-- every key is one of those listed
unfoldable pub keys_within : List String → Fields → Bool
keys_within names end = true
keys_within names (field k v fs) = listed names k && keys_within names fs

-- `Any(str, unicode)` with `Length(max=n)`
unfoldable pub is_text : ℕ → Json → Bool
is_text n (str s) = not (ltb n (slen s))
is_text n _ = false

-- `Required(key): test`
unfoldable pub required : String → (Json → Bool) → Fields → Bool
unfolding find
required key test fs = elim (find key fs) [ none ↦ false | some v ↦ test v ]

-- `Optional(key): test`
unfoldable pub optional : String → (Json → Bool) → Fields → Bool
unfolding find
optional key test fs = elim (find key fs) [ none ↦ true | some v ↦ test v ]

-- `read_json_msg_body` of monasca/v2/reference/helpers.py; `loads` is the JSON parser, with its
-- `ValueError` as `none`.
unfoldable pub read_json_msg_body : (String → Option Json) → String → Result Json
read_json_msg_body loads body = elim (loads body) [
  | none ↦ err (bad "Request body is not valid JSON")
  | some msg ↦ ok msg
]
