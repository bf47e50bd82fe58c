-- ===== src/Influx/Series/Names.antt =====
-- A serie's name in the form that the comment in `_decode_influxdb_serie_name` gives.
use Prim.Native.String.{◌∷◌}
use monasca_api.Prelude.{◌≢◌, String, append, List, Option, none, some, Dict, put, All}
use monasca_api.Influx.Quoting.{quoted_text}

-- `&urlencode(dim_name)=urlencode(dim_value)` for each dimension
unfoldable pub dimension_texts : Dict String → String
dimension_texts List.[] = ""
dimension_texts (List.◌∷◌ (name, value) dimensions) =
    "&" ∷ append (quoted_text name) ("=" ∷ append (quoted_text value) (dimension_texts dimensions))

-- `urlencode(tenant)?urlencode(region)&urlencode(name)` and the dimensions
unfoldable pub serie_name : String → String → String → Dict String → String
unfolding dimension_texts
serie_name tenant_id region name dimensions = append (quoted_text tenant_id) (
    "?"
    ∷ append (quoted_text region) ("&" ∷ append (quoted_text name) (dimension_texts dimensions)))

-- `dict(pairs)`, where a later pair replaces an earlier one of the same name
unfoldable pub dict_of : Dict String → Dict String → Dict String
dict_of dimensions List.[] = dimensions
dict_of dimensions (List.◌∷◌ (name, value) pairs) = dict_of (put name value dimensions) pairs

-- no name and no value is empty
abbrev pub NonEmpty : Dict String → Type 0
NonEmpty dimensions = All (λ d. (d.0 ≢ "") × (d.1 ≢ "")) dimensions

-- The dimensions of a metric that is decoded: the dict has no key if there were none.
abbrev pub found_dimensions : Dict String → Option (Dict String)
found_dimensions List.[] = none
found_dimensions (List.◌∷◌ d ds) = some (dict_of List.[] (List.◌∷◌ d ds))
