-- ===== src/Paging.antt =====
-- Links and pages: `paginate`, `paginate_measurement`, `build_base_uri`, `get_link` and
-- `add_links_to_resource` of monasca/v2/reference/helpers.py, and the page size of
-- monasca/common/repositories/constants.py.
pub mod Links
pub mod Cover
use monasca_api.Prelude.{
  ◌≡◌, ℕ, Bool, true, false, not, ◌&&◌, String, List, [], ◌∷◌, ◌++◌, map, Option, none, some, Dict,
  seq, split, join, lower, length, leb, last_or, append, if◌then◌else◌,
}
use monasca_api.Errors.{Result, ok, err, ◌>>=◌, python}
use monasca_api.Http.{Uri}
use monasca_api.Http.Query.{name_value}

abbrev pub page_limit : ℕ
page_limit = 50

pub record Link : Type 0 where
  pub href : String
  pub rel : Option String

-- What is sent back: the resource itself, or a dict with its `links` and `elements`.
pub data Page (A : Type 0) : Type 0 where
  bare : A → Page A
  wrapped : List Link → A → Page A

unfoldable pub build_base_uri : Uri → String
build_base_uri u = append u.scheme (append "://" (append u.netloc u.path))

unfoldable pub get_link : Uri → String → Option String → Link
unfolding build_base_uri
get_link uri resource_id rel = record {
  href = append (build_base_uri uri) (append "/" resource_id);
  rel = rel;
}

-- `resource['links'] = [get_link(uri, resource['id'], rel)]`
pub record Linked (A : Type 0) : Type 0 where
  pub resource : A
  pub links : List Link

unfoldable pub add_links_to_resource : {A : Type 0} → A → String → Uri → Option String → Linked A
unfolding get_link
add_links_to_resource resource id uri rel = record {
  resource = resource;
  links = get_link uri id rel ∷ [];
}

-- `add_links_to_resource_list`, at the default `rel='self'`
unfoldable pub add_links_to_resource_list :
    {A : Type 0} → (A → String) → List A → Uri → List (Linked A)
unfolding add_links_to_resource
add_links_to_resource_list key [] uri = []
add_links_to_resource_list key (r ∷ rs) uri =
    add_links_to_resource r (key r) uri (some "self") ∷ add_links_to_resource_list key rs uri

abbrev pub self_link : Uri → Link
self_link uri = record { href = uri.href; rel = some "self" }

-- The loop over the query parameters: each must be one name and one value, and those whose name is
-- dropped are left out.
unfoldable pub kept_params : (String → Bool) → List String → Result (List String)
kept_params dropped [] = ok []
kept_params dropped (q ∷ qs) = elim (name_value (split b'=' q)) [
  | none ↦ err (python "ValueError")
  | some (name, value) ↦ do
    rest ← kept_params dropped qs
    ok (if dropped (lower name) then rest else q ∷ rest)
]

abbrev pub is_offset : String → Bool
is_offset name = seq name "offset"

abbrev pub offset_param : String → String
offset_param id = append "offset=" id

-- the query string of the next link
unfoldable pub next_query : String → List String → String
next_query new_offset ps = join "&" (offset_param new_offset ∷ ps)

abbrev pub next_href : Uri → String → List String → String
next_href uri new_offset ps = append (build_base_uri uri) (append "?" (next_query new_offset ps))

module _ {A : Type 0} (key : A → String) where
  -- `resource[-1]['id']`, if the page is full
  unfoldable pub next_offset : List A → Option String
  next_offset [] = none
  next_offset (x ∷ xs) =
      if leb page_limit (length (x ∷ xs)) then some (key (last_or x xs)) else none

  abbrev elements_page : Uri → List A → Option String → Result (Page (List A))
  elements_page uri resource none = ok (wrapped (self_link uri ∷ []) resource)
  elements_page uri resource (some new_offset) = do
    ps ← kept_params is_offset (split b'&' uri.query)
    ok (
        wrapped
          (self_link uri ∷ record { href = next_href uri new_offset ps; rel = some "next" } ∷ [])
          resource)

  unfoldable pub paginate : List A → Uri → Option String → Result (Page (List A))
  unfolding next_offset kept_params next_query build_base_uri
  paginate resource uri none = ok (bare resource)
  paginate [] uri (some offset) = ok (bare [])
  paginate (x ∷ xs) uri (some offset) = elements_page uri (x ∷ xs) (next_offset (x ∷ xs))

-- A measurement as influxdb/metrics_repository.py builds it. The points stand for themselves.
pub record Measurement (P : Type 0) : Type 0 where
  pub id : String
  pub dimensions : Dict String
  pub measurements : List P

abbrev is_offset_or_dimensions : String → Bool
is_offset_or_dimensions name = if seq name "offset" then true else seq name "dimensions"

-- `k + ":" + v` for each dimension, joined by commas
unfoldable pub dimension_list : Dict String → String
dimension_list dimensions = join "," (map (λ e. append e.0 (append ":" e.1)) dimensions)

-- `next_link += '&dimensions' + ','.join(dims)`, if there are any
unfoldable pub dimension_suffix : Dict String → String
unfolding dimension_list
dimension_suffix [] = ""
dimension_suffix (e ∷ d) = append "&dimensions" (dimension_list (e ∷ d))

module _ {P : Type 0} where
  abbrev measurement_page : Uri → Measurement P → Bool → Result (Page (Measurement P))
  measurement_page uri m false = ok (wrapped (self_link uri ∷ []) m)
  measurement_page uri m true = do
    ps ← kept_params is_offset_or_dimensions (split b'&' uri.query)
    let next_link = append (next_href uri m.id ps) (dimension_suffix m.dimensions)
    ok (wrapped (self_link uri ∷ record { href = next_link; rel = some "next" } ∷ []) m)

  abbrev of_points : Uri → Measurement P → List P → Result (Page (Measurement P))
  of_points uri m [] = ok (bare m)
  of_points uri m (p ∷ ps) = measurement_page uri m (leb page_limit (length (p ∷ ps)))

  unfoldable pub paginate_measurement :
      Measurement P → Uri → Option String → Result (Page (Measurement P))
  unfolding kept_params next_query build_base_uri dimension_suffix
  paginate_measurement m uri none = ok (bare m)
  paginate_measurement m uri (some offset) = of_points uri m m.measurements
