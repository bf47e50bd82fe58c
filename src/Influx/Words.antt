-- ===== src/Influx/Words.antt =====
-- The regular expressions of monasca/common/repositories/influxdb/metrics_repository.py, which match
-- words between the characters '?', '&' and '='. What follows each word is such a character or the
-- end of the expression, so that the longest word is the only one that can match.
pub mod Scans
use Prim.Native.String.{[], ◌∷◌}
use monasca_api.Prelude.{
  ℕ, zero, suc, ◌-◌, Bool, ◌||◌, String, Char, code, List, Option, none, some, slen, ◌==◌,
  if◌then◌else◌,
}

infixl 5 ◌>>=◌
abbrev pub ◌>>=◌ : {A B : Type 0} → Option A → (A → Option B) → Option B
◌>>=◌ none next = none
◌>>=◌ (some a) next = next a

abbrev pub separates : ℕ → Bool
separates c = (c == b'?') || ((c == b'&') || (c == b'='))

-- `[^?&=]*`, with the text after it
unfoldable pub take_word : String → String × String
take_word [] = ("", "")
take_word (c ∷ s) =
    let (word, rest) = take_word s in if separates (code c) then ("", c ∷ s) else (c ∷ word, rest)

abbrev pub nonempty : String × String → Option (String × String)
nonempty ([], rest) = none
nonempty (c ∷ word, rest) = some (c ∷ word, rest)

-- `[^?&=]+`
unfoldable pub word : String → Option (String × String)
unfolding take_word
word s = nonempty (take_word s)

-- one character
unfoldable pub literal : ℕ → String → Option String
literal k [] = none
literal k (c ∷ s) = if code c == k then some s else none

-- `([^?&=]+)\?([^?&=]+)&([^?&=]+)`: the last word, and the text after it
unfoldable pub serie_prefix : String → Option (String × String)
unfolding word literal
serie_prefix s = do
  (tenant_id, after_tenant) ← word s
  region_on ← literal b'?' after_tenant
  (region, after_region) ← word region_on
  name_on ← literal b'&' after_region
  word name_on

-- `&([^?&=]+)=([^?&=]+)`: the two words, and the text after them
unfoldable pub dimension_at : String → Option ((String × String) × String)
unfolding word literal
dimension_at s = do
  name_on ← literal b'&' s
  (name, after_name) ← word name_on
  value_on ← literal b'=' after_name
  (value, rest) ← word value_on
  some ((name, value), rest)

-- `_serie_tenant_id_region_name_regex.sub('', serie_name)`, with how many characters the match
-- before still takes
unfoldable pub without_prefixes : ℕ → String → String
unfolding serie_prefix
without_prefixes skip [] = ""
without_prefixes (suc skip) (c ∷ s) = without_prefixes skip s
without_prefixes zero (c ∷ s) = elim (serie_prefix (c ∷ s)) [
  | none ↦ c ∷ without_prefixes 0 s
  | some (name, rest) ↦ without_prefixes (slen s - slen rest) s
]

-- `_serie_name_dimension_regex.findall(dimensions_part)`, each match in its two groups
unfoldable pub find_dimensions : ℕ → String → List (String × String)
unfolding dimension_at
find_dimensions skip [] = List.[]
find_dimensions (suc skip) (c ∷ s) = find_dimensions skip s
find_dimensions zero (c ∷ s) = elim (dimension_at (c ∷ s)) [
  | none ↦ find_dimensions 0 s
  | some (pair, rest) ↦ List.◌∷◌ pair (find_dimensions (slen s - slen rest) s)
]
