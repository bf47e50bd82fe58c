-- ===== src/Influx/Words/Scans.antt =====
-- What the expressions find in a text that is put together from words.
use Prim.Native.String.{[], ◌∷◌}
use text.Mathlib.TextLemmas.{nil-append, cons-append}
use monasca_api.Prelude.{
  ◌≡◌, ◌≢◌, ◌∙◌, refl, ap, ℕ, suc, ◌+◌, ◌-◌, Bool, true, false, String, append, Char, code, List,
  Option, some, none, slen, if◌then◌else◌, NoCode, arith,
}
use monasca_api.Influx.Words.{
  separates, ◌>>=◌, take_word, nonempty, word, literal, serie_prefix, dimension_at,
  without_prefixes, find_dimensions,
}

-- a text without the three characters
abbrev pub IsWord : String → Type 0
IsWord [] = Unit
IsWord (c ∷ s) = (separates (code c) ≡ false) × IsWord s

-- a text that begins with one of them, or is empty
abbrev pub Stops : String → Type 0
Stops [] = Unit
Stops (c ∷ s) = separates (code c) ≡ true

take_word_stop : (t : String) → Stops t → take_word t ≡ ("", t)
unfolding take_word
take_word_stop [] h = refl
take_word_stop (c ∷ t) h = rw h refl

abbrev grown : Char → String → String × String → String × String
grown c s taken = if separates (code c) then ("", c ∷ s) else (c ∷ taken.0, taken.1)

take_word_cons : (c : Char) (s : String) → take_word (c ∷ s) ≡ grown c s (take_word s)
unfolding take_word
take_word_cons c s = refl

take_word-append : (w t : String) → IsWord w → Stops t → take_word (append w t) ≡ (w, t)
take_word-append [] t h k = ap take_word (nil-append t) ∙ take_word_stop t k
take_word-append (c ∷ w) t (p, h) k =
    ap take_word (cons-append c w t)
    ∙ take_word_cons c (append w t)
    ∙ ap (grown c (append w t)) (take_word-append w t h k)
    ∙ rw p refl

pub word-append : (w t : String) → w ≢ "" → IsWord w → Stops t → word (append w t) ≡ some (w, t)
unfolding word
word-append [] t n h k = absurd (n refl)
word-append (c ∷ w) t n h k = rw (take_word-append (c ∷ w) t h k) refl

-- The characters of what is left over are among those of the text.
abbrev left_of : Bool → Char → String → String × String → String
left_of b c s taken =
    let (w, rest) : String × String = if b then ("", c ∷ s) else (c ∷ taken.0, taken.1) in rest

left-NoCode :
    (k : ℕ) (c : Char) (s : String) (taken : String × String) (b : Bool)
    → NoCode k (c ∷ s)
    → NoCode k taken.1
    → NoCode k (left_of b c s taken)
left-NoCode k c s taken true h g = h
left-NoCode k c s taken false h g = g

take_word-NoCode : (k : ℕ) (s : String) → NoCode k s → NoCode k (take_word s).1
unfolding take_word
take_word-NoCode k [] h = tt
take_word-NoCode k (c ∷ s) (p, h) =
    left-NoCode k c s (take_word s) (separates (code c)) (p, h) (take_word-NoCode k s h)

literal-none : (k : ℕ) (s : String) → NoCode k s → literal k s ≡ none
unfolding literal
literal-none k [] h = refl
literal-none k (c ∷ s) (p, h) = ground arith

abbrev after_tenant_id : Option (String × String) → Option (String × String)
after_tenant_id found = do
  (tenant_id, after_tenant) ← found
  region_on ← literal b'?' after_tenant
  (region, after_region) ← word region_on
  name_on ← literal b'&' after_region
  word name_on

no_region :
    (taken : String × String) → NoCode b'?' taken.1 → after_tenant_id (nonempty taken) ≡ none
no_region ([], rest) h = refl
no_region (c ∷ w, rest) h = rw (literal-none b'?' rest h) refl

-- A text without '?' holds no tenant, region and name.
serie_prefix-none : (s : String) → NoCode b'?' s → serie_prefix s ≡ none
unfolding serie_prefix word
serie_prefix-none s h = no_region (take_word s) (take_word-NoCode b'?' s h)

abbrev cut : Char → String → Option (String × String) → String
cut c s found = elim found [
  | none ↦ c ∷ without_prefixes 0 s
  | some (name, rest) ↦ without_prefixes (slen s - slen rest) s
]

without_prefixes_cons :
    (c : Char) (s : String) → without_prefixes 0 (c ∷ s) ≡ cut c s (serie_prefix (c ∷ s))
unfolding without_prefixes
without_prefixes_cons c s = refl

pub without_prefixes_self : (s : String) → NoCode b'?' s → without_prefixes 0 s ≡ s
without_prefixes_self [] h = unfold without_prefixes in refl
without_prefixes_self (c ∷ s) (p, h) =
    without_prefixes_cons c s
    ∙ ap (cut c s) (serie_prefix-none (c ∷ s) (p, h))
    ∙ ap (◌∷◌ c) (without_prefixes_self s h)

pub slen-append : (w t : String) → slen (append w t) ≡ slen w + slen t
slen-append [] t = ap slen (nil-append t) ∙ omega arith
slen-append (c ∷ w) t = ap slen (cons-append c w t) ∙ ap suc (slen-append w t) ∙ omega arith

skip_prefix_suc :
    (n : ℕ) (c : Char) (s : String) → without_prefixes (suc n) (c ∷ s) ≡ without_prefixes n s
unfolding without_prefixes
skip_prefix_suc n c s = refl

skip_prefix : (w t : String) → without_prefixes (slen w) (append w t) ≡ without_prefixes 0 t
skip_prefix [] t = ap (without_prefixes 0) (nil-append t)
skip_prefix (c ∷ w) t =
    ap (without_prefixes (suc (slen w))) (cons-append c w t)
    ∙ skip_prefix_suc (slen w) c (append w t)
    ∙ skip_prefix w t

skip_dimension_suc :
    (n : ℕ) (c : Char) (s : String) → find_dimensions (suc n) (c ∷ s) ≡ find_dimensions n s
unfolding find_dimensions
skip_dimension_suc n c s = refl

skip_dimension : (w t : String) → find_dimensions (slen w) (append w t) ≡ find_dimensions 0 t
skip_dimension [] t = ap (find_dimensions 0) (nil-append t)
skip_dimension (c ∷ w) t =
    ap (find_dimensions (suc (slen w))) (cons-append c w t)
    ∙ skip_dimension_suc (slen w) c (append w t)
    ∙ skip_dimension w t

matched_length : (w t : String) → slen (append w t) - slen t ≡ slen w
matched_length w t = let e = slen-append w t in omega arith

-- A match at the start is cut off, whatever it is.
pub without_prefixes-match :
    (c : Char) (w t name : String)
    → serie_prefix (c ∷ append w t) ≡ some (name, t)
    → without_prefixes 0 (c ∷ append w t) ≡ without_prefixes 0 t
without_prefixes-match c w t name e =
    without_prefixes_cons c (append w t)
    ∙ ap (cut c (append w t)) e
    ∙ ap (λ n. without_prefixes n (append w t)) (matched_length w t)
    ∙ skip_prefix w t

abbrev gathered : String → Option ((String × String) × String) → List (String × String)
gathered s found = elim found [
  | none ↦ find_dimensions 0 s
  | some (pair, rest) ↦ List.◌∷◌ pair (find_dimensions (slen s - slen rest) s)
]

find_dimensions_cons :
    (c : Char) (s : String) → find_dimensions 0 (c ∷ s) ≡ gathered s (dimension_at (c ∷ s))
unfolding find_dimensions
find_dimensions_cons c s = refl

pub find_dimensions-match :
    (c : Char) (w t : String) (pair : String × String)
    → dimension_at (c ∷ append w t) ≡ some (pair, t)
    → find_dimensions 0 (c ∷ append w t) ≡ List.◌∷◌ pair (find_dimensions 0 t)
find_dimensions-match c w t pair e =
    find_dimensions_cons c (append w t)
    ∙ ap (gathered (append w t)) e
    ∙ ap (λ n. List.◌∷◌ pair (find_dimensions n (append w t))) (matched_length w t)
    ∙ ap (List.◌∷◌ pair) (skip_dimension w t)
