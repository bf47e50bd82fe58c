-- ===== src/Influx/Series/RoundTrip.antt =====
-- What is decoded from a serie's name in its documented form.
use Prim.Native.String.{[], ◌∷◌}
use text.Mathlib.TextLemmas.{cons-append}
use monasca_api.Prelude.{
  ◌≡◌, ◌≢◌, ◌∙◌, refl, ap, sym, true, String, append, List, Option, none, some, Dict, NoCode,
}
use monasca_api.Errors.{Result, ok, ◌>>=◌}
use monasca_api.Influx.Bytes.{encode}
use monasca_api.Influx.Quoting.{quoted_text, quote, slash, unquote_plus, is_ascii}
use monasca_api.Influx.Quoting.Words.{is_ascii-append, quoted_text-ne-nil, quoted_text-ascii}
use monasca_api.Influx.Words.{
  literal, serie_prefix, dimension_at, without_prefixes, find_dimensions,
}
use monasca_api.Influx.Words.Scans.{Stops, without_prefixes_self, without_prefixes-match}
use monasca_api.Influx.Series.{
  Metric, decoded, put_pairs, quote_text, metric_with, without_dimensions,
  decode_influxdb_serie_name,
}
use monasca_api.Influx.Series.Names.{
  dimension_texts, serie_name, dict_of, NonEmpty, found_dimensions,
}
use monasca_api.Influx.Series.Dimensions.{
  unquoted_plus-quoted_text, quoted_word, dimension_texts-Stops, dimension_at-texts, between,
  find_dimensions-texts, put_pairs-quoted, dimension_texts-NoCode, dimension_texts-ascii,
}

cut_prefix :
    (p t name : String)
    → p ≢ ""
    → serie_prefix (append p t) ≡ some (name, t)
    → without_prefixes 0 (append p t) ≡ without_prefixes 0 t
cut_prefix [] t name n e = absurd (n refl)
cut_prefix (c ∷ p) t name n e =
    ap (without_prefixes 0) (cons-append c p t)
    ∙ without_prefixes-match c p t name (ap serie_prefix (sym (cons-append c p t)) ∙ e)

append-ne-nil : (s t : String) → s ≢ "" → append s t ≢ ""
append-ne-nil [] t n = absurd (n refl)
append-ne-nil (c ∷ s) t n = let whole = cons-append c s t in cc

module _ (tenant_id region name : String) where
  abbrev region_on : String → String
  region_on rest = append (quoted_text region) ("&" ∷ append (quoted_text name) rest)

  abbrev whole_prefix : String
  whole_prefix =
      append (quoted_text tenant_id) ("?" ∷ append (quoted_text region) ("&" ∷ quoted_text name))

  abbrev whole_name : String → String
  whole_name rest = append (quoted_text tenant_id) ("?" ∷ region_on rest)

  whole-split : (rest : String) → whole_name rest ≡ append whole_prefix rest
  whole-split rest =
      ap (λ t. append (quoted_text tenant_id) ("?" ∷ t))
        (between "&" (quoted_text region) (quoted_text name) rest)
      ∙ between "?" (quoted_text tenant_id) (append (quoted_text region) ("&" ∷ quoted_text name))
          rest

  module _ (t : tenant_id ≢ "") (r : region ≢ "") (n : name ≢ "") where
    serie_prefix-whole :
        (rest : String)
        → Stops rest
        → serie_prefix (whole_name rest) ≡ some (quoted_text name, rest)
    unfolding serie_prefix literal
    serie_prefix-whole rest h =
        rw
          (
            quoted_word tenant_id ("?" ∷ region_on rest) t refl,
            quoted_word region ("&" ∷ append (quoted_text name) rest) r refl,
          )
          (quoted_word name rest n h)

    without_prefixes-whole :
        (rest : String)
        → Stops rest
        → NoCode b'?' rest
        → without_prefixes 0 (whole_name rest) ≡ rest
    without_prefixes-whole rest h no_mark =
        let e = whole-split rest in
        let p =
          append-ne-nil (quoted_text tenant_id)
            ("?" ∷ append (quoted_text region) ("&" ∷ quoted_text name))
            (quoted_text-ne-nil tenant_id t) in
        ap (without_prefixes 0) e
        ∙ cut_prefix whole_prefix rest (quoted_text name) p
            (ap serie_prefix (sym e) ∙ serie_prefix-whole rest h)
        ∙ without_prefixes_self rest no_mark

    whole-ascii : (rest : String) → is_ascii rest ≡ true → is_ascii (whole_name rest) ≡ true
    whole-ascii rest h = is_ascii-append (quoted_text tenant_id) _ (quoted_text-ascii tenant_id) (
        unfold is_ascii in
        is_ascii-append (quoted_text region) _ (quoted_text-ascii region)
          (is_ascii-append (quoted_text name) rest (quoted_text-ascii name) h))

abbrev with_match :
    String → String → String → Option ((String × String) × String) → Result (Option Metric)
with_match whole name id match = elim match [
  | none ↦ without_dimensions name id
  | some m ↦ metric_with name id (put_pairs List.[] (find_dimensions 0 (without_prefixes 0 whole)))
]

abbrev after_prefix : String → Option (String × String) → Result (Option Metric)
after_prefix whole found = elim found [
  | none ↦ ok none
  | some (name, rest) ↦ do
    metric_name ← decoded (unquote_plus (encode name))
    id ← quote_text whole
    with_match whole metric_name id (dimension_at rest)
]

quote_text-ascii : (s : String) → is_ascii s ≡ true → quote_text s ≡ ok (quote slash s)
unfolding quote_text
quote_text-ascii s h = rw h refl

decode_rest_of_name :
    (whole name : String) (dimensions : Dict String)
    → is_ascii whole ≡ true
    → NonEmpty dimensions
    → without_prefixes 0 whole ≡ dimension_texts dimensions
    → after_prefix whole (some (quoted_text name, dimension_texts dimensions))
      ≡ ok (
          some (record {
            name = name;
            id = quote slash whole;
            dimensions = found_dimensions dimensions;
          }))
decode_rest_of_name whole name List.[] a h e =
    rw (unquoted_plus-quoted_text name, quote_text-ascii whole a)
      (unfold dimension_at dimension_texts literal in refl)
decode_rest_of_name whole name (List.◌∷◌ (k, v) ds) a ((p, q), h) e =
    let pairs = find_dimensions-texts (List.◌∷◌ (k, v) ds) ((p, q), h) in
    let one = dimension_at-texts k v ds p q in
    let found : put_pairs List.[] (find_dimensions 0 (without_prefixes 0 whole))
        ≡ ok (dict_of List.[] (List.◌∷◌ (k, v) ds)) =
      ap (put_pairs List.[]) (ap (find_dimensions 0) e ∙ pairs)
      ∙ put_pairs-quoted List.[] (List.◌∷◌ (k, v) ds) in
    rw (unquoted_plus-quoted_text name, quote_text-ascii whole a)
      (ap (with_match whole name (quote slash whole)) one
        ∙ ap (metric_with name (quote slash whole)) found)

-- The name of a serie that is made of non-empty texts, as the comment in the code describes it, is
-- decoded into the metric's name and its dimensions, whatever characters the texts hold; the id is
-- the serie's name, quoted, and the dict of dimensions is left out if there are none.
pub decode_influxdb_serie_name-serie_name :
    (tenant_id region name : String) (dimensions : Dict String)
    → tenant_id ≢ ""
    → region ≢ ""
    → name ≢ ""
    → NonEmpty dimensions
    → decode_influxdb_serie_name (serie_name tenant_id region name dimensions)
      ≡ ok (
          some (record {
            name = name;
            id = quote slash (serie_name tenant_id region name dimensions);
            dimensions = found_dimensions dimensions;
          }))
unfolding decode_influxdb_serie_name serie_name
decode_influxdb_serie_name-serie_name tenant_id region name dimensions t r n h =
    let rest = dimension_texts dimensions in
    let whole = whole_name tenant_id region name rest in
    let stops = dimension_texts-Stops dimensions in
    let ascii = whole-ascii tenant_id region name t r n rest (dimension_texts-ascii dimensions) in
    let cut =
      without_prefixes-whole tenant_id region name t r n rest stops
        (dimension_texts-NoCode dimensions) in
    ap (after_prefix whole) (serie_prefix-whole tenant_id region name t r n rest stops)
    ∙ decode_rest_of_name whole name dimensions ascii h cut
