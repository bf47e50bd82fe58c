-- ===== src/Influx/Queries/Safe.antt =====
-- No text of a client can end the regular expression in which it stands.
use monasca_api.Prelude.{
  refl, true, false, String, append, [], ◌∷◌, Dict, NoCode, NoCode-append, seq, if◌then◌else◌,
  arith, order_by,
}
use monasca_api.Prelude.Order.Texts.{text_lt}
use monasca_api.Influx.Quoting.{always_safe, quoted_text}
use monasca_api.Influx.Quoting.Words.{quoted_text-NoCode}
use monasca_api.Influx.Queries.{name_pattern, dimension_patterns, pattern}

abbrev NoSlash : String → Type 0
NoSlash s = NoCode b'/' s

then_NoSlash : (s t : String) → NoSlash s → NoSlash t → NoSlash (append s t)
then_NoSlash s t = NoCode-append b'/' s t

quoted-NoSlash : (s : String) → NoSlash (quoted_text s)
unfolding always_safe
quoted-NoSlash s = quoted_text-NoCode b'/' s refl (omega arith)

-- the texts of the source
end_text : NoSlash "(&|$)"
end_text = grind arith

quoted_end : (s : String) → NoSlash (append (quoted_text s) "(&|$)")
quoted_end s = then_NoSlash (quoted_text s) _ (quoted-NoSlash s) end_text

name_pattern-NoSlash : (name : String) → NoSlash (name_pattern name)
unfolding name_pattern
name_pattern-NoSlash name =
    elim (seq name "")
      as (λ b. NoSlash (if b then "" else append "&" (append (quoted_text name) "(&|$)"))) [
        | true ↦ tt
        | false ↦ then_NoSlash "&" _ (grind arith) (quoted_end name)
      ]

dimension_patterns-NoSlash : (dimensions : Dict String) → NoSlash (dimension_patterns dimensions)
unfolding dimension_patterns
dimension_patterns-NoSlash [] = tt
dimension_patterns-NoSlash ((n, v) ∷ ds) =
    let value = then_NoSlash "=" _ (grind arith) (quoted_end v) in
    let both = then_NoSlash (quoted_text n) _ (quoted-NoSlash n) value in
    let whole = then_NoSlash "(.*&)*" _ (grind arith) both in
    then_NoSlash _ (dimension_patterns ds) whole (dimension_patterns-NoSlash ds)

-- Whatever the tenant, the region, the metric's name and its dimensions hold, the regular expression
-- that is made of them holds no '/', so that none of them can end it and add to the query.
pub pattern-NoCode :
    (dimensions : Dict String) (name tenant_id region : String)
    → NoCode b'/' (pattern dimensions name tenant_id region)
unfolding pattern
pattern-NoCode dimensions name tenant_id region =
    let rest =
      then_NoSlash (name_pattern name) _ (name_pattern-NoSlash name)
        (dimension_patterns-NoSlash (order_by text_lt (λ d. d.0) dimensions)) in
    let from_region = then_NoSlash (quoted_text region) _ (quoted-NoSlash region) rest in
    let from_mark = then_NoSlash "\\?" _ (grind arith) from_region in
    then_NoSlash "^" _ (grind arith)
      (then_NoSlash (quoted_text tenant_id) _ (quoted-NoSlash tenant_id) from_mark)
