-- ===== src/Influx/Series/Dimensions.antt =====
-- What is found in the part of a serie's name that holds the dimensions.
use Prim.Native.String.{[], ◌∷◌}
use text.Mathlib.TextLemmas.{nil-append, cons-append}
use monasca_api.Prelude.{
  ◌≡◌, ◌≢◌, ◌∙◌, refl, ap, sym, true, String, append, Char, List, some, Dict, put, map, NoCode,
  NoCode-append, arith,
}
use monasca_api.Errors.{ok}
use monasca_api.Influx.Bytes.{encode}
use monasca_api.Influx.Bytes.Range.{encode-IsBytes}
use monasca_api.Influx.Bytes.Codec.{decode-encode}
use monasca_api.Influx.Quoting.{always_safe, no_more, quoted_text, unquote, unquote_plus, is_ascii}
use monasca_api.Influx.Quoting.Laws.{unquote-quote, unquote_plus-quote}
use monasca_api.Influx.Quoting.Words.{
  encode_ascii, is_ascii-append, quoted_text-NoCode, quoted_text-IsWord, quoted_text-ne-nil,
  quoted_text-ascii,
}
use monasca_api.Influx.Words.{word, literal, dimension_at, find_dimensions}
use monasca_api.Influx.Words.Scans.{Stops, word-append, find_dimensions-match}
use monasca_api.Influx.Series.{decoded, unquoted, put_pairs}
use monasca_api.Influx.Series.Names.{dimension_texts, dict_of, NonEmpty}

pub unquoted-quoted_text : (s : String) → unquoted (quoted_text s) ≡ ok s
unfolding unquoted
unquoted-quoted_text s =
    ap (λ b. decoded (unquote b)) (encode_ascii (quoted_text s) (quoted_text-ascii s))
    ∙ ap decoded (unquote-quote no_more refl (encode s) (encode-IsBytes s))
    ∙ rw (decode-encode s, decoded) refl

pub unquoted_plus-quoted_text :
    (s : String) → decoded (unquote_plus (encode (quoted_text s))) ≡ ok s
unquoted_plus-quoted_text s =
    ap (λ b. decoded (unquote_plus b)) (encode_ascii (quoted_text s) (quoted_text-ascii s))
    ∙ ap decoded (unquote_plus-quote no_more (encode s) refl refl (encode-IsBytes s))
    ∙ rw (decode-encode s, decoded) refl

pub quoted_word :
    (s t : String) → s ≢ "" → Stops t → word (append (quoted_text s) t) ≡ some (quoted_text s, t)
quoted_word s t n h =
    word-append (quoted_text s) t (quoted_text-ne-nil s n) (quoted_text-IsWord s) h

pub dimension_texts-Stops : (dimensions : Dict String) → Stops (dimension_texts dimensions)
unfolding dimension_texts
dimension_texts-Stops List.[] = tt
dimension_texts-Stops (List.◌∷◌ d ds) = refl

module _ (name value : String) (rest : String) where
  abbrev equals_on : String
  equals_on = "=" ∷ append (quoted_text value) rest

  dimension_at-text :
      name ≢ ""
      → value ≢ ""
      → Stops rest
      → dimension_at ("&" ∷ append (quoted_text name) equals_on)
        ≡ some ((quoted_text name, quoted_text value), rest)
  unfolding dimension_at literal
  dimension_at-text n v h = rw (quoted_word name equals_on n refl, quoted_word value rest v h) refl

pub dimension_at-texts :
    (name value : String) (dimensions : Dict String)
    → name ≢ ""
    → value ≢ ""
    → dimension_at (dimension_texts (List.◌∷◌ (name, value) dimensions))
      ≡ some ((quoted_text name, quoted_text value), dimension_texts dimensions)
unfolding dimension_texts
dimension_at-texts name value ds p q =
    dimension_at-text name value (dimension_texts ds) p q (dimension_texts-Stops ds)

abbrev pub quoted_pairs : Dict String → List (String × String)
quoted_pairs dimensions = map (λ d. (quoted_text d.0, quoted_text d.1)) dimensions

-- a text after a text, with a character between them
pub append_assoc : (r s t : String) → append r (append s t) ≡ append (append r s) t
append_assoc [] s t = nil-append (append s t) ∙ ap (λ w. append w t) (sym (nil-append s))
append_assoc (c ∷ r) s t =
    cons-append c r (append s t)
    ∙ ap (◌∷◌ c) (append_assoc r s t)
    ∙ sym (ap (λ w. append w t) (cons-append c r s) ∙ cons-append c (append r s) t)

pub between : (c : Char) (r s t : String) → append r (c ∷ append s t) ≡ append (append r (c ∷ s)) t
between c r s t = ap (append r) (sym (cons-append c s t)) ∙ append_assoc r (c ∷ s) t

pub find_dimensions-texts :
    (dimensions : Dict String)
    → NonEmpty dimensions
    → find_dimensions 0 (dimension_texts dimensions) ≡ quoted_pairs dimensions
unfolding dimension_texts
find_dimensions-texts List.[] h = unfold find_dimensions in refl
find_dimensions-texts (List.◌∷◌ (name, value) ds) ((n, v), h) =
    let rest = dimension_texts ds in
    let whole = between "=" (quoted_text name) (quoted_text value) rest in
    let matched = dimension_at-text name value rest n v (dimension_texts-Stops ds) in
    ap (λ t. find_dimensions 0 ("&" ∷ t)) whole
    ∙ find_dimensions-match "&" (append (quoted_text name) ("=" ∷ quoted_text value)) rest _
        (ap (λ t. dimension_at ("&" ∷ t)) (sym whole) ∙ matched)
    ∙ ap (List.◌∷◌ (quoted_text name, quoted_text value)) (find_dimensions-texts ds h)

pub put_pairs-quoted :
    (dimensions pairs : Dict String)
    → put_pairs dimensions (quoted_pairs pairs) ≡ ok (dict_of dimensions pairs)
unfolding put_pairs dict_of
put_pairs-quoted dimensions List.[] = refl
put_pairs-quoted dimensions (List.◌∷◌ (name, value) pairs) =
    rw (unquoted-quoted_text name, unquoted-quoted_text value)
      (put_pairs-quoted (put name value dimensions) pairs)

pub dimension_texts-NoCode : (dimensions : Dict String) → NoCode b'?' (dimension_texts dimensions)
unfolding dimension_texts always_safe
dimension_texts-NoCode List.[] = tt
dimension_texts-NoCode (List.◌∷◌ (name, value) ds) =
    let n = quoted_text-NoCode b'?' name refl (omega arith) in
    let v = quoted_text-NoCode b'?' value refl (omega arith) in
    let rest = NoCode-append b'?' (quoted_text value) _ v (dimension_texts-NoCode ds) in
    (omega arith, NoCode-append b'?' (quoted_text name) _ n (omega arith, rest))

pub dimension_texts-ascii :
    (dimensions : Dict String) → is_ascii (dimension_texts dimensions) ≡ true
unfolding dimension_texts is_ascii
dimension_texts-ascii List.[] = refl
dimension_texts-ascii (List.◌∷◌ (name, value) ds) =
    is_ascii-append (quoted_text name) _ (quoted_text-ascii name)
      (is_ascii-append (quoted_text value) _ (quoted_text-ascii value) (dimension_texts-ascii ds))
