-- ===== src/Influx/Quoting.antt =====
-- `urllib.quote`, `urllib.unquote` and `urllib.unquote_plus` of Python 2 on byte strings, and
-- `replace`, as monasca/common/repositories/influxdb/metrics_repository.py uses them.
pub mod Laws
pub mod Words
use Prim.Native.String.{[], ◌∷◌}
use monasca_api.Prelude.{
  ◌≡◌, refl, ℕ, zero, suc, ◌+◌, ◌-◌, ◌*◌, ◌/◌, ◌%◌, Bool, true, false, ◌&&◌, ◌||◌, String, append,
  Char, code, List, Option, none, some, ltb, leb, ◌==◌, if◌then◌else◌, split, slen, any,
}
use monasca_api.Influx.Bytes.{byte, encode}

-- the characters that `quote` never touches: letters, digits, '_', '.' and '-'
unfoldable pub always_safe : ℕ → Bool
always_safe b =
    (leb 65 b && leb b 90)
    || ((leb 97 b && leb b 122)
        || ((leb 48 b && leb b 57) || ((b == b'_') || ((b == b'.') || (b == b'-')))))

-- a digit of `'%02X'`
unfoldable pub hex_digit : ℕ → Char
unfolding byte
hex_digit n = if ltb n 10 then byte (48 + n) else byte (55 + n)

-- `safe_map[c]`
unfoldable pub quoted : (ℕ → Bool) → Char → String → String
unfolding always_safe hex_digit
quoted safe c rest =
    if always_safe (code c) || safe (code c)
    then c ∷ rest
    else byte b'%' ∷ hex_digit (code c / 16) ∷ hex_digit (code c % 16) ∷ rest

unfoldable pub quote : (ℕ → Bool) → String → String
unfolding quoted
quote safe [] = ""
quote safe (c ∷ s) = quoted safe c (quote safe s)

-- `safe=''`, and the default `safe='/'`
abbrev pub no_more : ℕ → Bool
no_more b = false

abbrev pub slash : ℕ → Bool
slash b = b == b'/'

-- `urllib.quote(s.encode('utf8'), safe='')`
abbrev pub quoted_text : String → String
quoted_text s = quote no_more (encode s)

-- a digit of `_hexdig`
unfoldable pub hex_value : ℕ → Option ℕ
hex_value b =
    if leb 48 b && leb b 57
    then some (b - 48)
    else if leb 65 b && leb b 70
    then some (b - 55)
    else if leb 97 b && leb b 102
    then some (b - 87)
    else none

-- `_hextochr[item[:2]] + item[2:]`, or `'%' + item` when it is no key
abbrev with_digits : Char → Char → String → Option ℕ → Option ℕ → String
with_digits a b rest (some x) (some y) = byte (16 * x + y) ∷ rest
with_digits a b rest none y = byte b'%' ∷ a ∷ b ∷ rest
with_digits a b rest (some x) none = byte b'%' ∷ a ∷ b ∷ rest

unfoldable pub unquote_item : String → String
unfolding byte hex_value
unquote_item [] = byte b'%' ∷ ""
unquote_item (a ∷ []) = byte b'%' ∷ a ∷ ""
unquote_item (a ∷ b ∷ rest) = with_digits a b rest (hex_value (code a)) (hex_value (code b))

-- the items after the first
unfoldable pub unquote_items : List String → String
unfolding unquote_item
unquote_items List.[] = ""
unquote_items (List.◌∷◌ item items) = append (unquote_item item) (unquote_items items)

abbrev pub joined_items : List String → String
joined_items List.[] = ""
joined_items (List.◌∷◌ first items) = append first (unquote_items items)

unfoldable pub unquote : String → String
unfolding unquote_items split
unquote s = joined_items (split b'%' s)

-- `s.replace('+', ' ')`
unfoldable pub plus_to_space : String → String
plus_to_space [] = ""
plus_to_space (c ∷ s) = (if code c == b'+' then byte b' ' else c) ∷ plus_to_space s

unfoldable pub unquote_plus : String → String
unfolding plus_to_space unquote
unquote_plus s = unquote (plus_to_space s)

-- `s.startswith(prefix)`
unfoldable pub begins : String → String → Bool
begins [] s = true
begins (d ∷ prefix) [] = false
begins (d ∷ prefix) (c ∷ s) = (code c == code d) && begins prefix s

-- The scan of `s.replace(old, new)`, with how many characters belong to the occurrence before.
unfoldable pub replacing : String → String → ℕ → String → String
unfolding begins
replacing old new skip [] = ""
replacing old new (suc skip) (c ∷ s) = replacing old new skip s
replacing old new zero (c ∷ s) = elim (begins old (c ∷ s)) [
  | true ↦ append new (replacing old new (slen old - 1) s)
  | false ↦ c ∷ replacing old new 0 s
]

abbrev pub replace : String → String → String → String
replace old new s = replacing old new 0 s

unfoldable pub is_ascii : String → Bool
is_ascii [] = true
is_ascii (c ∷ s) = ltb (code c) 128 && is_ascii s
