-- ===== src/Influx/Quoting/Laws.antt =====
-- Unquoting what was quoted gives the bytes back, and which characters a quoted text may hold.
use Prim.Native.String.{[], ◌∷◌}
use text.Mathlib.TextEquality.{Char-path}
use text.Mathlib.TextLemmas.{nil-append, cons-append}
use monasca_api.Prelude.{
  ◌≡◌, ◌≢◌, ◌∙◌, refl, ap, subst, ℕ, ◌+◌, ◌*◌, ◌/◌, ◌%◌, ◌<◌, Bool, true, false, ◌||◌, String,
  append, Char, code, List, some, ltb, ◌==◌, if◌then◌else◌, split, add_head, split-ne-nil, NoCode,
  Bool-cases, arith, inl, inr,
}
use monasca_api.Influx.Bytes.{byte, IsBytes, code-byte}
use monasca_api.Influx.Quoting.{
  always_safe, hex_digit, quoted, quote, hex_value, with_digits, unquote_items, joined_items,
  unquote, plus_to_space, unquote_plus,
}

abbrev digit_code : ℕ → ℕ
digit_code n = if ltb n 10 then 48 + n else 55 + n

code-hex_digit : (n : ℕ) → n < 16 → code (hex_digit n) ≡ digit_code n
unfolding hex_digit
code-hex_digit n h = elim (Bool-cases (ltb n 10)) [
  | inl e ↦ rw e (code-byte (48 + n) (omega arith))
  | inr e ↦ rw e (code-byte (55 + n) (omega arith))
]

hex_value-digit_code : (n : ℕ) → n < 16 → hex_value (digit_code n) ≡ some n
unfolding hex_value
hex_value-digit_code n h = ground arith

hex_value-hex_digit : (n : ℕ) → n < 16 → hex_value (code (hex_digit n)) ≡ some n
hex_value-hex_digit n h = ap hex_value (code-hex_digit n h) ∙ hex_value-digit_code n h

digit_code-safe : (n : ℕ) → n < 16 → always_safe (digit_code n) ≡ true
unfolding always_safe
digit_code-safe n h = ground arith

pub hex_digit-safe : (n : ℕ) → n < 16 → always_safe (code (hex_digit n)) ≡ true
hex_digit-safe n h = ap always_safe (code-hex_digit n h) ∙ digit_code-safe n h

percent-unsafe : always_safe b'%' ≡ false
unfolding always_safe
percent-unsafe = refl

differs_from_safe : (b k : ℕ) → always_safe b ≡ true → always_safe k ≡ false → b ≢ k
differs_from_safe b k h g e = absurd (cc)

-- A character in front of the first item of a split.
joined-add_head :
    (c : Char) (ws : List String)
    → ws ≢ List.[]
    → joined_items (add_head c ws) ≡ c ∷ joined_items ws
unfolding add_head
joined-add_head c List.[] n = absurd (n refl)
joined-add_head c (List.◌∷◌ w ws) n = cons-append c w _

split_other :
    (c : Char) (t : String) → code c ≢ b'%' → split b'%' (c ∷ t) ≡ add_head c (split b'%' t)
unfolding split
split_other c t h = ground arith

-- A character that is not `%` stays as it is.
unquote_kept : (c : Char) (t : String) → code c ≢ b'%' → unquote (c ∷ t) ≡ c ∷ unquote t
unfolding unquote
unquote_kept c t h =
    ap joined_items (split_other c t h) ∙ joined-add_head c (split b'%' t) (split-ne-nil b'%' t)

-- an item that begins with two digits
digits_item :
    (a b : Char) (x y : ℕ) (ws : List String)
    → hex_value (code a) ≡ some x
    → hex_value (code b) ≡ some y
    → ws ≢ List.[]
    → unquote_items (add_head a (add_head b ws)) ≡ byte (16 * x + y) ∷ joined_items ws
unfolding unquote_items add_head
digits_item a b x y List.[] h k n = absurd (n refl)
digits_item a b x y (List.◌∷◌ w ws) h k n =
    ap (λ o. append (with_digits a b w o (hex_value (code b))) (unquote_items ws)) h
    ∙ ap (λ o. append (with_digits a b w (some x) o) (unquote_items ws)) k
    ∙ cons-append (byte (16 * x + y)) w _

split_percent : (t : String) → split b'%' (byte b'%' ∷ t) ≡ List.◌∷◌ "" (split b'%' t)
unfolding split byte
split_percent t = refl

unquote_digits :
    (a b : Char) (x y : ℕ) (t : String)
    → hex_value (code a) ≡ some x
    → hex_value (code b) ≡ some y
    → code a ≢ b'%'
    → code b ≢ b'%'
    → unquote (byte b'%' ∷ a ∷ b ∷ t) ≡ byte (16 * x + y) ∷ unquote t
unfolding unquote
unquote_digits a b x y t h k n m =
    ap joined_items (
      split_percent (a ∷ b ∷ t)
      ∙ ap (List.◌∷◌ "") (split_other a (b ∷ t) n ∙ ap (add_head a) (split_other b t m)))
    ∙ nil-append _
    ∙ digits_item a b x y (split b'%' t) h k (split-ne-nil b'%' t)

module _ (safe : ℕ → Bool) (unsafe : safe b'%' ≡ false) where
  kept_code : (b : ℕ) → (always_safe b || safe b) ≡ true → b ≢ b'%'
  unfolding always_safe
  kept_code b h p =
      let q : safe b'%' ≡ true = subst (λ n. (always_safe n || safe n) ≡ true) p h in absurd (cc)

  unquote-quoted :
      (c : Char) (t : String)
      → code c < 256
      → (b : Bool) → (always_safe (code c) || safe (code c)) ≡ b
      → unquote (quoted safe c t) ≡ c ∷ unquote t
  unfolding quoted
  unquote-quoted c t h true e = rw e (unquote_kept c t (kept_code (code c) e))
  unquote-quoted c t p0 false e =
      let p = hex_digit-safe (code c / 16) (omega arith) in
      let q = hex_digit-safe (code c % 16) (omega arith) in
      let sum : 16 * (code c / 16) + code c % 16 ≡ code c = omega arith in
      let whole : byte (16 * (code c / 16) + code c % 16) ≡ c =
        Char-path _ c (ap (λ b. code (byte b)) sum ∙ code-byte (code c) p0) in
      rw e (
        unquote_digits _ _ _ _ t (hex_value-hex_digit (code c / 16) (omega arith))
          (hex_value-hex_digit (code c % 16) (omega arith)) (differs_from_safe _ _ p percent-unsafe)
          (differs_from_safe _ _ q percent-unsafe)
        ∙ ap (λ d. d ∷ unquote t) whole)

  pub unquote-quote : (s : String) → IsBytes s → unquote (quote safe s) ≡ s
  unfolding quote
  unquote-quote [] h = unfold unquote in refl
  unquote-quote (c ∷ s) (p, h) =
      unquote-quoted c (quote safe s) p (always_safe (code c) || safe (code c)) refl
      ∙ ap (◌∷◌ c) (unquote-quote s h)

-- A quoted text holds no character that is neither safe nor a percent sign.
module _ (safe : ℕ → Bool) (k : ℕ) (e : always_safe k ≡ false) (f : safe k ≡ false) where
  differs : (b : ℕ) → (always_safe b || safe b) ≡ true → b ≢ k
  differs b h p =
      let q : (always_safe k || safe k) ≡ true =
        subst (λ n. (always_safe n || safe n) ≡ true) p h in
      ground (arith, e, f)

  quoted-NoCode :
      (c : Char) (t : String)
      → code c < 256
      → k ≢ b'%'
      → NoCode k t
      → (b : Bool) → (always_safe (code c) || safe (code c)) ≡ b
      → NoCode k (quoted safe c t)
  unfolding quoted
  quoted-NoCode c t h n rest true g = rw g (differs (code c) g, rest)
  quoted-NoCode c t h n rest false g =
      let p = hex_digit-safe (code c / 16) (omega arith) in
      let q = hex_digit-safe (code c % 16) (omega arith) in
      let r : code (byte b'%') ≡ b'%' = code-byte b'%' (omega arith) in
      rw g
        ((λ same. n (ground arith)), (differs_from_safe _ k p e, (differs_from_safe _ k q e, rest)))

  pub quote-NoCode : (s : String) → k ≢ b'%' → IsBytes s → NoCode k (quote safe s)
  unfolding quote
  quote-NoCode [] n h = tt
  quote-NoCode (c ∷ s) n (p, h) =
      quoted-NoCode c (quote safe s) p n (quote-NoCode s n h)
        (always_safe (code c) || safe (code c)) refl

plus_to_space_self : (s : String) → NoCode b'+' s → plus_to_space s ≡ s
unfolding plus_to_space
plus_to_space_self [] h = refl
plus_to_space_self (c ∷ s) (p, h) =
    let other : (code c == b'+') ≡ false = ground arith in
    rw other (ap (◌∷◌ c) (plus_to_space_self s h))

pub unquote_plus-quote :
    (safe : ℕ → Bool) (s : String)
    → safe b'%' ≡ false
    → safe b'+' ≡ false
    → IsBytes s
    → unquote_plus (quote safe s) ≡ s
unfolding unquote_plus
unquote_plus-quote safe s e f h =
    let plus : always_safe b'+' ≡ false = unfold always_safe in refl in
    let lacks = quote-NoCode safe b'+' plus f s (omega arith) h in
    ap unquote (plus_to_space_self (quote safe s) lacks) ∙ unquote-quote safe e s h
