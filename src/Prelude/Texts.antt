-- ===== src/Prelude/Texts.antt =====
-- Python's text operations that the program uses: `split`, `join`, `lower`, `upper`, `==`, `len`.
-- `lower` and `upper` are those of byte strings: they map the ASCII letters and nothing else.
use Prim.Native.Nat.{ℕ, zero, suc, ◌-◌}
use Prim.Native.Char.{Char, code}
use Prim.Native.String.{String}
use Prim.Native.String
use mathlib.Core.Path.{◌≡◌, refl, ap, ◌∙◌}
use mathlib.Core.Logic.{◌≢◌, ◌↔◌, ◌⊎◌}
use mathlib.Core.Bool.{Bool, true, false, ◌&&◌}
use mathlib.Core.List.{List, [], ◌∷◌}
use native.Mathlib.Omega.{arith}
use text.Mathlib.Text.{◌==◌ as str_eq}
use text.Mathlib.TextEquality.{Char-path, eq_iff}
use text.Mathlib.TextPositions.{eq_refl}
use text.Mathlib.TextLemmas.{nil-append, cons-append}
use monasca_api.Prelude.Tests.{leb, ◌==◌, if◌then◌else◌}
use monasca_api.Prelude.Lists.{All, any}

-- `s == t` on texts
abbrev pub seq : String → String → Bool
seq s t = str_eq s t

-- `len(s)`, in code points
abbrev pub slen : String → ℕ
slen String.[] = 0
slen (String.◌∷◌ c s) = suc (slen s)

abbrev nth : String → ℕ → Char → Char
nth String.[] n d = d
nth (String.◌∷◌ c s) zero d = c
nth (String.◌∷◌ c s) (suc n) d = nth s n d

lower_char : Char → Char
lower_char c =
    if leb 65 (code c) && leb (code c) 90
    then nth "abcdefghijklmnopqrstuvwxyz" (code c - 65) c
    else c

upper_char : Char → Char
upper_char c =
    if leb 97 (code c) && leb (code c) 122
    then nth "ABCDEFGHIJKLMNOPQRSTUVWXYZ" (code c - 97) c
    else c

unfoldable pub lower : String → String
unfolding lower_char
lower String.[] = ""
lower (String.◌∷◌ c s) = String.◌∷◌ (lower_char c) (lower s)

unfoldable pub upper : String → String
unfolding upper_char
upper String.[] = ""
upper (String.◌∷◌ c s) = String.◌∷◌ (upper_char c) (upper s)

-- a character in front of the first part
unfoldable pub add_head : Char → List String → List String
add_head c [] = String.◌∷◌ c "" ∷ []
add_head c (w ∷ ws) = String.◌∷◌ c w ∷ ws

-- `s.split(sep)` at a separator of one character, given by its code
unfoldable pub split : ℕ → String → List String
unfolding add_head
split sep String.[] = "" ∷ []
split sep (String.◌∷◌ c s) =
    let rest = split sep s in if code c == sep then "" ∷ rest else add_head c rest

-- `sep.join(words)` at a separator of one character
unfoldable pub join : Char → List String → String
join sep [] = ""
join sep (w ∷ []) = w
join sep (w ∷ v ∷ ws) = String.◌++◌ w (String.◌∷◌ sep (join sep (v ∷ ws)))

abbrev pub NoCode : ℕ → String → Type 0
NoCode k String.[] = Unit
NoCode k (String.◌∷◌ c s) = (code c ≢ k) × NoCode k s

add_head-ne-nil : (c : Char) (ws : List String) → add_head c ws ≢ []
unfolding add_head
add_head-ne-nil c [] = cc
add_head-ne-nil c (w ∷ ws) = cc

pub split-ne-nil : (sep : ℕ) (s : String) → split sep s ≢ []
unfolding split
split-ne-nil sep String.[] = cc
split-ne-nil sep (String.◌∷◌ c s) = ground (arith, add_head-ne-nil c (split sep s))

pub split_of_NoCode : (sep : ℕ) (s : String) → NoCode sep s → split sep s ≡ s ∷ []
unfolding split
split_of_NoCode sep String.[] h = refl
split_of_NoCode sep (String.◌∷◌ c s) (p, h) = ground (arith, split_of_NoCode sep s h)

join-add_head :
    (sep c : Char) (ws : List String)
    → ws ≢ []
    → join sep (add_head c ws) ≡ String.◌∷◌ c (join sep ws)
unfolding join add_head
join-add_head sep c [] h = absurd (h refl)
join-add_head sep c (w ∷ []) h = refl
join-add_head sep c (w ∷ v ∷ ws) h = cons-append c w _

join-nil_head :
    (sep : Char) (ws : List String) → ws ≢ [] → join sep ("" ∷ ws) ≡ String.◌∷◌ sep (join sep ws)
unfolding join
join-nil_head sep [] h = absurd (h refl)
join-nil_head sep (w ∷ ws) h = nil-append _

join-part :
    (sep c : Char) (ws : List String) (b : Bool)
    → ws ≢ []
    → (b ≡ true → c ≡ sep)
    → join sep (if b then "" ∷ ws else add_head c ws) ≡ String.◌∷◌ c (join sep ws)
join-part sep c ws true h e = rw (e refl) (join-nil_head sep ws h)
join-part sep c ws false h e = join-add_head sep c ws h

-- Joining the parts of a split with the same separator gives the text back.
pub join-split : (sep : Char) (s : String) → join sep (split (code sep) s) ≡ s
unfolding split
join-split sep String.[] = unfold join in refl
join-split sep (String.◌∷◌ c s) =
    join-part sep c (split (code sep) s) (code c == code sep) (split-ne-nil (code sep) s)
      (λ e. Char-path c sep (ground arith))
    ∙ ap (String.◌∷◌ c) (join-split sep s)

split-word :
    (sep : Char) (w t : String)
    → NoCode (code sep) w
    → split (code sep) (String.◌++◌ w (String.◌∷◌ sep t)) ≡ w ∷ split (code sep) t
unfolding split
split-word sep String.[] t h = rw nil-append (ground arith)
split-word sep (String.◌∷◌ c w) t (p, h) = rw cons-append (ground (arith, split-word sep w t h))

-- Splitting what was joined gives the parts back, if there is one and none holds the separator.
pub split-join :
    (sep : Char) (ws : List String)
    → ws ≢ []
    → All (NoCode (code sep)) ws
    → split (code sep) (join sep ws) ≡ ws
unfolding join
split-join sep [] n h = absurd (n refl)
split-join sep (w ∷ []) n (p, h) = split_of_NoCode _ w p
split-join sep (w ∷ v ∷ ws) n (p, h) =
    split-word sep w _ p ∙ ap (◌∷◌ w) (split-join sep (v ∷ ws) (cc) h)

pub NoCode-append : (k : ℕ) (s t : String) → NoCode k s → NoCode k t → NoCode k (String.◌++◌ s t)
NoCode-append k String.[] t h g = rw nil-append g
NoCode-append k (String.◌∷◌ c s) t (p, h) g = rw cons-append (p, NoCode-append k s t h g)

-- Joining parts that lack a character with another one gives a text that lacks it too.
pub NoCode-join :
    (k : ℕ) (sep : Char) (ws : List String)
    → code sep ≢ k
    → All (NoCode k) ws
    → NoCode k (join sep ws)
unfolding join
NoCode-join k sep [] n h = tt
NoCode-join k sep (w ∷ []) n (p, h) = p
NoCode-join k sep (w ∷ v ∷ ws) n (p, h) = NoCode-append k w _ p (n, NoCode-join k sep (v ∷ ws) n h)

add_head-NoCode :
    (k : ℕ) (c : Char) (ws : List String)
    → code c ≢ k
    → All (NoCode k) ws
    → All (NoCode k) (add_head c ws)
unfolding add_head
add_head-NoCode k c [] n h = ((n, tt), tt)
add_head-NoCode k c (w ∷ ws) n (p, h) = ((n, p), h)

part-NoCode :
    (k : ℕ) (c : Char) (ws : List String) (b : Bool)
    → (b ≡ false → code c ≢ k)
    → All (NoCode k) ws
    → All (NoCode k) (if b then "" ∷ ws else add_head c ws)
part-NoCode k c ws true n h = (tt, h)
part-NoCode k c ws false n h = add_head-NoCode k c ws (n refl) h

-- No part of a split holds the separator.
pub split-NoCode : (k : ℕ) (s : String) → All (NoCode k) (split k s)
unfolding split
split-NoCode k String.[] = (tt, tt)
split-NoCode k (String.◌∷◌ c s) =
    part-NoCode k c (split k s) (code c == k) (λ e. ground arith) (split-NoCode k s)

pub seq_self : (s : String) → seq s s ≡ true
seq_self s = eq_refl s

lowers : lower "Admin-Ø" ≡ "admin-Ø"
unfolding lower
lowers = refl

splits : split b',' "a,,b" ≡ "a" ∷ "" ∷ "b" ∷ []
unfolding split
splits = refl

-- `a in texts`
abbrev pub listed : List String → String → Bool
listed texts a = any (λ t. seq t a) texts

abbrev pub Member : String → List String → Type 0
Member a [] = ⊥
Member a (x ∷ xs) = (x ≡ a) ⊎ Member a xs

pub listed_iff : (texts : List String) (a : String) → (listed texts a ≡ true) ↔ Member a texts
listed_iff [] a = ground arith
listed_iff (x ∷ xs) a = ground (arith, eq_iff x a, listed_iff xs a)

pub differ : (a b : String) → seq a b ≡ false → a ≢ b
differ a b h = ground (arith, eq_iff a b)
