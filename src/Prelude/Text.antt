-- ===== src/Prelude/Text.antt =====
-- Texts: equality, membership, and the code points that the program's regular expressions test.
use Prim.Native.Char.{code}
use Prim.Native.Nat.{ℕ, zero, suc, ◌+◌, ◌-◌, ◌/◌, ◌%◌}
use native.Mathlib.Omega.{arith}
use Prim.Native.String.{String, ◌++◌ as join}
use mathlib.Core.Bool.{Bool, true, false, ◌&&◌, ◌||◌}
use mathlib.Core.List.{List, [], ◌∷◌, ◌++◌}
use mathlib.Core.Logic.{inl, inr}
use mathlib.Core.Path.{◌≡◌, refl, ap, ◌∙◌}
use text.Mathlib.Text.{◌==◌ as text_eq}
use text.Mathlib.TextEquality.{eq_iff}
use text.Mathlib.TextLemmas.{nil-append, cons-append}
use attendence_system.Prelude.Tests.{ltb, leb, ◌==◌, if◌then◌else◌, Bool-cases}
use attendence_system.Prelude.Lists.{length, all, any}

-- `${s}${t}`
abbrev pub append : String → String → String
append = join

abbrev digit_text : ℕ → String
digit_text n =
    if n == 0
    then "0"
    else if n == 1
    then "1"
    else if n == 2
    then "2"
    else if n == 3
    then "3"
    else if n == 4
    then "4"
    else if n == 5
    then "5"
    else if n == 6
    then "6"
    else if n == 7
    then "7"
    else if n == 8
    then "8"
    else "9"

abbrev digits_of : ℕ → ℕ → String
digits_of zero n = ""
digits_of (suc fuel) n = elim (ltb n 10) [
  | true ↦ digit_text n
  | false ↦ append (digits_of fuel (n / 10)) (digit_text (n % 10))
]

-- `${n}`; a number has fewer digits than its successor counts
unfoldable pub decimal_text : ℕ → String
decimal_text n = digits_of (suc n) n

abbrev pub str_eq : String → String → Bool
str_eq = text_eq

pub str_eq_refl : (s : String) → str_eq s s ≡ true
str_eq_refl s = (eq_iff s s).1 refl

pub str_eq_sound : (s t : String) → str_eq s t ≡ true → s ≡ t
str_eq_sound s t h = (eq_iff s t).0 h

-- `list.includes(s)` and `set.has(s)`
abbrev pub includes : List String → String → Bool
includes xs s = any (λ x. str_eq x s) xs

abbrev pub code_at : List ℕ → ℕ → ℕ
code_at [] n = 0
code_at (c ∷ s) zero = c
code_at (c ∷ s) (suc n) = code_at s n

abbrev pub codes : String → List ℕ
codes String.[] = []
codes (String.◌∷◌ c s) = code c ∷ codes s

pub codes-append : (s t : String) → codes (append s t) ≡ codes s ++ codes t
codes-append String.[] t = ap codes (nil-append t)
codes-append (String.◌∷◌ c s) t =
    ap codes (cons-append c s t) ∙ ap (λ x. code c ∷ x) (codes-append s t)

-- Texts that differ at a place.
pub differ_at :
    (s t : String) (n : ℕ)
    → (code_at (codes s) n == code_at (codes t) n) ≡ false
    → str_eq s t ≡ false
differ_at s t n h = elim (Bool-cases (str_eq s t)) [
  | inl e ↦ let same = ap (λ x. code_at (codes x) n) (str_eq_sound s t e) in absurd (ground arith)
  | inr e ↦ e
]

abbrev pub is_empty : String → Bool
is_empty String.[] = true
is_empty (String.◌∷◌ c s) = false

abbrev pub is_digit : ℕ → Bool
is_digit c = leb b'0' c && leb c b'9'

abbrev pub is_lower : ℕ → Bool
is_lower c = leb b'a' c && leb c b'z'

abbrev pub is_upper : ℕ → Bool
is_upper c = leb b'A' c && leb c b'Z'

abbrev pub is_alnum : ℕ → Bool
is_alnum c = is_lower c || is_upper c || is_digit c

-- `[a-f0-9]`
abbrev pub is_hex : ℕ → Bool
is_hex c = (leb b'a' c && leb c b'f') || is_digit c

-- `^C{n}$`
abbrev pub exactly : (ℕ → Bool) → ℕ → List ℕ → Bool
exactly p n s = (length s == n) && all p s

-- `^F R{lo,hi}$`: one character of a class, then between `lo` and `hi` of another
abbrev pub head_then : (ℕ → Bool) → (ℕ → Bool) → ℕ → ℕ → List ℕ → Bool
head_then f r lo hi [] = false
head_then f r lo hi (c ∷ s) = f c && leb lo (length s) && leb (length s) hi && all r s

-- The UTF-16 code units of a text, by which JavaScript orders texts.
abbrev pub units : List ℕ → List ℕ
units [] = []
units (c ∷ s) =
    if ltb c 0x10000
    then c ∷ units s
    else (0xd800 + (c - 0x10000) / 0x400) ∷ (0xdc00 + (c - 0x10000) % 0x400) ∷ units s

abbrev pub lex_le : List ℕ → List ℕ → Bool
lex_le [] t = true
lex_le (a ∷ s) [] = false
lex_le (a ∷ s) (b ∷ t) = ltb a b || (a == b && lex_le s t)

-- `s <= t` on texts, and the order of `sort()` with no comparator
unfoldable pub str_le : String → String → Bool
str_le s t = lex_le (units (codes s)) (units (codes t))

lex_le_total : (s t : List ℕ) → lex_le s t ≡ false → lex_le t s ≡ true
lex_le_total [] t h = cc
lex_le_total (a ∷ s) [] h = refl
lex_le_total (a ∷ s) (b ∷ t) h = ground (arith, lex_le_total s t)

lex_le_trans : (r s t : List ℕ) → lex_le r s ≡ true → lex_le s t ≡ true → lex_le r t ≡ true
lex_le_trans [] s t h k = refl
lex_le_trans (a ∷ r) [] t h k = cc
lex_le_trans (a ∷ r) (b ∷ s) [] h k = cc
lex_le_trans (a ∷ r) (b ∷ s) (c ∷ t) h k = ground (arith, lex_le_trans r s t)

pub str_le_total : (s t : String) → str_le s t ≡ false → str_le t s ≡ true
unfolding str_le
str_le_total s t h = lex_le_total (units (codes s)) (units (codes t)) h

pub str_le_trans : (r s t : String) → str_le r s ≡ true → str_le s t ≡ true → str_le r t ≡ true
unfolding str_le
str_le_trans r s t h k = lex_le_trans (units (codes r)) (units (codes s)) (units (codes t)) h k
