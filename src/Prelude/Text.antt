-- ===== src/Prelude/Text.antt =====
-- Texts as the numbers of their characters: prefixes, and the decimal numbers of Rust's `parse`.
use Prim.Native.Char.{code}
use Prim.Native.String.{String}
use ore_pool.Prelude.{
  ℕ, zero, suc, ◌+◌, ◌-◌, ◌*◌, ◌/◌, ◌%◌, ◌<◌, ◌≤◌, ◌≡◌, refl, ◌∙◌, ap, List, [], ◌∷◌, ◌++◌, Option,
  none, some, Bool, true, false, ◌&&◌, length, leb, ltb, ◌==◌, arith, if◌then◌else◌, Bool-cases,
  inl, inr,
}
use ore_pool.Prelude.Words.{u64_mod}

abbrev pub Text : Type 0
Text = List ℕ

abbrev pub chars : String → Text
chars String.[] = []
chars (String.◌∷◌ c rest) = code c ∷ chars rest

-- The environment of a process: the text of a variable, if it is set.
abbrev pub Env : Type 0
Env = String → Option Text

unfoldable pub equal_text : Text → Text → Bool
equal_text [] [] = true
equal_text [] (d ∷ t) = false
equal_text (c ∷ s) [] = false
equal_text (c ∷ s) (d ∷ t) = c == d && equal_text s t

pub equal_text_eq : (s t : Text) → equal_text s t ≡ true → s ≡ t
unfolding equal_text
equal_text_eq [] [] h = refl
equal_text_eq [] (d ∷ t) h = absurd (ground arith)
equal_text_eq (c ∷ s) [] h = absurd (ground arith)
equal_text_eq (c ∷ s) (d ∷ t) h = ground (arith, equal_text_eq s t)

-- `str::strip_prefix`
unfoldable pub strip_prefix : Text → Text → Option Text
strip_prefix [] s = some s
strip_prefix (p ∷ ps) [] = none
strip_prefix (p ∷ ps) (c ∷ s) = if p == c then strip_prefix ps s else none

-- `str::trim_start_matches`, which takes a prefix off as often as there is one; every time the text
-- gets shorter, so its length is enough of a count.
unfoldable pub trim_loop : ℕ → Text → Text → Text
trim_loop zero p s = s
trim_loop (suc n) p s = elim (strip_prefix p s) [ none ↦ s | some rest ↦ trim_loop n p rest ]

unfoldable pub trim_start_matches : Text → Text → Text
unfolding trim_loop
trim_start_matches p s = trim_loop (length s) p s

unfoldable pub is_digit : ℕ → Bool
is_digit c = leb b'0' c && leb c b'9'

-- The digits of a `u64`, after the value of those before; past the type's range there is none.
unfoldable pub parse_digits : ℕ → Text → Option ℕ
unfolding is_digit
parse_digits acc [] = some acc
parse_digits acc (c ∷ s) =
    let next = acc * 10 + (c - b'0') in
    let rest = parse_digits next s in if is_digit c && ltb next u64_mod then rest else none

-- `str::parse::<u64>`: a plus sign may come first.
unfoldable pub parse_u64 : Text → Option ℕ
unfolding parse_digits
parse_u64 [] = none
parse_u64 (c ∷ []) = parse_digits 0 (c ∷ [])
parse_u64 (c ∷ d ∷ s) = if c == b'+' then parse_digits 0 (d ∷ s) else parse_digits 0 (c ∷ d ∷ s)

pub strip_prefix-append : (p s : Text) → strip_prefix p (p ++ s) ≡ some s
unfolding strip_prefix
strip_prefix-append [] s = refl
strip_prefix-append (c ∷ p) s = ground (arith, strip_prefix-append p s)

-- Decimal digits, the last first, with a count that is enough when it exceeds the number.
unfoldable pub decimal_loop : ℕ → ℕ → Text
decimal_loop zero n = []
decimal_loop (suc fuel) n =
    let front = decimal_loop fuel (n / 10) in
    if ltb n 10 then (b'0' + n) ∷ [] else front ++ (b'0' + n % 10) ∷ []

-- `u64` as it is printed
unfoldable pub decimal : ℕ → Text
unfolding decimal_loop
decimal n = decimal_loop (suc n) n

parse_digits-snoc :
    (acc : ℕ) (s : Text) (c v : ℕ)
    → parse_digits acc s ≡ some v
    → c < 10
    → v * 10 + c < u64_mod
    → parse_digits acc (s ++ (b'0' + c) ∷ []) ≡ some (v * 10 + c)
unfolding parse_digits is_digit
parse_digits-snoc acc [] c v h lt fits = ground arith
parse_digits-snoc acc (d ∷ s) c v h lt fits =
    ground (arith, parse_digits-snoc (acc * 10 + (d - b'0')) s c v)

parse_digits-decimal_loop :
    (fuel n : ℕ) → n < fuel → n < u64_mod → parse_digits 0 (decimal_loop fuel n) ≡ some n
unfolding decimal_loop parse_digits is_digit
parse_digits-decimal_loop zero n lt fits = absurd (omega arith)
parse_digits-decimal_loop (suc fuel) n lt fits = elim (Bool-cases (ltb n 10)) [
  | inl small ↦ ground (arith)
  | inr large ↦
      let ten : 10 ≤ n = ground arith in
      let front = parse_digits-decimal_loop fuel (n / 10) (omega arith) (omega arith) in
      rw large (
        parse_digits-snoc 0 (decimal_loop fuel (n / 10)) (n % 10) (n / 10) front (omega arith)
          (omega arith)
        ∙ ap some (omega arith))
]

-- The first character is a digit.
abbrev starts_digit : Text → Bool
starts_digit [] = false
starts_digit (c ∷ s) = is_digit c

starts_digit-append : (s t : Text) → starts_digit s ≡ true → starts_digit (s ++ t) ≡ true
starts_digit-append [] t h = absurd (ground arith)
starts_digit-append (c ∷ s) t h = h

starts_digit-decimal_loop : (fuel n : ℕ) → n < fuel → starts_digit (decimal_loop fuel n) ≡ true
unfolding decimal_loop is_digit
starts_digit-decimal_loop zero n lt = absurd (omega arith)
starts_digit-decimal_loop (suc fuel) n lt = elim (Bool-cases (ltb n 10)) [
  | inl small ↦ ground arith
  | inr large ↦
      let ten : 10 ≤ n = ground arith in
      rw large (
        starts_digit-append (decimal_loop fuel (n / 10)) _
          (starts_digit-decimal_loop fuel (n / 10) (omega arith)))
]

parse_u64-digits : (s : Text) → starts_digit s ≡ true → parse_u64 s ≡ parse_digits 0 s
unfolding parse_u64 is_digit
parse_u64-digits [] h = absurd (ground arith)
parse_u64-digits (c ∷ []) h = refl
parse_u64-digits (c ∷ d ∷ s) h = ground arith

-- What is printed reads back.
pub parse_u64-decimal : (n : ℕ) → n < u64_mod → parse_u64 (decimal n) ≡ some n
unfolding decimal
parse_u64-decimal n fits =
    parse_u64-digits (decimal_loop (suc n) n) (starts_digit-decimal_loop (suc n) n (omega arith))
    ∙ parse_digits-decimal_loop (suc n) n (omega arith) fits

strip_prefix-digit :
    (c : ℕ) (p s : Text)
    → is_digit c ≡ false
    → starts_digit s ≡ true
    → strip_prefix (c ∷ p) s ≡ none
unfolding strip_prefix is_digit
strip_prefix-digit c p [] h e = refl
strip_prefix-digit c p (d ∷ s) h e = ground arith

trim_loop-none : (n : ℕ) (p s : Text) → strip_prefix p s ≡ none → trim_loop n p s ≡ s
unfolding trim_loop
trim_loop-none zero p s h = refl
trim_loop-none (suc n) p s h = ground (arith, h)

trim_loop-some :
    (n : ℕ) (p s rest : Text)
    → strip_prefix p s ≡ some rest
    → trim_loop (suc n) p s ≡ trim_loop n p rest
unfolding trim_loop
trim_loop-some n p s rest h = ground (arith, h)

-- A label that starts with no digit is trimmed off a number that is printed after it, and the
-- number reads back.
pub parse_u64-trim_start_matches-decimal :
    (c n : ℕ) (p : Text)
    → is_digit c ≡ false
    → n < u64_mod
    → parse_u64 (trim_start_matches (c ∷ p) ((c ∷ p) ++ decimal n)) ≡ some n
unfolding trim_start_matches decimal
parse_u64-trim_start_matches-decimal c n p h fits =
    let printed = decimal_loop (suc n) n in
    let none_left =
      strip_prefix-digit c p printed h (starts_digit-decimal_loop (suc n) n (omega arith)) in
    ap parse_u64 (
      trim_loop-some (length (p ++ printed)) (c ∷ p) _ printed (strip_prefix-append (c ∷ p) printed)
      ∙ trim_loop-none (length (p ++ printed)) (c ∷ p) printed none_left)
    ∙ parse_u64-decimal n fits
