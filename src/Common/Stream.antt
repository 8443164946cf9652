-- ===== src/Common/Stream.antt =====
-- Formatted text input and output as the standard streams do it in the C locale: `<<` of an unsigned
-- number, and `>>` of a number or a word, which skips white space first. A text read is given with
-- what is left of it. No sign is read, since the program writes none.
use Prim.Native.Nat.{ℕ, zero, suc, ◌+◌, ◌-◌, ◌*◌, ◌/◌, ◌%◌, ◌≤◌, ◌<◌}
use mathlib.Core.Path.{◌≡◌, refl}
use mathlib.Core.Logic.{◌≢◌}
use mathlib.Core.Bool.{Bool, true, false, not, ◌&&◌, ◌||◌}
use mathlib.Core.Option.{Option, none, some}
use mathlib.Core.List.{[], ◌∷◌, ◌++◌}
use native.Mathlib.Omega.{arith}
use ds.Common.Tests.{ltb, leb, nat_eq, if◌then◌else◌}
use ds.Common.Text.{Bytes}
use ds.Common.Lists.{length}

abbrev pub newline : ℕ
newline = 10

abbrev pub space : ℕ
space = 32

abbrev pub is_space : ℕ → Bool
is_space c = nat_eq c 32 || (leb 9 c && leb c 13)

abbrev pub is_digit : ℕ → Bool
is_digit c = leb 48 c && leb c 57

-- The first byte passes the test.
abbrev pub starts : (ℕ → Bool) → Bytes → Bool
starts p [] = false
starts p (c ∷ s) = p c

-- No byte passes the test.
unfoldable pub none_of : (ℕ → Bool) → Bytes → Bool
none_of p [] = true
none_of p (c ∷ s) = not (p c) && none_of p s

digits : ℕ → ℕ → Bytes → Bytes
digits zero n rest = rest
digits (suc f) n rest =
    let more = digits f (n / 10) ((48 + n % 10) ∷ rest) in
    if ltb n 10 then (48 + n) ∷ rest else more

-- `out << n`
unfoldable pub print_nat : ℕ → Bytes
unfolding digits
print_nat n = digits (suc n) n []

read_digits : ℕ → Bytes → ℕ × Bytes
read_digits n [] = (n, [])
read_digits n (c ∷ s) =
    let more = read_digits (n * 10 + (c - 48)) s in if is_digit c then more else (n, c ∷ s)

unfoldable pub skip_space : Bytes → Bytes
skip_space [] = []
skip_space (c ∷ s) = let more = skip_space s in if is_space c then more else c ∷ s

-- `in >> n` for an unsigned type with `limit` values
unfoldable pub read_nat : ℕ → Bytes → Option (ℕ × Bytes)
unfolding read_digits
read_nat limit s =
    let t = skip_space s in
    let r = read_digits 0 t in if starts is_digit t && ltb r.0 limit then some r else none

-- The bytes up to the first that passes the test, and the rest with that byte.
unfoldable pub span : (ℕ → Bool) → Bytes → Bytes × Bytes
span p [] = ([], [])
span p (c ∷ s) = let (w, rest) = span p s in if p c then ([], c ∷ s) else (c ∷ w, rest)

-- `in >> s`
unfoldable pub read_word : Bytes → Option (Bytes × Bytes)
read_word s =
    let t = skip_space s in
    if starts (λ c. not (is_space c)) t then some (span is_space t) else none

-- `getline(in, s)`
unfoldable pub getline : Bytes → Bytes × Bytes
getline [] = ([], [])
getline (c ∷ s) = let (w, rest) = getline s in if nat_eq c newline then ([], s) else (c ∷ w, rest)

-- `in.get()`
abbrev pub get : Bytes → Bytes
get [] = []
get (c ∷ s) = s

digits-append : (f n : ℕ) (r s : Bytes) → digits f n r ++ s ≡ digits f n (r ++ s)
unfolding digits
digits-append zero n r s = refl
digits-append (suc f) n r s = ground (arith, digits-append f (n / 10) ((48 + n % 10) ∷ r) s)

digits-starts : (f n : ℕ) (s : Bytes) → n < f → starts is_digit (digits f n s) ≡ true
unfolding digits
digits-starts zero n s h = elim h [ ]
digits-starts (suc f) n s h = ground (arith, digits-starts f (n / 10) ((48 + n % 10) ∷ s))

read_digits-digits : (f n : ℕ) (s : Bytes) → n < f → read_digits 0 (digits f n s) ≡ read_digits n s
unfolding digits read_digits
read_digits-digits zero n s h = elim h [ ]
read_digits-digits (suc f) n s h = ground (arith, read_digits-digits f (n / 10) ((48 + n % 10) ∷ s))

read_digits_stop : (n : ℕ) (s : Bytes) → starts is_digit s ≡ false → read_digits n s ≡ (n, s)
unfolding read_digits
read_digits_stop n [] h = refl
read_digits_stop n (c ∷ s) h = ground arith

skip_space_stop : (s : Bytes) → starts is_space s ≡ false → skip_space s ≡ s
unfolding skip_space
skip_space_stop [] h = refl
skip_space_stop (c ∷ s) h = ground arith

starts_digit_space : (s : Bytes) → starts is_digit s ≡ true → starts is_space s ≡ false
starts_digit_space [] h = refl
starts_digit_space (c ∷ s) h = ground arith

print_nat-append : (n : ℕ) (s : Bytes) → print_nat n ++ s ≡ digits (suc n) n s
unfolding print_nat
print_nat-append n s = digits-append (suc n) n [] s

pub print_nat-starts : (n : ℕ) (s : Bytes) → starts is_digit (print_nat n ++ s) ≡ true
print_nat-starts n s = rw (print_nat-append n s) (digits-starts (suc n) n s (omega arith))

-- A number that is printed is read back, at the end of its digits.
pub read_nat-print_nat :
    (limit n : ℕ) (s : Bytes)
    → n < limit
    → starts is_digit s ≡ false
    → read_nat limit (print_nat n ++ s) ≡ some (n, s)
unfolding read_nat
read_nat-print_nat limit n s h stop =
    let d = digits (suc n) n s in
    rw (print_nat-append n s) (
      ground (
        arith,
        skip_space_stop d,
        starts_digit_space d,
        digits-starts (suc n) n s,
        read_digits-digits (suc n) n s,
        read_digits_stop n s,
      ))

pub read_nat-space : (limit : ℕ) (s : Bytes) → read_nat limit (space ∷ s) ≡ read_nat limit s
unfolding read_nat skip_space
read_nat-space limit s = refl

span_all :
    (w s : Bytes)
    → none_of is_space w ≡ true
    → starts is_space s ≡ true
    → span is_space (w ++ s) ≡ (w, s)
unfolding span none_of
span_all [] [] h k = cc
span_all [] (c ∷ s) h k = ground arith
span_all (c ∷ w) s h k = ground (arith, span_all w s)

-- A name that is read back as one word.
pub record IsWord (m : Bytes) : Type 0 where
  pub ne_nil : m ≢ []
  pub no_space : none_of is_space m ≡ true

-- A word with a space behind it is read back.
pub read_word_lem :
    (w s : Bytes)
    → none_of is_space w ≡ true
    → w ≢ []
    → starts is_space s ≡ true
    → read_word (w ++ s) ≡ some (w, s)
unfolding read_word none_of skip_space
read_word_lem [] s h ne k = absurd (ne refl)
read_word_lem (c ∷ w) s h ne k = ground (arith, span_all (c ∷ w) s)

pub read_word-space : (c : ℕ) (s : Bytes) → is_space c ≡ true → read_word (c ∷ s) ≡ read_word s
unfolding read_word skip_space
read_word-space c s h = ground arith

pub read_word_end : read_word [] ≡ none
unfolding read_word skip_space
read_word_end = refl

-- A line without a line feed inside is read back, and its line feed is dropped.
pub getline_lem :
    (v s : Bytes) → none_of (λ c. nat_eq c newline) v ≡ true → getline (v ++ newline ∷ s) ≡ (v, s)
unfolding getline none_of
getline_lem [] s h = refl
getline_lem (c ∷ v) s h = ground (arith, getline_lem v s)

-- What is left is no longer than the text, and shorter after a word.
skip_space-le : (s : Bytes) → length (skip_space s) ≤ length s
unfolding skip_space
skip_space-le [] = omega arith
skip_space-le (c ∷ s) = ground (arith, skip_space-le s)

read_digits-le : (n : ℕ) (s : Bytes) → length (read_digits n s).1 ≤ length s
unfolding read_digits
read_digits-le n [] = omega arith
read_digits-le n (c ∷ s) = ground (arith, read_digits-le (n * 10 + (c - 48)) s)

pub read_nat-le :
    (limit : ℕ) (s : Bytes) {n : ℕ} {t : Bytes}
    → read_nat limit s ≡ some (n, t)
    → length t ≤ length s
unfolding read_nat
read_nat-le limit s h = ground (arith, skip_space-le s, read_digits-le 0 (skip_space s))

span-le : (p : ℕ → Bool) (s : Bytes) → length (span p s).1 ≤ length s
unfolding span
span-le p [] = omega arith
span-le p (c ∷ s) = ground (arith, span-le p s)

span-lt :
    (t : Bytes) → starts (λ c. not (is_space c)) t ≡ true → length (span is_space t).1 < length t
unfolding span
span-lt [] h = cc
span-lt (c ∷ t) h = ground (arith, span-le is_space t)

pub read_word-lt : (s : Bytes) {w t : Bytes} → read_word s ≡ some (w, t) → length t < length s
unfolding read_word
read_word-lt s h = ground (arith, skip_space-le s, span-lt (skip_space s))

pub getline-le : (s : Bytes) → length (getline s).1 ≤ length s
unfolding getline
getline-le [] = omega arith
getline-le (c ∷ s) = ground (arith, getline-le s)

pub get-le : (s : Bytes) → length (get s) ≤ length s
get-le [] = omega arith
get-le (c ∷ s) = omega arith

digits-none_of :
    (p : ℕ → Bool) (f n : ℕ) (s : Bytes)
    → ((c : ℕ) → is_digit c ≡ true → p c ≡ false)
    → none_of p s ≡ true
    → none_of p (digits f n s) ≡ true
unfolding digits none_of
digits-none_of p zero n s h k = k
digits-none_of p (suc f) n s h k =
    ground (arith, digits-none_of p f (n / 10) ((48 + n % 10) ∷ s), h (48 + n % 10), h (48 + n))

-- A printed number has digits only.
pub print_nat-none_of :
    (p : ℕ → Bool) (n : ℕ)
    → ((c : ℕ) → is_digit c ≡ true → p c ≡ false)
    → none_of p (print_nat n) ≡ true
unfolding print_nat none_of
print_nat-none_of p n h = digits-none_of p (suc n) n [] h refl
