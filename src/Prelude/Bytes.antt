-- ===== src/Prelude/Bytes.antt =====
-- Byte strings: `std::string`, `std::string_view` and `char` arrays are lists of numbers below
-- 256. What the C and C++ library calls of the program do on them: comparison, `find`,
-- `memchr`-bounded C strings, and `memcpy` of little-endian words.
use Prim.Native.Char.{code}
use Prim.Native.String.{String}
use svisual.Prelude.Tests.{ltb, ◌==◌, if◌then◌else◌}
use svisual.Prelude.Lists.{
  length, take, drop, replicate, All, length-append, length-replicate, length-take, take_all,
  drop-append_of_length,
}
use Prim.Native.Nat.{ℕ, zero, suc, ◌+◌, ◌-◌, ◌*◌, ◌/◌, ◌%◌, ◌^◌, ◌≤◌, ◌<◌}
use mathlib.Core.Path.{◌≡◌, refl, ap, ap₂, subst, ◌∙◌}
use mathlib.Core.Logic.{◌↔◌}
use mathlib.Core.Bool.{Bool, true, false, ◌&&◌}
use mathlib.Core.Option.{Option, none, some}
use mathlib.Core.List.{List, [], ◌∷◌, ◌++◌, append_assoc}
use native.Mathlib.Omega.{arith}

abbrev pub Bytes : Type 0
Bytes = List ℕ

abbrev pub IsByte : ℕ → Type 0
IsByte b = b < 256

-- The bytes of an ASCII literal.
abbrev pub codes : String → Bytes
codes String.[] = []
codes (String.◌∷◌ c s) = code c ∷ codes s

-- `std::string::operator==`
unfoldable pub str_eq : Bytes → Bytes → Bool
str_eq [] [] = true
str_eq [] (y ∷ ys) = false
str_eq (x ∷ xs) [] = false
str_eq (x ∷ xs) (y ∷ ys) = x == y && str_eq xs ys

-- `std::string::operator<`, which `std::map` orders its keys by, and the sign of `strcmp`.
unfoldable pub str_lt : Bytes → Bytes → Bool
str_lt xs [] = false
str_lt [] (y ∷ ys) = true
str_lt (x ∷ xs) (y ∷ ys) = if x == y then str_lt xs ys else ltb x y

pub str_eq_sound : (xs ys : Bytes) → str_eq xs ys ≡ true → xs ≡ ys
unfolding str_eq
str_eq_sound [] [] h = refl
str_eq_sound [] (y ∷ ys) h = cc
str_eq_sound (x ∷ xs) [] h = cc
str_eq_sound (x ∷ xs) (y ∷ ys) h = ground (arith, str_eq_sound xs ys)

pub str_eq_refl : (xs : Bytes) → str_eq xs xs ≡ true
unfolding str_eq
str_eq_refl [] = refl
str_eq_refl (x ∷ xs) = ground (arith, str_eq_refl xs)

pub str_eq_iff : (xs ys : Bytes) → (str_eq xs ys ≡ true) ↔ (xs ≡ ys)
str_eq_iff xs ys = (str_eq_sound xs ys, λ e. subst (λ z. str_eq xs z ≡ true) e (str_eq_refl xs))

-- `starts_with p s`: the bytes of `p` stand at the front of `s`.
unfoldable pub starts_with : Bytes → Bytes → Bool
starts_with [] s = true
starts_with (x ∷ p) [] = false
starts_with (x ∷ p) (y ∷ s) = x == y && starts_with p s

-- The first position at which `p` stands in a text whose first byte has position `i`.
unfoldable pub find_at : Bytes → Bytes → ℕ → Option ℕ
find_at p [] i = if starts_with p [] then some i else none
find_at p (x ∷ s) i = if starts_with p (x ∷ s) then some i else find_at p s (i + 1)

-- `s.find(p, pos)`; `none` is `npos`. The patterns of the program are not empty, so a `pos` at or
-- past the end finds nothing.
unfoldable pub find : Bytes → Bytes → ℕ → Option ℕ
unfolding find_at
find p s pos = find_at p (drop pos s) pos

-- `strstr(s, p) != NULL`
unfoldable pub contains : Bytes → Bytes → Bool
unfolding find_at
contains p s = elim (find_at p s 0) [ none ↦ false | some _ ↦ true ]

pub starts_with-append : (p s : Bytes) → starts_with p (p ++ s) ≡ true
unfolding starts_with
starts_with-append [] s = refl
starts_with-append (x ∷ p) s = ground (arith, starts_with-append p s)

-- A text that begins with the pattern has it at its first position.
pub find_at-append : (p s : Bytes) (i : ℕ) → find_at p (p ++ s) i ≡ some i
unfolding find_at starts_with
find_at-append [] [] i = refl
find_at-append [] (y ∷ s) i = refl
find_at-append (x ∷ p) s i = rw (starts_with-append (x ∷ p) s)

-- A position that is found is not before the start of the search.
pub find_at_ge : (p s : Bytes) (i j : ℕ) → find_at p s i ≡ some j → i ≤ j
unfolding find_at
find_at_ge p [] i j h = ground arith
find_at_ge p (x ∷ s) i j h = ground (arith, find_at_ge p s (i + 1) j)

-- What the search finds does not depend on how positions are counted.
pub find_at-eq-none : (p s : Bytes) (i j : ℕ) → find_at p s i ≡ none → find_at p s j ≡ none
unfolding find_at
find_at-eq-none p [] i j h = ground arith
find_at-eq-none p (x ∷ s) i j h = ground (arith, find_at-eq-none p s (i + 1) (j + 1))

pub starts_with-length : (p s : Bytes) → starts_with p s ≡ true → length p ≤ length s
unfolding starts_with
starts_with-length [] s h = omega arith
starts_with-length (x ∷ p) [] h = cc
starts_with-length (x ∷ p) (y ∷ s) h = ground (arith, starts_with-length p s)

-- The pattern that is found lies inside the text.
pub find_at_le : (p s : Bytes) (i j : ℕ) → find_at p s i ≡ some j → j + length p ≤ i + length s
unfolding find_at
find_at_le p [] i j h = ground (arith, starts_with-length p [])
find_at_le p (x ∷ s) i j h = ground (arith, find_at_le p s (i + 1) j, starts_with-length p (x ∷ s))

-- `boundedCStrLen` and `strlen`: the bytes before the first zero, at most all of the field.
unfoldable pub c_str : Bytes → Bytes
c_str [] = []
c_str (zero ∷ s) = []
c_str (suc b ∷ s) = suc b ∷ c_str s

-- No byte of the string is zero, as for what `strlen` measures.
abbrev pub NoZero : Bytes → Type 0
NoZero = All (λ b. 0 < b)

pub c_str-pad : (s : Bytes) (n : ℕ) → NoZero s → c_str (s ++ replicate n 0) ≡ s
unfolding c_str
c_str-pad [] zero h = refl
c_str-pad [] (suc n) h = refl
c_str-pad (zero ∷ s) n h = absurd (omega arith)
c_str-pad (suc b ∷ s) n h = ap (λ t. suc b ∷ t) (c_str-pad s n h.1)

pub c_str-terminated : (s t : Bytes) → NoZero s → c_str (s ++ (0 ∷ t)) ≡ s
unfolding c_str
c_str-terminated [] t h = refl
c_str-terminated (zero ∷ s) t h = absurd (omega arith)
c_str-terminated (suc b ∷ s) t h = ap (λ u. suc b ∷ u) (c_str-terminated s t h.1)

pub c_str_full : (s : Bytes) → NoZero s → c_str s ≡ s
unfolding c_str
c_str_full [] h = refl
c_str_full (zero ∷ s) h = absurd (omega arith)
c_str_full (suc b ∷ s) h = ap (λ t. suc b ∷ t) (c_str_full s h.1)

-- A `char[n]` that holds the string, the rest of it zero. The string is shorter than `n`.
abbrev pub pad : ℕ → Bytes → Bytes
pad n s = s ++ replicate (n - length s) 0

pub length-pad : (n : ℕ) (s : Bytes) → length s ≤ n → length (pad n s) ≡ n
length-pad n s h =
    omega (
      arith,
      length-append s (replicate (n - length s) 0),
      length-replicate {A = ℕ} (n - length s) 0,
    )

-- `memcpy` of a 32-bit word, least significant byte first.
unfoldable pub encode32 : ℕ → Bytes
encode32 w = (w % 256) ∷ (w / 2 ^ 8 % 256) ∷ (w / 2 ^ 16 % 256) ∷ (w / 2 ^ 24 % 256) ∷ []

-- The word that stands in the first four bytes; fewer bytes count as zero.
unfoldable pub decode32 : Bytes → ℕ
decode32 [] = 0
decode32 (a ∷ []) = a
decode32 (a ∷ b ∷ []) = a + 2 ^ 8 * b
decode32 (a ∷ b ∷ c ∷ []) = a + 2 ^ 8 * b + 2 ^ 16 * c
decode32 (a ∷ b ∷ c ∷ d ∷ s) = a + 2 ^ 8 * b + 2 ^ 16 * c + 2 ^ 24 * d

abbrev pub IsWord : ℕ → Type 0
IsWord w = w < 2 ^ 32

pub decode32-encode32 : (w : ℕ) (s : Bytes) → IsWord w → decode32 (encode32 w ++ s) ≡ w
unfolding decode32 encode32
decode32-encode32 w s h = omega arith

pub length-encode32 : (w : ℕ) → length (encode32 w) ≡ 4
unfolding encode32
length-encode32 w = refl

-- `memcpy` of an array of 32-bit words.
unfoldable pub encode_words : List ℕ → Bytes
encode_words [] = []
encode_words (w ∷ ws) = encode32 w ++ encode_words ws

unfoldable pub decode_words : ℕ → Bytes → List ℕ
decode_words zero s = []
decode_words (suc n) s = decode32 s ∷ decode_words n (drop 4 s)

pub length-encode_words : (ws : List ℕ) → length (encode_words ws) ≡ 4 * length ws
unfolding encode_words encode32
length-encode_words [] = refl
length-encode_words (w ∷ ws) = omega (arith, length-encode_words ws)

pub length-decode_words : (n : ℕ) (s : Bytes) → length (decode_words n s) ≡ n
unfolding decode_words
length-decode_words zero s = refl
length-decode_words (suc n) s = ap suc (length-decode_words n (drop 4 s))

-- Words that are copied out and in again are the same words.
pub decode_words-encode_words :
    (ws : List ℕ) (s : Bytes) → All IsWord ws → decode_words (length ws) (encode_words ws ++ s) ≡ ws
unfolding encode_words decode_words
decode_words-encode_words [] s h = refl
decode_words-encode_words (w ∷ ws) s h = rw (append_assoc (encode32 w) (encode_words ws) s) (
    ap₂ ◌∷◌ (decode32-encode32 w (encode_words ws ++ s) h.0) (
      ap (decode_words (length ws))
        (drop-append_of_length 4 (encode32 w) (encode_words ws ++ s) (length-encode32 w))
      ∙ decode_words-encode_words ws s h.1))

-- `memcpy` of a 64-bit word.
unfoldable pub encode64 : ℕ → Bytes
encode64 w = encode32 (w % 2 ^ 32) ++ encode32 (w / 2 ^ 32)

unfoldable pub decode64 : Bytes → ℕ
decode64 s = decode32 s + 2 ^ 32 * decode32 (drop 4 s)

pub length-encode64 : (w : ℕ) → length (encode64 w) ≡ 8
unfolding encode64 encode32
length-encode64 w = refl

pub decode64-encode64 : (w : ℕ) (s : Bytes) → w < 2 ^ 64 → decode64 (encode64 w ++ s) ≡ w
unfolding decode64 encode64 encode32 decode32
decode64-encode64 w s h = omega arith

-- A `char[n]` that a longer text is cut to fit, with room for the zero behind it.
unfoldable pub fixed_field : ℕ → Bytes → Bytes
fixed_field n s = pad n (take (n - 1) s)

pub length-fixed_field : (n : ℕ) (s : Bytes) → length (fixed_field n s) ≡ n
unfolding fixed_field
length-fixed_field n s = length-pad n (take (n - 1) s) (omega (arith, length-take (n - 1) s))

pub c_str-fixed_field : (n : ℕ) (s : Bytes) → length s < n → NoZero s → c_str (fixed_field n s) ≡ s
unfolding fixed_field
c_str-fixed_field n s h z =
    ap (λ t. c_str (pad n t)) (take_all (n - 1) s (omega arith)) ∙ c_str-pad s (n - length s) z
