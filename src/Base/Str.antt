-- ===== src/Base/Str.antt =====
-- Python's `str` as a list of code points, and what the source uses of it.
use Prim.Native.Nat.{ℕ, zero, suc, ◌+◌, ◌-◌, ◌*◌, ◌/◌, ◌%◌, ◌<◌}
use Prim.Native.Char.{code}
use Prim.Native.String.{String}
use mathlib.Core.Path.{◌≡◌, refl, ap}
use mathlib.Core.Bool.{Bool, true, false, ◌&&◌, ◌||◌}
use mathlib.Core.List.{List, [], ◌∷◌, ◌++◌, reverse}
use native.Mathlib.Omega.{arith}
use mathlib.Core.Logic.{inl, inr}
use arango_sparql_py.Base.Tests.{if◌then◌else◌, ltb, leb, Bool-cases}
use arango_sparql_py.Base.Eq.{◌==◌, nat_eq, list_eq}
use arango_sparql_py.Base.Lists.{All, All-append}

abbrev pub Str : Type 0
Str = List ℕ

abbrev pub codes : String → Str
codes String.[] = []
codes (String.◌∷◌ c s) = code c ∷ codes s

abbrev pub between : ℕ → ℕ → ℕ → Bool
between lo hi c = leb lo c && leb c hi

unfoldable pub is_digit : ℕ → Bool
is_digit c = between 48 57 c

unfoldable pub is_letter : ℕ → Bool
is_letter c = between 97 122 c || between 65 90 c

unfoldable pub is_ident_start : ℕ → Bool
unfolding is_letter
is_ident_start c = is_letter c || c == 95

unfoldable pub is_ident_char : ℕ → Bool
unfolding is_letter is_digit
is_ident_char c = is_letter c || is_digit c || c == 95

-- `str.isspace` of one character, which is also what `\s` matches
unfoldable pub is_space : ℕ → Bool
is_space c =
    between 9 13 c
    || between 28 32 c
    || c == 133
    || c == 160
    || c == 0x1680
    || between 0x2000 0x200a c
    || c == 0x2028
    || c == 0x2029
    || c == 0x202f
    || c == 0x205f
    || c == 0x3000

-- ASCII lower and upper case
unfoldable pub lower_char : ℕ → ℕ
lower_char c = if between 65 90 c then c + 32 else c

unfoldable pub upper_char : ℕ → ℕ
upper_char c = if between 97 122 c then c - 32 else c

-- Opens the character classes in a test.
unfoldable pub chars : Unit {0}
unfolding is_digit is_letter is_ident_start is_ident_char is_space lower_char upper_char
chars = tt

-- `s.startswith(p)`
abbrev pub starts_with : Str → Str → Bool
starts_with s [] = true
starts_with [] (p ∷ ps) = false
starts_with (c ∷ s) (p ∷ ps) = c == p && starts_with s ps

-- `s.lstrip()`
unfoldable pub lstrip : Str → Str
lstrip [] = []
lstrip (c ∷ s) = let rest = lstrip s in if is_space c then rest else c ∷ s

-- `s.strip()`
unfoldable pub strip : Str → Str
unfolding lstrip
strip s = reverse (lstrip (reverse (lstrip s)))

-- `str(n)` of a non-negative integer
digits : ℕ → ℕ → Str
digits zero n = []
digits (suc f) n =
    let rest = digits f (n / 10) in if ltb n 10 then (48 + n) ∷ [] else rest ++ (48 + n % 10) ∷ []

unfoldable pub show : ℕ → Str
unfolding digits
show n = digits (suc n) n

-- The number that a text of digits names, read from the left.
unfoldable pub value : ℕ → Str → ℕ
value n [] = n
value n (c ∷ s) = value (n * 10 + (c - 48)) s

value-append : (n : ℕ) (s t : Str) → value n (s ++ t) ≡ value (value n s) t
unfolding value
value-append n [] t = refl
value-append n (c ∷ s) t = value-append (n * 10 + (c - 48)) s t

value-digits : (f n : ℕ) → n < f → value 0 (digits f n) ≡ n
unfolding value digits
value-digits zero n h = elim h [ ]
value-digits (suc f) n h =
    ground (arith, value-append 0 (digits f (n / 10)) ((48 + n % 10) ∷ []), value-digits f (n / 10))

pub value-show : (n : ℕ) → value 0 (show n) ≡ n
unfolding show
value-show n = value-digits (suc n) n (omega arith)

-- `str` is injective on the non-negative integers.
pub show-injective : (m n : ℕ) → show m ≡ show n → m ≡ n
show-injective m n h = cc (value-show m, value-show n, ap (value 0) h)

abbrev pub IsDigit : ℕ → Type 0
IsDigit c = is_digit c ≡ true

digits-IsDigit : (f n : ℕ) → All IsDigit (digits f n)
unfolding digits is_digit
digits-IsDigit zero n = tt
digits-IsDigit (suc f) n = elim (Bool-cases (ltb n 10)) [
  | inl small ↦ rw small (ground arith, tt)
  | inr big ↦ rw big (
      All-append IsDigit (digits f (n / 10)) ((48 + n % 10) ∷ []) (digits-IsDigit f (n / 10))
        (ground arith, tt))
]

pub show-IsDigit : (n : ℕ) → All IsDigit (show n)
unfolding show
show-IsDigit n = digits-IsDigit (suc n) n
