-- ===== src/Prelude/Text.antt =====
-- Text as a list of code points, ASCII where the program changes case or reads numbers.
use Prim.Native.Char.{code}
use Prim.Native.String.{String}
use Prim.Native.Nat.{ℕ, ◌+◌, ◌-◌, ◌*◌}
use mathlib.Core.Path.{◌≡◌, refl}
use native.Mathlib.Omega.{arith}
use mathlib.Core.Bool.{Bool, true, false, ◌&&◌, ◌||◌}
use mathlib.Core.Option.{Option, none, some}
use mathlib.Core.List.{List, [], ◌∷◌, ◌++◌}
use fcam_gateway.Prelude.Tests.{leb, ◌==◌, if◌then◌else◌}
use fcam_gateway.Prelude.Lists.{elem}

abbrev pub codes : String → List ℕ
codes String.[] = []
codes (String.◌∷◌ c s) = code c ∷ codes s

abbrev pub same : List ℕ → List ℕ → Bool
same [] [] = true
same (a ∷ xs) (b ∷ ys) = a == b && same xs ys
same _ _ = false

pub same_refl : (k : List ℕ) → same k k ≡ true
same_refl [] = refl
same_refl (x ∷ xs) = ground (arith, same_refl xs)

pub same_sound : (k l : List ℕ) → same k l ≡ true → k ≡ l
same_sound [] [] h = refl
same_sound [] (y ∷ ys) h = cc
same_sound (x ∷ xs) [] h = cc
same_sound (x ∷ xs) (y ∷ ys) h =
    let e : x ≡ y = ground (arith, h) in
    let t : same xs ys ≡ true = ground (arith, h) in let r = same_sound xs ys t in cc

abbrev pub starts : List ℕ → List ℕ → Bool
starts [] t = true
starts (a ∷ xs) (b ∷ ys) = a == b && starts xs ys
starts (a ∷ xs) [] = false

-- `part in text`
unfoldable pub contains : List ℕ → List ℕ → Bool
contains part [] = starts part []
contains part (c ∷ text) = starts part (c ∷ text) || contains part text

-- `any(m in text for m in markers)`
unfoldable pub contains_any : List String → List ℕ → Bool
unfolding contains
contains_any [] text = false
contains_any (m ∷ ms) text = contains (codes m) text || contains_any ms text

-- `text in words`
unfoldable pub one_of : List String → List ℕ → Bool
one_of [] text = false
one_of (w ∷ ws) text = same (codes w) text || one_of ws text

unfoldable pub split_loop : ℕ → List ℕ → List ℕ → List (List ℕ)
split_loop sep acc [] = acc ∷ []
split_loop sep acc (c ∷ text) =
    let cut = split_loop sep [] text in
    let more = split_loop sep (acc ++ c ∷ []) text in if c == sep then acc ∷ cut else more

-- `text.split(sep)` at one character
unfoldable pub split : ℕ → List ℕ → List (List ℕ)
unfolding split_loop
split sep text = split_loop sep [] text

-- `sep.join(parts)`
unfoldable pub join : ℕ → List (List ℕ) → List ℕ
join sep [] = []
join sep (p ∷ []) = p
join sep (p ∷ q ∷ ps) = p ++ sep ∷ join sep (q ∷ ps)

abbrev is_digit : ℕ → Bool
is_digit c = leb b'0' c && leb c b'9'

unfoldable pub all_digits : List ℕ → Bool
all_digits [] = true
all_digits (c ∷ cs) = is_digit c && all_digits cs

-- `text.isdigit()`
unfoldable pub isdigit : List ℕ → Bool
unfolding all_digits
isdigit [] = false
isdigit (c ∷ cs) = all_digits (c ∷ cs)

-- `int(text)` of digits
unfoldable pub number : ℕ → List ℕ → ℕ
number n [] = n
number n (c ∷ cs) = number (n * 10 + (c - b'0')) cs

-- `c.isspace()`
unfoldable pub is_space : ℕ → Bool
is_space c =
    (leb 9 c && leb c 13)
    || (leb 28 c && leb c 32)
    || (leb 8192 c && leb c 8202)
    || elem c (133 ∷ 160 ∷ 5760 ∷ 8232 ∷ 8233 ∷ 8239 ∷ 8287 ∷ 12288 ∷ [])

unfoldable pub lstrip : List ℕ → List ℕ
unfolding is_space
lstrip [] = []
lstrip (c ∷ cs) = let rest = lstrip cs in if is_space c then rest else c ∷ cs

unfoldable pub rstrip : List ℕ → List ℕ
unfolding is_space
rstrip [] = []
rstrip (c ∷ cs) = elim (rstrip cs) [ [] ↦ if is_space c then [] else c ∷ [] | x ∷ xs ↦ c ∷ x ∷ xs ]

-- `text.strip()`
unfoldable pub strip : List ℕ → List ℕ
unfolding lstrip rstrip
strip text = lstrip (rstrip text)

-- `text.split(sep, 1)` at one character: the two parts, none where it does not occur
unfoldable pub cut : ℕ → List ℕ → Option (List ℕ × List ℕ)
cut sep [] = none
cut sep (c ∷ cs) =
    let rest : Option (List ℕ × List ℕ) = elim (cut sep cs) [
      | none ↦ none
      | some (a, b) ↦ some (c ∷ a, b)
    ] in
    if c == sep then some ([], cs) else rest

-- `text.lower()` of ASCII
unfoldable pub lower : List ℕ → List ℕ
lower [] = []
lower (c ∷ cs) = (if leb b'A' c && leb c b'Z' then c + 32 else c) ∷ lower cs
