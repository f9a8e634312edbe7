-- ===== src/Prelude/Text.antt =====
-- Python's `str` and `bytes`: sequences of code points, and of bytes.
use Prim.Native.Nat.{ℕ, ◌+◌, ◌-◌, ◌%◌}
use Prim.Native.Char.{code}
use Prim.Native.String.{String}
use mathlib.Core.Bool.{Bool, true, false, ◌&&◌, ◌||◌, not}
use mathlib.Core.List.{List, [], ◌∷◌, map, reverse}
use hermes_fleet.Prelude.Tests.{leb, nat_beq, if◌then◌else◌}

abbrev pub Text : Type 0
Text = List ℕ

-- A literal.
abbrev pub codes : String → Text
codes String.[] = []
codes (String.◌∷◌ c s) = code c ∷ codes s

-- `bool(s)`
abbrev pub is_nonempty : Text → Bool
is_nonempty [] = false
is_nonempty (c ∷ s) = true

-- `s or default`
abbrev pub or_else : Text → Text → Text
or_else [] d = d
or_else (c ∷ s) d = c ∷ s

abbrev pub within : ℕ → ℕ → ℕ → Bool
within low high c = leb low c && leb c high

-- The capitals of ASCII, Latin-1, Greek and Cyrillic that stand 32 before their small letters
abbrev pub is_capital : ℕ → Bool
is_capital c =
    within 65 90 c
    || (within 192 222 c && not (nat_beq c 215))
    || (within 913 939 c && not (nat_beq c 930))
    || within 1040 1071 c

-- The capitals of Latin Extended-A, each before its small letter
abbrev pub is_paired : ℕ → Bool
is_paired c =
    (nat_beq (c % 2) 0 && (within 256 303 c || within 306 311 c || within 330 375 c))
    || (nat_beq (c % 2) 1 && (within 313 328 c || within 377 382 c))

-- `str.lower` on a letter of these scripts. A letter of another one, and what is no one-to-one map of letters
-- (the final sigma, the dotted capital I), stays as it is.
unfoldable pub lower_code : ℕ → ℕ
lower_code c =
    if is_capital c
    then c + 32
    else if is_paired c
    then c + 1
    else if nat_beq c 376
    then 255
    else if within 1024 1039 c
    then c + 80
    else c

-- ASCII letters; the program applies this to HTTP methods and to names of ASCII.
unfoldable pub upper_code : ℕ → ℕ
upper_code c = if leb b'a' c && leb c b'z' then c - 32 else c

unfoldable pub lower : Text → Text
unfolding lower_code
lower = map lower_code

unfoldable pub upper : Text → Text
unfolding upper_code
upper = map upper_code

-- White space, as `str.strip` drops it and `str.isspace` and `\s` find it.
unfoldable pub is_space : ℕ → Bool
is_space c =
    within 9 13 c
    || within 28 32 c
    || nat_beq c 133
    || nat_beq c 160
    || nat_beq c 5760
    || within 8192 8202 c
    || within 8232 8233 c
    || nat_beq c 8239
    || nat_beq c 8287
    || nat_beq c 12288

unfoldable pub lstrip : Text → Text
lstrip [] = []
lstrip (c ∷ s) = if is_space c then lstrip s else c ∷ s

unfoldable pub strip : Text → Text
unfolding lstrip is_space
strip s = reverse (lstrip (reverse (lstrip s)))
