-- ===== src/Prelude/Strtoul.antt =====
-- `strtoul(s, &end, 0)` of the C library, on an `unsigned long` of 32 bits.
use Prim.Native.Nat.{ℕ, ◌+◌, ◌-◌, ◌*◌, ◌%◌}
use mathlib.Core.Bool.{Bool, true, false, ◌&&◌, ◌||◌}
use mathlib.Core.Option.{Option, none, some}
use mathlib.Core.List.{List, [], ◌∷◌}
use dockpulse_iot.Prelude.Tests.{ltb, leb, ◌==◌, if◌then◌else◌}

-- `ULONG_MAX`
abbrev pub ulong_max : ℕ
ulong_max = 4294967295

-- `isspace`
abbrev pub is_space : ℕ → Bool
is_space c = c == 32 || leb 9 c && leb c 13

-- The value of a digit or a letter; 36 for any other character.
abbrev pub digit_value : ℕ → ℕ
digit_value c =
    if leb b'0' c && leb c b'9'
    then c - b'0'
    else (if leb b'a' c && leb c b'z'
        then c - b'a' + 10
        else (if leb b'A' c && leb c b'Z' then c - b'A' + 10 else 36))

abbrev pub or_zero : Option ℕ → ℕ
or_zero none = 0
or_zero (some n) = n

-- The digits of a base; none if there is none.
unfoldable pub read_digits : ℕ → Option ℕ → List ℕ → Option ℕ
read_digits base acc [] = acc
read_digits base acc (c ∷ cs) =
    let next = read_digits base (some (or_zero acc * base + digit_value c)) cs in
    if ltb (digit_value c) base then next else acc

-- What follows the sign: 0x and 0 choose the base. A bare 0x is the number 0.
unfoldable pub read_unsigned : List ℕ → Option ℕ
read_unsigned [] = none
read_unsigned (c ∷ []) = read_digits 10 none (c ∷ [])
read_unsigned (c ∷ d ∷ cs) =
    let hex : Option ℕ = some (or_zero (read_digits 16 none cs)) in
    if c == b'0'
    then (if d == b'x' || d == b'X' then hex else read_digits 8 none (c ∷ d ∷ cs))
    else read_digits 10 none (c ∷ d ∷ cs)

-- A number that does not fit gives the greatest one; a minus sign negates modulo 2 ^ 32.
abbrev pub signed_value : Bool → Option ℕ → Option ℕ
signed_value neg none = none
signed_value neg (some v) =
    some (if ltb ulong_max v then ulong_max else (if neg then (4294967296 - v) % 4294967296 else v))

-- The result, none if there is no number (`end == s`).
unfoldable pub strtoul : List ℕ → Option ℕ
strtoul [] = none
strtoul (c ∷ cs) =
    let next = strtoul cs in
    if is_space c
    then next
    else (if c == b'-'
        then signed_value true (read_unsigned cs)
        else (if c == b'+'
            then signed_value false (read_unsigned cs)
            else signed_value false (read_unsigned (c ∷ cs))))
