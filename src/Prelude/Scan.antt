-- ===== src/Prelude/Scan.antt =====
-- Readers of Rust's standard library over the characters of a text: `str::parse`, `trim` and `split`.
use Prim.Native.Nat.{ℕ, zero, suc, ◌+◌, ◌-◌, ◌*◌, ◌^◌}
use mathlib.Core.Bool.{Bool, ◌&&◌, ◌||◌}
use mathlib.Core.Option.{Option, none, some}
use mathlib.Core.List.{List, [], ◌∷◌}
use saimiris_gateway.Prelude.Tests.{ltb, leb, ◌==◌, if◌then◌else◌}
use saimiris_gateway.Prelude.Lists.{any}
use saimiris_gateway.Prelude.Text.{trim_matches}
use saimiris_gateway.Prelude.Int.{ℤ, pos, negsuc}

-- `str::parse::<i64>`: an optional sign, and digits whose value fits.
unfoldable pub digits : ℕ → List ℕ → Option ℕ
digits acc [] = some acc
digits acc (c ∷ cs) =
    let rest = digits (acc * 10 + (c - b'0')) cs in if leb b'0' c && leb c b'9' then rest else none

abbrev pub unsigned : List ℕ → Option ℕ
unsigned [] = none
unsigned (c ∷ cs) = digits 0 (c ∷ cs)

abbrev pub positive : Option ℕ → Option ℤ
positive none = none
positive (some n) = if ltb n (2 ^ 63) then some (pos n) else none

abbrev pub negative : Option ℕ → Option ℤ
negative none = none
negative (some zero) = some (pos zero)
negative (some (suc n)) = if ltb n (2 ^ 63) then some (negsuc n) else none

unfoldable pub parse_i64 : List ℕ → Option ℤ
parse_i64 [] = none
parse_i64 (c ∷ cs) =
    if c == b'-'
    then negative (unsigned cs)
    else if c == b'+'
    then positive (unsigned cs)
    else positive (unsigned (c ∷ cs))

-- `char::is_whitespace`
abbrev pub is_whitespace : ℕ → Bool
is_whitespace c =
    (leb 9 c && leb c 13)
    || (leb 0x2000 c && leb c 0x200a)
    || any (λ w. w == c)
        (32 ∷ 0x85 ∷ 0xa0 ∷ 0x1680 ∷ 0x2028 ∷ 0x2029 ∷ 0x202f ∷ 0x205f ∷ 0x3000 ∷ [])

abbrev pub trim : List ℕ → List ℕ
trim s = trim_matches is_whitespace s

abbrev pub push : ℕ → List (List ℕ) → List (List ℕ)
push c [] = (c ∷ []) ∷ []
push c (part ∷ parts) = (c ∷ part) ∷ parts

-- `split(',')`
abbrev pub split_commas : List ℕ → List (List ℕ)
split_commas [] = [] ∷ []
split_commas (c ∷ cs) =
    let parts = split_commas cs in if c == b',' then [] ∷ parts else push c parts
