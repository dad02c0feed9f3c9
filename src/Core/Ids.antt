-- ===== src/Core/Ids.antt =====
-- The identities that the engine derives: `f"{run_id}:<kind>:{sequence:08d}"`.
pub mod Unique
use Prim.Native.String.{◌++◌ as text_append}
use journey_map.Prelude.{ℕ, zero, suc, ◌+◌, ◌-◌, ◌/◌, ◌%◌, String, ◌==ℕ◌, if◌then◌else◌}

infixr 65 ◌<>◌
abbrev pub ◌<>◌ : String → String → String
s <> t = text_append s t

-- The decimal digit of a number below ten.
abbrev digit : ℕ → String
digit n =
    if n ==ℕ 0
    then "0"
    else if n ==ℕ 1
    then "1"
    else if n ==ℕ 2
    then "2"
    else if n ==ℕ 3
    then "3"
    else if n ==ℕ 4
    then "4"
    else if n ==ℕ 5
    then "5"
    else if n ==ℕ 6
    then "6"
    else if n ==ℕ 7
    then "7"
    else if n ==ℕ 8
    then "8"
    else "9"

-- The digits of `n`, at least `width` of them, in front of `rest`; `n` digits of fuel are enough.
pad : ℕ → ℕ → ℕ → String → String
pad zero width n rest = rest
pad (suc fuel) width n rest =
    let more = pad fuel (width - 1) (n / 10) (digit (n % 10) <> rest) in
    if (n + width) ==ℕ 0 then rest else more

-- `f"{n:08d}"`
unfoldable pub format_08d : ℕ → String
unfolding pad
format_08d n = pad (n + 8) 8 n ""

unfoldable pub scoped_id : String → String → ℕ → String
unfolding format_08d
scoped_id run_id kind sequence = run_id <> kind <> format_08d sequence
