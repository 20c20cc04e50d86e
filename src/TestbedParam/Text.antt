-- ===== src/TestbedParam/Text.antt =====
-- Numbers and quoted texts as src/target/o_pocket/context/logic/objecitve/testbed_param.h writes them.
use Prim.Native.Char.{code}
use Prim.Native.String.{◌++◌, slice, len}
use device_broker.Prelude.{
  ℕ, zero, suc, ◌+◌, ◌-◌, ◌/◌, ◌%◌, String, ℤ, pos, negsuc, ltb, ◌==◌, if◌then◌else◌,
}

abbrev digit : ℕ → String
digit n = slice "0123456789" n (n + 1)

-- The decimal digits of a number that has at most as many as the fuel; an `int` has ten.
digits : ℕ → ℕ → String
digits zero n = ""
digits (suc fuel) n =
    let more = digits fuel (n / 10) in if ltb n 10 then digit n else more ++ digit (n % 10)

unfoldable pub to_string : ℤ → String
unfolding digits
to_string (pos n) = digits 10 n
to_string (negsuc n) = "-" ++ digits 10 (suc n)

-- `PARSE_JSON_VALUE_STR`: a text in quotes loses its first and its last character.
unfoldable pub unquote : String → String
unquote String.[] = String.[]
unquote (String.◌∷◌ c s) =
    if code c == b'"'
    then slice (String.◌∷◌ c s) 1 (1 + (len (String.◌∷◌ c s) - 2))
    else String.◌∷◌ c s
