-- ===== src/Base/Quote.antt =====
-- The `%q` verb of `fmt` on a string: `strconv.Quote`. Bytes of 128 and more are passed on as they
-- are, which is what it does on printable UTF-8.
use Prim.Native.Nat.{ℕ, ◌+◌, ◌/◌, ◌%◌}
use mathlib.Core.Bool.{◌||◌}
use mathlib.Core.List.{[], ◌∷◌, ◌++◌}
use temporal_entity.Base.Tests.{ltb, if◌then◌else◌}
use temporal_entity.Base.Text.{Str, byte_eq}

hex_digit : ℕ → ℕ
hex_digit n = if ltb n 10 then n + 48 else n + 87

escaped : ℕ → Str
escaped c = 92 ∷ c ∷ []

quote_byte : ℕ → Str
unfolding hex_digit escaped
quote_byte c =
    if byte_eq c 34 || byte_eq c 92
    then escaped c
    else if byte_eq c 7
    then escaped 97
    else if byte_eq c 8
    then escaped 98
    else if byte_eq c 12
    then escaped 102
    else if byte_eq c 10
    then escaped 110
    else if byte_eq c 13
    then escaped 114
    else if byte_eq c 9
    then escaped 116
    else if byte_eq c 11
    then escaped 118
    else if ltb c 32 || byte_eq c 127
    then 92 ∷ 120 ∷ hex_digit (c / 16) ∷ hex_digit (c % 16) ∷ []
    else c ∷ []

quote_bytes : Str → Str
unfolding quote_byte
quote_bytes [] = 34 ∷ []
quote_bytes (c ∷ s) = quote_byte c ++ quote_bytes s

unfoldable pub quote : Str → Str
unfolding quote_bytes
quote s = 34 ∷ quote_bytes s
