-- ===== src/ComposeUpdater/Output.antt =====
-- The output of the command in an error: `truncateComposeOutput`. Go measures and cuts strings in
-- bytes. A text here holds code points, and 0x110000 + b for a byte b that belongs to none.
use updater.Common.{
  ℕ, ◌+◌, ◌-◌, List, [], ◌∷◌, ◌++◌, map, ltb, leb, if◌then◌else◌, length, take, Text, codes,
  trim_space,
}
use Prim.Native.Nat.{◌/◌, ◌%◌}

abbrev pub raw_byte : ℕ → ℕ
raw_byte b = 0x110000 + b

abbrev continuation : ℕ → ℕ
continuation n = 0x80 + n % 0x40

-- The bytes of one code point in UTF-8.
unfoldable pub utf8 : ℕ → List ℕ
utf8 c =
    if ltb c 0x80
    then c ∷ []
    else if ltb c 0x800
    then (0xc0 + c / 0x40) ∷ continuation c ∷ []
    else if ltb c 0x10000
    then (0xe0 + c / 0x1000) ∷ continuation (c / 0x40) ∷ continuation c ∷ []
    else if ltb c 0x110000
    then (0xf0 + c / 0x40000)
      ∷ continuation (c / 0x1000)
      ∷ continuation (c / 0x40)
      ∷ continuation c
      ∷ []
    else (c - 0x110000) ∷ []

unfoldable pub bytes : Text → List ℕ
unfolding utf8
bytes [] = []
bytes (c ∷ s) = utf8 c ++ bytes s

-- `s[:n]`, where a code point may be cut in two.
unfoldable pub take_bytes : ℕ → Text → Text
unfolding utf8
take_bytes n [] = []
take_bytes n (c ∷ s) =
    let rest = take_bytes (n - length (utf8 c)) s in
    if leb (length (utf8 c)) n then c ∷ rest else map raw_byte (take n (utf8 c))

abbrev pub max_compose_error_output : ℕ
max_compose_error_output = 4096

-- `truncateComposeOutput` at a limit.
unfoldable pub truncate_at : ℕ → Text → Text
unfolding bytes take_bytes
truncate_at limit output =
    let trimmed = trim_space output in
    if leb (length (bytes trimmed)) limit
    then trimmed
    else take_bytes limit trimmed ++ codes " (truncated)"

unfoldable pub truncate_compose_output : Text → Text
unfolding truncate_at
truncate_compose_output output = truncate_at max_compose_error_output output
