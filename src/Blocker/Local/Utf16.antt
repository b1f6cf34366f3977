-- ===== src/Blocker/Local/Utf16.antt =====
-- The texts of trace events in src/blocker/local.rs: UTF-16 with its bytes as Windows lays them out,
-- low byte first. A text is the list of its scalar values, and a code unit or a byte a number.
pub mod RoundTrip
use wardoff.Prelude.{
  ℕ, ◌+◌, ◌-◌, ◌*◌, ◌/◌, ◌%◌, ltb, leb, ◌==◌, Bool, true, false, ◌&&◌, ◌||◌, Option, none, some,
  option_map, List, [], ◌∷◌, ◌++◌, length, take, if◌then◌else◌,
}

abbrev pub is_high_surrogate : ℕ → Bool
is_high_surrogate u = leb 55296 u && ltb u 56320

abbrev pub is_low_surrogate : ℕ → Bool
is_low_surrogate u = leb 56320 u && ltb u 57344

unfoldable pub encode_scalar : ℕ → List ℕ
encode_scalar c =
    if ltb c 65536 then c ∷ [] else (55296 + (c - 65536) / 1024) ∷ (56320 + (c - 65536) % 1024) ∷ []

-- `str::encode_utf16`.
unfoldable pub encode_utf16 : List ℕ → List ℕ
unfolding encode_scalar
encode_utf16 [] = []
encode_utf16 (c ∷ cs) = encode_scalar c ++ encode_utf16 cs

unfoldable pub session_name_to_wide : List ℕ → List ℕ
unfolding encode_utf16
session_name_to_wide value = encode_utf16 value ++ 0 ∷ []

abbrev pub push : ℕ → Option (List ℕ) → Option (List ℕ)
push c text = option_map (λ cs. c ∷ cs) text

-- `String::from_utf16`: an unpaired surrogate is an error.
unfoldable pub from_utf16 : List ℕ → Option (List ℕ)
from_utf16 [] = some []
from_utf16 (u ∷ []) = if is_high_surrogate u || is_low_surrogate u then none else some (u ∷ [])
from_utf16 (u ∷ v ∷ rest) =
    let after_pair = from_utf16 rest in
    let after_unit = from_utf16 (v ∷ rest) in
    if is_high_surrogate u
    then if is_low_surrogate v
      then push (65536 + (u - 55296) * 1024 + (v - 56320)) after_pair
      else none
    else if is_low_surrogate u
    then none
    else push u after_unit

-- `as_chunks::<2>` and `u16::from_ne_bytes`.
unfoldable pub units : List ℕ → List ℕ
units [] = []
units (a ∷ []) = []
units (a ∷ b ∷ rest) = (a + 256 * b) ∷ units rest

-- `take_while(|value| *value != 0)`.
unfoldable pub until_nul : List ℕ → List ℕ
until_nul [] = []
until_nul (u ∷ us) = let rest = until_nul us in if u == 0 then [] else u ∷ rest

unfoldable pub even_part : List ℕ → List ℕ
even_part bytes = if length bytes % 2 == 0 then bytes else take (length bytes - 1) bytes

unfoldable pub text_of_units : List ℕ → Option (List ℕ)
unfolding from_utf16
text_of_units [] = none
text_of_units (u ∷ us) = from_utf16 (u ∷ us)

-- `read_unicode_property`, from the bytes of the property on.
unfoldable pub read_unicode : List ℕ → Option (List ℕ)
unfolding even_part units until_nul text_of_units
read_unicode bytes =
    if ltb (length bytes) 2 then none else text_of_units (until_nul (units (even_part bytes)))

-- `read_u32_property`, from the bytes of the property on.
unfoldable pub read_u32 : List ℕ → Option ℕ
read_u32 (a ∷ b ∷ c ∷ d ∷ rest) = some (a + 256 * b + 65536 * c + 16777216 * d)
read_u32 _ = none
