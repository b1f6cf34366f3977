-- ===== src/Blocker/Local/Utf16/RoundTrip.antt =====
-- The texts that src/blocker/local.rs writes as UTF-16 are the ones it reads.
use wardoff.Prelude.{
  ℕ, zero, suc, ◌+◌, ◌-◌, ◌*◌, ◌/◌, ◌%◌, ◌==◌, if◌then◌else◌, ltb, leb, Bool, true, false, ◌&&◌,
  ◌||◌, some, List, [], ◌∷◌, ◌++◌, length, take, ◌≡◌, ◌<◌, ◌≤◌, ◌⊎◌, inl, inr, refl, arith, ap, ◌∙◌,
  append_assoc,
}
use wardoff.Blocker.Local.Utf16.{
  encode_scalar, encode_utf16, session_name_to_wide, from_utf16, units, until_nul, even_part,
  text_of_units, read_unicode, push, is_high_surrogate, is_low_surrogate,
}

-- A character that a Windows text can hold: no surrogate, and not the NUL that ends it.
abbrev pub is_character : ℕ → Bool
is_character c = ltb 0 c && (ltb c 55296 || (leb 57344 c && ltb c 1114112))

abbrev pub are_characters : List ℕ → Bool
are_characters [] = true
are_characters (c ∷ cs) = is_character c && are_characters cs

-- The memory of a text: low byte first.
abbrev pub to_bytes : List ℕ → List ℕ
to_bytes [] = []
to_bytes (u ∷ us) = u % 256 ∷ u / 256 ∷ to_bytes us

lt_or_ge : (a b : ℕ) → (a < b) ⊎ (b ≤ a)
lt_or_ge a b = ground arith

units-append : (us rest : List ℕ) → units (to_bytes us ++ rest) ≡ us ++ units rest
unfolding units
units-append [] rest = refl
units-append (u ∷ us) rest = ground (arith, units-append us rest)

-- A last byte without a partner is in no unit.
units-odd :
    (n : ℕ) (bytes : List ℕ)
    → length bytes ≡ suc n
    → length bytes % 2 ≡ 1
    → units (take n bytes) ≡ units bytes
unfolding units
units-odd n [] p h = ground (arith, p)
units-odd zero (a ∷ []) p h = refl
units-odd (suc n) (a ∷ []) p h = ground (arith, p)
units-odd n (a ∷ b ∷ []) p h = ground (arith, h)
units-odd zero (a ∷ b ∷ c ∷ rest) p h = ground (arith, p)
units-odd (suc zero) (a ∷ b ∷ c ∷ rest) p h = ground (arith, p)
units-odd (suc (suc n)) (a ∷ b ∷ c ∷ rest) p h =
    ap (λ us. (a + 256 * b) ∷ us) (units-odd n (c ∷ rest) (omega (arith, p)) (omega (arith, h)))

units-chosen :
    (even : Bool) (bytes shorter : List ℕ)
    → (even ≡ true) ⊎ (units shorter ≡ units bytes)
    → units (if even then bytes else shorter) ≡ units bytes
units-chosen true bytes shorter h = refl
units-chosen false bytes shorter (inr h) = h
units-chosen false bytes shorter (inl h) = ground (arith, h)

even_or_odd : (n : ℕ) → ((n % 2 == 0) ≡ true) ⊎ (n % 2 ≡ 1)
even_or_odd n = ground arith

units-even_part : (bytes : List ℕ) → units (even_part bytes) ≡ units bytes
unfolding even_part units
units-even_part [] = refl
units-even_part (b ∷ bytes) =
    let whole = b ∷ bytes in
    let n = length whole - 1 in
    units-chosen (length whole % 2 == 0) whole (take n whole) (elim (even_or_odd (length whole)) [
      | inl even ↦ inl even
      | inr odd ↦ inr (units-odd n whole (omega arith) odd)
    ])

until_nul-encode_utf16 :
    (text rest : List ℕ)
    → are_characters text ≡ true
    → until_nul (encode_utf16 text ++ 0 ∷ rest) ≡ encode_utf16 text
unfolding until_nul encode_utf16 encode_scalar
until_nul-encode_utf16 [] rest h = refl
until_nul-encode_utf16 (c ∷ cs) rest h = ground (arith, h, until_nul-encode_utf16 cs rest)

from_utf16-unit :
    (u : ℕ) (us : List ℕ)
    → (ltb u 55296 || leb 57344 u) ≡ true
    → from_utf16 (u ∷ us) ≡ push u (from_utf16 us)
unfolding from_utf16
from_utf16-unit u [] h = ground (arith, h)
from_utf16-unit u (v ∷ us) h = ground (arith, h)

from_utf16-pair :
    (u v : ℕ) (us : List ℕ)
    → is_high_surrogate u ≡ true
    → is_low_surrogate v ≡ true
    → from_utf16 (u ∷ v ∷ us) ≡ push (65536 + (u - 55296) * 1024 + (v - 56320)) (from_utf16 us)
unfolding from_utf16
from_utf16-pair u v us hu hv = rw hu (rw hv refl)

high_surrogate : (d : ℕ) → d < 1048576 → is_high_surrogate (55296 + d / 1024) ≡ true
high_surrogate d l = ground (arith, l)

low_surrogate : (d : ℕ) → is_low_surrogate (56320 + d % 1024) ≡ true
low_surrogate d = ground arith

pair_value :
    (c : ℕ)
    → 65536 ≤ c
    → 65536 + (55296 + (c - 65536) / 1024 - 55296) * 1024 + (56320 + (c - 65536) % 1024 - 56320) ≡ c
pair_value c l = omega (arith, l)

from_utf16-encode_scalar :
    (c : ℕ) (us : List ℕ)
    → is_character c ≡ true
    → from_utf16 (encode_scalar c ++ us) ≡ push c (from_utf16 us)
unfolding encode_scalar
from_utf16-encode_scalar c us h = elim (lt_or_ge c 65536) [
  | inl small ↦ ground (arith, h, small, from_utf16-unit c us)
  | inr big ↦
      let d = c - 65536 in
      ground (
        arith,
        big,
        from_utf16-pair (55296 + d / 1024) (56320 + d % 1024) us
              (high_surrogate d (ground (arith, h))) (low_surrogate d)
            ∙ ap (λ n. push n (from_utf16 us)) (pair_value c big),
      )
]

from_utf16-encode_utf16 :
    (text : List ℕ) → are_characters text ≡ true → from_utf16 (encode_utf16 text) ≡ some text
unfolding encode_utf16 from_utf16
from_utf16-encode_utf16 [] h = refl
from_utf16-encode_utf16 (c ∷ cs) h =
    ground (arith, h, from_utf16-encode_scalar c (encode_utf16 cs), from_utf16-encode_utf16 cs)

text_of_units-encode_utf16 :
    (c : ℕ) (cs : List ℕ)
    → text_of_units (encode_utf16 (c ∷ cs)) ≡ from_utf16 (encode_utf16 (c ∷ cs))
unfolding text_of_units encode_utf16 encode_scalar
text_of_units-encode_utf16 c cs = ground arith

read_unicode-long :
    (bytes : List ℕ)
    → 2 ≤ length bytes
    → read_unicode bytes ≡ text_of_units (until_nul (units (even_part bytes)))
unfolding read_unicode
read_unicode-long bytes l = ground (arith, l)

long_enough : (xs rest : List ℕ) → 2 ≤ length (to_bytes (xs ++ 0 ∷ []) ++ rest)
long_enough [] rest = omega arith
long_enough (x ∷ xs) rest = omega arith

-- A text that is not empty, written as the program writes a wide text, is read back from its bytes in
-- memory, whatever characters outside the basic plane it has, and whatever bytes follow it in the
-- buffer, an odd one at the end included.
pub unicode_round_trip :
    (c : ℕ) (cs rest : List ℕ)
    → are_characters (c ∷ cs) ≡ true
    → read_unicode (to_bytes (session_name_to_wide (c ∷ cs)) ++ rest) ≡ some (c ∷ cs)
unfolding session_name_to_wide
unicode_round_trip c cs rest h =
    let us = encode_utf16 (c ∷ cs) in
    let bytes = to_bytes (us ++ 0 ∷ []) ++ rest in
    let whole : until_nul ((us ++ 0 ∷ []) ++ units rest) ≡ us =
      ap until_nul (append_assoc us (0 ∷ []) (units rest))
      ∙ until_nul-encode_utf16 (c ∷ cs) (units rest) h in
    read_unicode-long bytes (long_enough us rest)
    ∙ ap (λ vs. text_of_units (until_nul vs)) (units-even_part bytes)
    ∙ ap (λ vs. text_of_units (until_nul vs)) (units-append (us ++ 0 ∷ []) rest)
    ∙ ap text_of_units whole
    ∙ text_of_units-encode_utf16 c cs
    ∙ from_utf16-encode_utf16 (c ∷ cs) h
