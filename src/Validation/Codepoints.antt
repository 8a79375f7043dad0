-- ===== src/Validation/Codepoints.antt =====
-- kestrel_sdk/_validation.py: code points that are unsafe at a browser boundary.
use kestrel_sovereign_sdk.Prelude.{
  ℕ, zero, suc, ◌%◌, ◌≤◌, ◌<◌, Bool, true, false, ◌&&◌, ◌||◌, List, [], ◌∷◌, ◌≡◌, refl, arith, ltb,
  ◌==◌, between, if◌then◌else◌, any,
}

-- `range(0x2000, 0x200B)` is the interval from 0x2000 to 0x200A.
non_ascii_whitespace : ℕ → Bool
non_ascii_whitespace c =
    c == 0x0085
    || c == 0x00A0
    || c == 0x1680
    || between 0x2000 0x200A c
    || c == 0x2028
    || c == 0x2029
    || c == 0x202F
    || c == 0x205F
    || c == 0x3000

-- ZWNJ and ZWJ
allowed_format_character : ℕ → Bool
allowed_format_character c = c == 0x200C || c == 0x200D

abbrev unsafe_format_ranges : List (ℕ × ℕ)
unsafe_format_ranges =
    (0x00AD, 0x00AD)
    ∷ (0x0600, 0x0605)
    ∷ (0x061C, 0x061C)
    ∷ (0x06DD, 0x06DD)
    ∷ (0x070F, 0x070F)
    ∷ (0x0890, 0x0891)
    ∷ (0x08E2, 0x08E2)
    ∷ (0x180E, 0x180E)
    ∷ (0x200B, 0x200F)
    ∷ (0x202A, 0x202E)
    ∷ (0x2060, 0x2064)
    ∷ (0x2066, 0x206F)
    ∷ (0xFEFF, 0xFEFF)
    ∷ (0xFFF9, 0xFFFB)
    ∷ (0x110BD, 0x110BD)
    ∷ (0x110CD, 0x110CD)
    ∷ (0x13430, 0x1343F)
    ∷ (0x1BCA0, 0x1BCA3)
    ∷ (0x1D173, 0x1D17A)
    ∷ (0xE0001, 0xE0001)
    ∷ (0xE0020, 0xE007F)
    ∷ []

in_range : ℕ → ℕ × ℕ → Bool
in_range c (lo, hi) = between lo hi c

-- The controls, white space, surrogates, private use areas and noncharacters.
unsafe_block : ℕ → Bool
unsafe_block c =
    ltb c 0x20
    || between 0x7F 0x9F c
    || non_ascii_whitespace c
    || between 0xD800 0xDFFF c
    || between 0xE000 0xF8FF c
    || between 0xF0000 0xFFFFD c
    || between 0x100000 0x10FFFD c
    || between 0xFDD0 0xFDEF c
    || c % 65536 == 0xFFFE
    || c % 65536 == 0xFFFF

unfoldable pub unsafe_browser_codepoint : ℕ → Bool
unfolding non_ascii_whitespace allowed_format_character in_range unsafe_block
unsafe_browser_codepoint c =
    if allowed_format_character c
    then false
    else if unsafe_block c
    then true
    else any (in_range c) unsafe_format_ranges

abbrev printable_is_safe : ℕ → Bool
printable_is_safe c =
    if between 0x20 0x7E c then (if unsafe_browser_codepoint c then false else true) else true

-- All code points under a bound, by evaluation.
safe_under : ℕ → Bool
safe_under zero = true
safe_under (suc bound) = printable_is_safe bound && safe_under bound

safe_under-printable_is_safe :
    (bound c : ℕ) → c < bound → safe_under bound ≡ true → printable_is_safe c ≡ true
unfolding safe_under
safe_under-printable_is_safe zero c below safe = absurd (omega (arith, below))
safe_under-printable_is_safe (suc bound) c below safe =
    ground (arith, safe_under-printable_is_safe bound c)

ascii_table : safe_under 127 ≡ true
unfolding safe_under unsafe_browser_codepoint
ascii_table = refl

-- A printable ASCII character is safe.
pub printable-safe : (c : ℕ) → 32 ≤ c → c ≤ 126 → unsafe_browser_codepoint c ≡ false
printable-safe c lo hi =
    ground (arith, safe_under-printable_is_safe 127 c (omega arith) ascii_table)
