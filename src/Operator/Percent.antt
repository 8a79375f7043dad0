-- ===== src/Operator/Percent.antt =====
-- kestrel_sdk/operator/runs.py, `_validate_percent_encoding`: the escapes of a URL's path or query.
use kestrel_sovereign_sdk.Prelude.{
  ℕ, ◌+◌, ◌*◌, ◌-◌, Bool, true, false, ◌&&◌, ◌||◌, not, [], ◌∷◌, Text, String, Check, ok, err,
  value_error, ◌>>◌, raise_if, ◌≡◌, ◌≢◌, ◌≤◌, ◌<◌, ◌⊎◌, ◌↔◌, refl, arith, ltb, between, ◌==◌,
  if◌then◌else◌, Bool-cases, inl, inr, subst, sym, ==_iff,
}

-- A hexadecimal digit and its value.
unfoldable pub is_hex : ℕ → Bool
is_hex c = between b'0' b'9' c || between b'A' b'F' c || between b'a' b'f' c

unfoldable pub hex_value : ℕ → ℕ
hex_value c = if between b'0' b'9' c then c - 48 else if between b'A' b'F' c then c - 55 else c - 87

-- `int(value[index + 1 : index + 3], 16)`
abbrev pub decoded : ℕ → ℕ → ℕ
decoded a b = hex_value a * 16 + hex_value b

-- In a path an escape stands for none of `/`, `\`, `.` and `%`.
unfoldable pub unsafe_escape : Bool → ℕ → Bool
unsafe_escape path d =
    (path && (d == b'/' || d == 92 || d == b'.' || d == b'%')) || ltb d 33 || ltb 126 d

unfoldable pub check_escape : Bool → String → ℕ → ℕ → Check
check_escape path field_name a b = do
  raise_if (not (is_hex a && is_hex b)) (value_error field_name)
  raise_if (unsafe_escape path (decoded a b)) (value_error field_name)

unfoldable pub validate_percent_encoding : Bool → String → Text → Check
validate_percent_encoding path field_name [] = ok tt
validate_percent_encoding path field_name (c ∷ []) = raise_if (c == b'%') (value_error field_name)
validate_percent_encoding path field_name (c ∷ a ∷ []) =
    let next = validate_percent_encoding path field_name (a ∷ []) in
    if c == b'%' then err (value_error field_name) else next
validate_percent_encoding path field_name (c ∷ a ∷ b ∷ s) =
    let escape = check_escape path field_name a b >> validate_percent_encoding path field_name s in
    let next = validate_percent_encoding path field_name (a ∷ b ∷ s) in
    if c == b'%' then escape else next

-- A character as a hexadecimal digit of a value.
abbrev pub HexDigit : ℕ → ℕ → Type 0
HexDigit c n =
    ((c ≡ b'0' + n) × (n < 10))
    ⊎ ((10 ≤ n) × (n < 16) × ((c + 10 ≡ b'A' + n) ⊎ (c + 10 ≡ b'a' + n)))

-- What an escape may stand for: a printable character, and in a path none with a meaning of its own.
pub record IsSafe (path : Bool) (d : ℕ) : Type 0 where
  pub printable : (33 ≤ d) × (d ≤ 126)
  pub no_separator : path ≡ true → (d ≢ b'/') × (d ≢ 92)
  pub no_dot : path ≡ true → d ≢ b'.'
  pub no_escape : path ≡ true → d ≢ b'%'

-- Texts made of characters that are no percent sign and of escapes of safe characters.
pub data Encoded (path : Bool) : Text → Type 0 where
  done : Encoded path []
  plain : (c : ℕ) (s : Text) → c ≢ b'%' → Encoded path s → Encoded path (c ∷ s)
  escape :
      (a b m n : ℕ) (s : Text)
      → HexDigit a m
      → HexDigit b n
      → IsSafe path (m * 16 + n)
      → Encoded path s
      → Encoded path (b'%' ∷ a ∷ b ∷ s)

hex_of : (c n : ℕ) → HexDigit c n → (is_hex c ≡ true) × (hex_value c ≡ n)
unfolding is_hex hex_value
hex_of c n h = (ground (arith, h), ground (arith, h))

digit_of : (c : ℕ) → is_hex c ≡ true → HexDigit c (hex_value c)
unfolding is_hex hex_value
digit_of c h = ground (arith, h)

unsafe_escape_iff : (path : Bool) (d : ℕ) → (unsafe_escape path d ≡ false) ↔ IsSafe path d
unfolding unsafe_escape
unsafe_escape_iff path d = (
  λ h. record {
    printable = (ground (arith, h), ground (arith, h));
    no_separator = λ p. (ground (arith, h), ground (arith, h));
    no_dot = λ p. ground (arith, h);
    no_escape = λ p. ground (arith, h);
  },
  λ safe. ground (arith, safe.printable, safe.no_separator, safe.no_dot, safe.no_escape),
)

module _ (path : Bool) (field_name : String) where
  Encoded-accepted :
      {s : Text} → Encoded path s → validate_percent_encoding path field_name s ≡ ok tt
  unfolding validate_percent_encoding check_escape
  Encoded-accepted done = refl
  Encoded-accepted (plain c s h e) = accepted s (ground (arith, h)) (Encoded-accepted e)
    where
      accepted :
          (s : Text)
          → (c == b'%') ≡ false
          → validate_percent_encoding path field_name s ≡ ok tt
          → validate_percent_encoding path field_name (c ∷ s) ≡ ok tt
      accepted [] h k = rw h
      accepted (a ∷ []) h k = rw h k
      accepted (a ∷ b ∷ s) h k = rw h k
  Encoded-accepted (escape a b m n s first second safe e) =
      let (hex_a, value_a) = hex_of a m first in
      let (hex_b, value_b) = hex_of b n second in
      rw (hex_a, hex_b, value_a, value_b, (unsafe_escape_iff path (m * 16 + n)).1 safe)
        (Encoded-accepted e)

  accepted-Encoded :
      (s : Text) → validate_percent_encoding path field_name s ≡ ok tt → Encoded path s
  unfolding validate_percent_encoding check_escape
  accepted-Encoded [] h = done
  accepted-Encoded (c ∷ []) h = plain c [] (ground arith) done
  accepted-Encoded (c ∷ a ∷ []) h = elim (Bool-cases (c == b'%')) [
    | inl is ↦ cc (rw is at h)
    | inr is_not ↦
        plain c (a ∷ []) (ground (arith, is_not)) (accepted-Encoded (a ∷ []) (rw is_not at h))
  ]
  accepted-Encoded (c ∷ a ∷ b ∷ s) h = elim (Bool-cases (c == b'%')) [
    | inl is ↦
        let k = (rw is at h) in
        let (hex_a, hex_b, safe, rest) = parts (validate_percent_encoding path field_name s) k in
        subst (λ x. Encoded path (x ∷ a ∷ b ∷ s)) (sym ((==_iff c b'%').0 is))
          (escape a b (hex_value a) (hex_value b) s (digit_of a hex_a) (digit_of b hex_b)
            ((unsafe_escape_iff path (decoded a b)).0 safe) (accepted-Encoded s rest))
    | inr is_not ↦
        plain c (a ∷ b ∷ s) (ground (arith, is_not)) (accepted-Encoded (a ∷ b ∷ s) (rw is_not at h))
  ]
    where
      parts :
          (rest : Check)
          → (check_escape path field_name a b >> rest) ≡ ok tt
          → (is_hex a ≡ true)
            × (is_hex b ≡ true)
            × (unsafe_escape path (decoded a b) ≡ false)
            × (rest ≡ ok tt)
      parts rest k = (ground arith, ground arith, ground arith, ground arith)

-- The scan accepts exactly the texts made of characters other than `%` and of escapes, `%` with two
-- hexadecimal digits, of characters from 33 to 126, in a path none of `/`, backslash, `.` and `%`.
pub validate_percent_encoding_iff :
    (path : Bool) (field_name : String) (s : Text)
    → (validate_percent_encoding path field_name s ≡ ok tt) ↔ Encoded path s
validate_percent_encoding_iff path field_name s =
    (accepted-Encoded path field_name s, λ e. Encoded-accepted path field_name e)
