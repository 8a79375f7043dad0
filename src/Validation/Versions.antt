-- ===== src/Validation/Versions.antt =====
-- kestrel_sdk/_validation.py: semantic versions. The pattern's parts are found by splitting: at the
-- first plus, at the first dash before it, and at every dot.
use kestrel_sovereign_sdk.Prelude.{
  ℕ, ◌+◌, ◌-◌, ◌*◌, Bool, true, false, ◌&&◌, ◌||◌, not, Option, none, some, List, [], ◌∷◌, Text,
  Result, ok, err, value_error, if◌then◌else◌, between, leb, length, all, ◌==◌,
}

-- Before and after the first `c`.
unfoldable pub split_first : ℕ → Text → Text × Option Text
split_first c [] = ([], none)
split_first c (x ∷ s) =
    let rest = split_first c s in if x == c then ([], some s) else (x ∷ rest.0, rest.1)

-- `x ∷ …` joined to the first part
unfoldable pub join_first : ℕ → List Text → List Text
join_first x [] = (x ∷ []) ∷ []
join_first x (p ∷ ps) = (x ∷ p) ∷ ps

-- The parts between dots.
unfoldable pub split_dots : Text → List Text
unfolding join_first
split_dots [] = [] ∷ []
split_dots (x ∷ s) = let rest = split_dots s in if x == 0x2E then [] ∷ rest else join_first x rest

unfoldable pub is_digit : ℕ → Bool
is_digit c = between 0x30 0x39 c

-- `[0-9A-Za-z-]`
unfoldable pub is_identifier_char : ℕ → Bool
unfolding is_digit
is_identifier_char c = is_digit c || between 0x41 0x5A c || between 0x61 0x7A c || c == 0x2D

-- `0|[1-9][0-9]*`
unfoldable pub is_number : Text → Bool
unfolding is_digit
is_number [] = false
is_number (c ∷ []) = is_digit c
is_number (c ∷ d ∷ s) = is_digit c && not (c == 0x30) && all is_digit (d ∷ s)

-- `int(digits)`, after the digits so far
unfoldable pub digits_value : ℕ → Text → ℕ
digits_value n [] = n
digits_value n (c ∷ s) = digits_value (10 * n + (c - 0x30)) s

unfoldable pub is_nonempty_part : Text → Bool
is_nonempty_part [] = false
is_nonempty_part (c ∷ s) = true

-- `_SEMVER_IDENTIFIER`
unfoldable pub is_prerelease_part : Text → Bool
unfolding is_nonempty_part is_identifier_char is_number is_digit
is_prerelease_part s =
    is_nonempty_part s && all is_identifier_char s && (is_number s || not (all is_digit s))

-- `[0-9A-Za-z-]+`
unfoldable pub is_build_part : Text → Bool
unfolding is_nonempty_part is_identifier_char
is_build_part s = is_nonempty_part s && all is_identifier_char s

-- The release tuple, and whether the groups of prerelease and build took part.
pub record Match : Type 0 where
  pub major : ℕ
  pub minor : ℕ
  pub patch : ℕ
  pub prerelease : Bool
  pub build : Bool

unfoldable pub match_release : List Text → Bool → Bool → Option Match
unfolding is_number digits_value
match_release (a ∷ b ∷ c ∷ []) pre build =
    if is_number a && is_number b && is_number c
    then some (record {
      major = digits_value 0 a;
      minor = digits_value 0 b;
      patch = digits_value 0 c;
      prerelease = pre;
      build = build;
    })
    else none
match_release _ pre build = none

unfoldable pub match_prerelease : Text × Option Text → Bool → Option Match
unfolding split_dots match_release is_prerelease_part
match_prerelease (release, none) build = match_release (split_dots release) false build
match_prerelease (release, some pre) build =
    if all is_prerelease_part (split_dots pre)
    then match_release (split_dots release) true build
    else none

unfoldable pub match_build : Text × Option Text → Option Match
unfolding split_first match_prerelease split_dots is_build_part
match_build (version, none) = match_prerelease (split_first 0x2D version) false
match_build (version, some build) =
    if all is_build_part (split_dots build)
    then match_prerelease (split_first 0x2D version) true
    else none

-- `_SEMANTIC_VERSION.fullmatch(value)`
unfoldable pub match_version : Text → Option Match
unfolding split_first match_build
match_version s = match_build (split_first 0x2B s)

unfoldable pub accept_match : Text → Bool → Bool → Option Match → Result Text
accept_match s allow_prerelease allow_build none = err (value_error "must be a semantic version")
accept_match s allow_prerelease allow_build (some m) =
    if (not allow_prerelease && m.prerelease) || (not allow_build && m.build)
    then err (value_error "must be a semantic version")
    else ok s

unfoldable pub semantic_version : Text → Bool → Bool → Result Text
unfolding match_version accept_match
semantic_version s allow_prerelease allow_build =
    if leb (length s) 128
    then accept_match s allow_prerelease allow_build (match_version s)
    else err (value_error "must be a semantic version")

unfoldable pub release_of : Option Match → Result (ℕ × ℕ × ℕ)
release_of none = err (value_error "invalid semantic version")
release_of (some m) = ok (m.major, m.minor, m.patch)

unfoldable pub semantic_version_parts : Text → Result (ℕ × ℕ × ℕ)
unfolding match_version release_of
semantic_version_parts s = release_of (match_version s)
