-- ===== src/Operator/Hrefs/Signed.antt =====
-- kestrel_sdk/operator/runs.py, `_authorized_artifact_href`: what an accepted absolute link is.
use kestrel_sovereign_sdk.Prelude.{
  ℕ, zero, suc, ◌≤◌, ◌<◌, Bool, true, false, ◌||◌, Option, none, some, [], ◌∷◌, Text, codes, ok,
  raise_if, ◌≡◌, ◌≢◌, inl, inr, refl, sym, arith, ltb, All, text_eq, text_eq_iff, Bool-cases,
  >>=-eq-ok, raise_if_iff, subst, ap,
}
use kestrel_sovereign_sdk.Operator.Percent.{
  validate_percent_encoding, Encoded, validate_percent_encoding_iff,
}
use kestrel_sovereign_sdk.Operator.Hrefs.{
  UrlParts, UrlFunctions, canonical_group, starts_with_slash, has, split, unsafe_url_character,
  decode_path, bad_hostname, bad_port, bad_parts, unsafe_path, check_absolute, check_relative,
  authorized_artifact_href,
}
use kestrel_sovereign_sdk.Operator.Hrefs.Accepted.{
  href-checked, absolute_checked, canonical_group-some,
}
use kestrel_sovereign_sdk.Operator.Hrefs.Hosts.{All-of_any, without, IsHost, safe_hostname-IsHost}

module _ (py : UrlFunctions) where
  open py use {urlsplit, unquote, lower, is_alnum_character, is_ipv6_address}

  -- The decoding of a text, some times in a row.
  pub unquoted : ℕ → Text → Text
  unquoted zero s = s
  unquoted (suc n) s = unquoted n (unquote s)

  -- The fixed point of the decodings has no `.` or `..` segment and only printable characters
  -- other than the backslash.
  pub record IsSafePath (decoded : Text) : Type 0 where
    pub fixed : unquote decoded ≡ decoded
    pub segments : All (λ s. (s ≢ codes ".") × (s ≢ codes "..")) (split b'/' decoded)
    pub characters : All (λ c. (c ≢ 92) × (33 ≤ c) × (c ≤ 126)) decoded

  pub record SignedUrl (p : UrlParts) : Type 0 where
    pub https : lower p.scheme ≡ codes "https"
    pub host : (h : Text) × (p.hostname ≡ some h) × IsHost py h
    pub username : p.username ≡ none
    pub password : p.password ≡ none
    pub fragment : p.fragment ≡ []
    pub port : (n : ℕ) → p.port ≡ some n → (1 ≤ n) × (n ≤ 65535)
    pub rooted : (rest : Text) × (p.path ≡ b'/' ∷ rest)
    pub signed : p.query ≢ []
    pub path_encoded : Encoded true p.path
    pub query_encoded : Encoded false p.query
    pub decoded : (rounds : ℕ) × (rounds ≤ 3) × IsSafePath (unquoted rounds p.path)

  decode_path-unquoted :
      (rounds : ℕ) (path : Text) {d : Text}
      → decode_path py rounds path ≡ ok d
      → (n : ℕ) × (n < rounds) × (unquoted n path ≡ d) × (unquote d ≡ d)
  unfolding decode_path unquoted
  decode_path-unquoted zero path h = cc
  decode_path-unquoted (suc rounds) path {d} h = elim (Bool-cases (text_eq (unquote path) path)) [
    | inl fixed ↦
        let found : path ≡ d = cc (rw fixed at h) in
        (
          0,
          omega arith,
          found,
          subst (λ x. unquote x ≡ x) found ((text_eq_iff (unquote path) path).0 fixed),
        )
    | inr other ↦
        let (n, less, reached, fixed) =
          decode_path-unquoted rounds (unquote path) {d = d} (rw other at h) in
        (suc n, omega (arith, less), reached, fixed)
  ]

  unsafe_path-IsSafePath : (d : Text) → unquote d ≡ d → unsafe_path py d ≡ false → IsSafePath d
  unfolding unsafe_path unsafe_url_character
  unsafe_path-IsSafePath d fixed safe = record {
    fixed = fixed;
    segments =
        All-of_any (λ s. text_eq s (codes ".") || text_eq s (codes "..")) _ (split b'/' d)
          (λ s k. (
            ground (arith, k, text_eq_iff s (codes ".")),
            ground (arith, k, text_eq_iff s (codes "..")),
          ))
          (middle (has 92 d) _ _ safe);
    characters = both d (without py 92 d (first (has 92 d) _ _ safe)) (
        All-of_any (λ c. ltb c 33 || ltb 126 c) (λ c. (33 ≤ c) × (c ≤ 126)) d
          (λ c k. (ground (arith, k), ground (arith, k))) (third (has 92 d) _ _ safe));
  }
    where
      first : (a b c : Bool) → (a || b || c) ≡ false → a ≡ false
      first a b c k = ground (arith, k)

      middle : (a b c : Bool) → (a || b || c) ≡ false → b ≡ false
      middle a b c k = ground (arith, k)

      third : (a b c : Bool) → (a || b || c) ≡ false → c ≡ false
      third a b c k = ground (arith, k)

      both :
          (s : Text)
          → All (λ c. c ≢ 92) s
          → All (λ c. (33 ≤ c) × (c ≤ 126)) s
          → All (λ c. (c ≢ 92) × (33 ≤ c) × (c ≤ 126)) s
      both [] p q = tt
      both (c ∷ s) p q = ((p.0, q.0.0, q.0.1), both s p.1 q.1)

  bad_hostname-IsHost :
      (o : Option Text) → bad_hostname py o ≡ false → (h : Text) × (o ≡ some h) × IsHost py h
  bad_hostname-IsHost none good = cc
  bad_hostname-IsHost (some h) good = (h, refl, safe_hostname-IsHost py h (ground (arith, good)))

  in_range : (o : Option ℕ) → bad_port py o ≡ false → (n : ℕ) → o ≡ some n → (1 ≤ n) × (n ≤ 65535)
  in_range none good n e = cc
  in_range (some m) good n e = (ground (arith, good, e), ground (arith, good, e))

  rooted_at : (s : Text) → starts_with_slash s ≡ true → (rest : Text) × (s ≡ b'/' ∷ rest)
  rooted_at [] h = cc
  rooted_at (c ∷ s) h = (s, ap (λ x. x ∷ s) (ground (arith, h)))

  parts-SignedUrl :
      (p : UrlParts) (d : Text)
      → bad_parts py p ≡ false
      → Encoded true p.path
      → Encoded false p.query
      → decode_path py 4 p.path ≡ ok d
      → unsafe_path py d ≡ false
      → SignedUrl p
  unfolding bad_parts
  parts-SignedUrl p d good path query walked safe =
      let (n, less, reached, fixed) = decode_path-unquoted 4 p.path walked in
      record {
        https = ground (arith, text_eq_iff (lower p.scheme) (codes "https"));
        host = bad_hostname-IsHost p.hostname (ground (arith, good));
        username = ground arith;
        password = ground arith;
        fragment = ground arith;
        port = in_range p.port (ground (arith, good));
        rooted = rooted_at p.path (ground (arith, good));
        signed = ground arith;
        path_encoded = path;
        query_encoded = query;
        decoded = (
          n,
          omega (arith, less),
          subst IsSafePath (sym reached) (unsafe_path-IsSafePath d fixed safe),
        );
      }

  check_absolute-SignedUrl :
      (o : Option UrlParts)
      → check_absolute py o ≡ ok tt
      → (p : UrlParts) × (o ≡ some p) × SignedUrl p
  unfolding check_absolute
  check_absolute-SignedUrl none h = cc
  check_absolute-SignedUrl (some p) h =
      let (_, parts, rest) = >>=-eq-ok (raise_if (bad_parts py p) _) _ h in
      let (_, path, rest1) = >>=-eq-ok (validate_percent_encoding true "href path" p.path) _ rest in
      let (_, query, rest2) =
        >>=-eq-ok (validate_percent_encoding false "href query" p.query) _ rest1 in
      let (d, walked, last) = >>=-eq-ok (decode_path py 4 p.path) _ rest2 in
      (
        p,
        refl,
        parts-SignedUrl p d ((raise_if_iff (bad_parts py p) _).0 parts)
            ((validate_percent_encoding_iff true "href path" p.path).0 path)
            ((validate_percent_encoding_iff false "href query" p.query).0 query) walked
            ((raise_if_iff (unsafe_path py d) _).0 last),
      )

  -- An absolute href is accepted only if it splits into the parts of a signed URL: an HTTPS URL with
  -- a valid host (an IPv6 address or labels with dots between them), with a query, without
  -- credentials or fragment, with a port, if any, from 1 to 65535, whose path begins with a slash and
  -- reaches within three decodings a fixed point with no `.` or `..` segment and only printable
  -- characters, and whose path and query have no percent sign but in escapes of safe characters.
  pub absolute_href_signed :
      (value artifact_id : Text)
      → starts_with_slash value ≡ false
      → authorized_artifact_href py value artifact_id ≡ ok value
      → (p : UrlParts) × (urlsplit value ≡ some p) × SignedUrl p
  absolute_href_signed value artifact_id slash h =
      from (canonical_group value) refl (href-checked py value artifact_id h)
    where
      from :
          (g : Option Text)
          → canonical_group value ≡ g
          → check_relative py g value artifact_id ≡ ok tt
          → (p : UrlParts) × (urlsplit value ≡ some p) × SignedUrl p
      from none e k =
          check_absolute-SignedUrl (urlsplit value) (absolute_checked py value artifact_id slash k)
      from (some g) e k = cc (slash, ap starts_with_slash (canonical_group-some py value e).0)
