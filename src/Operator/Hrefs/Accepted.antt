-- ===== src/Operator/Hrefs/Accepted.antt =====
-- kestrel_sdk/operator/runs.py, `_authorized_artifact_href`: what an accepted link is.
use kestrel_sovereign_sdk.Prelude.{
  true, false, ◌||◌, Option, none, some, ◌++◌, Text, ok, raise_if, ◌≡◌, ◌≢◌, refl, arith, ltb,
  if◌then◌else◌, length, text_eq_iff, after_prefix, after_prefix-some, >>=-eq-ok, subst,
}
use kestrel_sovereign_sdk.Validation.Tokens.{is_stable_token}
use kestrel_sovereign_sdk.Validation.Texts.{is_empty}
use kestrel_sovereign_sdk.Operator.Hrefs.{
  UrlFunctions, ascii_url, artifacts_path, canonical_group, starts_with_slash, check_absolute,
  check_relative, authorized_artifact_href,
}

module _ (py : UrlFunctions) where
  open py use {urlsplit, unquote, lower}

  token_group :
      (u : Text) {t : Text}
      → (if is_stable_token u then some u else none) ≡ some t
      → (u ≡ t) × (is_stable_token u ≡ true)
  token_group u h = ground arith

  pub canonical_group-some :
      (value : Text) {t : Text}
      → canonical_group value ≡ some t
      → (value ≡ artifacts_path ++ t) × (is_stable_token t ≡ true)
  unfolding canonical_group
  canonical_group-some value {t} h = from (after_prefix artifacts_path value) refl h
    where
      from :
          (o : Option Text)
          → after_prefix artifacts_path value ≡ o
          → elim o as (λ _. Option Text) [
            | none ↦ none
            | some token ↦ if is_stable_token token then some token else none
          ]
            ≡ some t
          → (value ≡ artifacts_path ++ t) × (is_stable_token t ≡ true)
      from none e k = cc
      from (some u) e k =
          let (same, token) = token_group u k in
          subst (λ x. (value ≡ artifacts_path ++ x) × (is_stable_token x ≡ true)) same
            ((after_prefix-some artifacts_path value u).0 e, token)

  pub href-checked :
      (value artifact_id : Text)
      → authorized_artifact_href py value artifact_id ≡ ok value
      → check_relative py (canonical_group value) value artifact_id ≡ ok tt
  unfolding authorized_artifact_href
  href-checked value artifact_id h =
      let (_, _, rest) = >>=-eq-ok (raise_if (is_empty value || ltb 4096 (length value)) _) _ h in
      let (_, _, rest1) = >>=-eq-ok (ascii_url value) _ rest in
      let (_, checked, _) =
        >>=-eq-ok (check_relative py (canonical_group value) value artifact_id) _ rest1 in
      checked

  relative_refused :
      (value artifact_id : Text)
      → starts_with_slash value ≡ true
      → check_relative py none value artifact_id ≢ ok tt
  unfolding check_relative
  relative_refused value artifact_id slash h = cc (rw slash at h)

  pub absolute_checked :
      (value artifact_id : Text)
      → starts_with_slash value ≡ false
      → check_relative py none value artifact_id ≡ ok tt
      → check_absolute py (urlsplit value) ≡ ok tt
  unfolding check_relative
  absolute_checked value artifact_id slash h = rw slash at h

  canonical_same :
      (g value artifact_id : Text)
      → check_relative py (some g) value artifact_id ≡ ok tt
      → g ≡ artifact_id
  unfolding check_relative
  canonical_same g value artifact_id h = ground (arith, text_eq_iff g artifact_id)

  -- A same-origin href, one that begins with a slash, is accepted only as the canonical path of the
  -- artifact's own identity; that identity is then a stable token.
  pub relative_href_canonical :
      (value artifact_id : Text)
      → starts_with_slash value ≡ true
      → authorized_artifact_href py value artifact_id ≡ ok value
      → (value ≡ artifacts_path ++ artifact_id) × (is_stable_token artifact_id ≡ true)
  relative_href_canonical value artifact_id slash h =
      from (canonical_group value) refl (href-checked value artifact_id h)
    where
      from :
          (g : Option Text)
          → canonical_group value ≡ g
          → check_relative py g value artifact_id ≡ ok tt
          → (value ≡ artifacts_path ++ artifact_id) × (is_stable_token artifact_id ≡ true)
      from none e k = absurd (relative_refused value artifact_id slash k)
      from (some g) e k =
          subst (λ x. (value ≡ artifacts_path ++ x) × (is_stable_token x ≡ true))
            (canonical_same g value artifact_id k) (canonical_group-some value e)
