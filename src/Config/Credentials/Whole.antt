-- ===== src/Config/Credentials/Whole.antt =====
-- What resolveProxyCredentials (internal/config/config.go) yields.
use netsonar.Base.{
  ℕ, ◌≡◌, refl, true, false, ◌&&◌, not, String, is_blank, [], ◌∷◌, ◌==◌, ◌⊎◌, NonEmpty, subst,
  arith, Bool-cases, inl, inr,
}
use netsonar.Config.Types.{ProxyConfig, ResolvedProxyCredentials}
use netsonar.Config.Checks.{ok, reject_if-ok, >>=-ok, invalid_proxy}
use netsonar.Config.Credentials.{
  Sources, non_empty_source_count, read_env, read_credential_file, resolve_username,
  resolve_password, resolve_sources, resolve_proxy_credentials,
}

-- Credentials come whole: both texts, or neither.
abbrev pub AreWhole : ResolvedProxyCredentials → Type 0
AreWhole c =
    ((is_blank c.username ≡ true) × (is_blank c.password ≡ true))
    ⊎ (NonEmpty c.username × NonEmpty c.password)

module _ (src : Sources) (name : String) (p : ProxyConfig) where
  read_env-NonEmpty :
      (field var : String) {v : String} → read_env src name field var ≡ ok v → NonEmpty v
  unfolding read_env
  read_env-NonEmpty field var h = ground arith

  read_credential_file-NonEmpty :
      (field path : String) {v : String}
      → read_credential_file src name field path ≡ ok v
      → NonEmpty v
  unfolding read_credential_file
  read_credential_file-NonEmpty field path h = ground arith

  resolve_username-NonEmpty :
      {v : String}
      → (non_empty_source_count (p.username ∷ p.username_env ∷ p.username_file ∷ []) == 0) ≡ false
      → resolve_username src name p ≡ ok v
      → NonEmpty v
  unfolding resolve_username non_empty_source_count
  resolve_username-NonEmpty {v} n h = ground (
    arith,
    read_env-NonEmpty "username_env" p.username_env {v = v},
    read_credential_file-NonEmpty "username_file" p.username_file {v = v},
  )

  resolve_password-NonEmpty :
      {v : String}
      → (non_empty_source_count (p.password_env ∷ p.password_file ∷ []) == 0) ≡ false
      → resolve_password src name p ≡ ok v
      → NonEmpty v
  unfolding resolve_password non_empty_source_count
  resolve_password-NonEmpty {v} n h = ground (
    arith,
    read_env-NonEmpty "password_env" p.password_env {v = v},
    read_credential_file-NonEmpty "password_file" p.password_file {v = v},
  )

  -- Both sources are there.
  both-AreWhole :
      (users passwords : ℕ) (c : ResolvedProxyCredentials)
      → ((v : String) → (users == 0) ≡ false → resolve_username src name p ≡ ok v → NonEmpty v)
      → ((v : String) → (passwords == 0) ≡ false → resolve_password src name p ≡ ok v → NonEmpty v)
      → resolve_sources src users passwords name p ≡ ok c
      → AreWhole c
  unfolding resolve_sources
  both-AreWhole users passwords c f g h = elim (Bool-cases (users == 0 && passwords == 0)) [
    | inl e ↦
        let none_of : ResolvedProxyCredentials = record { username = ""; password = "" } in
        let same : ok none_of ≡ ok c = rw (e, resolve_sources) at h in
        let eq : none_of ≡ c = ground arith in subst AreWhole eq (inl (refl, refl))
    | inr e ↦
        let h0 = rw (e, resolve_sources) at h in
        let (u, h1) = reject_if-ok (users == 0) _ _ h0 in
        let (w, h2) = reject_if-ok (passwords == 0) _ _ h1 in
        let (username, a, h3) = >>=-ok (resolve_username src name p) _ h2 in
        let (password, b, h4) = >>=-ok (resolve_password src name p) _ h3 in
        inr (ground (arith, f username u a), ground (arith, g password w b))
  ]

-- Credentials that are resolved have a user name and a password, neither empty, or have neither.
pub resolve_proxy_credentials-AreWhole :
    (src : Sources) (name : String) (p : ProxyConfig) (c : ResolvedProxyCredentials)
    → resolve_proxy_credentials src name p ≡ ok c
    → AreWhole c
unfolding resolve_proxy_credentials
resolve_proxy_credentials-AreWhole src name p c h =
    let user = not (is_blank p.username) in
    let user_env = not (is_blank p.username_env) in
    let user_file = not (is_blank p.username_file) in
    let pass_env = not (is_blank p.password_env) in
    let pass_file = not (is_blank p.password_file) in
    let (a, h1) = reject_if-ok (user && user_env) (invalid_proxy name "username") _ h in
    let (b, h2) = reject_if-ok (user && user_file) (invalid_proxy name "username") _ h1 in
    let (d, h3) = reject_if-ok (user_env && user_file) (invalid_proxy name "username_env") _ h2 in
    let (e, h4) = reject_if-ok (pass_env && pass_file) (invalid_proxy name "password_env") _ h3 in
    both-AreWhole src name p _ _ c (λ v. resolve_username-NonEmpty src name p {v = v})
      (λ v. resolve_password-NonEmpty src name p {v = v}) h4
