-- ===== src/Config/Credentials.antt =====
-- The proxies of internal/config/config.go: validateProxies and the resolution of credentials. The
-- environment, the file system and internal/proxyurl are parameters.
pub mod Whole
use Prim.Native.Char.{code}
use netsonar.Base.{
  ℕ, suc, ◌+◌, ◌≡◌, Bool, true, false, ◌&&◌, ◌||◌, not, String, str_eq, is_blank, List, [], ◌∷◌,
  ◌++◌, Option, none, some, if◌then◌else◌, ltb, ◌==◌, length, is_none, any,
}
use netsonar.Config.Types.{ProxyConfig, ResolvedProxyCredentials, Config, max_proxies}
use netsonar.Config.Checks.{
  Checked, ok, err, ◌>>=◌, ◌>>◌, reject_if, is_proxy_name, too_many_proxies, invalid_proxy,
  duplicate_endpoint,
}

-- A parsed proxy URL: its scheme, and proxyurl.Endpoint of it.
pub record ProxyUrl : Type 0 where
  pub scheme : String
  pub endpoint : String

-- os.LookupEnv and os.ReadFile (`none`: not set, an error), filepath.IsAbs, proxyurl.Parse, and
-- sort.Strings on the names of the proxies.
pub record Sources : Type 0 where
  pub lookup_env : String → Option String
  pub read_file : String → Option String
  pub is_abs : String → Bool
  pub parse_proxy_url : String → Option ProxyUrl
  pub sorted : List (String × ProxyConfig) → List (String × ProxyConfig)

-- strings.TrimRight(s, "\r\n"): what is kept of a text whose rest is `s` trimmed.
unfoldable pub keep_char : ℕ → Bool
keep_char c = not (c == 10 || c == 13)

unfoldable pub trim_trailing_newlines : String → String
unfolding keep_char
trim_trailing_newlines String.[] = ""
trim_trailing_newlines (String.◌∷◌ c s) =
    let rest = trim_trailing_newlines s in
    if keep_char (code c) || not (is_blank rest) then String.◌∷◌ c rest else ""

unfoldable pub non_empty_source_count : List String → ℕ
non_empty_source_count [] = 0
non_empty_source_count (v ∷ values) =
    if is_blank v then non_empty_source_count values else suc (non_empty_source_count values)

module _ (src : Sources) where
  -- The value of an environment variable.
  unfoldable pub read_env : String → String → String → Checked String
  read_env name field var = elim (src.lookup_env var) [
    | none ↦ err (invalid_proxy name field)
    | some v ↦
        if is_blank (trim_trailing_newlines v)
        then err (invalid_proxy name field)
        else ok (trim_trailing_newlines v)
  ]

  pub read_credential_file : String → String → String → Checked String
  read_credential_file name field path = do
    reject_if (not (src.is_abs path)) (invalid_proxy name field)
    elim (src.read_file path) [
      | none ↦ err (invalid_proxy name field)
      | some content ↦
          if is_blank (trim_trailing_newlines content)
          then err (invalid_proxy name field)
          else ok (trim_trailing_newlines content)
    ]

  unfoldable pub resolve_username : String → ProxyConfig → Checked String
  resolve_username name p =
      if not (is_blank p.username)
      then ok p.username
      else if not (is_blank p.username_env)
      then read_env name "username_env" p.username_env
      else if not (is_blank p.username_file)
      then read_credential_file name "username_file" p.username_file
      else ok ""

  unfoldable pub resolve_password : String → ProxyConfig → Checked String
  resolve_password name p =
      if not (is_blank p.password_env)
      then read_env name "password_env" p.password_env
      else if not (is_blank p.password_file)
      then read_credential_file name "password_file" p.password_file
      else ok ""

  -- From the counts on: no source at all, one half alone, or both.
  unfoldable pub resolve_sources : ℕ → ℕ → String → ProxyConfig → Checked ResolvedProxyCredentials
  resolve_sources users passwords name p =
      if users == 0 && passwords == 0 then ok (record { username = ""; password = "" }) else (do
        reject_if (users == 0) (invalid_proxy name "username")
        reject_if (passwords == 0) (invalid_proxy name "password")
        username ← resolve_username name p
        password ← resolve_password name p
        ok (record { username = username; password = password }))

  unfoldable pub resolve_proxy_credentials : String → ProxyConfig → Checked ResolvedProxyCredentials
  resolve_proxy_credentials name p = do
    reject_if (not (is_blank p.username) && not (is_blank p.username_env))
        (invalid_proxy name "username")
    reject_if (not (is_blank p.username) && not (is_blank p.username_file))
        (invalid_proxy name "username")
    reject_if (not (is_blank p.username_env) && not (is_blank p.username_file))
        (invalid_proxy name "username_env")
    reject_if (not (is_blank p.password_env) && not (is_blank p.password_file))
        (invalid_proxy name "password_env")
    resolve_sources (non_empty_source_count (p.username ∷ p.username_env ∷ p.username_file ∷ []))
        (non_empty_source_count (p.password_env ∷ p.password_file ∷ [])) name p

  -- `endpoints[p.Endpoint]`.
  owner : String → List (String × ProxyConfig) → Option String
  owner endpoint [] = none
  owner endpoint ((n, p) ∷ ps) = if str_eq p.endpoint endpoint then some n else owner endpoint ps

  -- The body of the loop, after the proxies that came before.
  pub check_proxy : List (String × ProxyConfig) → String → ProxyConfig → Checked ProxyConfig
  unfolding owner
  check_proxy before name p = do
    reject_if (not (is_proxy_name name)) (invalid_proxy name "name")
    reject_if (is_blank p.url) (invalid_proxy name "url")
    elim (src.parse_proxy_url p.url) [
      | none ↦ err (invalid_proxy name "url")
      | some u ↦ (do
        reject_if (p.tls_skip_verify && not (str_eq u.scheme "https"))
            (invalid_proxy name "tls_skip_verify")
        reject_if (not (is_none (owner u.endpoint before))) (duplicate_endpoint name u.endpoint)
        creds ← resolve_proxy_credentials name (record p { endpoint = u.endpoint })
        ok (record p { endpoint = u.endpoint; credentials = creds }))
    ]

  unfoldable pub check_proxies :
      List (String × ProxyConfig)
      → List (String × ProxyConfig)
      → Checked (List (String × ProxyConfig))
  check_proxies before [] = ok before
  check_proxies before ((name, p) ∷ ps) = elim (check_proxy before name p) [
    | err e ↦ err e
    | ok q ↦ check_proxies (before ++ (name, q) ∷ []) ps
  ]

  unfoldable pub validate_proxies :
      List (String × ProxyConfig) → Checked (List (String × ProxyConfig))
  unfolding check_proxies check_proxy
  validate_proxies proxies = do
    reject_if (ltb max_proxies (length proxies)) too_many_proxies
    check_proxies [] (src.sorted proxies)
