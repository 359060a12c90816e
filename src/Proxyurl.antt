-- ===== src/Proxyurl.antt =====
-- internal/proxyurl/proxyurl.go. The parser of net/url is a parameter; an error is its rule.
use netsonar.Base.{
  ℕ, ◌≡◌, ◌<◌, ◌⊎◌, Bool, true, false, ◌&&◌, not, String, str_eq, is_blank, NonEmpty, Option, none,
  some, if◌then◌else◌, ◌==◌,
}

-- The parts of a url.URL, with Hostname() and Port() of its host; `user` says that User is not nil.
pub record Parts : Type 0 where
  pub opaque : String
  pub scheme : String
  pub hostname : String
  pub port : String
  pub user : Bool
  pub path : String
  pub raw_query : String
  pub fragment : String

-- url.ParseRequestURI, strings.ToLower, and strconv.ParseUint(s, 10, 16).
pub record UrlOps : Type 0 where
  pub parse_request_uri : String → Option Parts
  pub to_lower : String → String
  pub to_lower_idem : (s : String) → to_lower (to_lower s) ≡ to_lower s
  pub to_lower-NonEmpty : (s : String) → NonEmpty s → NonEmpty (to_lower s)
  pub parse_uint16 : String → Option ℕ
  pub parse_uint16_bound : (s : String) (n : ℕ) → parse_uint16 s ≡ some n → n < 65536

pub data UrlError : Type 0 where
  not_absolute opaque_form bad_scheme no_host has_userinfo has_path has_query has_fragment
        bad_port :
      UrlError

pub data Parsed : Type 0 where
  ok : Parts → Parsed
  err : UrlError → Parsed

module _ (ops : UrlOps) where
  unfoldable pub bad_port_number : Option ℕ → Bool
  bad_port_number none = true
  bad_port_number (some n) = n == 0

  -- The changes to the URL that is returned.
  unfoldable pub lowered : Parts → Parts
  lowered u = record u {
    scheme = ops.to_lower u.scheme;
    hostname = ops.to_lower u.hostname;
    user = false;
  }

  unfoldable pub check_parts : Parts → Parsed
  unfolding bad_port_number lowered
  check_parts u =
      if not (is_blank u.opaque)
      then err opaque_form
      else if not (str_eq (ops.to_lower u.scheme) "http")
          && not (str_eq (ops.to_lower u.scheme) "https")
      then err bad_scheme
      else if is_blank u.hostname
      then err no_host
      else if u.user
      then err has_userinfo
      else if not (is_blank u.path)
      then err has_path
      else if not (is_blank u.raw_query)
      then err has_query
      else if not (is_blank u.fragment)
      then err has_fragment
      else if not (is_blank u.port) && bad_port_number (ops.parse_uint16 u.port)
      then err bad_port
      else ok (lowered u)

  unfoldable pub parse : String → Parsed
  unfolding check_parts
  parse raw = elim (ops.parse_request_uri raw) [ none ↦ err not_absolute | some u ↦ check_parts u ]

  -- The parts that Endpoint prints.
  unfoldable pub endpoint_parts : Parts → Parts
  endpoint_parts u = record u {
    scheme = ops.to_lower u.scheme;
    hostname = ops.to_lower u.hostname;
    user = false;
    path = "";
    raw_query = "";
    fragment = "";
  }

  -- The URL of a proxy: a scheme, a host, and a port, if any, that can be dialed.
  pub record IsProxyUrl (u : Parts) : Type 0 where
    pub scheme : (u.scheme ≡ "http") ⊎ (u.scheme ≡ "https")
    pub hostname : NonEmpty u.hostname
    pub port :
        (is_blank u.port ≡ true)
        ⊎ ((n : ℕ) × (ops.parse_uint16 u.port ≡ some n) × (0 < n) × (n < 65536))
    pub bare :
        (u.user ≡ false)
        × (is_blank u.path ≡ true)
        × (is_blank u.raw_query ≡ true)
        × (is_blank u.fragment ≡ true)
