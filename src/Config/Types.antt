-- ===== src/Config/Types.antt =====
-- The data types of internal/config/config.go. A time.Duration is its nanoseconds, a map an
-- association list with distinct keys, a pointer an `Option`.
use netsonar.Base.{ℕ, Bool, String, List, [], ◌∷◌, Option}
use netsonar.Base.Int.{ℤ, pos}

-- A ProbeType is a string in the source: eight constants, and `unknown s` for every other text.
pub data ProbeType : Type 0 where
  tcp http icmp mtu dns tls_cert http_body proxy_connect : ProbeType
  unknown : String → ProbeType

-- The values of the constants.
unfoldable pub probe_type_text : ProbeType → String
probe_type_text tcp = "tcp"
probe_type_text http = "http"
probe_type_text icmp = "icmp"
probe_type_text mtu = "mtu"
probe_type_text dns = "dns"
probe_type_text tls_cert = "tls_cert"
probe_type_text http_body = "http_body"
probe_type_text proxy_connect = "proxy_connect"
probe_type_text (unknown s) = s

pub record ResolvedProxyCredentials : Type 0 where
  pub username : String
  pub password : String

pub record ProxyConfig : Type 0 where
  pub url : String
  pub endpoint : String
  pub tls_skip_verify : Bool
  pub username : String
  pub username_env : String
  pub username_file : String
  pub password_env : String
  pub password_file : String
  pub credentials : ResolvedProxyCredentials

pub record ResolvedProxyConfig : Type 0 where
  pub endpoint : String
  pub tls_skip_verify : Bool
  pub username : String
  pub username_env : String
  pub username_file : String
  pub password_env : String
  pub password_file : String
  pub credentials : ResolvedProxyCredentials

pub record AgentConfig : Type 0 where
  pub listen_addr : String
  pub metrics_path : String
  pub default_interval : ℤ
  pub default_timeout : ℤ
  pub initial_probe_jitter : ℤ
  pub default_icmp_payload_sizes : List ℤ
  pub log_level : String
  pub log_format : String
  pub enable_runtime_metrics : Bool
  pub allowed_tag_keys : List String
  pub dns_resolver : String

-- `ping_interval_sec` is a float64 of seconds in the source; here it is whole nanoseconds.
pub record ProbeOptions : Type 0 where
  pub method : String
  pub headers : List (String × String)
  pub expected_status_codes : List ℤ
  pub expected_proxy_connect_status_codes : List ℤ
  pub follow_redirects : Bool
  pub tls_skip_verify : Bool
  pub tls_emit_cert_metrics : Bool
  pub response_body_limit_bytes : ℤ
  pub request_body_bytes : ℤ
  pub body_match_regex : String
  pub body_match_string : String
  pub ping_count : ℤ
  pub ping_interval_sec : ℤ
  pub icmp_payload_sizes : List ℤ
  pub expected_min_mtu : ℤ
  pub mtu_retries : ℤ
  pub mtu_per_attempt_timeout : ℤ
  pub dns_query_name : String
  pub dns_query_type : String
  pub dns_server : String
  pub dns_expected_results : List String

pub record TargetConfig : Type 0 where
  pub name : String
  pub address : String
  pub probe_type : ProbeType
  pub interval : ℤ
  pub timeout : ℤ
  pub tags : List (String × String)
  pub probe_opts : ProbeOptions
  pub proxy_name : String
  pub resolved_proxy : Option ResolvedProxyConfig
  pub dns_resolver : Option String

pub record Config : Type 0 where
  pub agent : AgentConfig
  pub proxies : List (String × ProxyConfig)
  pub targets : List TargetConfig

-- DefaultMTURetries and DefaultMTUPerAttemptTimeout.
abbrev pub default_mtu_retries : ℤ
default_mtu_retries = pos 3

abbrev pub default_mtu_per_attempt_timeout : ℤ
default_mtu_per_attempt_timeout = pos 2_000_000_000

-- DefaultICMPPayloadSizes.
abbrev pub default_icmp_payload_sizes : List ℤ
default_icmp_payload_sizes = pos 1472 ∷ pos 1392 ∷ pos 1372 ∷ pos 1272 ∷ pos 1172 ∷ pos 1072 ∷ []

-- MaxTagsPerTarget, MaxGlobalTagKeys, MaxProxies and MaxHTTPRequestBodyBytes.
abbrev pub max_tags_per_target : ℕ
max_tags_per_target = 20

abbrev pub max_global_tag_keys : ℕ
max_global_tag_keys = 30

abbrev pub max_proxies : ℕ
max_proxies = 64

abbrev pub max_http_request_body_bytes : ℤ
max_http_request_body_bytes = pos 16_777_216
