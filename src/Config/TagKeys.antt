-- ===== src/Config/TagKeys.antt =====
-- CollectTagKeys of internal/config/config.go, and BasicAuthHeader.
pub mod Order
use netsonar.Base.{
  ℕ, Bool, true, false, ◌&&◌, String, ◌<>◌, is_blank, List, [], ◌∷◌, Option, none, some,
  if◌then◌else◌, ltb, ◌==◌, is_empty,
}
use netsonar.Config.Types.{Config, ResolvedProxyCredentials}
use netsonar.Config.Checks.{codes}
use netsonar.Config.Validate.{collect_dynamic_tag_keys}

-- `a <= b` on strings. Go compares bytes; code points in UTF-8 stand in the same order.
unfoldable pub leb_codes : List ℕ → List ℕ → Bool
leb_codes [] ds = true
leb_codes (c ∷ cs) [] = false
leb_codes (c ∷ cs) (d ∷ ds) = if c == d then leb_codes cs ds else ltb c d

-- sort.Strings.
unfoldable pub insert_string : String → List String → List String
unfolding leb_codes
insert_string s [] = s ∷ []
insert_string s (t ∷ ts) =
    if leb_codes (codes s) (codes t) then s ∷ (t ∷ ts) else t ∷ insert_string s ts

unfoldable pub sort_strings : List String → List String
unfolding insert_string
sort_strings [] = []
sort_strings (s ∷ ss) = insert_string s (sort_strings ss)

unfoldable pub collect_tag_keys : Config → List String
unfolding sort_strings
collect_tag_keys cfg =
    if is_empty cfg.agent.allowed_tag_keys
    then sort_strings (collect_dynamic_tag_keys cfg.targets [])
    else sort_strings cfg.agent.allowed_tag_keys

-- `base64` stands for base64.StdEncoding.EncodeToString.
unfoldable pub basic_auth_header : (String → String) → ResolvedProxyCredentials → Option String
basic_auth_header base64 c =
    if is_blank c.username && is_blank c.password
    then none
    else some ("Basic " <> base64 (c.username <> ":" <> c.password))
