-- ===== src/Appconfig/Urls.antt =====
-- config.go: the URLs of services that the program trusts. Go's net/url and net are parameters.
pub mod Trusted
use mime_crypt.Base.{
  String, Bool, true, false, List, [], ◌∷◌, ◌≡◌, refl, ap, sym, ◌∙◌, ◌⊎◌, inl, inr, ◌↔◌, arith,
  ◌&&◌, ◌||◌, not, if◌then◌else◌, if_rule,
}
use mime_crypt.Base.Text.{◌+++◌, ◌==◌, eq_iff, trim_space, to_lower, equal_fold, is_empty, is_blank}
use mime_crypt.Base.Lists.{any}
use mime_crypt.Base.Effect.{ok, err}
use mime_crypt.Mailflow.Errors.{Result, Error, failed, wrapped}

-- url.URL: what the program reads of it; `host` is the value of Hostname.
pub record Url : Type 0 where
  pub scheme : String
  pub host : String
  pub has_user : Bool
  pub raw_query : String
  pub fragment : String

pub record Net : Type 0 where
  pub parse : String → Result Url
  -- net.ParseIP finds an address and it is a loopback address.
  pub is_loopback_ip : String → Bool

-- strings.HasSuffix
unfoldable pub has_suffix : String → String → Bool
unfolding is_empty
has_suffix suffix String.[] = is_empty suffix
has_suffix suffix (String.◌∷◌ c s) = String.◌∷◌ c s == suffix || has_suffix suffix s

abbrev pub trusts : String → String → Bool
trusts host trusted =
    host == to_lower (trim_space trusted) || has_suffix ("." +++ to_lower (trim_space trusted)) host

unfoldable pub matches_trusted_host : String → List String → Bool
unfolding to_lower trim_space has_suffix any
matches_trusted_host host trusted_hosts = any (trusts (to_lower (trim_space host))) trusted_hosts

abbrev pub trusted_authority_hosts : List String
trusted_authority_hosts =
    "login.microsoftonline.com" ∷ "login.microsoftonline.us" ∷ "login.microsoftonline.de"
    ∷ "login.chinacloudapi.cn" ∷ []

abbrev pub trusted_graph_hosts : List String
trusted_graph_hosts =
    "graph.microsoft.com" ∷ "graph.microsoft.us" ∷ "graph.microsoft.de"
    ∷ "microsoftgraph.chinacloudapi.cn" ∷ []

abbrev pub trusted_ews_hosts : List String
trusted_ews_hosts =
    "outlook.office365.com" ∷ "outlook.office.com" ∷ "outlook.office.de" ∷ "partner.outlook.cn" ∷ []

module _ (net : Net) where
  unfoldable pub is_loopback_host : String → Bool
  unfolding equal_fold trim_space
  is_loopback_host host =
      equal_fold (trim_space host) "localhost" || net.is_loopback_ip (trim_space host)

  -- What validateTrustedHTTPBaseURL asks of a parsed URL.
  unfoldable pub check_url : String → List String → Url → Result (Unit {0})
  unfolding is_loopback_host matches_trusted_host is_empty is_blank trim_space to_lower equal_fold
  check_url label trusted u =
      if u.has_user
      then err (failed (label +++ " 不允许包含用户信息"))
      else if not (is_empty u.raw_query) || not (is_empty u.fragment)
      then err (failed (label +++ " 不允许包含 query 或 fragment"))
      else if is_blank u.host
      then err (failed (label +++ " 缺少 host"))
      else if is_loopback_host (trim_space u.host)
      then if to_lower (trim_space u.scheme) == "http" || to_lower (trim_space u.scheme) == "https"
        then ok tt
        else err (failed (label +++ " 仅支持 http 或 https"))
      else if not (equal_fold u.scheme "https")
      then err (failed (label +++ " 必须使用 https"))
      else if not (matches_trusted_host (trim_space u.host) trusted)
      then err (failed (label +++ " host 不受信任: " +++ trim_space u.host))
      else ok tt

  -- The rest, where url.Parse has succeeded
  unfoldable pub check_parsed : String → List String → Result Url → Result (Unit {0})
  unfolding check_url
  check_parsed label trusted (ok u) = check_url label trusted u
  check_parsed label trusted (err e) = err (wrapped ("解析 " +++ label +++ " 失败") e)

  unfoldable pub validate_trusted_http_base_url : String → String → List String → Result (Unit {0})
  unfolding check_parsed trim_space
  validate_trusted_http_base_url raw label trusted =
      check_parsed label trusted (net.parse (trim_space raw))
