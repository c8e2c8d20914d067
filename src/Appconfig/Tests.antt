-- ===== src/Appconfig/Tests.antt =====
-- topology.go and config.go: a small topology, names and URLs, and the theorems at them.
use mime_crypt.Appconfig.Names.{sanitize_file_component, sanitize_runtime_component}
use mime_crypt.Appconfig.Names.Safe.{IsFileName, sanitized-IsFileName}
use mime_crypt.Appconfig.Urls.{Url, Net, validate_trusted_http_base_url, trusted_authority_hosts}
use mime_crypt.Appconfig.Urls.Trusted.{IsTrusted, validate_trusted_http_base_url-IsTrusted}
use mime_crypt.Base.Text.{trim_space}
use mime_crypt.Base.{ℕ, nat_eq, not, Bool, String, true, false, none, [], ◌∷◌, ◌≡◌, refl, ◌↔◌}
use mime_crypt.Base.Effect.{ok, err}
use mime_crypt.Mailflow.Errors.{failed}
use mime_crypt.Appconfig.Topology.{Source, Sink, Route, RouteTarget, RouteDeletePolicy, Topology}
use mime_crypt.Appconfig.Lookup.{resolve_credential_ref}
use mime_crypt.Appconfig.Validate.{validate_structure, validate_topology, normalize}
use mime_crypt.Appconfig.Structure.{IsValidStructure, validate_structure_iff}

abbrev inbox : Source
inbox = record {
  name = "";
  driver = "imap";
  mode = "poll";
  credential_ref = "";
  folder = "INBOX";
  state_path = "";
  include_existing = false;
  poll_interval = 60;
  cycle_timeout = 120;
  driver_config = none;
}

abbrev out : Sink
out = record {
  name = "out";
  driver = "file";
  credential_ref = "";
  output_dir = "/tmp";
  folder = "";
  verify = false;
}

abbrev to_out : RouteTarget
to_out = record { name = ""; sink_ref = " out "; artifact = ""; required = true }

abbrev keep : RouteDeletePolicy
keep = record { enabled = false; require_same_store = false; eligible_sinks = [] }

abbrev main : Route
main = record {
  name = "main";
  source_refs = "inbox" ∷ [];
  state_dir = "";
  targets = to_out ∷ [];
  delete_source = keep;
}

abbrev topology : Topology
topology = record {
  credentials = [];
  sources = ("inbox", inbox) ∷ [];
  sinks = ("out", out) ∷ [];
  routes = ("main", main) ∷ [];
  default_credential = "";
  default_source = "inbox";
  default_route = "main";
}

-- A name that is left out is an error before the normalization, and none after it.
unnamed : validate_topology topology ≡ err (failed "source inbox 缺少 name")
unfolding validate_topology
unnamed = refl

normalized : validate_topology (normalize topology) ≡ ok tt
unfolding validate_topology normalize
normalized = refl

no_credential : resolve_credential_ref topology "" ≡ ok ""
unfolding resolve_credential_ref
no_credential = refl

abbrev twice : Topology
twice = record topology { routes = ("main", record main { targets = to_out ∷ to_out ∷ [] }) ∷ [] }

collision :
    validate_structure (normalize twice) ≡ err (failed "route main 存在重复 target: out:primary")
unfolding validate_structure normalize
collision = refl

validate_structure_iff_example :
    (validate_structure (normalize topology) ≡ ok tt) ↔ IsValidStructure (normalize topology)
validate_structure_iff_example = validate_structure_iff (normalize topology)

abbrev is_word : ℕ → Bool
is_word c = not (nat_eq c 47)

dots : sanitize_file_component is_word "../a/b" ≡ "a_b"
unfolding sanitize_file_component
dots = refl

no_slash : is_word 47 ≡ false
no_slash = refl

sanitized-IsFileName_example :
    IsFileName (sanitize_file_component is_word "../a/b")
    × IsFileName (sanitize_runtime_component is_word "../a/b")
sanitized-IsFileName_example = sanitized-IsFileName is_word "../a/b" no_slash

abbrev login : Url
login = record {
  scheme = "https";
  host = "eu.Login.microsoftonline.com";
  has_user = false;
  raw_query = "";
  fragment = "";
}

abbrev net : Net
net = record { parse = λ text. ok login; is_loopback_ip = λ host. false }

abbrev login_url : String
login_url = "https://eu.Login.microsoftonline.com"

login_accepted :
    validate_trusted_http_base_url net login_url "authority base URL" trusted_authority_hosts
    ≡ ok tt
unfolding validate_trusted_http_base_url
login_accepted = refl

validate_trusted_http_base_url-IsTrusted_example :
    (u : Url) × (net.parse (trim_space login_url) ≡ ok u) × IsTrusted net trusted_authority_hosts u
validate_trusted_http_base_url-IsTrusted_example =
    validate_trusted_http_base_url-IsTrusted net login_url "authority base URL"
      trusted_authority_hosts login_accepted

-- A host with U+0130 counts as the trusted host with an i, which it is not.
abbrev dotted : Url
dotted = record login { host = "login.mİcrosoftonline.com" }

dotted_accepted :
    validate_trusted_http_base_url
      (record net { parse = λ text. ok dotted })
      "https://login.mİcrosoftonline.com"
      "authority base URL"
      trusted_authority_hosts
    ≡ ok tt
unfolding validate_trusted_http_base_url
dotted_accepted = refl
