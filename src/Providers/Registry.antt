-- ===== src/Providers/Registry.antt =====
-- registry.go: the drivers of the program, what each says of itself, and the lookups by name.
use mime_crypt.Base.{String, Bool, true, false, Option, none, some, List, [], ◌∷◌, map}
use mime_crypt.Base.Text.{◌+++◌}
use mime_crypt.Base.Assoc.{Assoc, lookup}
use mime_crypt.Base.Effect.{ok, err}
use mime_crypt.Mailflow.Errors.{Result, failed}
use mime_crypt.Mailflow.Types.{DeleteSemantics}
use mime_crypt.Appconfig.Topology.{Source, Sink}
use mime_crypt.Provider.Capabilities.{
  AuthRequirement, ProviderProbeKind, LocalConsumerKind, SourceModeSpec, SourceCapabilities,
  SinkCapabilities, DriverInfo, normalize_driver_name,
}
use mime_crypt.Providers.Webhook.Ingress.{WebhookLibrary, validate_source_config}

pub data Driver : Type 0 where
  backup discard ews file graph imap webhook : Driver

abbrev no_auth : AuthRequirement
no_auth = record { graph = false; ews = false; imap = false }

-- The sink of a local driver
abbrev local_sink : Bool → LocalConsumerKind → SinkCapabilities
local_sink requires_output_dir kind = record {
  requires_credential = false;
  requires_output_dir = requires_output_dir;
  supports_verify = false;
  supports_reconcile = false;
  supports_health = false;
  local_consumer = true;
  local_consumer_kind = kind;
}

-- The sink of a driver that writes mail back
abbrev remote_sink : SinkCapabilities
remote_sink = record {
  requires_credential = true;
  requires_output_dir = false;
  supports_verify = true;
  supports_reconcile = true;
  supports_health = true;
  local_consumer = false;
  local_consumer_kind = LocalConsumerKind.no_consumer;
}

abbrev polled : SourceModeSpec
polled = record {
  requires_state_path = true;
  requires_poll_interval = true;
  requires_cycle_timeout = true;
}

abbrev pushed : SourceModeSpec
pushed = record {
  requires_state_path = false;
  requires_poll_interval = false;
  requires_cycle_timeout = false;
}

-- The source of a driver that polls
abbrev polled_source : DeleteSemantics → ProviderProbeKind → SourceCapabilities
polled_source semantics probe = record {
  requires_credential = true;
  supports_delete = true;
  delete_semantics = semantics;
  probe_kind = probe;
  modes = ("poll", polled) ∷ [];
}

abbrev webhook_source : SourceCapabilities
webhook_source = record {
  requires_credential = false;
  supports_delete = false;
  delete_semantics = DeleteSemantics.unknown;
  probe_kind = ProviderProbeKind.no_probe;
  modes = ("push", pushed) ∷ [];
}

abbrev pub backup_info : DriverInfo
backup_info = record {
  name = "backup";
  auth = no_auth;
  source = none;
  sink = some (local_sink true LocalConsumerKind.backup);
}

abbrev pub discard_info : DriverInfo
discard_info = record {
  name = "discard";
  auth = no_auth;
  source = none;
  sink = some (local_sink false LocalConsumerKind.discard);
}

abbrev pub ews_info : DriverInfo
ews_info = record {
  name = "ews";
  auth = record { graph = true; ews = true; imap = false };
  source = none;
  sink = some remote_sink;
}

abbrev pub file_info : DriverInfo
file_info = record {
  name = "file";
  auth = no_auth;
  source = none;
  sink = some (local_sink true LocalConsumerKind.file);
}

abbrev pub graph_info : DriverInfo
graph_info = record {
  name = "graph";
  auth = record { graph = true; ews = false; imap = false };
  source = some (polled_source DeleteSemantics.soft ProviderProbeKind.probe_identity);
  sink = some remote_sink;
}

abbrev pub imap_info : DriverInfo
imap_info = record {
  name = "imap";
  auth = record { graph = false; ews = false; imap = true };
  source = some (polled_source DeleteSemantics.hard ProviderProbeKind.probe_folder_list);
  sink = some remote_sink;
}

abbrev pub webhook_info : DriverInfo
webhook_info = record {
  name = "webhook";
  auth = no_auth;
  source = some webhook_source;
  sink = none;
}

-- Info of each driver
unfoldable pub info : Driver → DriverInfo
info backup = backup_info
info discard = discard_info
info ews = ews_info
info file = file_info
info graph = graph_info
info imap = imap_info
info webhook = webhook_info

-- registeredDrivers
abbrev pub registered_drivers : Assoc Driver
registered_drivers =
    ("backup", backup)
    ∷ ("discard", discard)
    ∷ ("ews", ews)
    ∷ ("file", file)
    ∷ ("graph", graph)
    ∷ ("imap", imap)
    ∷ ("webhook", webhook)
    ∷ []

unfoldable pub lookup_driver : String → Option Driver
unfolding lookup normalize_driver_name
lookup_driver name = lookup (normalize_driver_name name) registered_drivers

unfoldable pub lookup_driver_info : String → Option DriverInfo
unfolding lookup_driver info
lookup_driver_info name = elim (lookup_driver name) [ none ↦ none | some d ↦ some (info d) ]

abbrev source_of : Option Driver → Option SourceCapabilities
source_of none = none
source_of (some d) = (info d).source

abbrev sink_of : Option Driver → Option SinkCapabilities
sink_of none = none
sink_of (some d) = (info d).sink

-- LookupSourceInfo and LookupSinkInfo
unfoldable pub lookup_source_info : String → Option SourceCapabilities
unfolding lookup_driver info
lookup_source_info name = source_of (lookup_driver name)

unfoldable pub lookup_sink_info : String → Option SinkCapabilities
unfolding lookup_driver info
lookup_sink_info name = sink_of (lookup_driver name)

-- AllDrivers: the names are in their sorted order already.
unfoldable pub all_drivers : List Driver
all_drivers = map (λ e. e.1) registered_drivers

unfoldable pub all_driver_infos : List DriverInfo
unfolding all_drivers info
all_driver_infos = map info all_drivers

abbrev pub checked : {A : Type 0} → Result A → Result (Unit {0})
checked (ok a) = ok tt
checked (err e) = err e

-- ValidateSourceConfig: of the drivers only the webhook is a SourceConfigurator
unfoldable pub validate_source_driver : WebhookLibrary → Source → Option Driver → Result (Unit {0})
unfolding validate_source_config
validate_source_driver lib s none =
    err (failed ("source " +++ s.name +++ " 不支持 driver: " +++ s.driver))
validate_source_driver lib s (some webhook) = checked (validate_source_config lib s)
validate_source_driver lib s (some d) = ok tt

unfoldable pub validate_driver_source : WebhookLibrary → Source → Result (Unit {0})
unfolding validate_source_driver lookup_driver
validate_driver_source lib s = validate_source_driver lib s (lookup_driver s.driver)

-- ValidateSinkConfig: no driver is a SinkValidator
unfoldable pub validate_driver_sink : Sink → Result (Unit {0})
unfolding lookup_driver
validate_driver_sink s = elim (lookup_driver s.driver) [
  | none ↦ err (failed ("sink " +++ s.name +++ " 不支持 driver: " +++ s.driver))
  | some d ↦ ok tt
]
