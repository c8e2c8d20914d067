-- ===== src/Provider/Capabilities.antt =====
-- capabilities.go, drivers.go: what a driver says of itself.
use mime_crypt.Base.{String, Bool, Option}
use mime_crypt.Base.Text.{trim_space, to_lower}
use mime_crypt.Base.Assoc.{Assoc, lookup}
use mime_crypt.Mailflow.Types.{DeleteSemantics}

pub record AuthRequirement : Type 0 where
  pub graph : Bool
  pub ews : Bool
  pub imap : Bool

-- The constants of ProviderProbeKind; `no_probe` is the empty text.
pub data ProviderProbeKind : Type 0 where
  no_probe probe_identity probe_folder_list : ProviderProbeKind

pub data LocalConsumerKind : Type 0 where
  no_consumer discard backup file : LocalConsumerKind

pub record SourceModeSpec : Type 0 where
  pub requires_state_path : Bool
  pub requires_poll_interval : Bool
  pub requires_cycle_timeout : Bool

pub record SourceCapabilities : Type 0 where
  pub requires_credential : Bool
  pub supports_delete : Bool
  pub delete_semantics : DeleteSemantics
  pub probe_kind : ProviderProbeKind
  pub modes : Assoc SourceModeSpec

pub record SinkCapabilities : Type 0 where
  pub requires_credential : Bool
  pub requires_output_dir : Bool
  pub supports_verify : Bool
  pub supports_reconcile : Bool
  pub supports_health : Bool
  pub local_consumer : Bool
  pub local_consumer_kind : LocalConsumerKind

pub record DriverInfo : Type 0 where
  pub name : String
  pub auth : AuthRequirement
  pub source : Option SourceCapabilities
  pub sink : Option SinkCapabilities

-- NormalizeDriverName, and normalizeDriver of registry.go
unfoldable pub normalize_driver_name : String → String
unfolding to_lower trim_space
normalize_driver_name name = to_lower (trim_space name)

-- SourceCapabilities.ModeSpec
unfoldable pub mode_spec : SourceCapabilities → String → Option SourceModeSpec
unfolding lookup normalize_driver_name
mode_spec s mode = lookup (normalize_driver_name mode) s.modes
