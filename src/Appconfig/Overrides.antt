-- ===== src/Appconfig/Overrides.antt =====
-- state_layout.go and credential_config.go: the configuration with another state directory, and
-- with a credential's settings.
use mime_crypt.Base.{
  String, Bool, Option, none, some, List, [], ◌∷◌, ◌&&◌, ◌||◌, not, if◌then◌else◌,
}
use mime_crypt.Base.Text.{◌==◌, trim_space, is_blank, is_empty}
use mime_crypt.Base.Lists.{is_nil}
use mime_crypt.Appconfig.Topology.{Credential}
use mime_crypt.Appconfig.Platform.{Platform}
use mime_crypt.Appconfig.Names.{sanitize_file_component}
use mime_crypt.Appconfig.Config.{Config}

-- A setting that is not blank, trimmed, in place of the old one.
abbrev pub overridden : String → String → String
overridden value old = if is_blank value then old else trim_space value

-- A list of scopes that is set or not empty, in place of the old one.
abbrev pub scopes_or : Bool → List String → List String → List String
scopes_or is_set value old = if is_set || not (is_nil value) then value else old

module _ (os : Platform) where
  -- DefaultAuditLogPath
  abbrev pub default_audit_log_path : String → String
  default_audit_log_path dir = os.join (dir ∷ "audit.jsonl" ∷ [])

  -- Config.StateLayout, as the layout's root
  unfoldable pub state_layout : Config → String
  unfolding trim_space is_blank
  state_layout c =
      if is_blank c.mail.sync.state_dir
      then trim_space c.auth.state_dir
      else trim_space c.mail.sync.state_dir

  -- StateLayout.AuditLogPath
  unfoldable pub audit_log_path_of : String → String
  unfolding is_blank trim_space
  audit_log_path_of root = if is_blank root then "" else default_audit_log_path (trim_space root)

  -- The audit log that goes with a new state directory
  unfoldable pub moved_audit_log : String → String → String → String
  unfolding trim_space is_empty
  moved_audit_log dir old default_path =
      if is_empty (trim_space old) || trim_space old == default_path
      then default_audit_log_path dir
      else if not (os.is_abs (trim_space old)) && trim_space old == os.base default_path
      then os.join (dir ∷ trim_space old ∷ [])
      else old

  unfoldable pub with_state_dir : String → Config → Config
  unfolding state_layout audit_log_path_of moved_audit_log is_blank trim_space
  with_state_dir dir c = if is_blank dir then c else record c {
    auth = record c.auth { state_dir = trim_space dir };
    mail = record c.mail {
      sync = record c.mail.sync { state_dir = trim_space dir };
      pipeline = record c.mail.pipeline {
        audit_log_path =
            moved_audit_log (trim_space dir) c.mail.pipeline.audit_log_path
              (audit_log_path_of (state_layout c));
      };
    };
  }

  unfoldable pub default_credential_state_dir : String → String → String
  unfolding sanitize_file_component trim_space is_blank
  default_credential_state_dir dir name =
      if is_blank dir
      then ""
      else if is_blank name || trim_space name == "default"
      then trim_space dir
      else os.join (
          trim_space dir
          ∷ "credentials"
          ∷ sanitize_file_component os.is_letter_or_digit (trim_space name)
          ∷ [])

  -- Credential.ResolvedStateDir
  unfoldable pub resolved_state_dir : Credential → String → String → String
  unfolding default_credential_state_dir is_blank trim_space
  resolved_state_dir c dir name =
      if is_blank c.state_dir then default_credential_state_dir dir name else trim_space c.state_dir

  -- The first step of WithCredential: the credential's state directory, if there is one
  unfoldable pub placed_config : String → Config → Config
  unfolding with_state_dir is_empty
  placed_config dir c = if is_empty dir then c else with_state_dir dir c

  abbrev pub with_settings : Credential → Config → Config
  with_settings k c = record c {
    auth = record c.auth {
      client_id = overridden k.client_id c.auth.client_id;
      tenant = overridden k.tenant c.auth.tenant;
      authority_base_url = overridden k.authority_base_url c.auth.authority_base_url;
      token_store = overridden k.token_store c.auth.token_store;
      keyring_service = overridden k.keyring_service c.auth.keyring_service;
      graph_scopes = scopes_or k.graph_scopes_set k.graph_scopes c.auth.graph_scopes;
      ews_scopes = scopes_or k.ews_scopes_set k.ews_scopes c.auth.ews_scopes;
      imap_scopes = scopes_or k.imap_scopes_set k.imap_scopes c.auth.imap_scopes;
    };
    mail = record c.mail {
      client = record c.mail.client {
        imap_username = overridden k.imap_username c.mail.client.imap_username;
      };
    };
  }

  unfoldable pub with_credential : String → Credential → Config → Config
  unfolding resolved_state_dir placed_config is_blank trim_space
  with_credential name k c =
      with_settings k (placed_config (resolved_state_dir k c.auth.state_dir name) c)

-- LocalConfig; `none` where the section "microsoft" is missing.
pub record MicrosoftLocalConfig : Type 0 where
  pub client_id : String
  pub tenant : String
  pub authority_base_url : String
  pub imap_username : String

pub record LocalConfig : Type 0 where
  pub runtime_name : String
  pub auth_profile : String
  pub imap_username : String
  pub microsoft : Option MicrosoftLocalConfig

abbrev pub with_imap_username : String → Config → Config
with_imap_username name c = record c {
  mail = record c.mail {
    client = record c.mail.client { imap_username = overridden name c.mail.client.imap_username };
  };
}

abbrev pub with_microsoft : Option MicrosoftLocalConfig → Config → Config
with_microsoft none c = c
with_microsoft (some m) c = with_imap_username m.imap_username (record c {
  auth = record c.auth {
    client_id = overridden m.client_id c.auth.client_id;
    tenant = overridden m.tenant c.auth.tenant;
    authority_base_url = overridden m.authority_base_url c.auth.authority_base_url;
  };
})

unfoldable pub with_local_config : LocalConfig → Config → Config
unfolding is_blank trim_space
with_local_config l c = with_microsoft l.microsoft (with_imap_username l.imap_username c)
