-- ===== src/Appconfig/Config.antt =====
-- config.go: the configuration and its validation.
use mime_crypt.Base.{String, Bool, List, ◌&&◌, ◌||◌, not, if◌then◌else◌}
use mime_crypt.Base.Text.{◌+++◌, ◌==◌, trim_space, to_lower, is_blank}
use mime_crypt.Base.Lists.{is_nil}
use mime_crypt.Base.Effect.{ok, err}
use mime_crypt.Mailflow.Errors.{Result, failed}
use mime_crypt.Appconfig.Validate.{after}
use mime_crypt.Appconfig.Urls.{
  Net, validate_trusted_http_base_url, trusted_authority_hosts, trusted_graph_hosts,
  trusted_ews_hosts,
}

pub record AuthConfig : Type 0 where
  pub client_id : String
  pub tenant : String
  pub authority_base_url : String
  pub graph_scopes : List String
  pub ews_scopes : List String
  pub imap_scopes : List String
  pub state_dir : String
  pub token_store : String
  pub keyring_service : String

pub record MailClientConfig : Type 0 where
  pub graph_base_url : String
  pub ews_base_url : String
  pub imap_addr : String
  pub imap_username : String

pub record MailPipelineConfig : Type 0 where
  pub output_dir : String
  pub work_dir : String
  pub protect_subject : Bool
  pub backup_dir : String
  pub backup_key_id : String
  pub audit_log_path : String
  pub audit_stdout : Bool

pub record MailSyncConfig : Type 0 where
  pub state_dir : String

pub record MailConfig : Type 0 where
  pub client : MailClientConfig
  pub pipeline : MailPipelineConfig
  pub sync : MailSyncConfig

pub record Config : Type 0 where
  pub topology_path : String
  pub auth : AuthConfig
  pub mail : MailConfig

unfoldable pub token_store_mode : AuthConfig → String
unfolding to_lower trim_space is_blank
token_store_mode c = if is_blank c.token_store then "file" else to_lower (trim_space c.token_store)

unfoldable pub keyring_service_name : AuthConfig → String
unfolding trim_space is_blank
keyring_service_name c =
    if is_blank c.keyring_service then "mimecrypt" else trim_space c.keyring_service

unfoldable pub has_audit_output : MailPipelineConfig → Bool
unfolding is_blank
has_audit_output c = not (is_blank c.audit_log_path) || c.audit_stdout

-- The switch over the token store, and the test of the scopes
unfoldable pub check_token_store : AuthConfig → Result (Unit {0})
unfolding token_store_mode keyring_service_name is_blank
check_token_store c =
    if token_store_mode c == "file"
    then ok tt
    else if token_store_mode c == "keyring"
    then if is_blank (keyring_service_name c) then err (failed "keyring service 不能为空") else ok tt
    else err (failed ("token store 不支持: " +++ c.token_store))

unfoldable pub check_scopes : AuthConfig → Result (Unit {0})
check_scopes c =
    if is_nil c.graph_scopes && is_nil c.ews_scopes && is_nil c.imap_scopes
    then err (failed "至少需要一组 protocol scopes")
    else ok tt

module _ (net : Net) where
  -- AuthConfig.Validate
  unfoldable pub validate_auth : AuthConfig → Result (Unit {0})
  unfolding validate_trusted_http_base_url check_token_store check_scopes is_blank
  validate_auth c =
      if is_blank c.client_id
      then err (failed "缺少必需配置: MIMECRYPT_CLIENT_ID")
      else if is_blank c.tenant
      then err (failed "tenant 不能为空")
      else if is_blank c.authority_base_url
      then err (failed "authority base URL 不能为空")
      else after
          (validate_trusted_http_base_url net c.authority_base_url "authority base URL"
            trusted_authority_hosts)
          (if is_blank c.state_dir
            then err (failed "state dir 不能为空")
            else after (check_token_store c) (check_scopes c))

  -- MailClientConfig.Validate and ValidateEWS
  unfoldable pub validate_client : MailClientConfig → Result (Unit {0})
  unfolding validate_trusted_http_base_url is_blank
  validate_client c =
      if is_blank c.graph_base_url
      then err (failed "graph base URL 不能为空")
      else validate_trusted_http_base_url net c.graph_base_url "graph base URL" trusted_graph_hosts

  unfoldable pub validate_ews : MailClientConfig → Result (Unit {0})
  unfolding validate_trusted_http_base_url is_blank
  validate_ews c =
      if is_blank c.ews_base_url
      then err (failed "ews base URL 不能为空")
      else validate_trusted_http_base_url net c.ews_base_url "ews base URL" trusted_ews_hosts

unfoldable pub validate_imap : MailClientConfig → Result (Unit {0})
unfolding is_blank
validate_imap c =
    if is_blank c.imap_addr
    then err (failed "imap addr 不能为空")
    else if is_blank c.imap_username
    then err (failed "imap username 不能为空")
    else ok tt

unfoldable pub validate_pipeline_base : MailConfig → Result (Unit {0})
unfolding has_audit_output is_blank
validate_pipeline_base c =
    if is_blank c.sync.state_dir
    then err (failed "state dir 不能为空")
    else if is_blank c.pipeline.backup_dir
    then err (failed "backup dir 不能为空")
    else if not (has_audit_output c.pipeline)
    then err (failed "至少需要一个审计输出：audit log path 或 audit stdout")
    else ok tt
