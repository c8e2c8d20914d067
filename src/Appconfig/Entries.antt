-- ===== src/Appconfig/Entries.antt =====
-- topology.go: the credentials, sources and sinks that their validation accepts.
use mime_crypt.Base.{◌↔◌, String, true, false, ◌≡◌, ◌∙◌, ap, arith}
use mime_crypt.Base.Text.{eq_iff, trim_space, is_blank, is_empty}
use mime_crypt.Base.Assoc.{Assoc}
use mime_crypt.Base.Effect.{ok}
use mime_crypt.Appconfig.Topology.{
  Credential, Source, Sink, is_known_kind, refers, validate_credential, validate_source,
  validate_sink,
}

-- An entry's own name is not blank and agrees with its key.
abbrev pub IsNamed : String → String → Type 0
IsNamed key own = (is_blank key ≡ false) × (trim_space own ≡ trim_space key)

abbrev pub IsValidCredential : String → Credential → Type 0
IsValidCredential key c =
    IsNamed key c.name × (is_blank c.kind ≡ false) × (is_known_kind c.kind ≡ true)

abbrev pub IsValidSource : Assoc Credential → String → Source → Type 0
IsValidSource credentials key s =
    IsNamed key s.name
    × (is_blank s.driver ≡ false)
    × (is_blank s.mode ≡ false)
    × (refers s.credential_ref credentials ≡ true)

abbrev pub IsValidSink : Assoc Credential → String → Sink → Type 0
IsValidSink credentials key s =
    IsNamed key s.name × (is_blank s.driver ≡ false) × (refers s.credential_ref credentials ≡ true)

pub named-is_blank : (key own : String) → IsNamed key own → is_blank own ≡ false
unfolding is_blank
named-is_blank key own h = ap is_empty (h.1) ∙ (h.0)

pub validate_credential_iff :
    (key : String) (c : Credential) → (validate_credential key c ≡ ok tt) ↔ IsValidCredential key c
unfolding validate_credential
validate_credential_iff key c = (
  (λ h. ground (arith, eq_iff (trim_space c.name) (trim_space key))),
  (λ v.
      let full = named-is_blank key c.name v.0 in
      ground (arith, eq_iff (trim_space c.name) (trim_space key))),
)

pub validate_source_iff :
    (credentials : Assoc Credential) (key : String) (s : Source)
    → (validate_source credentials key s ≡ ok tt) ↔ IsValidSource credentials key s
unfolding validate_source
validate_source_iff credentials key s = (
  (λ h. ground (arith, eq_iff (trim_space s.name) (trim_space key))),
  (λ v.
      let full = named-is_blank key s.name v.0 in
      ground (arith, eq_iff (trim_space s.name) (trim_space key))),
)

pub validate_sink_iff :
    (credentials : Assoc Credential) (key : String) (s : Sink)
    → (validate_sink credentials key s ≡ ok tt) ↔ IsValidSink credentials key s
unfolding validate_sink
validate_sink_iff credentials key s = (
  (λ h. ground (arith, eq_iff (trim_space s.name) (trim_space key))),
  (λ v.
      let full = named-is_blank key s.name v.0 in
      ground (arith, eq_iff (trim_space s.name) (trim_space key))),
)
