-- ===== src/Appconfig/Urls/Trusted.antt =====
-- config.go: the URLs that validateTrustedHTTPBaseURL accepts.
use Prim.Native.String.append
use mime_crypt.Base.{
  String, Bool, true, false, List, [], ◌∷◌, ◌≡◌, refl, ap, sym, ◌∙◌, ◌⊎◌, inl, inr, arith, ◌||◌,
  Bool-cases,
}
use mime_crypt.Base.Text.{◌+++◌, ◌==◌, eq_iff, trim_space, to_lower, equal_fold, is_empty, is_blank}
use mime_crypt.Base.Lists.{any}
use mime_crypt.Base.Effect.{ok, err}
use mime_crypt.Mailflow.Errors.{Result}
use mime_crypt.Appconfig.Urls.{
  Url, Net, has_suffix, trusts, matches_trusted_host, is_loopback_host, check_url, check_parsed,
  validate_trusted_http_base_url,
}

abbrev pub AnyOf : (String → Type 0) → List String → Type 0
AnyOf P [] = ⊥
AnyOf P (s ∷ rest) = P s ⊎ AnyOf P rest

-- The host is the domain, or a name below it.
abbrev pub IsWithin : String → String → Type 0
IsWithin host domain = (host ≡ domain) ⊎ ((below : String) × (host ≡ below +++ ("." +++ domain)))

empty-eq : (s : String) → is_empty s ≡ true → s ≡ String.[]
unfolding is_empty
empty-eq String.[] h = refl
empty-eq (String.◌∷◌ c s) h = cc

or-cases : (a b : Bool) → (a || b) ≡ true → (a ≡ true) ⊎ (b ≡ true)
or-cases true b h = inl refl
or-cases false b h = inr h

suffix_split : (t s : String) → has_suffix t s ≡ true → (below : String) × (s ≡ below +++ t)
unfolding has_suffix
suffix_split t String.[] h = ("", sym (empty-eq t h) ∙ sym (append.nil t))
suffix_split t (String.◌∷◌ c s) h = elim (or-cases (String.◌∷◌ c s == t) (has_suffix t s) h) [
  | inl same ↦ ("", (eq_iff (String.◌∷◌ c s) t).0 same ∙ sym (append.nil t))
  | inr later ↦
      let (below, e) = suffix_split t s later in
      (String.◌∷◌ c below, ap (λ r. String.◌∷◌ c r) e ∙ sym (append.cons c below t))
]

abbrev domain : String → String
domain trusted = to_lower (trim_space trusted)

trusts-IsWithin :
    (host trusted : String) → trusts host trusted ≡ true → IsWithin host (domain trusted)
trusts-IsWithin host trusted h =
    elim (or-cases (host == domain trusted) (has_suffix ("." +++ domain trusted) host) h) [
      | inl same ↦ inl ((eq_iff host (domain trusted)).0 same)
      | inr below ↦ inr (suffix_split ("." +++ domain trusted) host below)
    ]

any-AnyOf :
    (host : String) (hosts : List String)
    → any (trusts host) hosts ≡ true
    → AnyOf (λ trusted. IsWithin host (domain trusted)) hosts
unfolding any
any-AnyOf host [] h = cc
any-AnyOf host (t ∷ hosts) h = elim (or-cases (trusts host t) (any (trusts host) hosts) h) [
  | inl yes_host ↦ inl (trusts-IsWithin host t yes_host)
  | inr later ↦ inr (any-AnyOf host hosts later)
]

module _ (net : Net) where
  -- The name localhost in whatever case, or a loopback address.
  abbrev pub IsLoopback : String → Type 0
  IsLoopback host = (equal_fold host "localhost" ≡ true) ⊎ (net.is_loopback_ip host ≡ true)

  IsLoopback-IsLoopback :
      (host : String) → is_loopback_host net host ≡ true → IsLoopback (trim_space host)
  unfolding is_loopback_host
  IsLoopback-IsLoopback host h =
      or-cases (equal_fold (trim_space host) "localhost") (net.is_loopback_ip (trim_space host)) h

  -- A loopback host by http or https, or a trusted host by https.
  abbrev pub IsTrusted : List String → Url → Type 0
  IsTrusted hosts u =
      (u.has_user ≡ false)
      × (is_empty u.raw_query ≡ true)
      × (is_empty u.fragment ≡ true)
      × (is_blank u.host ≡ false)
      × ((IsLoopback (trim_space (trim_space u.host))
            × ((to_lower (trim_space u.scheme) ≡ "http")
                ⊎ (to_lower (trim_space u.scheme) ≡ "https")))
          ⊎ ((equal_fold u.scheme "https" ≡ true)
              × AnyOf
                  (λ trusted. IsWithin (to_lower (trim_space (trim_space u.host))) (domain trusted))
                  hosts))

  abbrev Accepts : Result (Unit {0}) → Type 0 → Type 0
  Accepts r P = r ≡ ok tt → P

  loopback_scheme :
      (s : String) → (s == "http" || s == "https") ≡ true → (s ≡ "http") ⊎ (s ≡ "https")
  loopback_scheme s h = elim (or-cases (s == "http") (s == "https") h) [
    | inl a ↦ inl ((eq_iff s "http").0 a)
    | inr b ↦ inr ((eq_iff s "https").0 b)
  ]

  check_url-IsTrusted :
      (label : String) (hosts : List String) (u : Url)
      → check_url net label hosts u ≡ ok tt
      → IsTrusted hosts u
  unfolding check_url matches_trusted_host
  check_url-IsTrusted label hosts u h =
      let plain : (u.has_user ≡ false)
          × (is_empty u.raw_query ≡ true)
          × (is_empty u.fragment ≡ true)
          × (is_blank u.host ≡ false) =
        ground arith in
      elim (Bool-cases (is_loopback_host net (trim_space u.host))) [
        | inl local ↦ (
          plain.0,
          plain.1,
          plain.2,
          plain.3,
          inl (
            IsLoopback-IsLoopback (trim_space u.host) local,
            loopback_scheme (to_lower (trim_space u.scheme)) (ground arith),
          ),
        )
        | inr remote ↦ (
          plain.0,
          plain.1,
          plain.2,
          plain.3,
          inr (
            ground arith,
            any-AnyOf (to_lower (trim_space (trim_space u.host))) hosts (ground arith),
          ),
        )
      ]

  parsed_only :
      (label : String) (hosts : List String) (r : Result Url)
      → check_parsed net label hosts r ≡ ok tt
      → (u : Url) × (r ≡ ok u) × IsTrusted hosts u
  unfolding check_parsed
  parsed_only label hosts (ok u) h = (u, refl, check_url-IsTrusted label hosts u h)
  parsed_only label hosts (err e) h = cc

  -- A base URL that the configuration accepts parses as a URL with no user, no query and no fragment.
  -- It has a host, which is localhost or a loopback address and is reached by http or https, or whose
  -- lower case, as strings.ToLower gives it, is that of a trusted host or of a name below one, and
  -- which is reached by https.
  pub validate_trusted_http_base_url-IsTrusted :
      (raw label : String) (hosts : List String)
      → validate_trusted_http_base_url net raw label hosts ≡ ok tt
      → (u : Url) × (net.parse (trim_space raw) ≡ ok u) × IsTrusted hosts u
  unfolding validate_trusted_http_base_url
  validate_trusted_http_base_url-IsTrusted raw label hosts h =
      parsed_only label hosts (net.parse (trim_space raw)) h
