-- ===== src/ProductionGuard/Guarantees.antt =====
-- What an API that starts in production has in its environment: apps/api/src/production-guard.ts.
use Prim.Native.String.{len}
use hostingservices.Common.{
  ◌≤◌, String, true, false, Option, none, some, ◌≡◌, ◌≢◌, refl, ap, ◌∙◌, sym, arith, str_eq, eq_iff,
}
use hostingservices.ProductionGuard.{
  Checked, throws, returns, and_then, is_insecure, is_set, Url, trimmed, required, is_local,
  check_url, assert_public_url, is_http, check_engine, check_github, check_webhook, check_all,
  assert_production_configuration,
}

and_then-returns :
    {A B : Type 0} (m : Checked A) (k : A → Checked B) {b : B}
    → and_then m k ≡ returns b
    → (a : A) × (m ≡ returns a) × (k a ≡ returns b)
and_then-returns (throws e) k h = cc
and_then-returns (returns a) k h = (a, refl, h)

module _ (trim lower : String → String) (parse_url : String → Option Url)
    (env : String → Option String) where
  abbrev value_of : String → String
  value_of name = trimmed trim lower parse_url env (env name)

  -- The variable is set, not only to white space, and not to a default of the development.
  pub record IsRequired (name : String) : Type 0 where
    pub given : value_of name ≢ ""
    pub secure : is_insecure (value_of name) ≡ false

  -- The variable is an https URL of a host that is not the local one.
  pub record IsPublic (name : String) : Type 0 where
    pub is_required : IsRequired name
    pub host : String
    pub parsed : parse_url (value_of name) ≡ some ("https:", host)
    pub remote : is_local trim lower parse_url env host ≡ false

  required_sound :
      (name : String) {v : String}
      → required trim lower parse_url env name ≡ returns v
      → IsRequired name × (value_of name ≡ v)
  unfolding required
  required_sound name h = (
    record { given = λ e. ground (arith, eq_iff (value_of name) ""); secure = ground arith },
    ground arith,
  )

  check_url_sound :
      (name value : String) (u : Option Url) {v : String}
      → check_url trim lower parse_url env name value u ≡ returns v
      → (host : String) × (u ≡ some ("https:", host))
        × (is_local trim lower parse_url env host ≡ false)
  check_url_sound name value none h = cc
  check_url_sound name value (some (protocol, host)) h =
      let e : str_eq protocol "https:" ≡ true = ground arith in
      (host, ap (λ p. some (p, host)) ((eq_iff protocol "https:").0 e), ground arith)

  assert_public_url_sound :
      (name : String) {v : String}
      → assert_public_url trim lower parse_url env name ≡ returns v
      → IsPublic name
  unfolding assert_public_url
  assert_public_url_sound name h =
      let (v, r, k) = and_then-returns (required trim lower parse_url env name) _ h in
      let q = required_sound name r in
      let (host, p, l) = check_url_sound name v (parse_url v) k in
      record { is_required = q.0; host = host; parsed = ap parse_url q.1 ∙ p; remote = l }

  -- What `assertProductionConfiguration` promises.
  pub record IsConfigured : Type 0 where
    pub database : IsRequired "DATABASE_URL"
    pub auth : IsRequired "AUTH_SECRET"
    pub internal : IsRequired "ENGINE_INTERNAL_SECRET"
    pub callback : IsRequired "ENGINE_CALLBACK_SECRET"
    pub encryption : IsRequired "SECRETS_ENCRYPTION_KEY"
    pub web : IsPublic "WEB_URL"
    pub api : IsPublic "PUBLIC_API_URL"
    pub engine : IsRequired "ENGINE_URL"
    pub engine_http : is_http trim lower parse_url env (value_of "ENGINE_URL") ≡ true
    pub github : is_set (env "GITHUB_CLIENT_ID") ≡ is_set (env "GITHUB_CLIENT_SECRET")
    pub webhook : (v : String) → env "GITHUB_WEBHOOK_SECRET" ≡ some v → v ≢ "" → 32 ≤ len v

  check_engine_sound :
      (v : String)
      → check_engine trim lower parse_url env v ≡ returns tt
      → is_http trim lower parse_url env v ≡ true
  unfolding check_engine
  check_engine_sound v h = ground arith

  check_github_sound :
      check_github trim lower parse_url env ≡ returns tt
      → is_set (env "GITHUB_CLIENT_ID") ≡ is_set (env "GITHUB_CLIENT_SECRET")
  unfolding check_github
  check_github_sound h = ground arith

  check_webhook_sound :
      (o : Option String)
      → check_webhook trim lower parse_url env o ≡ returns tt
      → (v : String) → o ≡ some v
      → v ≢ ""
      → 32 ≤ len v
  unfolding check_webhook
  check_webhook_sound none h v e n = cc
  check_webhook_sound (some w) h v e n = ground (arith, eq_iff w "")

  check_all_sound : check_all trim lower parse_url env ≡ returns tt → IsConfigured
  unfolding check_all
  check_all_sound h =
      let ask = required trim lower parse_url env in
      let visit = assert_public_url trim lower parse_url env in
      let (a, ra, ka) = and_then-returns (ask "DATABASE_URL") _ h in
      let (b, rb, kb) = and_then-returns (ask "AUTH_SECRET") _ ka in
      let (c, rc, kc) = and_then-returns (ask "ENGINE_INTERNAL_SECRET") _ kb in
      let (d, rd, kd) = and_then-returns (ask "ENGINE_CALLBACK_SECRET") _ kc in
      let (e, re, ke) = and_then-returns (ask "SECRETS_ENCRYPTION_KEY") _ kd in
      let (f, rf, kf) = and_then-returns (visit "WEB_URL") _ ke in
      let (g, rg, kg) = and_then-returns (visit "PUBLIC_API_URL") _ kf in
      let (v, rv, kv) = and_then-returns (ask "ENGINE_URL") _ kg in
      let (u, ru, ku) = and_then-returns (check_engine trim lower parse_url env v) _ kv in
      let (w, rw', kw) = and_then-returns (check_github trim lower parse_url env) _ ku in
      let engine = required_sound "ENGINE_URL" rv in
      let http = check_engine_sound v ru in
      record {
        database = (required_sound "DATABASE_URL" ra).0;
        auth = (required_sound "AUTH_SECRET" rb).0;
        internal = (required_sound "ENGINE_INTERNAL_SECRET" rc).0;
        callback = (required_sound "ENGINE_CALLBACK_SECRET" rd).0;
        encryption = (required_sound "SECRETS_ENCRYPTION_KEY" re).0;
        web = assert_public_url_sound "WEB_URL" rf;
        api = assert_public_url_sound "PUBLIC_API_URL" rg;
        engine = engine.0;
        engine_http = ap (is_http trim lower parse_url env) engine.1 ∙ http;
        github = check_github_sound rw';
        webhook = check_webhook_sound (env "GITHUB_WEBHOOK_SECRET") kw;
      }

  -- An API that passes the check in production has every secret set, none to a default of the
  -- development; public https URLs that are not local; an engine URL; GitHub's variables in a
  -- pair; and a webhook secret of at least 32 characters, if it has one.
  pub production_IsConfigured :
      env "NODE_ENV" ≡ some "production"
      → assert_production_configuration trim lower parse_url env ≡ returns tt
      → IsConfigured
  unfolding assert_production_configuration
  production_IsConfigured n h =
      let e : assert_production_configuration trim lower parse_url env
          ≡ check_all trim lower parse_url env =
        rw (assert_production_configuration, n) refl in
      check_all_sound (sym e ∙ h)
