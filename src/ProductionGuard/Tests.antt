-- ===== src/ProductionGuard/Tests.antt =====
-- An environment that passes the check of apps/api/src/production-guard.ts, and some that do not.
use hostingservices.Common.{
  String, Option, none, some, List, [], ◌∷◌, ◌≡◌, refl, str_eq, insert, lookup, if◌then◌else◌,
}
use hostingservices.ProductionGuard.{
  throws, returns, Url, required, assert_public_url, check_engine, check_github, check_webhook,
  check_all, assert_production_configuration,
}
use hostingservices.ProductionGuard.Guarantees.{IsConfigured, production_IsConfigured}

abbrev same : String → String
same v = v

-- A parser that knows the URLs of the tests.
abbrev parse : String → Option Url
parse v =
    if str_eq v "https://nexus.example"
    then some ("https:", "nexus.example")
    else if str_eq v "https://localhost"
    then some ("https:", "localhost")
    else none

abbrev variables : List (String × String)
variables =
    ("NODE_ENV", "production")
    ∷ ("DATABASE_URL", "postgres://db")
    ∷ ("AUTH_SECRET", "a-secret")
    ∷ ("ENGINE_INTERNAL_SECRET", "b-secret")
    ∷ ("ENGINE_CALLBACK_SECRET", "c-secret")
    ∷ ("SECRETS_ENCRYPTION_KEY", "d-secret")
    ∷ ("WEB_URL", "https://nexus.example")
    ∷ ("PUBLIC_API_URL", "https://nexus.example")
    ∷ ("ENGINE_URL", "http://engine:4100")
    ∷ []

abbrev with_variables : List (String × String) → String → Option String
with_variables vs name = lookup name vs

passes : assert_production_configuration same same parse (with_variables variables) ≡ returns tt
unfolding assert_production_configuration check_all required assert_public_url check_engine
    check_github check_webhook lookup
passes = refl

default_is_refused :
    assert_production_configuration same same parse
      (with_variables (insert "AUTH_SECRET" "local-auth-secret-change-before-production" variables))
    ≡ throws "AUTH_SECRET is using an insecure development default"
unfolding assert_production_configuration check_all required assert_public_url check_engine
    check_github check_webhook lookup insert
default_is_refused = refl

local_is_refused :
    assert_production_configuration same same parse
      (with_variables (insert "WEB_URL" "https://localhost" variables))
    ≡ throws "WEB_URL cannot point to localhost in production"
unfolding assert_production_configuration check_all required assert_public_url check_engine
    check_github check_webhook lookup insert
local_is_refused = refl

node_env : with_variables variables "NODE_ENV" ≡ some "production"
unfolding lookup
node_env = refl

production_IsConfigured_example : IsConfigured same same parse (with_variables variables)
production_IsConfigured_example =
    production_IsConfigured same same parse (with_variables variables) node_env passes
