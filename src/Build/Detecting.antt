-- ===== src/Build/Detecting.antt =====
-- What apps/engine/src/build.ts finds in a repository (`detectDockerfile`): a Dockerfile, the
-- services of a monorepo, or the runtime for which it writes one, whose text is left out.
-- `lower_case` is `toLowerCase`; paths are joined with a slash.
use Prim.Native.String.{◌++◌ as ◌+++◌, len, slice}
use text.Mathlib.Text.{starts_with}
use hostingservices.Common.{
  ◌-◌, String, Bool, true, false, Option, none, some, List, [], ◌∷◌, ◌&&◌, ◌||◌, not, any, find,
  keep, map, get_or, leb, str_eq, if◌then◌else◌,
}

-- `s.endsWith(suffix)`
abbrev ends_with : String → String → Bool
ends_with s suffix =
    leb (len suffix) (len s) && str_eq (slice s (len s - len suffix) (len s)) suffix

pub record Entry : Type 0 where
  pub name : String
  pub is_directory : Bool
  pub has_dockerfile : Bool

-- The scripts of package.json.
pub record Package : Type 0 where
  pub has_start : Bool
  pub has_build : Bool

-- A cloned repository: the files at its root, its entries in their order, and its package.json.
pub record Checkout : Type 0 where
  pub dir : String
  pub has_file : String → Bool
  pub entries : List Entry
  pub package_json : Option Package

pub record Detection : Type 0 where
  pub generated : Bool
  pub kind : String
  pub context_dir : String
  pub dockerfile_path : String
  pub service : Option String
  pub available_services : Option (List String)

pub data Detected : Type 0 where
  found : Detection → Detected
  no_service : String → List String → Detected
  unsupported : Detected

abbrev pub dockerfile_in : String → String
dockerfile_in dir = dir +++ "/Dockerfile"

abbrev pub is_skipped : String → Bool
is_skipped name = any (str_eq name) ("node_modules" ∷ "dist" ∷ "build" ∷ [])

-- The directories that are looked at and have a Dockerfile.
abbrev pub is_candidate : Entry → Bool
is_candidate e =
    e.is_directory && not (starts_with e.name ".") && not (is_skipped e.name) && e.has_dockerfile

unfoldable pub candidates : Checkout → List Entry
candidates c = keep is_candidate c.entries

abbrev pub name_of : Entry → String
name_of e = e.name

abbrev pub has_name : String → Entry → Bool
has_name name e = str_eq e.name name

abbrev pub service_at : Checkout → List Entry → Entry → Detection
service_at c services e = record {
  generated = false;
  kind = "dockerfile-monorepo";
  context_dir = c.dir +++ ("/" +++ e.name);
  dockerfile_path = dockerfile_in (c.dir +++ ("/" +++ e.name));
  service = some e.name;
  available_services = some (map name_of services);
}

abbrev at_root : Checkout → Bool → String → Detection
at_root c generated kind = record {
  generated = generated;
  kind = kind;
  context_dir = c.dir;
  dockerfile_path = dockerfile_in c.dir;
  service = none;
  available_services = none;
}

abbrev is_preferred : (String → String) → Entry → Bool
is_preferred lower_case e =
    any (str_eq (lower_case e.name)) ("backend" ∷ "api" ∷ "server" ∷ "app" ∷ [])

-- Without a request: the preferred one of several services, or else the first.
abbrev pub default_service : (String → String) → Entry → List Entry → Entry
default_service lower_case e [] = e
default_service lower_case e (x ∷ xs) = get_or (find (is_preferred lower_case) (e ∷ x ∷ xs)) e

-- `requestedService`, if it is not empty.
abbrev pub asked_for : Option String → Option String
asked_for none = none
asked_for (some s) = if str_eq s "" then none else some s

abbrev pub find_service : Checkout → List Entry → String → Option Entry → Detected
find_service c services s none = no_service s (map name_of services)
find_service c services s (some e) = found (service_at c services e)

abbrev pub choose_service :
    (String → String) → Checkout → Entry → List Entry → Option String → Detected
choose_service lower_case c e es none =
    found (service_at c (e ∷ es) (default_service lower_case e es))
choose_service lower_case c e es (some s) = find_service c (e ∷ es) s (find (has_name s) (e ∷ es))

abbrev is_static : Checkout → Package → Bool
is_static c p =
    c.has_file "vite.config.ts"
    || c.has_file "vite.config.js"
    || c.has_file "astro.config.mjs"
    || c.has_file "angular.json"
    || (not p.has_start && p.has_build)

-- The runtimes without package.json, in the order of the tests.
abbrev other_kind : Checkout → Option String
other_kind c =
    if c.has_file "requirements.txt" || c.has_file "pyproject.toml"
    then some "python"
    else if c.has_file "go.mod"
    then some "go"
    else if c.has_file "pom.xml"
    then some "java-maven"
    else if c.has_file "build.gradle" || c.has_file "build.gradle.kts"
    then some "java-gradle"
    else if c.has_file "Cargo.toml"
    then some "rust"
    else if any (λ (e : Entry). ends_with e.name ".csproj") c.entries
    then some "dotnet"
    else if c.has_file "composer.json"
    then some "php"
    else if c.has_file "Gemfile"
    then some "ruby"
    else none

abbrev of_other : Checkout → Option String → Detected
of_other c none = unsupported
of_other c (some kind) = found (at_root c true kind)

abbrev of_package : Checkout → Option Package → Detected
of_package c none = of_other c (other_kind c)
of_package c (some p) = found (at_root c true (if is_static c p then "node-static" else "node"))

abbrev pub of_services : (String → String) → Checkout → Option String → List Entry → Detected
of_services lower_case c requested [] = of_package c c.package_json
of_services lower_case c requested (e ∷ es) = choose_service lower_case c e es (asked_for requested)

-- `detectDockerfile`
unfoldable pub detect_dockerfile : (String → String) → Checkout → Option String → Detected
unfolding candidates
detect_dockerfile lower_case c requested =
    if c.has_file "Dockerfile"
    then found (at_root c false "dockerfile")
    else of_services lower_case c requested (candidates c)
