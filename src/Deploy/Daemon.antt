-- ===== src/Deploy/Daemon.antt =====
-- The Docker daemon and the router's files as the state of apps/engine/src/deploy.ts, effects that
-- may throw, and the calls that the deployment makes.
use hostingservices.Common.Texts.{Text, text}
use hostingservices.Router.{safe, write_file}
use hostingservices.Common.{
  ℕ, String, Bool, true, false, Option, List, [], ◌∷◌, ◌++◌, not, str_eq, keep, if◌then◌else◌, map,
  ◌≡◌, ◌⊎◌, inl, inr, refl,
}
use hostingservices.Deploy.Binds.{BindError}
use hostingservices.Health.{Result}

-- A container of the daemon; `published` is the host port that is asked for, 0 for any.
pub record Container : Type 0 where
  pub name : String
  pub runtime : String
  pub image : String
  pub running : Bool
  pub published : Option ℕ

-- The containers, and the router's files by name, each with the containers that its traffic goes
-- to.
pub record World : Type 0 where
  pub containers : List Container
  pub routes : List (Text × List String)

pub data Error : Type 0 where
  list_calls network_calls create_calls start_calls inspect_calls : Error
  switch_calls rename_calls : Error
  bind_error : BindError → Error
  unhealthy : Result → Error

pub data Outcome (A : Type 0) : Type 0 where
  ok : A → World → Outcome A
  throw : Error → World → Outcome A

abbrev pub Effect : Type 0 → Type 0
Effect A = World → Outcome A

abbrev pub continue : {A B : Type 0} → Outcome A → (A → Effect B) → Outcome B
continue (ok a v) f = f a v
continue (throw e v) f = throw e v

infixl 5 ◌>>=◌ ◌>>◌
abbrev pub ◌>>=◌ : {A B : Type 0} → Effect A → (A → Effect B) → Effect B
◌>>=◌ m f w = continue (m w) f

abbrev pub ◌>>◌ : {B : Type 0} → Effect (Unit {0}) → Effect B → Effect B
m >> k = m >>= λ _. k

abbrev pub pure : {A : Type 0} → A → Effect A
pure a w = ok a w

abbrev pub raise : {A : Type 0} → Error → Effect A
raise e w = throw e w

abbrev pub clean : {A : Type 0} → (World → World) → Outcome A → Outcome A
clean cleanup (ok a v) = ok a v
clean cleanup (throw e v) = throw e (cleanup v)

-- `catch (error) { cleanup; throw error; }`, with a cleanup that does not throw.
abbrev pub on_error : {A : Type 0} → (World → World) → Effect A → Effect A
on_error cleanup m w = clean cleanup (m w)

-- What becomes of a container that is removed, `stop` and `remove` each failing or not.
pub data Removal : Type 0 where
  gone only_stopped untouched : Removal

-- Which of the calls of one deployment succeed.
pub record Faults : Type 0 where
  pub lists : Bool
  pub networks : Bool
  pub creates : Bool
  pub starts : Bool
  pub inspects : Bool
  pub switches : Bool
  pub renames : Bool
  pub removal : String → Removal
  pub assigned_port : ℕ

-- A call that succeeds or throws without effect.
abbrev pub attempt : Bool → Error → Effect (Unit {0})
attempt true e w = ok tt w
attempt false e w = throw e w

unfoldable pub create_container : Bool → Container → Effect (Unit {0})
create_container true c w = ok tt (record w { containers = w.containers ++ c ∷ [] })
create_container false c w = throw create_calls w

abbrev pub set_running : String → Bool → Container → Container
set_running name b c = if str_eq c.name name then record c { running = b } else c

unfoldable pub start_container : Bool → String → Effect (Unit {0})
start_container true name w =
    ok tt (record w { containers = map (set_running name true) w.containers })
start_container false name w = throw start_calls w

abbrev pub removed : Removal → String → World → World
removed gone name w = record w {
  containers = keep (λ (c : Container). not (str_eq c.name name)) w.containers;
}
removed only_stopped name w = record w { containers = map (set_running name false) w.containers }
removed untouched name w = w

-- `removeContainer`: both errors are swallowed.
unfoldable pub remove_container : Faults → String → World → World
remove_container f name w = removed (f.removal name) name w

abbrev pub set_name : String → String → Container → Container
set_name from to c = if str_eq c.name from then record c { name = to } else c

unfoldable pub rename_container : Bool → String → String → Effect (Unit {0})
rename_container true from to w =
    ok tt (record w { containers = map (set_name from to) w.containers })
rename_container false from to w = throw rename_calls w

-- The file of the router that has the safe name is written whole, or not at all.
unfoldable pub switch_traffic : Bool → String → List String → Effect (Unit {0})
switch_traffic true name servers w =
    ok tt (record w { routes = write_file (safe (text name)) servers w.routes })
switch_traffic false name servers w = throw switch_calls w

-- What the parts of a sequence did.
pub bind-throw :
    {A B : Type 0} (o : Outcome A) (k : A → Effect B) {v : World} {e : Error}
    → continue o k ≡ throw e v
    → (o ≡ throw e v) ⊎ ((a : A) × (u : World) × (o ≡ ok a u) × (k a u ≡ throw e v))
bind-throw (ok a u) k h = inr (a, u, refl, h)
bind-throw (throw e u) k h = inl (cc)

pub bind-ok :
    {A B : Type 0} (o : Outcome A) (k : A → Effect B) {v : World} {b : B}
    → continue o k ≡ ok b v
    → (a : A) × (u : World) × (o ≡ ok a u) × (k a u ≡ ok b v)
bind-ok (ok a u) k h = (a, u, refl, h)
bind-ok (throw e u) k h = absurd (cc)

pub clean-throw :
    {A : Type 0} (cleanup : World → World) (o : Outcome A) {v : World} {e : Error}
    → clean cleanup o ≡ throw e v
    → (u : World) × (o ≡ throw e u) × (v ≡ cleanup u)
clean-throw cleanup (ok a u) h = absurd (cc)
clean-throw cleanup (throw e u) h = (u, cc, cc)

pub clean-ok :
    {A : Type 0} (cleanup : World → World) (o : Outcome A) {v : World} {a : A}
    → clean cleanup o ≡ ok a v
    → o ≡ ok a v
clean-ok cleanup (ok a u) h = h
clean-ok cleanup (throw e u) h = absurd (cc)

pub attempt-state :
    (b : Bool) (e : Error) (w : World)
    → ((u : Unit {0}) (v : World) → attempt b e w ≡ ok u v → v ≡ w)
      × ((e' : Error) (v : World) → attempt b e w ≡ throw e' v → v ≡ w)
attempt-state true e w = (λ u v h. cc, λ e' v h. cc)
attempt-state false e w = (λ u v h. cc, λ e' v h. cc)
