-- ===== src/Lib.antt =====
-- The core of a hosting platform: an engine that deploys containers and an API that keeps the
-- deployments. Each part of the program is a module with the state and the operations of the code,
-- and child modules with what is proved of it; `Common` holds the helpers that they share.
--
-- The engine (apps/engine/src):
-- - Lifecycle: deployment-state.ts. A store of records by id (`Store`, for the Map) with
--   `create_deployment`, `update_deployment`, `get_deployment` and `list_deployments`; an
--   exception is the value `invalid_transition`.
-- - Queue: queue.ts. `enqueue` and `settle` (the `finally` of a job) both run `drain`; a `World`
--   is the queue with the history of what was submitted, started and settled.
-- - Scheduler: scheduler.ts, `select_runtime_node`.
-- - Health: health.ts, `wait_for_healthy_container`. What Docker and the probe answer, and how
--   long that takes, is a function from the attempt's number; the loop runs on fuel, one unit for
--   each millisecond of the timeout and one more, which is enough when the pause is not 0, since
--   every attempt is followed by the pause.
-- - Sandbox: sandbox.ts, the policy of a build and the arguments of `docker build`.
-- - Router: router.ts, the safe names of the router's files and the files by their names.
-- - Deploy: deploy.ts and the traffic switch of router.ts. The state `World` has the containers of
--   the daemon and the router's files; effects may throw, and `Faults` says which calls succeed.
--   `deploy_runtime` waits with the function of Health.
-- - Replicas: replicas.ts with the switches of router.ts. `deploy_replicas` on a `Cluster` of
--   labelled containers and routes: the start of the candidates, their health checks, the rounds
--   of the canary and the cleanup of the `catch`; `reconcile_scale` and the `tick` of the
--   autoscaler. A `Run` is what the `try` keeps in its variables, `Faults` says which calls
--   succeed, and a wait for a candidate is that of Health.
-- - Build: build.ts. The logs by id, cut at the front to 2,000,000 code units; what a build finds
--   in a cloned repository (`detect_dockerfile`); the commands of `build_from_git`, each of which
--   may fail, with the arguments of Sandbox.
-- - EngineApi: index.ts and node-auth.ts. The check of the caller's secret, the checks of a body
--   and the queueing for the two paths of deployments.
-- - Worker: worker.ts with redis-queue.ts. The handler of a job is the list of what it reports and
--   the error that it throws, from the outcome of the runtime's call; the scan for lost jobs is a
--   fold over the deployments that the API offers, with the jobs of the node as the state.
--   Worker.Durable is the row of `deployment_state` that the reported phases make, with the
--   callback of the API's production-platform-routes.ts and `updateDeploymentState` of db.ts.
--
-- The API (apps/api/src) and the contracts (packages/platform-contracts/src):
-- - Autoscaling: autoscaling.ts of the contracts, `decide_autoscaling`.
-- - Database: db.ts, the rows of the table of deployments, their listing and their update.
-- - Rollback: deployment-history.ts, the rollback of auth-routes.ts and rollback.ts (the last two
--   in Rollback.Earlier, the list of versions in Rollback.Listing), over the table of Database.
--   The engine is an argument, from the request to its answer; EngineApi.Callers instantiates it
--   with the engine of EngineApi.
-- - Recovery: `claimRecoverableDeployments` of production-platform-routes.ts, one transaction as a
--   function from the rows of the nodes and of the deployments to the updated rows and the claims,
--   and `selectDeploymentNode` of runtime-platform-routes.ts, whose nodes are those of Scheduler.
-- - Gates: release-gates.ts, what a gate decides from what is known of a deployment, and the gates
--   before and after a release with the results and events that they keep.
-- - Auth: auth.ts, auth-routes.ts and packages/secrets/src/index.ts over the tables of users,
--   accounts and sessions of db.ts (`Store`). A route is a function from the request, what the
--   provider answers and what is drawn at random to a reply and a store, or an exception. Node's
--   cryptography and encodings are the record `Crypto`, whose documented laws are `Documented`;
--   texts are lists of code units (Common.Texts).
-- - Api: index.ts and the queries of db.ts on projects, domains, deployments and deliveries
--   (`Store`). Every route that writes is a function from the request and what is found outside to
--   an `Outcome`: the response, the tables and the calls of the engine; `run` handles requests one
--   after the other. The pipeline that a deployment starts runs before the next request, except in
--   Api.Races, where its last write and the worker's reports come in any order. Api.Registry is
--   the abstract view of the domains, and Api.Forwarding sends the calls to the engine of
--   EngineApi.
-- - ProductionGuard: production-guard.ts over an environment that is a function.
--
-- The web interface (apps/web/app):
-- - Web: the gateway api/nexus/[...path]/route.ts, from a request and what the API answers to what
--   the browser gets, and the button deploy/rollback-button.tsx as a state with handlers, which
--   gets the versions that Rollback.Listing lists. Web.DeployPage and Web.DeployForm are the page
--   deploy/page.tsx as a state with handlers, whose form makes the body of Api.Bodies, and
--   Web.Bridge is hosted-api-bridge.tsx.
--
-- Numbers are natural numbers; a number of JavaScript that may be a fraction, negative or no
-- number has a case of its own where the code tests for it. Requests are handled one at a time:
-- what several requests do to a row between the two updates of one handler is not modelled. HMACs
-- and ciphers, the parser of URLs and, in ProductionGuard, trimming and case folding are
-- parameters; Auth and Gates fold the case of the letters of ASCII. The length of a `String` is
-- that of its UTF-8, which is what JavaScript counts for ASCII; for other texts the code's bounds
-- differ.
--
-- Not modelled: the managed data of the engine, the Dockerfiles that a build writes, the timers of
-- the autoscaler and the text of the router's files; of the API, the routes of organizations,
-- services and previews, quotas, the repositories that GitHub lists, and everything that is SQL
-- text; the other pages of the web interface, the command line, the agent and the providers.
mod Common
pub mod Lifecycle
pub mod Queue
pub mod Scheduler
pub mod Autoscaling
pub mod Health
pub mod Sandbox
pub mod Deploy
pub mod Database
pub mod Rollback
pub mod ProductionGuard
pub mod EngineApi
pub mod Worker
pub mod Auth
pub mod Replicas
pub mod Recovery
pub mod Gates
pub mod Web
pub mod Api
pub mod Build
pub mod Router
