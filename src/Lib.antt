-- ===== src/Lib.antt =====
-- hypertrace: a pipeline of small services that watches what a Kubernetes cluster costs, decides
-- whether a rise is an anomaly, and throttles or freezes the workload that causes it.
--
-- The collector on each node publishes usage on `metric.raw` and lifecycle events; cost
-- intelligence turns usage into `cost.event`; the traffic adapter publishes request rates; the
-- behaviour engine scores both against baselines and publishes `anomaly.flagged`; the decision
-- engine classifies an anomaly, looks for a policy and publishes `remediation.requested`, or
-- leaves the action to a person, who approves it through the API; the executor patches the cluster
-- and records the outcome in the ledger `actions_log`, which all three write.
--
-- Which file models which part (paths from the repository's root):
--   Messaging, Messaging/Consume      shared/hypertrace_common/hypertrace_common/messaging.py:
--                                     RabbitMQClient (publish, consume, close)
--   Schemas, Tables, Settings         schemas.py, tables.py, config.py and db.py beside it
--   Effects                           the world of a handler: clock, identifiers, client, own state
--   Behaviour/Stats, Confidence, Detection, Baselines, Handler
--                                     services/behaviour-analysis/app: stats.py, confidence.py, and
--                                     main.py (evaluate_condition, _should_learn, _handle_traffic,
--                                     _handle_cost, _flag_anomaly)
--   Decision/Authority, Policy, Matching, Correlation, Handler
--                                     services/decision-policy/app: authority.py, policy.py, main.py
--                                     (_find_matching_policy, _classify, _handle_anomaly)
--   Executor/Service, Actions, Limits, Handler
--                                     services/remediation-executor/app: k8s_actions.py (throttle,
--                                     freeze_scaling, rollback), main.py (_rate_limit_exceeded, handle)
--   Bff/Auth, Actions, Policies, Dashboard, Alerts
--                                     services/api-bff/app: users.py, main.py, alert_stream.py
--   Cost                              services/cost-intelligence/app: main.py, pricing.py
--   Collector/Resolver, Kubelet, Events, Cycle, Watch
--                                     services/collector/app: workload_resolver.py, kubelet_client.py,
--                                     k8s_events.py, main.py (_collect_once, _collect_loop)
--   Adapters/Traffic, Security        services/traffic-adapter/app/main.py and
--                                     services/security-signal-adapter/app/main.py
--   Simulator/Victim, Loadgen         services/workload-simulator: victim/server.py (do_GET, do_POST,
--                                     _work, _burn_cpu) and loadgen/loadgen.py (main)
--   Wiring                            the calls of `consume` in each service's main.py, and in
--                                     services/api-bff/app/alert_stream.py
--   Pipeline                          no code of its own: one service's messages given to the next;
--                                     Pipeline/Trail runs the decision engine, the API and the
--                                     executor on one ledger, in any order
--   Examples                          concrete data, and the theorems applied to it
-- The modules below these hold the proofs, and are named for what they prove; Decision/Handler/Ledger
-- holds what the decision engine is to decide, stated apart from the code that it is compared with.
--
-- A handler is a function from a world to a result and a world. Each statement of the source that
-- commits is kept when a later one raises. A table is the list of its rows; a timestamp counts
-- microseconds. Code that is not in the repository is a parameter: how each call of pika ends
-- (`replies`), the Kubernetes API (`Kubernetes`, with the law `IsConsistent` that a read shows what
-- was patched; `Api` for the owners of pods), bcrypt and jose (`Crypto`, with `IsSound`), and
-- floating point (`Float`, with the laws `IsOrdered` of finite floats, which `Float/Decimal` shows can
-- hold). The client asks RabbitMQ for no publisher confirms: what the model calls sent are the
-- messages for which a call of pika returned, and whether the broker took one whose call raised is
-- not modelled. Defaults of the environment variables are constants, but the protected prefixes are
-- arguments.
--
-- Loops over lists are structural; an endless loop that is fed from outside (the streams of the
-- watch, the turns of the collector and of the traffic adapter) is one over the list of what it is
-- fed. The loop of `consume` never ends by itself: it runs for a number of passes, and the theorems
-- hold for every number. The loop of `_burn_cpu` runs on fuel: one more than the number of readings
-- of the clock before the deadline is enough, and for infinitely many seconds nothing is. The print of a number has its value plus one as fuel, and
-- a number has no more digits than that.
--
-- Not modelled: the frontend, manifests, SQL schema and scripts; logging; threads, since each handler
-- holds its state for one message at a time; what each `main` does before it
-- consumes, except the configuration of the Kubernetes client and the reading of the pricing file.
pub mod Prelude
pub mod Float
pub mod Messaging
pub mod Effects
pub mod Settings
pub mod Schemas
pub mod Tables
pub mod Behaviour
pub mod Decision
pub mod Executor
pub mod Bff
pub mod Cost
pub mod Collector
pub mod Adapters
pub mod Simulator
pub mod Wiring
pub mod Pipeline
pub mod Examples
