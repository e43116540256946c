-- ===== src/Lib.antt =====
-- A model of the vaala AI gateway, and theorems about it. The gateway's agent takes a request for a
-- model, plans the attempts on upstream channels, runs them one after the other and reports the
-- usage; its master validates routings, adds up the billing and watches limits and heartbeats.
--
-- Which file models which part of the repository:
--   Relay/State       internal/agent/relay/state, internal/models, internal/pkg/app: the data that
--                     the stages share. A nil pointer is `none`; the errors are the type `Err`.
--   Relay/Routing     internal/agent/relay/pipeline/plan/routing.go: `ResolveToRealModel`,
--                     `resolveStep`, `selectRoutingMember`. A method of `*ResolveCtx` returns the
--                     new context; `Routing/Select`, `Open`, `Mark` and `Resolve` hold the lemmas.
--   Relay/Chain       pipeline/plan/chain.go: `buildChainFromStore`; `Chain/Ends` its termination.
--   Relay/Plan        pipeline/plan/pool.go and whitelist.go; `Plan/Order` sort.go; `Plan/Solve`
--                     plan.go and internal/pkg/utils/model_match.go; `Plan/Wiring` the default
--                     sorter as the solver's component.
--   Relay/Mode        pipeline/plan/mode.go, the negotiation of internal/agent/relay/codec/codec.go and
--                     `ResolveOverride` of internal/agent/relay/upstream/overrides.go.
--   Relay/Usage       internal/agent/relay/upstream/usage.go, the usage that the decoders of
--                     internal/agent/relay/codec read from a whole body and backend/passthrough;
--                     `Latest` tells a stream's usage from its lines in their order.
--   Relay/Affinity    internal/agent/relay/affinity: the sticky channel of a user's model. `Solve`
--                     reads it when it orders the candidates.
--   Relay/Resilience  internal/agent/relay/resilience: `Classify`, `Resolve`; `Resilience/Breakers`
--                     the registry, `Resilience/Policy` `Runner.Run` over failsafe-go, `Retried`
--                     what it tries again, and
--                     `Resilience/Validate` internal/models/channel.go.
--   Relay/Exec        internal/agent/relay/pipeline/exec: `Executor.Run` over the attempts of the
--                     plan, each under the runner; `Exec/Runner` is `Runner` as its runner,
--                     `Exec/Logged` a run with a record of its dispatches.
--   Relay/Inflight    internal/agent/relay/inflight/registry.go: the requests under way; `Tracked`
--                     compares it with the history of its events.
--   Relay/Status      internal/agent/relay/state/status.go.
--   Master/Limit      internal/master/billing/channel_limit_evaluator.go: a tick over the channels.
--   Master/RoutingCheck  internal/dao/model_routing_validate.go: `ValidateRouting`, `ValidateDelete`;
--                     `Paths`, `Saved` what they accept, `Resolves` what that means at the agent.
--   Master/Billing    internal/master/billing/aggregator.go in `Aggregator`, the upserts of
--                     internal/dao/billing.go in `Rollup`, the persist functions that
--                     internal/master/server.go sets in `Wiring`. `Merge`, `Columns` and `Mirrors`
--                     hold the lemmas of `Refines`, and `Flush` the errors.
--   Master/Billing/Rebuild  `RebuildHourSlice` and `RebuildDailyRollups` of internal/dao/billing.go;
--                     `Slices`, `Rebuilt`, `Day`, `Split`, `Totals` and the files of a day hold the
--                     lemmas of `Renewed`, which compares the two.
--   Master/RebuildRunner  internal/master/billing/rebuild_runner.go: `Submit`, `run`, `gc`.
--   Master/Settler    internal/master/billing/settler.go: the costs; `Store` the statements of
--                     internal/dao that it runs, `Log` and `Settle` `settleOne`, `Steps` and `Outcome`
--                     the lemmas on one entry, `Charged` and `Again` on a batch.
--   Master/ByokCipher  internal/pkg/byokcrypto; `Opened` the round trip.
--   Master/Heartbeat  internal/master/sync/heartbeat_tracker.go.
--   Agent/RouteIndex  internal/agent/cache/route_index.go: `Match`; `Rebuild` the updates, `Priority`
--                     the sorting, `Grouped` and `Indexed` the lemmas of `History`.
--   Agent/EntityCache internal/agent/cache/entitycache/lru.go.
--   Agent/TokenStore  internal/agent/cache/store_token.go; `Links`, `Loads`, `Linked` and
--                     `Reached` are about methods that run one after the other, `Interleaved`
--                     about methods that run at the same time.
--   Agent/Reporter    internal/agent/reporter/reporter.go: the buffer; `Conserved` the steps that
--                     flushes and subscribers interleave.
--   Relay/Random      math/rand, a parameter: `Intn` with its documented bound.
--   Utils/SyncMap     internal/pkg/utils/syncmap.go.
--   Prelude           shared tests, lists, integers and sorting.
--   Tests             runs at concrete inputs.
--
-- Code that is not in the repository is a parameter: `math/rand` (`Random`), `sort.Slice`
-- (`SliceSort`, with the documented laws), `regexp`, failsafe-go
-- (`Failsafe`, with the documented order of retries), golang-lru (`Lru`), base64, HKDF, AES-GCM
-- (`Aead`), and the clock, whose readings are arguments.
-- A table of the database is a parameter (`Table`, with the documented behaviour of an upsert and of
-- a delete; `LogDatabase` for the settlement), and so are `float64` (`Float64`) and `json.Unmarshal`.
-- `sort.SliceStable` has one result, which a stable insertion sort computes. The interfaces of the
-- solver (`Pool`, `Sorter`, `Picker`) are arguments as in the source.
--
-- Numbers: identifiers and weights are natural numbers, `int` fields are signed integers. Sums of
-- weights are taken not to overflow an `int`. The counters of the billing tables are words of 64
-- bits that wrap around, in memory and in the columns alike. The identifiers of requests under way
-- are taken not to reach 2 ^ 63. Loops without a bound run on fuel: the expansion has the depth
-- limit and one more for every nested call, a routing's loop one round per member and one more, and
-- the loop of the chain takes the fuel that its theorem states.
--
-- Not modelled: I/O (HTTP, WebSocket, SQL), logging, the rest of the protocol codecs, the master's
-- API and the web UI. Concurrency is an interleaving of steps: of methods where each holds its
-- lock, of the single calls on the cache and the index in `Agent/TokenStore/Interleaved`, where no
-- lock spans both.
pub mod Prelude
pub mod Agent
pub mod Master
pub mod Relay
pub mod Utils
mod Tests
