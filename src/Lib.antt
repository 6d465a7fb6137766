-- ===== src/Lib.antt =====
-- A model of forecastiq's core and the theorems that make it correct. forecastiq collects weather
-- forecasts from several providers, compares them with observations and ranks the providers.
--
-- How the parts interact. The scheduler generates slots from the schedules of the active
-- configurations, claims due slots and dispatches each to a job. A forecast collection asks the
-- circuit breaker of its provider, calls the adapter (which asks its daily budget), looks for a
-- collection of the same model run, and stores the row, its snapshots and the outcome for the breaker
-- in one transaction. The analysis batch chooses an observation for each forecast, aggregates the
-- pairs to metrics with intervals, and ranks the providers by a composite of the metrics.
--
-- Which file models which part (paths from the repository's root):
-- - Circuit: internal/catalog/domain/circuit.go (Evaluate is evaluate, ApplySuccess apply_success,
--   ApplyFailure apply_failure); Circuit/Invariant and Circuit/Probe over sequences of events.
-- - Circuit/Service: internal/catalog/circuit_service.go over adapters/persistence/catalogpg/circuit.go
--   and internal/platform/dbtx/dbtx.go; Circuit/Service/Sound is the refinement to Circuit.
-- - Observed: the words for observations of internal/collection/domain/observation.go.
-- - Match: internal/analysis/domain/match.go (SelectCandidate, candidateLess), with Match/Select and
--   Match/Best.
-- - Eval: internal/analysis/eval (eval.go; Eval/Confusion is categorical.go, Eval/Continuous is
--   continuous.go and brier.go, Eval/Interval is ci.go).
-- - Aggregate: computeRows of internal/analysis/aggregate.go and the rows of
--   internal/analysis/domain/metric.go; Aggregate/Checks has the CHECK constraints of
--   migrations/20260801000009_create_accuracy_metrics.up.sql.
-- - Ranking: internal/analysis/domain/ranking.go (Ranking/Env and rank_cohort are RankCohort,
--   Ranking/Order is RankOrder), with Ranking/Row, Ranking/Permute and Ranking/Order/Groups.
-- - Budget: adapters/forecastproviders/openweather/budget.go, with Budget/Daily and Budget/Pause.
-- - Schedule: SlotTimes of internal/catalog/domain/configuration.go and analysisSlotTimes of
--   internal/scheduler/scheduler.go, with Schedule/Instants and Schedule/Analysis.
-- - Slot: internal/scheduler/slot.go and the table of
--   adapters/persistence/schedulerpg/schedulerpg.go; Slot/Execute is execute and the runs of the whole
--   system, Slot/Generate is generateSlots, Slot/Claims and Slot/Attempts are about them.
-- - Collection: internal/collection/domain/collection.go, internal/collection/ports and classify;
--   Collection/Store is adapters/persistence/collectionpg, Collection/World and Collection/Collect are
--   internal/collection/collect.go with Cases, Accounting, Dedup, Repeat,
--   Recorded, Stores and Breaker below it.
-- - Observation: RangeReasons of internal/collection/domain/observation.go and Validate of
--   internal/collection/domain/snapshot.go, with Observation/Ranges.
-- - Transport: Get and classify of adapters/forecastproviders/providerhttp/client.go, with
--   Transport/Attempts.
-- - Publish: the tables of metrics and rankings, where a new row supersedes the older ones of its key
--   (adapters/persistence/analysispg/metricspg.go and rankingpg.go), and a batch over cells.
-- - Aggregate/Batch: AggregatePeriod and aggregateCellPeriod of internal/analysis/aggregate.go.
-- - Ranking/Batch: RankPeriod and buildCohort of internal/analysis/rank.go; Ranking/Read: orderRankings
--   and rankGroups of internal/analysis/read.go.
-- - Observe: the table of adapters/persistence/observationpg/observationpg.go with the constraints of
--   migrations/20260801000007_create_observations.up.sql; Observe/Service is
--   internal/collection/observe.go, with OneLive, Marked, Close, Current, Repeat and Refused beside it.
-- - Match/Batch: internal/analysis/match.go (MatchBatch is match_batch, rematch is rematch) over
--   adapters/persistence/analysispg/analysispg.go, with Table, Covers, Complete and Again below it.
-- - Identity: internal/identity/user_service.go over adapters/persistence/identitypg/user.go;
--   Identity/Admin is admin_user_service.go, Identity/Credential credential.go, Identity/Keys
--   apikey_service.go over adapters/persistence/identitypg/apikey.go, and Identity/Access the gates of
--   internal/api/middleware.go.
-- - Cache: internal/api/cache.go, with Cache/Bounded, Cache/Fresh, Cache/Shared and Cache/Seconds; CacheKey
--   is its `cacheKey`.
-- - Catalog: internal/catalog/domain/location.go and status.go over
--   adapters/persistence/catalogpg/location.go; Catalog/Service is internal/catalog/location_service.go,
--   with Catalog/Apart below it; Catalog/Page is `ListLocations`.
-- - Limiter: internal/platform/ratelimit/limiter.go, with Limiter/Bounded and Limiter/Isolated.
-- - Text has the functions of Go's strings that the code calls, on lists of characters.
-- - Float is the interface of float64, Prelude has the helpers, Tests the properties at concrete inputs.
--
-- Choices. Instants are nanoseconds since Go's zero time, which is a UTC midnight and the start of an
-- hour, and durations that the code never makes negative are natural numbers. Ids, instances and
-- provider codes are numbers. A pointer or a nullable column is an Option. float64 is a type F with the
-- operations that the code calls; a theorem names the laws it needs (Float.IsLinear, IsRounded and
-- IsSymmetric: the order of the finite doubles, and what correct rounding keeps), and Float/Fixed has an
-- instance by which the hypotheses hold. Counters of Go's int are natural numbers, since no count here
-- comes near 2 ^ 63. A database is a table or a function of its rows, with the indexes and checks that
-- the code relies on; a mutex or a transaction makes its operation one step, and which statements fail
-- is an argument. Loops over instants run on fuel: one round for each hour that the window holds, and
-- one or two more, which Schedule/Instants and Schedule/Analysis show to be enough by the exact list of
-- instants. All other loops are structural. How the texts of ids compare, what ids.New returns and what
-- other workers commit are arguments with named hypotheses.
--
-- Not modelled: the decoding and encoding of requests, the adapters' decoding, the summaries, trends and
-- comparisons of metrics, export jobs, webhooks, and the platform glue (logging, metrics, configuration, wiring).
-- Of the collection the metrics, events, log and audit are left out, and of the scheduler the ticker, the
-- pool of goroutines and the drain: their effect on the table is the order of its steps, which the
-- theorems leave open. The hash of an API key, the random bytes of its secret and the verifier of tokens
-- are arguments.
pub mod Prelude
pub mod Text
pub mod Float
pub mod Observed
pub mod Circuit
pub mod Limiter
pub mod Match
pub mod Eval
pub mod Aggregate
pub mod Budget
pub mod Schedule
pub mod Slot
pub mod Observation
pub mod Observe
pub mod Publish
pub mod Collection
pub mod Transport
pub mod Ranking
pub mod Identity
pub mod Cache
pub mod CacheKey
pub mod Catalog
pub mod Tests
