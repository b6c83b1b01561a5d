-- ===== src/Lib.antt =====
-- The batch job controller: it runs a job pod on every usable node of a Kubernetes cluster, in executions
-- that a cron expression starts, and gathers the pods' reports as files and as Prometheus metrics.
--
-- The parts, and the files that model them:
-- * Config (pkg/config/types.go): `Config` and the names computed from it, with Go's filepath.Join and
--   Clean in Config/Paths; Config/Load (pkg/config/config.go): `Get` and the search of the owner.
-- * Metrics (pkg/metrics): Metrics/Series is `executionIDMetric` of types.go, which remembers slices that
--   its callers may still write, so they lie on an explicit heap; Metrics/Collector is `Collector` of
--   metrics.go, with its registration, and Metrics/Names has the names and labels of its gauges. The
--   client library is the interface Metrics/Prom.
-- * Lifecycle (pkg/lifecycle): State has the types, Controller the operations `NewExecution`, `AddPod`
--   and `AllAdded`, Outcome `PodTerminated` and `ReportReceived`, Workers the goroutines of `worker`, one
--   step at a time, Disk the report directory, and History sequences of calls and steps in any order.
-- * Http (pkg/http): Event is types.go; Posts has middleware.go and the handlers of postserver-results.go,
--   postserver-file.go and postserver-event.go; Web has `SaveFile` of postserver.go and the interface to
--   the libraries that the handlers call; Routes has the routes of the callback server, with their
--   paths, and of the mock server (mock.go), and Server the self check and `Start` of fileserver.go, as
--   a step relation.
-- * Client (pkg/client/client.go): its calls above a transport; Client/Network is a connection to the
--   handlers.
-- * Job (pkg/job): `New` and `mergeEnv`, above the interface `Templates` of the template engine and YAML.
-- * Reconciler (pkg/controller): `Reconcile`, `SetupWithManager` and the event filter.
-- * Cron (pkg/cron/cron.go): `isUsable`, `Start`, and `startPods` as a machine of stages; in
--   Cron/Overlap the goroutines that test and set its flag.
-- * Program (cmd/main.go, cmd/generic/main.go, pkg/inject): `Setup`, `Start` and `addToManager`.
-- * System puts the runs of the cron job, the workers, the server and the reconciler on the one controller,
--   as steps in any order; System/Going has the steps of a run that cannot panic there. System/Safe
--   asks for steps that begin no run between the test of the flag by another and its writing.
-- * Base has what they share, and Tests the runs on concrete inputs.
--
-- The cron job starts an execution, adds a job for each node, which may wait for room in the channel,
-- and ends with `AllAdded`. The workers receive the jobs and create the pods. A pod reports to the
-- handlers, which store its files and call `ReportReceived`; the reconciler sees the end of a pod and
-- calls `PodTerminated`. All of them work on the one `Controller`.
--
-- Conventions: an operation that may panic returns an Option, where `none` is the panic. An error is a
-- value beside the state. Executions and pods are shared by pointer in the source, and lie on heaps here.
-- A map is an association list, and an iteration over one has the order of the list. A clock is an
-- argument. A call of the controller or the collector is one step, though the source takes no lock around
-- it: accesses to its maps at the same time may abort the program. The Go int is an unbounded integer,
-- since the source only adds one to it, subtracts and compares; the progress wraps at 2 ^ 64. The search
-- of the owner runs on fuel, of which each object on the way takes one. A sound collector is one whose
-- samples are all remembered under their last label value and whose label counts fit.
--
-- Not modelled: the profiling routes (pkg/http/postserver.go), `SetupLogger` (cmd/main.go), the flags of
-- cmd/mock, the generated mocks (pkg/mocks), the logs, the locks, and data races on the unguarded maps.
pub mod Base
pub mod Config
pub mod Metrics
pub mod Lifecycle
pub mod Http
pub mod Client
pub mod Job
pub mod Reconciler
pub mod System
pub mod Program
pub mod Cron
pub mod Tests
