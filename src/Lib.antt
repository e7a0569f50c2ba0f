-- ===== src/Lib.antt =====
-- The Langfuse operator: controllers that reconcile a LangfuseInstance, a Kubernetes custom resource,
-- into the Deployments, Jobs and Secrets that run Langfuse, over PostgreSQL, ClickHouse, Redis and a
-- blob store.
--
-- Each controller is a function of what one pass reads: the instance, the answers of the API server and
-- the results of probes are arguments, and what the pass sends (status writes, Jobs, events) and returns
-- (done, requeue, error) is its result. Several controllers write the status of one instance; they meet
-- in its conditions, of which each owns some.
--
-- Common: helpers on numbers, texts, lists and results.
-- Api: spec and status of api/v1alpha1, and the interface of the condition list.
-- Client, StatusWrite: what controller-runtime exchanges, and internal/controller/status.go
--   (updateInstanceStatus, statusWriteFailed, requeueIf, noteStatusWriteFailure).
-- Pods: internal/controller/pod_issues.go. collectPodIssues is collect_pod_issues over the pods that List
--   answered; Pods.Sort is its stable sort.
-- Phase: internal/controller/phase.go. derivePhase is derive_phase.
-- Breaker: internal/controller/circuit_breaker.go. The maps of the controller are functions from the
--   instance's key and the component; check_component is the body of the loop, reconcile the whole pass.
-- Identity: the identities of internal/controller/migration_controller.go (buildMigrationIdentity,
--   migrationUpToDate, retargetedComponents, appliedMigrationIdentity, legacyBaselineIdentity) and
--   internal/langfuse/version.go.
-- Config: internal/langfuse/config.go. Each add…Env function is a step from a Config to a Config or an
--   error.
-- Migration: Reconcile and cleanupCompletedJobs of internal/controller/migration_controller.go. A pass is
--   a list of requests in their order, the events and the outcome.
-- Secrets: internal/controller/secret_controller.go. ensureGeneratedSecret is ensure_generated_secret, with
--   the random generators as an argument; the hash of the Secrets' data is not modelled.
-- Retention: internal/controller/retention_controller.go. Rows reads what ClickHouse answers, Size prints a number of
--   bytes as Go's float64 does. uint64 and int32 keep their wrap-around.
-- SchemaDrift: internal/controller/schema_drift_controller.go. The rows of system.tables are an argument.
-- Rollup: updateStatus, podIssuesFor and setDeprecationCondition of
--   internal/controller/langfuseinstance_controller.go. A Workload is a Deployment's status with the answer to
--   the List call of its pods.
-- Builders: internal/resources. Labels, Services, network policies, autoscalers, disruption budgets, the two
--   Deployments and the migration Job. matches is what Kubernetes documents of matchLabels.
-- Instances: Reconcile, apply and the steps between them of internal/controller/langfuseinstance_controller.go, with
--   the Deployments that Builders builds. Steps is what a sequence of steps sent, with its error; Planned is
--   the flat list of what a spec asks for.
-- Health: internal/controller/health_monitor.go. The results of the probes are an argument; check_all is the run
--   of the six checks with their events.
-- Langfuse: internal/langfuse/client.go, its data and errors. Action is a sequence of calls that change the state of
--   a server and may fail.
-- Organizations: internal/controller/langfuseorganization_controller.go. The state of Langfuse is a parameter with
--   the calls (OrgApi); what Langfuse promises of memberships is MemberLaws. Resolve has what both tenant
--   controllers use.
-- Projects: internal/controller/langfuseproject_controller.go, in the same way, with the Secrets of a namespace
--   (SecretApi). Nothing is assumed of the servers: Turns says what each key's turn did with what they answered.
-- Examples: the theorems at concrete inputs.
--
-- Numbers: counts are natural numbers; the int32 fields that a user writes are integers. Loops run over lists;
-- the few that count on numbers have a bound: twenty digits and eleven dropped bits for a uint64, and the four
-- prefixes that the source allows.
--
-- Not modelled: the ingresses, routes, StatefulSets and ConfigMaps of internal/resources, and the probes,
-- resources, scheduling and security contexts of the pods, the HTTP clients and the probes
-- (internal/controller/health_probes.go, clickhouse_client.go, internal/langfuse/client.go), which are
-- input and output, generated code, and the wiring of the
-- manager. Logging, times of transition and the contents of Secrets are left out.
pub mod Common
pub mod Api
pub mod Pods
pub mod Client
pub mod StatusWrite
pub mod Phase
pub mod Breaker
pub mod Identity
pub mod Config
pub mod Migration
pub mod Secrets
pub mod Retention
pub mod SchemaDrift
pub mod Rollup
pub mod Health
pub mod Builders
pub mod Instances
pub mod Langfuse
pub mod Organizations
pub mod Projects
pub mod Examples
