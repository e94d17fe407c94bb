-- ===== src/Lib.antt =====
-- CloudShield: a model of the parts that change AWS accounts, of who may do so, and of the parts that
-- judge the security of accounts and follow up what they find.
--
-- A change of an AWS account is a remediation plan, a row of the database. The backend's governance
-- service (apps/backend/src/modules/governance/aws-change-execution.service.ts) simulates it, opens a
-- request for its approval, decides the request, and queues a job. The worker (apps/worker/src/index.ts)
-- takes the job, checks the plan, its approval and its target again, records in the row that it is about
-- to change the account, sends the change, and records the outcome. Where the outcome is not known, the
-- reconciliation (apps/worker/src/mutation-reconciliation.ts) reads the account, and confirms the change
-- or asks for a manual review. Roles (packages/security/src/rbac.ts) and the lifecycle of accounts
-- (apps/backend/src/modules/aws-account-lifecycle, apps/backend/src/modules/inventory-lifecycle,
-- apps/backend/src/modules/governance-action-guard) restrict who may act and on what.
--
-- The posture engine (packages/database/src/security-posture) runs its rules over the stored inventory,
-- and opens, reopens and resolves findings. The risk workflow (apps/backend/src/modules/risk-workflow) is
-- how people work on a finding: its statuses are the states of an abstract machine. Monitoring
-- (packages/security-monitoring, apps/worker/src/monitoring-orchestrator.ts) compares findings, accounts
-- and compliance evidence with its last snapshot, and keeps the alerts. The worker's shutdown
-- (apps/worker/src/shutdown.ts) closes what the worker holds, and its start
-- (apps/worker/src/reliability-reconciliation.ts) fails the runs that were left behind.
--
-- Files:
--   Prelude      shared names, tests, equality as an instance, lists with native lengths
--   Store        a table of the database: find, conditional update and its count. Prisma and PostgreSQL
--                are parameters with these laws. Store/Rows: what holds of every row. Store/Model: a
--                table as a function, which meets the laws. Store/Listed: a table as the list of its
--                rows, for code that finds rows by other columns than the key
--   Governance   Types and Plan: the rows. Backend: what the service stands on. Approval, Decide, Queue,
--                Simulate: blockedMutation, requestGovernedAwsChangeApproval, decideGovernedAwsChange,
--                queueGovernedAwsChangeExecution, simulateGovernedAwsChange. Transitions: the tables of
--                states. Ready, Claims, MakerChecker, Forgets: the proofs
--   Worker       Job, Text: a job's inputs, JavaScript's string operations. Gates: validateWorkerGate and
--                the checks of executeGovernedEc2Tagging. Record: failGovernedPlan, blockGovernedPlan,
--                persistMutationOutcome. Tagging: executeGovernedEc2Tagging. Process:
--                processGovernedAwsChangeJob. Attempts, Deliveries, Safety, Outcomes: the proofs
--   Reconciliation  reconcileMutationCandidate and the batch; Target: validateReconciliationTarget. Laws,
--                Bounds, Claimed: the proofs
--   Rbac, Accounts  roles and permissions (their lists in Rbac/Permissions), and the filters and guards of
--                accounts; Laws: the proofs
--   Risk         when an accepted risk counts (apps/backend/src/modules/risk-workflow, the policy of
--                acceptances); Laws: the proof. Matrix: RiskWorkflowTransitionMatrix. Finding: the rows.
--                Workflow: updateWorkflow. Actions: acknowledgeFinding to reopenFinding. Steps: the
--                abstract machine. Refines, Admitted, Consistent, Lost: the proofs
--   Posture      Rules: SECURITY_RULE_CATALOG. Engine: evaluateSecurityRules. Score:
--                calculateSecurityScore and getAccountSecurityPostures. Evolves, Justified, Covered,
--                Penalties: the proofs
--   Monitoring   Engine: MonitoringEngine.evaluateRules. Stored: the rows. Schemas: those of an alert's
--                evidence. Alerts: MonitoringOrchestrator.evaluateMonitoring,
--                MonitoringSnapshotBuilder.buildSnapshot. Health: MonitoringHealthCalculator. Follow,
--                Bounds, Faults, Regression: the proofs
--   Shutdown     shutdownWorkerRuntime, driven by a list of events. Laws, Complete: the proofs
--   Evidence     the safety state of an instance's control tags (packages/utils/src/index.ts):
--                buildCanonicalEc2TagSafetyState, parseCanonicalEc2TagSafetyEvidence,
--                changedEc2TagSafetyFields; Patterns: its regular expressions. Laws: the proofs
--   Startup      runStartupReconciliation, reconcileStaleMonitoringRuns, reconcileStaleInventoryScans
--                (apps/worker/src/reliability-reconciliation.ts and its repository in packages/database);
--                Batch: their shared loop. Laws: the proofs
--   Scenario     a concrete backend and rows, on which the witnesses in the Tests modules run
--
-- A service function takes the database and returns it with a reply. What other processes write between
-- a function's reads and its conditional writes is a function on the database, so that an interleaving is
-- an arbitrary one. A conditional update writes a row only if the row meets the `where` at that time, and
-- its count tells whether it did. A time is its milliseconds. The worker's world also lists every
-- CreateTags that was sent. Nothing runs on fuel: all recursion is structural, over lists and texts.
--
-- Whether the repository of evidence appends the record of an alert is a parameter of a monitoring run;
-- where it does not, or the evidence does not parse, that alert's transaction is rolled back and the run is
-- FAILED. In the stored safety state of an instance an id that is no string is refused, where the source
-- would turn it into one for the test of its pattern. Numbers are natural numbers where the source cannot
-- make them negative; the score of an account is an integer.
--
-- Not modelled: the JSON documents of evidence that the rows also carry (preflightEvidence,
-- executionEvidence, afterState, evidenceSnapshot), which these functions only write, apart from the
-- correlation id; logging; response objects, which are reduced to their message; SHA-256 digests, AWS
-- replies, the checks of a captured resource state, the parser of the approved payload and
-- String.prototype.toUpperCase, which are parameters; failures of the database itself; other writers
-- while the posture engine or a monitoring run is at work; the registry of risk acceptances; and the other
-- parts of the repository: inventory, remediation, compliance evidence, reports, routes and the frontend.
-- The write of a simulated execution follows its claim directly, without other writes in between.
pub mod Prelude
pub mod Rbac
pub mod Accounts
pub mod Store
pub mod Governance
pub mod Worker
pub mod Reconciliation
pub mod Monitoring
pub mod Posture
pub mod Risk
pub mod Shutdown
pub mod Evidence
pub mod Startup
pub mod Scenario
