-- ===== src/Governance/Types.antt =====
-- The enumerations of governed AWS changes (packages/database/prisma/schema.prisma and
-- packages/contracts/src/index.ts), each with the `===` of its values.
use cloudshield_enterprise.Prelude.{ℕ, ◌≡◌, arith, Comparable, code_eq}

-- The value of `AWS_CHANGE_EXECUTION_MODE`, as `getAwsChangeExecutionMode` returns it.
pub data Mode : Type 0 where
  disabled simulation staging production : Mode

unfoldable pub mode_code : Mode → ℕ
mode_code disabled = 0
mode_code simulation = 1
mode_code staging = 2
mode_code production = 3

pub mode_code_injective : (a b : Mode) → mode_code a ≡ mode_code b → a ≡ b
unfolding mode_code
mode_code_injective a b e = ground arith

instance abbrev pub mode_eq : Comparable Mode
mode_eq = code_eq mode_code mode_code_injective

-- `GovernedAwsOperation`
pub data Operation : Type 0 where
  ec2_apply_governance_tags ec2_remove_public_ssh_ingress : Operation

unfoldable pub operation_code : Operation → ℕ
operation_code ec2_apply_governance_tags = 0
operation_code ec2_remove_public_ssh_ingress = 1

pub operation_code_injective : (a b : Operation) → operation_code a ≡ operation_code b → a ≡ b
unfolding operation_code
operation_code_injective a b e = ground arith

instance abbrev pub operation_eq : Comparable Operation
operation_eq = code_eq operation_code operation_code_injective

-- The column `lifecycleState` holds one of these texts.
pub data LifecycleState : Type 0 where
  recommended prepared simulated pending_approval approved queued preflight_validating executing
        succeeded failed blocked rollback_available rollback_pending_approval rolled_back :
      LifecycleState

unfoldable pub lifecycle_state_code : LifecycleState → ℕ
lifecycle_state_code recommended = 0
lifecycle_state_code prepared = 1
lifecycle_state_code simulated = 2
lifecycle_state_code pending_approval = 3
lifecycle_state_code approved = 4
lifecycle_state_code queued = 5
lifecycle_state_code preflight_validating = 6
lifecycle_state_code executing = 7
lifecycle_state_code succeeded = 8
lifecycle_state_code failed = 9
lifecycle_state_code blocked = 10
lifecycle_state_code rollback_available = 11
lifecycle_state_code rollback_pending_approval = 12
lifecycle_state_code rolled_back = 13

pub lifecycle_state_code_injective :
    (a b : LifecycleState) → lifecycle_state_code a ≡ lifecycle_state_code b → a ≡ b
unfolding lifecycle_state_code
lifecycle_state_code_injective a b e = ground arith

instance abbrev pub lifecycle_state_eq : Comparable LifecycleState
lifecycle_state_eq = code_eq lifecycle_state_code lifecycle_state_code_injective

-- `RemediationApprovalStatus`
pub data ApprovalStatus : Type 0 where
  draft pending_approval approved rejected ready_for_execution : ApprovalStatus

unfoldable pub approval_status_code : ApprovalStatus → ℕ
approval_status_code draft = 0
approval_status_code pending_approval = 1
approval_status_code approved = 2
approval_status_code rejected = 3
approval_status_code ready_for_execution = 4

pub approval_status_code_injective :
    (a b : ApprovalStatus) → approval_status_code a ≡ approval_status_code b → a ≡ b
unfolding approval_status_code
approval_status_code_injective a b e = ground arith

instance abbrev pub approval_status_eq : Comparable ApprovalStatus
approval_status_eq = code_eq approval_status_code approval_status_code_injective

-- `RemediationExecutionStatus`
pub data ExecutionStatus : Type 0 where
  draft execution_blocked ready_for_execution completed_manually : ExecutionStatus

unfoldable pub execution_status_code : ExecutionStatus → ℕ
execution_status_code draft = 0
execution_status_code execution_blocked = 1
execution_status_code ready_for_execution = 2
execution_status_code completed_manually = 3

pub execution_status_code_injective :
    (a b : ExecutionStatus) → execution_status_code a ≡ execution_status_code b → a ≡ b
unfolding execution_status_code
execution_status_code_injective a b e = ground arith

instance abbrev pub execution_status_eq : Comparable ExecutionStatus
execution_status_eq = code_eq execution_status_code execution_status_code_injective

-- `MutationOutcome`
pub data MutationOutcome : Type 0 where
  not_attempted attempted confirmed_succeeded confirmed_failed outcome_unknown
        manual_review_required :
      MutationOutcome

unfoldable pub mutation_outcome_code : MutationOutcome → ℕ
mutation_outcome_code not_attempted = 0
mutation_outcome_code attempted = 1
mutation_outcome_code confirmed_succeeded = 2
mutation_outcome_code confirmed_failed = 3
mutation_outcome_code outcome_unknown = 4
mutation_outcome_code manual_review_required = 5

pub mutation_outcome_code_injective :
    (a b : MutationOutcome) → mutation_outcome_code a ≡ mutation_outcome_code b → a ≡ b
unfolding mutation_outcome_code
mutation_outcome_code_injective a b e = ground arith

instance abbrev pub mutation_outcome_eq : Comparable MutationOutcome
mutation_outcome_eq = code_eq mutation_outcome_code mutation_outcome_code_injective

-- `MutationReconciliationStatus`
pub data ReconciliationStatus : Type 0 where
  not_required pending in_progress resolved manual_review_required failed_retryable :
      ReconciliationStatus

unfoldable pub reconciliation_status_code : ReconciliationStatus → ℕ
reconciliation_status_code not_required = 0
reconciliation_status_code pending = 1
reconciliation_status_code in_progress = 2
reconciliation_status_code resolved = 3
reconciliation_status_code manual_review_required = 4
reconciliation_status_code failed_retryable = 5

pub reconciliation_status_code_injective :
    (a b : ReconciliationStatus)
    → reconciliation_status_code a ≡ reconciliation_status_code b
    → a ≡ b
unfolding reconciliation_status_code
reconciliation_status_code_injective a b e = ground arith

instance abbrev pub reconciliation_status_eq : Comparable ReconciliationStatus
reconciliation_status_eq = code_eq reconciliation_status_code reconciliation_status_code_injective

-- `ApprovalRequestStatus`
pub data RequestStatus : Type 0 where
  pending approved rejected cancelled : RequestStatus

unfoldable pub request_status_code : RequestStatus → ℕ
request_status_code pending = 0
request_status_code approved = 1
request_status_code rejected = 2
request_status_code cancelled = 3

pub request_status_code_injective :
    (a b : RequestStatus) → request_status_code a ≡ request_status_code b → a ≡ b
unfolding request_status_code
request_status_code_injective a b e = ground arith

instance abbrev pub request_status_eq : Comparable RequestStatus
request_status_eq = code_eq request_status_code request_status_code_injective
