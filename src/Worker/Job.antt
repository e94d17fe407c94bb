-- ===== src/Worker/Job.antt =====
-- What a job of the worker starts from, and what AWS replies to it. AWS is not part of the repository:
-- a job's replies are arbitrary values.
use cloudshield_enterprise.Prelude.{String, Bool, Option, List}
use cloudshield_enterprise.Accounts.{AwsAccount}
use cloudshield_enterprise.Governance.Types.{Mode, LifecycleState, MutationOutcome}
use cloudshield_enterprise.Governance.Backend.{Backend, Database}

pub record AwsTag : Type 0 where
  pub key : String
  pub value : String

-- The variables of the worker's environment.
pub record Environment : Type 0 where
  pub mode : Mode
  pub allowed_account_ids : List String
  pub allowed_regions : List String
  pub allowed_tag_keys : List String
  pub executor_role_arn : Option String
  pub executor_external_id : Option String

-- The plan's resource and its serialised text in lower case.
pub record TargetResource : Type 0 where
  pub region : String
  pub resource_id : String
  pub resource_type : String
  pub source : Option String
  pub blob : String

-- The fields of `normalizedPayload` that the worker reads.
pub record TaggingPayload : Type 0 where
  pub operation : Option String
  pub region : Option String
  pub resource_id : Option String
  pub tags : List AwsTag

-- The relations that are loaded with a plan.
pub record Relations : Type 0 where
  pub aws_account : Option AwsAccount
  pub account_regions : List String
  pub resource : Option TargetResource
  pub payload : TaggingPayload
  pub approved_fingerprint : String

-- `SafeProviderErrorCategory`
pub data ErrorCategory : Type 0 where
  access_denied authentication_failed rate_limited transient_network resource_not_found
        invalid_provider_configuration unknown :
      ErrorCategory

-- A call that returned, or threw an error of a category, with its request id where it has a safe one.
pub data Attempt (A : Type 0) : Type 0 where
  threw : ErrorCategory → Option String → Attempt A
  returned : A → Attempt A

pub record Identity : Type 0 where
  pub account : Option String
  pub arn : Option String

pub record Instance : Type 0 where
  pub instance_id : String
  pub tags : List AwsTag

-- The reply to `CreateTags`, with its request id where it has a safe one.
pub data CreateReply : Type 0 where
  malformed : CreateReply
  accepted : Option String → CreateReply

pub record Provider : Type 0 where
  pub identity : Attempt Identity
  pub before : Attempt Instance
  pub create : Attempt CreateReply
  pub after : Attempt Instance

-- A `CreateTags` command that was sent.
pub record CreateTags : Type 0 where
  pub resource : String
  pub tags : List AwsTag

pub data WorkerReply : Type 0 where
  raised : WorkerReply
  failed : String → WorkerReply
  blocked : String → WorkerReply
  stale : String → WorkerReply
  completed : LifecycleState → Bool → WorkerReply
  outcome : Option MutationOutcome → Bool → WorkerReply
  unconfirmed : String → WorkerReply

-- The database and the mutations that were sent, the last one first.
pub record World (b : Backend) : Type 0 where
  pub db : Database b
  pub created : List CreateTags
