-- ===== src/Posture.antt =====
-- The security posture of stored inventory (packages/database/src/security-posture): the rules, the
-- engine that runs them, and the score of an account. The JSON of a resource's metadata is the fields
-- that the rules read; the lower case of a text is a parameter.
pub mod Rules
pub mod Engine
pub mod Evolves
pub mod Justified
pub mod Covered
pub mod Score
pub mod Penalties
mod Tests
use cloudshield_enterprise.Prelude.{String, ℕ, Bool, Option, List}

-- `rule.port` and `rule.cidr` of an inbound rule.
pub record InboundRule : Type 0 where
  pub port : Option ℕ
  pub cidr : Option String

-- What a JSON field that should be a Boolean holds.
pub data JsonFlag : Type 0 where
  undefined_ null_ other : JsonFlag
  boolean : Bool → JsonFlag

-- The fields of the metadata; one that is not there or is no array is `none`.
pub record Metadata : Type 0 where
  pub inbound_rules : Option (List InboundRule)
  pub public_ip_address : Option String
  pub capital_public_ip_address : Option String
  pub encrypted : JsonFlag
  pub capital_encrypted : JsonFlag
  pub attachments : Option ℕ

-- `ResourceForEvaluation`, with the columns that the queries of the engine and of the score test.
pub record Resource : Type 0 where
  pub id : String
  pub organization_id : String
  pub aws_account_id : String
  pub resource_type : String
  pub status : String
  pub tag_keys : List String
  pub metadata : Metadata
  pub owner_team_id : Option String
  pub is_synced : Bool
  pub archived_at : Option ℕ

pub data Severity : Type 0 where
  critical high medium low info : Severity

-- `RuleEvaluationResult`, without its evidence.
pub data Evaluation : Type 0 where
  finding pass not_applicable : Evaluation
