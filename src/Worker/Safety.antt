-- ===== src/Worker/Safety.antt =====
-- What a tagging job has passed before it sends.
use cloudshield_enterprise.Prelude.{
  String, ℕ, ◌≤◌, ◌≡◌, ◌≢◌, refl, sym, ap, inl, inr, true, false, ◌||◌, Option, none, some, not,
  ◌&&◌, ◌⊎◌, option_beq, option_beq_iff, eq_iff, List, [], ◌∷◌, string_eq, includes, arith,
  Option-cases, Bool-cases, All, nat_eq,
}
use cloudshield_enterprise.Governance.Backend.{Backend, Database, StoredPlan}
use cloudshield_enterprise.Governance.Queue.{◌or_else◌}
use cloudshield_enterprise.Governance.Types.{Mode, mode_eq}
use cloudshield_enterprise.Worker.Text.{utf16_length, is_blank_text, is_aws_reserved}
use cloudshield_enterprise.Worker.Job.{
  World, AwsTag, Relations, Provider, Environment, Attempt, threw, returned, Instance, Identity,
}
use cloudshield_enterprise.Worker.Gates.{
  is_empty, has_tags, control_keys, is_role, role_name, lookup_tag, safety_failure, tag_failure,
  preflight_failure, identity_failure,
}
use cloudshield_enterprise.Worker.Tagging.{
  SafetyState, safety_state, drift, state_failure, execute_tagging, with_identity, with_instance,
  region_of, of_account,
}
use cloudshield_enterprise.Worker.Record.{fail_governed_plan}
use cloudshield_enterprise.Worker.Attempts.{fail-IsInert}
use cloudshield_enterprise.Worker.Attempts.Sent.{verify-IsInert}

-- A tag that AWS accepts, that the environment allows, and that is no control tag.
pub record IsAllowed (allowed : List String) (t : AwsTag) : Type 0 where
  pub named : is_blank_text t.key ≡ false
  pub key_length : utf16_length t.key ≤ 128
  pub value_length : utf16_length t.value ≤ 256
  pub unreserved : is_aws_reserved t.key ≡ false
  pub no_control : includes control_keys t.key ≡ false
  pub listed : (is_empty allowed || includes allowed t.key) ≡ true

-- The keys are distinct, and none of them was seen before.
abbrev pub IsDistinct : List String → List AwsTag → Type 0
IsDistinct seen [] = Unit
IsDistinct seen (t ∷ tags) = (includes seen t.key ≡ false) × IsDistinct (t.key ∷ seen) tags

-- If the loop over the requested tags finds no failure, then every tag is allowed and the keys are distinct
-- from each other and from those seen before.
pub tag_failure-none :
    (allowed seen : List String) (tags : List AwsTag)
    → tag_failure allowed seen tags ≡ none
    → All (IsAllowed allowed) tags × IsDistinct seen tags
unfolding tag_failure
tag_failure-none allowed seen [] e = (tt, tt)
tag_failure-none allowed seen (t ∷ tags) e =
    let (rest, distinct) = tag_failure-none allowed (t.key ∷ seen) tags (ground arith) in
    (
      (
        (record {
          named = ground arith;
          key_length = ground arith;
          value_length = ground arith;
          unreserved = ground arith;
          no_control = ground arith;
          listed = ground arith;
        }),
        rest,
      ),
      (ground arith, distinct),
    )

-- A value is on a list, where the list restricts anything.
abbrev pub IsListed : List String → String → Type 0
IsListed allowed value = (is_empty allowed || includes allowed value) ≡ true

-- The account and the region are on the allowlists, in staging mode the allowlists are set, and the tags
-- are some that AWS accepts and the environment allows, with distinct keys.
pub record IsAdmitted (env : Environment) (region account : String) (tags : List AwsTag)
    : Type 0 where
  pub listed_account : IsListed env.allowed_account_ids account
  pub listed_region : IsListed env.allowed_regions region
  pub staging_lists :
      env.mode ≡ Mode.staging
      → (is_empty env.allowed_account_ids ≡ false)
        × (is_empty env.allowed_regions ≡ false)
        × (is_empty env.allowed_tag_keys ≡ false)
  pub some_tags : is_empty tags ≡ false
  pub allowed_tags : All (IsAllowed env.allowed_tag_keys) tags
  pub distinct_keys : IsDistinct [] tags

-- AWS names the account, and the role is the executor's.
pub record IsExpected (env : Environment) (account : String) (identity : Identity) : Type 0 where
  pub own_account : identity.account ≡ some account
  pub own_role : is_role (role_name env.executor_role_arn) identity.arn ≡ true

-- The instance is managed, is not protected, and is in a sandbox, or in staging as its account is.
pub record IsTaggable (account_environment : String) (tags : List AwsTag) : Type 0 where
  pub managed : lookup_tag tags "CloudShieldManaged" ≡ some "true"
  pub unprotected : lookup_tag tags "CloudShieldProtected" ≢ some "true"
  pub permitted :
      (lookup_tag tags "Environment" ≡ some "sandbox")
      ⊎ ((lookup_tag tags "Environment" ≡ some "staging") × (account_environment ≡ "staging"))

listed :
    (allowed : List String) (value : String)
    → (not (is_empty allowed) && not (includes allowed value)) ≡ false
    → IsListed allowed value
listed allowed value h = ground arith

preflight-IsAdmitted :
    (env : Environment) (region account : String) (tags : List AwsTag)
    → preflight_failure env region account tags ≡ none
    → IsAdmitted env region account tags
unfolding preflight_failure
preflight-IsAdmitted env region account tags e =
    let (allowed, distinct) = tag_failure-none env.allowed_tag_keys [] tags (ground arith) in
    record {
      listed_account = ground arith;
      listed_region = ground arith;
      staging_lists = λ mode.
          let staging = (mode_eq.same_iff env.mode Mode.staging).1 mode in
          (ground arith, ground arith, ground arith);
      some_tags = ground arith;
      allowed_tags = allowed;
      distinct_keys = distinct;
    }

identity-IsExpected :
    (env : Environment) (account : String) (identity : Identity)
    → identity_failure env account identity ≡ none
    → IsExpected env account identity
unfolding identity_failure
identity-IsExpected env account identity e = record {
  own_account = (option_beq_iff identity.account (some account)).0 (ground arith);
  own_role = ground arith;
}

safety-IsTaggable :
    (account_environment : String) (tags : List AwsTag)
    → safety_failure account_environment tags ≡ none
    → IsTaggable account_environment tags
unfolding safety_failure
safety-IsTaggable account_environment tags e =
    let managed = option_beq_iff (lookup_tag tags "CloudShieldManaged") (some "true") in
    let protected_ = option_beq_iff (lookup_tag tags "CloudShieldProtected") (some "true") in
    let sandbox = option_beq_iff (lookup_tag tags "Environment") (some "sandbox") in
    let staging = option_beq_iff (lookup_tag tags "Environment") (some "staging") in
    record {
      managed = managed.0 (ground arith);
      unprotected = λ k. ground (arith, protected_.1 k);
      permitted = elim (Bool-cases (option_beq (lookup_tag tags "Environment") (some "sandbox"))) [
        | inl own ↦ inl (sandbox.0 own)
        | inr other ↦
            inr (staging.0 (ground arith), (eq_iff account_environment "staging").0 (ground arith))
      ];
    }

drift-none :
    (b : Backend) (fingerprint : SafetyState → Option String) (approved : String)
    (current rest : Option String)
    → (drift b fingerprint approved current or_else rest) ≡ none
    → (current ≡ some approved) × (rest ≡ none)
drift-none b fingerprint approved none rest e = cc
drift-none b fingerprint approved (some current) rest e =
    (ap some (sym ((eq_iff approved current).0 (ground arith))), ground arith)

-- The resource is as the approval was bound to it.
state-approved :
    (b : Backend) (fingerprint : SafetyState → Option String) (relations : Relations)
    (now : Instance)
    → state_failure b fingerprint relations now ≡ none
    → (fingerprint (safety_state b fingerprint relations now) ≡ some relations.approved_fingerprint)
      × (safety_failure (of_account (λ a. a.environment) relations.aws_account) now.tags ≡ none)
unfolding state_failure
state-approved b fingerprint relations now e =
    drift-none b fingerprint relations.approved_fingerprint
      (fingerprint (safety_state b fingerprint relations now)) _ e

-- What holds when a job sends.
pub record IsCleared (b : Backend) (fingerprint : SafetyState → Option String) (env : Environment)
    (relations : Relations) (provider : Provider) : Type 0 where
  pub admitted :
      IsAdmitted env
        (region_of relations)
        (of_account (λ a. a.account_id) relations.aws_account)
        relations.payload.tags
  pub identity : Identity
  pub identified : provider.identity ≡ returned identity
  pub expected : IsExpected env (of_account (λ a. a.account_id) relations.aws_account) identity
  pub before : Instance
  pub described : provider.before ≡ returned before
  pub approved_state :
      fingerprint (safety_state b fingerprint relations before)
      ≡ some relations.approved_fingerprint
  pub taggable : IsTaggable (of_account (λ a. a.environment) relations.aws_account) before.tags
  pub missing_tags : has_tags before.tags relations.payload.tags ≡ false

module _ (b : Backend) (fingerprint : SafetyState → Option String) (plan : StoredPlan b)
    (relations : Relations) (user : String) (now : ℕ) (later during : Database b → Database b) where
  failed_created :
      (w : World b) (reason : String)
      → (fail_governed_plan b w plan.id reason now).0.created ≡ w.created
  failed_created w reason = (fail-IsInert b plan.id w plan.id reason now).created

  instance_cleared :
      (provider : Provider) (w : World b) (reply : Attempt Instance)
      → (with_instance b fingerprint plan relations user now later during provider w
          reply).0.created
        ≢ w.created
      → (before : Instance) × (reply ≡ returned before)
        × (state_failure b fingerprint relations before ≡ none)
        × (has_tags before.tags relations.payload.tags ≡ false)
  unfolding with_instance
  instance_cleared provider w (threw c error_id) more = absurd (more (failed_created w _))
  instance_cleared provider w (returned before) more =
      elim (Option-cases (state_failure b fingerprint relations before)) [
        | inr (reason, e) ↦ absurd (more (rw (e, with_instance) (failed_created w reason)))
        | inl safe ↦ elim (Bool-cases (has_tags before.tags relations.payload.tags)) [
          | inl present ↦ absurd (
              more (
                rw (safe, present, with_instance)
                  ((verify-IsInert b fingerprint plan relations user now w false none
                    provider.after).created)))
          | inr absent ↦ (before, refl, safe, absent)
        ]
      ]

  identity-IsCleared :
      (env : Environment) (provider : Provider) (w : World b)
      → preflight_failure env
          (region_of relations)
          (of_account (λ a. a.account_id) relations.aws_account)
          relations.payload.tags
        ≡ none
      → (reply : Attempt Identity) → provider.identity ≡ reply
      → (with_identity b fingerprint plan relations user now later during provider env w
          reply).0.created
        ≢ w.created
      → IsCleared b fingerprint env relations provider
  unfolding with_identity
  identity-IsCleared env provider w preflight (threw c error_id) e more =
      absurd (more (failed_created w _))
  identity-IsCleared env provider w preflight (returned identity) e more =
      elim (Option-cases
        (identity_failure env (of_account (λ a. a.account_id) relations.aws_account) identity)) [
          | inr (reason, f) ↦ absurd (more (rw (f, with_identity) (failed_created w reason)))
          | inl expected ↦
              let (before, described, safe, absent) =
                instance_cleared provider w provider.before
                  (λ same. more (rw (expected, with_identity) same)) in
              let (unchanged, safe_tags) = state-approved b fingerprint relations before safe in
              record {
                admitted = preflight-IsAdmitted env _ _ relations.payload.tags preflight;
                identity = identity;
                identified = e;
                expected = identity-IsExpected env _ identity expected;
                before = before;
                described = described;
                approved_state = unchanged;
                taggable = safety-IsTaggable _ before.tags safe_tags;
                missing_tags = absent;
              }
        ]

  -- If a tagging job sends `CreateTags`, then the account and the region are on the allowlists and the tags
  -- are allowed, AWS named the expected account and role, the fingerprint of the instance was the approved
  -- one, and the instance was managed, not protected, in a sandbox or in staging as its account is, and
  -- without some requested tag.
  pub sent-IsCleared :
      (env : Environment) (provider : Provider) (w : World b)
      → (execute_tagging b fingerprint plan relations user now later during provider env
          w).0.created
        ≢ w.created
      → IsCleared b fingerprint env relations provider
  unfolding execute_tagging
  sent-IsCleared env provider w more =
      elim (Option-cases (
        preflight_failure env (region_of relations)
          (of_account (λ a. a.account_id) relations.aws_account) relations.payload.tags)) [
            | inr (reason, e) ↦ absurd (more (rw (e, execute_tagging) (failed_created w reason)))
            | inl preflight ↦
                identity-IsCleared env provider w preflight provider.identity refl
                  (λ same. more (rw (preflight, execute_tagging) same))
          ]
