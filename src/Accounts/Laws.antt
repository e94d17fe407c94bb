-- ===== src/Accounts/Laws.antt =====
-- The in-memory test of an account, the guard and the database filters agree.
use mathlib.Core.Path.{subst}
use mathlib.Core.Option.{some-injective}
use cloudshield_enterprise.Prelude.{
  sym, inl, inr, ◌⊎◌, String, ◌≡◌, refl, ◌↔◌, Bool, true, Option, none, some, string_eq, arith,
  eq_iff,
}
use cloudshield_enterprise.Accounts.{
  AwsAccount, CloudResource, ResourceRelationship, SecurityFinding, is_live_resource,
  without_or_live, is_aws_account_operationally_active, get_aws_account_operational_block_reason,
  assert_governance_target_operationally_active, active_aws_account_relation_where,
  active_aws_account_where, active_security_finding_where, active_resource_where,
  active_relationship_where, active_finding_for_active_resource_where,
}

-- The guard lets an account through exactly when the account filter of the queries keeps it, and it
-- never lets a missing account through.
pub guard_iff :
    (o : Option AwsAccount)
    → (assert_governance_target_operationally_active o ≡ none) ↔ (
        (account : AwsAccount) × (o ≡ some account)
        × (active_aws_account_relation_where account ≡ true))
unfolding assert_governance_target_operationally_active active_aws_account_relation_where
    get_aws_account_operational_block_reason
guard_iff none = (λ e. cc, λ h. cc h.1)
guard_iff (some account) =
    (λ e. (account, ground arith, ground arith), λ h. ground (arith, h.1, h.2))

-- A tenant's account passes the account filter exactly when it is of that tenant, operationally
-- active, and passes the caller's own filters.
pub account_where_iff :
    (organization : String) (filters : AwsAccount → Bool) (account : AwsAccount)
    → (active_aws_account_where organization filters account ≡ true) ↔ (
        (account.organization_id ≡ organization)
        × (is_aws_account_operationally_active account ≡ true)
        × (filters account ≡ true))
unfolding active_aws_account_where is_aws_account_operationally_active
    get_aws_account_operational_block_reason
account_where_iff organization filters account =
    ground (arith, eq_iff account.organization_id organization)

-- Both ends of an active relationship are resources that the active-resource filter keeps for
-- their own tenants.
pub relationship_ends :
    (organization : String) (filters : ResourceRelationship → Bool) (l : ResourceRelationship)
    → active_relationship_where organization filters l ≡ true
    → (active_resource_where l.source_resource.organization_id (λ _. true) l.source_resource ≡ true)
      × (active_resource_where l.target_resource.organization_id (λ _. true) l.target_resource
          ≡ true)
unfolding active_relationship_where active_resource_where
relationship_ends organization filters l h = ground (
  arith,
  (eq_iff l.source_resource.organization_id l.source_resource.organization_id).1,
  (eq_iff l.target_resource.organization_id l.target_resource.organization_id).1,
)

live_iff :
    (o : Option CloudResource)
    → (without_or_live o ≡ true)
      ↔ ((o ≡ none) ⊎ ((r : CloudResource) × (o ≡ some r) × (is_live_resource r ≡ true)))
live_iff none = (λ _. inl refl, λ _. refl)
live_iff (some a) = (
  λ h. inr (a, refl, h),
  λ h. elim h [
    | inl e ↦ cc
    | inr (r, e, l) ↦ subst (λ x. is_live_resource x ≡ true) (some-injective r a (sym e)) l
  ],
)

-- The finding filter of the risk workflow keeps only findings that the account filter keeps, and
-- of those exactly the ones without a resource or with one neither archived nor stale.
pub finding_where_iff :
    (organization : String) (filters : SecurityFinding → Bool) (f : SecurityFinding)
    → (active_finding_for_active_resource_where organization filters f ≡ true) ↔ (
        (active_security_finding_where organization filters f ≡ true)
        × ((f.resource ≡ none)
            ⊎ ((r : CloudResource) × (f.resource ≡ some r) × (is_live_resource r ≡ true))))
unfolding active_finding_for_active_resource_where active_security_finding_where
finding_where_iff organization filters f =
    let live = live_iff f.resource in
    (λ e. (ground arith, live.0 (ground arith)), λ h. ground (arith, h.0, live.1 h.1))
