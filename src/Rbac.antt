-- ===== src/Rbac.antt =====
-- packages/security/src/rbac.ts: roles, permissions and what each role may do.
-- `to_upper` stands for `String.prototype.toUpperCase`, whose Unicode tables are not modelled.
pub mod Permissions
pub mod Laws
mod Tests
use text.Mathlib.Text.{◌==◌ as str_beq}
use cloudshield_enterprise.Prelude.{
  String, Bool, true, false, not, ◌&&◌, ◌||◌, List, [], ◌∷◌, ◌++◌, map, filter, includes,
  if◌then◌else◌, ◌==◌, string_eq, Option, none, some, is_some,
}
use cloudshield_enterprise.Rbac.Permissions.{
  owner, admin, security_operator, cloud_operator, auditor, viewer, organization_read,
  organization_update, members_read, members_invite, members_role_update, members_status_update,
  members_remove, invitations_read, invitations_create, invitations_resend, invitations_revoke,
  teams_read, teams_create, teams_update, teams_archive, teams_members_manage, accounts_read,
  accounts_manage, inventory_read, inventory_scan_request, findings_read, findings_manage,
  risks_read, risks_manage, risk_accept, recommendations_read, recommendations_manage,
  approvals_read, approvals_decide, operations_read, operations_prepare, reports_read,
  reports_generate, audit_read, settings_read, settings_update, monitoring_read,
  monitoring_evaluate, monitoring_alerts_acknowledge, monitoring_alerts_resolve,
  is_member_administration, Role, role_name, roles, Permission, permission_name, all_permissions,
  viewer_permissions, auditor_permissions, cloud_operator_permissions,
  security_operator_permissions, same_permission, admin_permissions, role_permissions, has,
}

-- `Object.values(ROLES).includes(name)`, with the role of that name
unfoldable pub known_role : String → Option Role
known_role name =
    if name == "OWNER"
    then some owner
    else if name == "ADMIN"
    then some admin
    else if name == "SECURITY_OPERATOR"
    then some security_operator
    else if name == "CLOUD_OPERATOR"
    then some cloud_operator
    else if name == "AUDITOR"
    then some auditor
    else if name == "VIEWER"
    then some viewer
    else none

abbrev granted : Option Role → Permission → Bool
granted none p = false
granted (some r) p = has (role_permissions r) p

pub data RbacError : Type 0 where
  unknown_role : String → RbacError
  unresolvable_capabilities : RbacError
  permission_denied : String → RbacError

pub data Result {ℓ} (A : Type ℓ) : Type ℓ where
  ok : A → Result A
  err : RbacError → Result A

pub record CurrentUserCapabilities : Type 0 where
  pub can_organization_read : Bool
  pub can_organization_update : Bool
  pub can_accounts_read : Bool
  pub can_accounts_manage : Bool
  pub can_inventory_read : Bool
  pub can_inventory_scan_request : Bool
  pub can_invitations_read : Bool
  pub can_invitations_create : Bool
  pub can_invitations_resend : Bool
  pub can_invitations_revoke : Bool
  pub can_teams_read : Bool
  pub can_teams_create : Bool
  pub can_teams_update : Bool
  pub can_teams_archive : Bool
  pub can_teams_members_manage : Bool
  pub can_members_read : Bool
  pub can_members_invite : Bool
  pub can_members_remove : Bool
  pub can_members_role_update : Bool
  pub can_members_status_update : Bool
  pub can_findings_read : Bool
  pub can_findings_manage : Bool
  pub can_risks_read : Bool
  pub can_risks_manage : Bool
  pub can_risk_accept : Bool
  pub can_recommendations_read : Bool
  pub can_recommendations_manage : Bool
  pub can_operations_read : Bool
  pub can_operations_prepare : Bool
  pub can_approvals_read : Bool
  pub can_approvals_decide : Bool
  pub can_reports_read : Bool
  pub can_reports_generate : Bool
  pub can_audit_read : Bool
  pub can_settings_read : Bool
  pub can_settings_update : Bool
  pub can_monitoring_read : Bool
  pub can_monitoring_evaluate : Bool
  pub can_monitoring_alerts_acknowledge : Bool
  pub can_monitoring_alerts_resolve : Bool

module _ (to_upper : String → String) where
  -- The legacy names `ADMIN` and `MEMBER` stand for other roles.
  unfoldable pub legacy_name : String → String
  legacy_name upper =
      if upper == "ADMIN" then "OWNER" else if upper == "MEMBER" then "VIEWER" else upper

  unfoldable pub has_permission : String → Permission → Bool
  unfolding legacy_name
  has_permission role p = granted (known_role (legacy_name (to_upper role))) p

  unfoldable pub require_permission : String → Permission → Result (Unit {0})
  require_permission role p =
      if not (has_permission role p) then err (permission_denied (permission_name p)) else ok tt

  unfoldable pub normalize_legacy_role : String → Result Role
  normalize_legacy_role role =
      let upper = to_upper role in
      if upper == "ADMIN"
      then ok owner
      else if upper == "MEMBER"
      then ok viewer
      else elim (known_role upper) [ some r ↦ ok r | none ↦ err (unknown_role role) ]

  unfoldable pub capabilities : String → CurrentUserCapabilities
  capabilities role = record {
    can_organization_read = has_permission role organization_read;
    can_organization_update = has_permission role organization_update;
    can_accounts_read = has_permission role accounts_read;
    can_accounts_manage = has_permission role accounts_manage;
    can_inventory_read = has_permission role inventory_read;
    can_inventory_scan_request = has_permission role inventory_scan_request;
    can_invitations_read = has_permission role invitations_read;
    can_invitations_create = has_permission role invitations_create;
    can_invitations_resend = has_permission role invitations_resend;
    can_invitations_revoke = has_permission role invitations_revoke;
    can_teams_read = has_permission role teams_read;
    can_teams_create = has_permission role teams_create;
    can_teams_update = has_permission role teams_update;
    can_teams_archive = has_permission role teams_archive;
    can_teams_members_manage = has_permission role teams_members_manage;
    can_members_read = has_permission role members_read;
    can_members_invite = has_permission role members_invite;
    can_members_remove = has_permission role members_remove;
    can_members_role_update = has_permission role members_role_update;
    can_members_status_update = has_permission role members_status_update;
    can_findings_read = has_permission role findings_read;
    can_findings_manage = has_permission role findings_manage;
    can_risks_read = has_permission role risks_read;
    can_risks_manage = has_permission role risks_manage;
    can_risk_accept = has_permission role risk_accept;
    can_recommendations_read = has_permission role recommendations_read;
    can_recommendations_manage = has_permission role recommendations_manage;
    can_operations_read = has_permission role operations_read;
    can_operations_prepare = has_permission role operations_prepare;
    can_approvals_read = has_permission role approvals_read;
    can_approvals_decide = has_permission role approvals_decide;
    can_reports_read = has_permission role reports_read;
    can_reports_generate = has_permission role reports_generate;
    can_audit_read = has_permission role audit_read;
    can_settings_read = has_permission role settings_read;
    can_settings_update = has_permission role settings_update;
    can_monitoring_read = has_permission role monitoring_read;
    can_monitoring_evaluate = has_permission role monitoring_evaluate;
    can_monitoring_alerts_acknowledge = has_permission role monitoring_alerts_acknowledge;
    can_monitoring_alerts_resolve = has_permission role monitoring_alerts_resolve;
  }

  unfoldable pub resolve_current_user_capabilities : String → Result CurrentUserCapabilities
  resolve_current_user_capabilities role =
      let normalized_role = to_upper role in
      if not (normalized_role == "MEMBER" || is_some (known_role normalized_role))
      then err unresolvable_capabilities
      else ok (capabilities role)
