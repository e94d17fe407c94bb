-- ===== src/Rbac/Permissions.antt =====
-- The roles, the permissions and the list of each role (packages/security/src/rbac.ts).
use text.Mathlib.Text.{◌==◌ as str_beq}
use cloudshield_enterprise.Prelude.{
  String, Bool, false, not, ◌||◌, List, [], ◌∷◌, ◌++◌, filter, string_eq,
}

pub data Role : Type 0 where
  owner admin security_operator cloud_operator auditor viewer : Role

-- the values of `ROLES`
abbrev pub role_name : Role → String
role_name owner = "OWNER"
role_name admin = "ADMIN"
role_name security_operator = "SECURITY_OPERATOR"
role_name cloud_operator = "CLOUD_OPERATOR"
role_name auditor = "AUDITOR"
role_name viewer = "VIEWER"

abbrev pub roles : List Role
roles = owner ∷ admin ∷ security_operator ∷ cloud_operator ∷ auditor ∷ viewer ∷ []

pub data Permission : Type 0 where
  organization_read organization_update members_read members_invite members_role_update
        members_status_update members_remove invitations_read invitations_create invitations_resend
        invitations_revoke teams_read teams_create teams_update teams_archive teams_members_manage
        accounts_read accounts_manage inventory_read inventory_scan_request findings_read
        findings_manage risks_read risks_manage risk_accept recommendations_read
        recommendations_manage approvals_read approvals_decide operations_read operations_prepare
        reports_read reports_generate audit_read settings_read settings_update monitoring_read
        monitoring_evaluate monitoring_alerts_acknowledge monitoring_alerts_resolve :
      Permission

-- the values of `PERMISSIONS`
abbrev pub permission_name : Permission → String
permission_name organization_read = "organization.read"
permission_name organization_update = "organization.update"
permission_name members_read = "members.read"
permission_name members_invite = "members.invite"
permission_name members_role_update = "members.role.update"
permission_name members_status_update = "members.status.update"
permission_name members_remove = "members.remove"
permission_name invitations_read = "invitations.read"
permission_name invitations_create = "invitations.create"
permission_name invitations_resend = "invitations.resend"
permission_name invitations_revoke = "invitations.revoke"
permission_name teams_read = "teams.read"
permission_name teams_create = "teams.create"
permission_name teams_update = "teams.update"
permission_name teams_archive = "teams.archive"
permission_name teams_members_manage = "teams.members.manage"
permission_name accounts_read = "accounts.read"
permission_name accounts_manage = "accounts.manage"
permission_name inventory_read = "inventory.read"
permission_name inventory_scan_request = "inventory.scan.request"
permission_name findings_read = "findings.read"
permission_name findings_manage = "findings.manage"
permission_name risks_read = "risks.read"
permission_name risks_manage = "risks.manage"
permission_name risk_accept = "risk.accept"
permission_name recommendations_read = "recommendations.read"
permission_name recommendations_manage = "recommendations.manage"
permission_name approvals_read = "approvals.read"
permission_name approvals_decide = "approvals.decide"
permission_name operations_read = "operations.read"
permission_name operations_prepare = "operations.prepare"
permission_name reports_read = "reports.read"
permission_name reports_generate = "reports.generate"
permission_name audit_read = "audit.read"
permission_name settings_read = "settings.read"
permission_name settings_update = "settings.update"
permission_name monitoring_read = "monitoring.read"
permission_name monitoring_evaluate = "monitoring.evaluate"
permission_name monitoring_alerts_acknowledge = "monitoring.alerts.acknowledge"
permission_name monitoring_alerts_resolve = "monitoring.alerts.resolve"

-- `Object.values(PERMISSIONS)`
abbrev pub all_permissions : List Permission
all_permissions =
    organization_read ∷ organization_update ∷ members_read ∷ members_invite ∷ members_role_update
    ∷ members_status_update ∷ members_remove ∷ invitations_read ∷ invitations_create
    ∷ invitations_resend ∷ invitations_revoke ∷ teams_read ∷ teams_create ∷ teams_update
    ∷ teams_archive ∷ teams_members_manage ∷ accounts_read ∷ accounts_manage ∷ inventory_read
    ∷ inventory_scan_request ∷ findings_read ∷ findings_manage ∷ risks_read ∷ risks_manage
    ∷ risk_accept ∷ recommendations_read ∷ recommendations_manage ∷ approvals_read
    ∷ approvals_decide ∷ operations_read ∷ operations_prepare ∷ reports_read ∷ reports_generate
    ∷ audit_read ∷ settings_read ∷ settings_update ∷ monitoring_read ∷ monitoring_evaluate
    ∷ monitoring_alerts_acknowledge ∷ monitoring_alerts_resolve ∷ []

abbrev pub viewer_permissions : List Permission
viewer_permissions =
    organization_read ∷ members_read ∷ invitations_read ∷ teams_read ∷ accounts_read
    ∷ inventory_read ∷ findings_read ∷ risks_read ∷ recommendations_read ∷ approvals_read
    ∷ operations_read ∷ reports_read ∷ audit_read ∷ settings_read ∷ monitoring_read ∷ []

abbrev pub auditor_permissions : List Permission
auditor_permissions = viewer_permissions ++ reports_generate ∷ []

abbrev pub cloud_operator_permissions : List Permission
cloud_operator_permissions =
    viewer_permissions ++ accounts_manage ∷ inventory_scan_request ∷ operations_prepare ∷ []

abbrev pub security_operator_permissions : List Permission
security_operator_permissions =
    viewer_permissions
    ++ findings_manage ∷ risks_manage ∷ risk_accept ∷ recommendations_manage ∷ approvals_decide
      ∷ reports_generate ∷ monitoring_evaluate ∷ monitoring_alerts_acknowledge
      ∷ monitoring_alerts_resolve ∷ []

-- `p === q` compares the two strings.
abbrev pub same_permission : Permission → Permission → Bool
same_permission p q = str_beq (permission_name p) (permission_name q)

-- The permissions that `ADMIN_PERMISSIONS` leaves out.
abbrev pub is_member_administration : Permission → Bool
is_member_administration p =
    same_permission p members_role_update
    || same_permission p members_status_update
    || same_permission p members_remove

abbrev pub admin_permissions : List Permission
admin_permissions = filter (λ p. not (is_member_administration p)) all_permissions

abbrev pub role_permissions : Role → List Permission
role_permissions owner = all_permissions
role_permissions admin = admin_permissions
role_permissions security_operator = security_operator_permissions
role_permissions cloud_operator = cloud_operator_permissions
role_permissions auditor = auditor_permissions
role_permissions viewer = viewer_permissions

abbrev pub has : List Permission → Permission → Bool
has [] p = false
has (q ∷ qs) p = same_permission q p || has qs p
