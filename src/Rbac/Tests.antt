-- ===== src/Rbac/Tests.antt =====
-- Witnesses, with a `toUpperCase` for the one lower-case name that is used.
use cloudshield_enterprise.Prelude.{
  String, ◌≡◌, refl, ◌↔◌, ◌⊎◌, true, false, ◌==◌, string_eq, if◌then◌else◌,
}
use cloudshield_enterprise.Rbac.{
  has_permission, normalize_legacy_role, resolve_current_user_capabilities, ok, err, unknown_role,
  unresolvable_capabilities,
}
use cloudshield_enterprise.Rbac.Permissions.{members_remove, inventory_scan_request}
use cloudshield_enterprise.Rbac.Permissions.{Role, Permission, role_permissions, has}
use cloudshield_enterprise.Rbac.Laws.{has_permission_iff, member_administration_iff, refused_iff}

abbrev upper : String → String
upper s = if s == "admin" then "ADMIN" else s

has_permission_iff_example :
    (has_permission upper "CLOUD_OPERATOR" inventory_scan_request ≡ true) ↔ (
      (r : Role) × (normalize_legacy_role upper "CLOUD_OPERATOR" ≡ ok r)
      × (has (role_permissions r) inventory_scan_request ≡ true))
has_permission_iff_example = has_permission_iff upper "CLOUD_OPERATOR" inventory_scan_request

member_administration_iff_example :
    (has_permission upper "admin" members_remove ≡ true)
    ↔ ((upper "admin" ≡ "OWNER") ⊎ (upper "admin" ≡ "ADMIN"))
member_administration_iff_example = member_administration_iff upper "admin" members_remove refl

refused_iff_example :
    (resolve_current_user_capabilities upper "ROOT" ≡ err unresolvable_capabilities) ↔ (
      (normalize_legacy_role upper "ROOT" ≡ err (unknown_role "ROOT"))
      × ((p : Permission) → has_permission upper "ROOT" p ≡ false))
refused_iff_example = refused_iff upper "ROOT"
