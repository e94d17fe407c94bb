-- ===== src/Rbac/Laws.antt =====
-- What the permission checks promise, whatever `toUpperCase` does to a text.
use cloudshield_enterprise.Prelude.{
  String, ◌≡◌, refl, ap, ◌≢◌, ◌↔◌, ◌⊎◌, inl, inr, Bool, true, false, not, ◌||◌, Option, none, some,
  arith, eq_iff, ◌==◌, string_eq, Bool-cases,
}
use cloudshield_enterprise.Rbac.{
  known_role, granted, ok, has_permission, normalize_legacy_role, resolve_current_user_capabilities,
  err, legacy_name, Result, unknown_role, unresolvable_capabilities,
}
use cloudshield_enterprise.Rbac.Permissions.{
  owner, admin, security_operator, cloud_operator, auditor, viewer, organization_read,
  is_member_administration,
}
use cloudshield_enterprise.Rbac.Permissions.{Role, Permission, role_permissions, has}

implied :
    (r : Role) (p : Permission)
    → (not (has (role_permissions viewer) p) || has (role_permissions r) p) ≡ true
implied owner organization_read = refl
implied owner _ = refl
implied admin organization_read = refl
implied admin _ = refl
implied security_operator organization_read = refl
implied security_operator _ = refl
implied cloud_operator organization_read = refl
implied cloud_operator _ = refl
implied auditor organization_read = refl
implied auditor _ = refl
implied viewer organization_read = refl
implied viewer _ = refl

abbrev is_owner : Role → Bool
is_owner owner = true
is_owner _ = false

owner_only :
    (r : Role) (p : Permission)
    → (not (is_member_administration p) || not (has (role_permissions r) p) || is_owner r) ≡ true
owner_only owner organization_read = refl
owner_only owner _ = refl
owner_only admin organization_read = refl
owner_only admin _ = refl
owner_only security_operator organization_read = refl
owner_only security_operator _ = refl
owner_only cloud_operator organization_read = refl
owner_only cloud_operator _ = refl
owner_only auditor organization_read = refl
owner_only auditor _ = refl
owner_only viewer organization_read = refl
owner_only viewer _ = refl

is_owner-eq : (r : Role) → is_owner r ≡ true → r ≡ owner
is_owner-eq owner h = refl
is_owner-eq r h = cc

owner_all : (p : Permission) → has (role_permissions owner) p ≡ true
owner_all organization_read = refl
owner_all _ = refl

abbrev normalized : Option Role → String → Result Role
normalized none role = err (unknown_role role)
normalized (some r) role = ok r

granted_iff :
    (o : Option Role) (role : String) (p : Permission)
    → (granted o p ≡ true)
      ↔ ((r : Role) × (normalized o role ≡ ok r) × (has (role_permissions r) p ≡ true))
granted_iff none role p = (λ e. cc, λ h. cc h.1)
granted_iff (some r) role p = (λ e. (r, refl, e), λ h. cc (h.1, h.2))

known-owner : known_role "OWNER" ≡ some owner
unfolding known_role
known-owner = refl

known-viewer : known_role "VIEWER" ≡ some viewer
unfolding known_role
known-viewer = refl

known_owner : (u : String) → known_role u ≡ some owner → u ≡ "OWNER"
unfolding known_role
known_owner u h = ground (arith, eq_iff u "OWNER")

known_member : known_role "MEMBER" ≡ none
unfolding known_role
known_member = refl

known_admin : known_role "ADMIN" ≡ some admin
unfolding known_role
known_admin = refl

member_text : ¬ ((◌≡◌ {A = String} "MEMBER" "OWNER") ⊎ (◌≡◌ {A = String} "MEMBER" "ADMIN"))
member_text h = ground (arith, eq_iff "MEMBER" "OWNER", eq_iff "MEMBER" "ADMIN")

granted_of_owner : (o : Option Role) (p : Permission) → o ≡ some owner → granted o p ≡ true
granted_of_owner o p e = rw e (owner_all p)

module _ (to_upper : String → String) where
  normalize-eq :
      (role : String)
      → normalize_legacy_role to_upper role
        ≡ normalized (known_role (legacy_name to_upper (to_upper role))) role
  unfolding normalize_legacy_role legacy_name known_role
  normalize-eq role = elim (Bool-cases (to_upper role == "ADMIN")) [
    | inl e ↦ rw e refl
    | inr e ↦ elim (Bool-cases (to_upper role == "MEMBER")) [
      | inl f ↦ rw (e, f) refl
      | inr f ↦ ground arith
    ]
  ]

  -- A role text has a permission exactly when it stands for a role, by its own name or by a legacy
  -- name, whose list holds the permission.
  pub has_permission_iff :
      (role : String) (p : Permission)
      → (has_permission to_upper role p ≡ true) ↔ (
          (r : Role) × (normalize_legacy_role to_upper role ≡ ok r)
          × (has (role_permissions r) p ≡ true))
  unfolding has_permission
  has_permission_iff role p =
      rw (normalize-eq role)
        (granted_iff (known_role (legacy_name to_upper (to_upper role))) role p)

  legacy-cases :
      (u : String)
      → ((u ≡ "ADMIN") × (legacy_name to_upper u ≡ "OWNER"))
        ⊎ ((u ≡ "MEMBER") × (legacy_name to_upper u ≡ "VIEWER"))
        ⊎ ((u ≢ "ADMIN") × (u ≢ "MEMBER") × (legacy_name to_upper u ≡ u))
  unfolding legacy_name
  legacy-cases u = ground (arith, eq_iff u "ADMIN", eq_iff u "MEMBER")

  owner_iff :
      (u : String)
      → (known_role (legacy_name to_upper u) ≡ some owner) ↔ ((u ≡ "OWNER") ⊎ (u ≡ "ADMIN"))
  owner_iff u = elim (legacy-cases u) [
    | inl (e, l) ↦ rw l (λ _. inr e, λ _. known-owner)
    | inr (inl (e, l)) ↦ rw (l, e) (λ h. cc (h, known-viewer), λ h. absurd (member_text h))
    | inr (inr (n, m, l)) ↦ rw l (
      λ h. inl (known_owner u h),
      λ h. elim h [ inl e ↦ rw e known-owner | inr e ↦ absurd (n e) ],
    )
  ]

  granted_owner :
      (o : Option Role) (p : Permission)
      → is_member_administration p ≡ true
      → (granted o p ≡ true) ↔ (o ≡ some owner)
  granted_owner none p h = (λ e. cc, λ e. cc)
  granted_owner (some r) p h =
      (λ e. ap some (is_owner-eq r (ground (arith, owner_only r p))), granted_of_owner (some r) p)

  -- Changing a role or a status and removing a member are open to exactly the role texts that
  -- upper-case to `OWNER` or to the legacy name `ADMIN`.
  pub member_administration_iff :
      (role : String) (p : Permission)
      → is_member_administration p ≡ true
      → (has_permission to_upper role p ≡ true)
        ↔ ((to_upper role ≡ "OWNER") ⊎ (to_upper role ≡ "ADMIN"))
  unfolding has_permission
  member_administration_iff role p h =
      let (there, back) = granted_owner (known_role (legacy_name to_upper (to_upper role))) p h in
      let (to, from) = owner_iff (to_upper role) in (λ e. to (there e), λ e. back (from e))

  refusals :
      (role : String)
      → ((resolve_current_user_capabilities to_upper role ≡ err unresolvable_capabilities)
          ↔ (normalize_legacy_role to_upper role ≡ err (unknown_role role)))
        × (normalize_legacy_role to_upper role ≡ err (unknown_role role)
            → (p : Permission) → has_permission to_upper role p ≡ false)
  unfolding resolve_current_user_capabilities has_permission
  refusals role = rw (normalize-eq role) (elim (legacy-cases (to_upper role)) [
    | inl (e, l) ↦ rw (l, e, known-owner, known_admin) (ground arith)
    | inr (inl (e, l)) ↦ rw (l, e, known-viewer) (ground arith)
    | inr (inr (n, m, l)) ↦ rw l (ground (arith, eq_iff (to_upper role) "MEMBER"))
  ])

  -- `resolveCurrentUserCapabilities` refuses a role text exactly when `normalizeLegacyRole` does and the
  -- text has no permission at all.
  pub refused_iff :
      (role : String)
      → (resolve_current_user_capabilities to_upper role ≡ err unresolvable_capabilities) ↔ (
          (normalize_legacy_role to_upper role ≡ err (unknown_role role))
          × ((p : Permission) → has_permission to_upper role p ≡ false))
  refused_iff role =
      let (same, none_granted) = refusals role in
      (λ e. (same.0 e, none_granted (same.0 e)), λ h. same.1 h.0)
