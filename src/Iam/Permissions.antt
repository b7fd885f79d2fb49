-- ===== src/Iam/Permissions.antt =====
-- internal/authz/catalog.go: the permission vocabulary. A permission is a string; the names and
-- descriptions that the catalog shows in Chinese are left out.
use access_gateway.Prelude.{Bool, false, ◌||◌, List, [], ◌∷◌, Text, codes, text_eq}

abbrev pub Permission : Type 0
Permission = Text

abbrev pub permission_directory_read : Permission
permission_directory_read = codes "directory:read"

abbrev pub permission_request_manage : Permission
permission_request_manage = codes "request:manage"

abbrev pub permission_approval_manage : Permission
permission_approval_manage = codes "approval:manage"

abbrev pub permission_session_manage : Permission
permission_session_manage = codes "session:manage"

abbrev pub permission_catalog_manage : Permission
permission_catalog_manage = codes "catalog:manage"

abbrev pub permission_audit_read : Permission
permission_audit_read = codes "audit:read"

abbrev pub permission_session_override : Permission
permission_session_override = codes "session:override"

abbrev pub permission_role_manage : Permission
permission_role_manage = codes "role:manage"

abbrev pub permission_user_read : Permission
permission_user_read = codes "user:read"

abbrev pub permission_user_manage : Permission
permission_user_manage = codes "user:manage"

abbrev pub permission_workflow_manage : Permission
permission_workflow_manage = codes "workflow:manage"

-- The keys of `Catalog()`, in its order.
abbrev pub catalog : List Permission
catalog =
    permission_directory_read ∷ permission_request_manage ∷ permission_approval_manage
    ∷ permission_session_manage ∷ permission_catalog_manage ∷ permission_audit_read
    ∷ permission_session_override ∷ permission_role_manage ∷ permission_user_read
    ∷ permission_user_manage ∷ permission_workflow_manage ∷ []

-- The loop of `Known`.
unfoldable pub is_listed : List Permission → Permission → Bool
is_listed [] value = false
is_listed (p ∷ permissions) value = text_eq p value || is_listed permissions value

unfoldable pub known : Permission → Bool
known value = is_listed catalog value
