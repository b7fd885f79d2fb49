-- ===== src/Iam/Roles.antt =====
-- internal/iam/model.go: roles and bindings, and their validation. Times are nanoseconds.
use access_gateway.Prelude.{
  ℕ, Bool, false, ◌&&◌, ◌||◌, not, Option, none, some, List, [], ◌∷◌, Text, leb, ◌==◌, length, all,
  Result, ok, err, ◌>>◌, guard,
}
use access_gateway.Label.Keys.{Labels, LabelError, wrap}
use access_gateway.Label.Bindings.{BindingError, binding_selector, validate_editable}
use access_gateway.Iam.Permissions.{Permission, catalog, is_listed, known}

pub record Role : Type 0 where
  pub name : Text
  pub description : Text
  pub permissions : List Permission
  pub labels : Labels
  pub enabled : Bool
  pub built_in : Bool
  pub revision : ℕ
  pub created_at : ℕ
  pub updated_at : ℕ

abbrev is_lower : ℕ → Bool
is_lower c = leb b'a' c && leb c b'z'

abbrev is_role_char : ℕ → Bool
is_role_char c = is_lower c || (leb b'0' c && leb c b'9') || c == b'_' || c == b'-'

-- `^[a-z][a-z0-9_-]{1,62}$`
unfoldable pub is_role_name : Text → Bool
is_role_name [] = false
is_role_name (c ∷ s) = is_lower c && all is_role_char s && leb 1 (length s) && leb (length s) 62

pub data RoleError : Type 0 where
  bad_name_or_description bad_permission_count : RoleError
  unknown_or_repeated : Permission → RoleError
  bad_labels : LabelError → RoleError

-- The loop over the permissions; `seen` holds the ones before.
unfoldable pub validate_permissions :
    List Permission → List Permission → Result RoleError (Unit {0})
validate_permissions seen [] = ok tt
validate_permissions seen (p ∷ permissions) = do
  guard (known p && not (is_listed seen p)) (unknown_or_repeated p)
  validate_permissions (p ∷ seen) permissions

unfoldable pub validate_role : Role → Result RoleError (Unit {0})
validate_role r = do
  guard (is_role_name r.name && leb (length r.description) 512) bad_name_or_description
  guard (not (length r.permissions == 0) && leb (length r.permissions) (length catalog))
      bad_permission_count
  validate_permissions [] r.permissions
  wrap bad_labels (validate_editable r.labels)

pub record Binding : Type 0 where
  pub id : Text
  pub name : Text
  pub user_selector : Text
  pub role_selector : Text
  pub enabled : Bool
  pub revision : ℕ
  pub created_at : ℕ
  pub updated_at : ℕ

pub data BindingFault : Type 0 where
  bad_binding_name : BindingFault
  bad_selector : BindingError → BindingFault

-- `if _, err := label.BindingSelector(…); err != nil { return err }`
abbrev pub check_selector : Option BindingError → Result BindingFault (Unit {0})
check_selector none = ok tt
check_selector (some e) = err (bad_selector e)

unfoldable pub validate_binding : Binding → Result BindingFault (Unit {0})
validate_binding b = do
  guard (leb 1 (length b.name) && leb (length b.name) 128) bad_binding_name
  check_selector (binding_selector b.user_selector).1
  check_selector (binding_selector b.role_selector).1
