-- ===== src/Iam/Resolver.antt =====
-- internal/iam/resolve.go: the resolver of role grants. `byName` is a list of the assignments, the
-- latest first; a callback of `visit` is run over the list of the calls that `visit` makes.
use access_gateway.Prelude.{
  ℕ, zero, suc, ◌+◌, Bool, true, false, ◌&&◌, ◌||◌, Option, none, some, List, [], ◌∷◌, ◌++◌, Text,
  codes, text_eq, if◌then◌else◌, length, is_empty,
}
use access_gateway.Label.Keys.{Labels}
use access_gateway.Label.Selectors.{Selector, matches}
use access_gateway.Label.Bindings.{BindingError, binding_selector}
use access_gateway.Iam.Roles.{Role, Binding}

pub record GrantSource : Type 0 where
  pub kind : Text
  pub id : Text
  pub name : Text
  pub revision : ℕ
  pub user_selector : Text
  pub role_selector : Text

pub record DirectGrant : Type 0 where
  pub role : Text
  pub source : GrantSource

pub record RoleGrant : Type 0 where
  pub role : Role
  pub sources : List GrantSource

pub record CompiledBinding : Type 0 where
  pub subject : Selector
  pub roles : List ℕ
  pub source : GrantSource

pub record Resolver : Type 0 where
  pub roles : List Role
  pub by_name : List (Text × ℕ)
  pub bindings : List CompiledBinding

abbrev pub new_empty : Resolver
new_empty = record { roles = []; by_name = []; bindings = [] }

-- One round of the first loop of `NewResolver`.
unfoldable pub add_role : Resolver → Role → Resolver
add_role r role =
    if role.enabled
    then record r {
      by_name = (role.name, length r.roles) ∷ r.by_name;
      roles = r.roles ++ role ∷ [];
    }
    else r

unfoldable pub add_roles : Resolver → List Role → Resolver
add_roles r [] = r
add_roles r (role ∷ roles) = add_roles (add_role r role) roles

-- The loop that fills `compiled.roles`, from an index on.
unfoldable pub matching_roles : Selector → ℕ → List Role → List ℕ
matching_roles selector index [] = []
matching_roles selector index (role ∷ roles) =
    let rest = matching_roles selector (index + 1) roles in
    if matches selector role.labels then index ∷ rest else rest

abbrev source_of : Binding → GrantSource
source_of b = record {
  kind = codes "binding";
  id = b.id;
  name = b.name;
  revision = b.revision;
  user_selector = b.user_selector;
  role_selector = b.role_selector;
}

-- The end of a round of the second loop: a binding that reaches no role is dropped.
unfoldable pub keep_binding : Resolver → CompiledBinding → Resolver
keep_binding r compiled =
    if is_empty compiled.roles then r else record r { bindings = r.bindings ++ compiled ∷ [] }

-- The rest of a round for an enabled binding, on the two results of `BindingSelector`.
unfoldable pub compile_binding :
    Resolver → Binding → Selector × Option BindingError → Selector × Option BindingError → Resolver
compile_binding r b (subject, some e) (selector, error) = r
compile_binding r b (subject, none) (selector, some e) = r
compile_binding r b (subject, none) (selector, none) =
    keep_binding r (record {
      subject = subject;
      roles = matching_roles selector 0 r.roles;
      source = source_of b;
    })

unfoldable pub add_binding : Resolver → Binding → Resolver
add_binding r b =
    if b.enabled
    then compile_binding r b (binding_selector b.user_selector) (binding_selector b.role_selector)
    else r

unfoldable pub add_bindings : Resolver → List Binding → Resolver
add_bindings r [] = r
add_bindings r (b ∷ bindings) = add_bindings (add_binding r b) bindings

unfoldable pub new_resolver : List Role → List Binding → Resolver
new_resolver roles bindings = add_bindings (add_roles new_empty roles) bindings

-- `r.byName[name]`
unfoldable pub index_of : Text → List (Text × ℕ) → Option ℕ
index_of name [] = none
index_of name ((k, i) ∷ rest) = if text_eq k name then some i else index_of name rest

abbrev pub call : GrantSource → Option ℕ → List (ℕ × GrantSource)
call source none = []
call source (some i) = (i, source) ∷ []

-- The name is the bytes of 默认用户角色.
abbrev pub baseline : GrantSource
baseline = record {
  kind = codes "baseline";
  id = [];
  name =
      233 ∷ 187 ∷ 152 ∷ 232 ∷ 174 ∷ 164 ∷ 231 ∷ 148 ∷ 168 ∷ 230 ∷ 136 ∷ 183 ∷ 232 ∷ 167 ∷ 146 ∷ 232
      ∷ 137 ∷ 178 ∷ [];
  revision = 0;
  user_selector = [];
  role_selector = [];
}

-- The calls for the direct assignments.
unfoldable pub direct_calls : List (Text × ℕ) → List DirectGrant → List (ℕ × GrantSource)
direct_calls by_name [] = []
direct_calls by_name (assignment ∷ direct) =
    call assignment.source (index_of assignment.role by_name) ++ direct_calls by_name direct

-- The inner loop over the roles of a binding.
unfoldable pub role_calls : GrantSource → List ℕ → List (ℕ × GrantSource)
role_calls source [] = []
role_calls source (i ∷ indices) = (i, source) ∷ role_calls source indices

-- The calls for the bindings that the subject's labels match.
unfoldable pub binding_calls : Labels → List CompiledBinding → List (ℕ × GrantSource)
binding_calls subject [] = []
binding_calls subject (b ∷ bindings) =
    (if matches b.subject subject then role_calls b.source b.roles else [])
    ++ binding_calls subject bindings

-- `visit`: the calls of `grant`, in order.
unfoldable pub visit : Resolver → Labels → List DirectGrant → List (ℕ × GrantSource)
visit r subject direct =
    call baseline (index_of (codes "user") r.by_name)
    ++ (direct_calls r.by_name direct ++ binding_calls subject r.bindings)

-- `granted[index] = true` and `sources[index] = append(sources[index], source)`. An index past the
-- end changes nothing here; `visit` makes none.
unfoldable pub set_true : List Bool → ℕ → List Bool
set_true [] i = []
set_true (b ∷ bs) zero = true ∷ bs
set_true (b ∷ bs) (suc i) = b ∷ set_true bs i

unfoldable pub append_at : List (List GrantSource) → ℕ → GrantSource → List (List GrantSource)
append_at [] i s = []
append_at (ss ∷ rest) zero s = (ss ++ s ∷ []) ∷ rest
append_at (ss ∷ rest) (suc i) s = ss ∷ append_at rest i s

-- The callbacks, run over the calls.
unfoldable pub mark : List Bool → List (ℕ × GrantSource) → List Bool
mark granted [] = granted
mark granted ((i, source) ∷ calls) = mark (set_true granted i) calls

unfoldable pub collect : List (List GrantSource) → List (ℕ × GrantSource) → List (List GrantSource)
collect sources [] = sources
collect sources ((i, source) ∷ calls) = collect (append_at sources i source) calls

-- `make([]bool, len(r.roles))` and `make([][]GrantSource, len(r.roles))`
unfoldable pub no_flags : List Role → List Bool
no_flags [] = []
no_flags (role ∷ roles) = false ∷ no_flags roles

unfoldable pub no_sources : List Role → List (List GrantSource)
no_sources [] = []
no_sources (role ∷ roles) = [] ∷ no_sources roles

-- The last loops of `Resolve` and of `Explain`.
unfoldable pub granted_roles : List Role → List Bool → List Role
granted_roles (role ∷ roles) (flag ∷ flags) =
    let rest = granted_roles roles flags in if flag then role ∷ rest else rest
granted_roles _ _ = []

unfoldable pub explained_roles : List Role → List (List GrantSource) → List RoleGrant
explained_roles (role ∷ roles) (ss ∷ sources) =
    let rest = explained_roles roles sources in
    if is_empty ss then rest else record { role = role; sources = ss } ∷ rest
explained_roles _ _ = []

abbrev pub no_source : GrantSource
no_source = record {
  kind = [];
  id = [];
  name =
      233 ∷ 187 ∷ 152 ∷ 232 ∷ 174 ∷ 164 ∷ 231 ∷ 148 ∷ 168 ∷ 230 ∷ 136 ∷ 183 ∷ 232 ∷ 167 ∷ 146 ∷ 232
      ∷ 137 ∷ 178 ∷ [];
  revision = 0;
  user_selector = [];
  role_selector = [];
}

-- The loop that turns the names of `Resolve` into direct grants.
unfoldable pub direct_grants : List Text → List DirectGrant
direct_grants [] = []
direct_grants (name ∷ explicit) =
    record { role = name; source = no_source } ∷ direct_grants explicit

unfoldable pub resolver_resolve : Resolver → Labels → List Text → List Role
resolver_resolve r subject explicit =
    granted_roles r.roles (mark (no_flags r.roles) (visit r subject (direct_grants explicit)))

unfoldable pub explain : Resolver → Labels → List DirectGrant → List RoleGrant
explain r subject direct =
    explained_roles r.roles (collect (no_sources r.roles) (visit r subject direct))

unfoldable pub resolve : Labels → List Role → List Binding → List Text → List Role
resolve subject roles bindings explicit =
    resolver_resolve (new_resolver roles bindings) subject explicit

-- `MatchesRole`: its loop, and its guard.
unfoldable pub any_role_matches : Selector → List Role → Bool
any_role_matches selector [] = false
any_role_matches selector (role ∷ roles) =
    (role.enabled && matches selector role.labels) || any_role_matches selector roles

abbrev pub no_error : Option BindingError → Bool
no_error none = true
no_error (some e) = false

unfoldable pub matches_role : Text → List Role → Bool
matches_role selector roles =
    no_error (binding_selector selector).1 && any_role_matches (binding_selector selector).0 roles
