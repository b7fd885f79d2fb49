-- ===== src/Iam/Table.antt =====
-- What `NewResolver` builds (internal/iam/resolve.go): every entry of `byName` stands for an enabled
-- role, every compiled binding for an enabled one with two valid selectors.
use access_gateway.Prelude.{
  ℕ, suc, ◌+◌, ◌≡◌, inl, inr, refl, ap, ◌∙◌, Bool, true, false, Bool-cases, Option, none, some,
  List, [], ◌∷◌, ◌++◌, Text, text_eq, text_eq_iff, is_empty, if◌then◌else◌, arith, length, In,
  In-append, get_elem?, get_elem?-append_last, get_elem?-append_left, get_elem?-append_length,
}
use access_gateway.Label.Selectors.{Selector, matches}
use access_gateway.Label.Bindings.{BindingError, binding_selector}
use access_gateway.Iam.Roles.{Role, Binding}
use access_gateway.Iam.Resolver.{
  CompiledBinding, Resolver, add_role, add_roles, matching_roles, keep_binding, compile_binding,
  add_binding, add_bindings, index_of,
}

-- The second half of the table of roles: what `byName` names stands at its index.
pub record IsTable (source : List Role) (r : Resolver) : Type 0 where
  pub listed :
      (i : ℕ) (role : Role)
      → get_elem? r.roles i ≡ some role
      → In role source × (role.enabled ≡ true)
  pub named :
      (name : Text) (i : ℕ)
      → index_of name r.by_name ≡ some i
      → (role : Role) × (get_elem? r.roles i ≡ some role) × (role.name ≡ name)

abbrev extended : Resolver → Role → Resolver
extended r role = record r {
  by_name = (role.name, length r.roles) ∷ r.by_name;
  roles = r.roles ++ role ∷ [];
}

named-extended :
    (source : List Role) (r : Resolver) (role : Role)
    → IsTable source r
    → (name : Text) (i : ℕ) → index_of name (extended r role).by_name ≡ some i
    → (found : Role) × (get_elem? (r.roles ++ role ∷ []) i ≡ some found) × (found.name ≡ name)
unfolding index_of
named-extended source r role t name i h = elim (Bool-cases (text_eq role.name name)) [
  | inl same ↦
      let at : length r.roles ≡ i = ground arith in
      (role, rw (← at) (get_elem?-append_length r.roles role), (text_eq_iff role.name name).0 same)
  | inr other ↦
      let (found, at, e) = t.named name i (ground arith) in
      (found, get_elem?-append_left r.roles (role ∷ []) i at, e)
]

extended-IsTable :
    (source : List Role) (r : Resolver) (role : Role)
    → In role source
    → role.enabled ≡ true
    → IsTable source r
    → IsTable source (extended r role)
extended-IsTable source r role member on t = record {
  listed = λ i found h. elim (get_elem?-append_last r.roles role i h) [
    | inl old ↦ t.listed i found old
    | inr new ↦ rw new (member, on)
  ];
  named = named-extended source r role t;
}

add_role-IsTable :
    (source : List Role) (r : Resolver) (role : Role)
    → In role source
    → IsTable source r
    → IsTable source (add_role r role)
unfolding add_role
add_role-IsTable source r role member t = chosen role.enabled refl
  where
    chosen : (b : Bool) → role.enabled ≡ b → IsTable source (if b then extended r role else r)
    chosen true on = extended-IsTable source r role member on t
    chosen false off = t

pub add_roles-IsTable :
    (source : List Role) (r : Resolver) (roles : List Role)
    → ((role : Role) → In role roles → In role source)
    → IsTable source r
    → IsTable source (add_roles r roles)
unfolding add_roles
add_roles-IsTable source r [] sub t = t
add_roles-IsTable source r (role ∷ roles) sub t =
    add_roles-IsTable source (add_role r role) roles (λ x h. sub x (inr h))
      (add_role-IsTable source r role (sub role (inl refl)) t)

-- A compiled binding comes from an enabled one with two valid selectors.
pub record IsCompiled (bindings : List Binding) (roles : List Role) (c : CompiledBinding)
    : Type 0 where
  pub origin : Binding
  pub member : In origin bindings
  pub on : origin.enabled ≡ true
  pub subject : binding_selector origin.user_selector ≡ (c.subject, none)
  pub selector : Selector
  pub role : binding_selector origin.role_selector ≡ (selector, none)
  pub reached : c.roles ≡ matching_roles selector 0 roles

-- The bindings of a resolver are compiled, against a table that they leave alone.
pub record IsBound (bindings : List Binding) (table r : Resolver) : Type 0 where
  pub roles : r.roles ≡ table.roles
  pub by_name : r.by_name ≡ table.by_name
  pub compiled : (c : CompiledBinding) → In c r.bindings → IsCompiled bindings table.roles c

pub matching_roles-matches :
    (selector : Selector) (index : ℕ) (roles : List Role) (i : ℕ)
    → In i (matching_roles selector index roles)
    → (k : ℕ) × (role : Role) × (i ≡ index + k)
      × (get_elem? roles k ≡ some role)
      × (matches selector role.labels ≡ true)
unfolding matching_roles
matching_roles-matches selector index [] i h = absurd h
matching_roles-matches selector index (role ∷ roles) i h =
    elim (Bool-cases (matches selector role.labels)) [
      | inl m ↦
          elim (let h' : In i (index ∷ matching_roles selector (index + 1) roles) = rw m at h in
            h') [
              | inl e ↦ (0, role, omega arith, refl, m)
              | inr later ↦
                  let (k, found, e, at, ok) =
                    matching_roles-matches selector (index + 1) roles i later in
                  (suc k, found, omega arith, at, ok)
            ]
      | inr skip ↦
          let (k, found, e, at, ok) =
            matching_roles-matches selector (index + 1) roles i (rw skip at h) in
          (suc k, found, omega arith, at, ok)
    ]

keep_binding-IsBound :
    (bindings : List Binding) (table r : Resolver) (c : CompiledBinding)
    → IsCompiled bindings table.roles c
    → IsBound bindings table r
    → IsBound bindings table (keep_binding r c)
unfolding keep_binding
keep_binding-IsBound bindings table r c k t = elim (Bool-cases (is_empty c.roles)) [
  | inl none_left ↦ simp none_left t
  | inr some_left ↦ simp some_left (record {
    roles = t.roles;
    by_name = t.by_name;
    compiled = λ x h. elim (In-append x r.bindings (c ∷ []) h) [
      | inl old ↦ t.compiled x old
      | inr (inl new) ↦ rw new k
      | inr (inr no_more) ↦ absurd no_more
    ];
  })
]

compile_binding-IsBound :
    (bindings : List Binding) (table r : Resolver) (b : Binding)
    (subject selector : Selector × Option BindingError)
    → In b bindings
    → b.enabled ≡ true
    → binding_selector b.user_selector ≡ subject
    → binding_selector b.role_selector ≡ selector
    → IsBound bindings table r
    → IsBound bindings table (compile_binding r b subject selector)
unfolding compile_binding
compile_binding-IsBound bindings table r b (s, some e) (selector, error) m on p q t = t
compile_binding-IsBound bindings table r b (s, none) (selector, some e) m on p q t = t
compile_binding-IsBound bindings table r b (s, none) (selector, none) m on p q t =
    keep_binding-IsBound bindings table r _
      (record {
        origin = b;
        member = m;
        on = on;
        subject = p;
        selector = selector;
        role = q;
        reached = ap (matching_roles selector 0) t.roles;
      })
      t

add_binding-IsBound :
    (bindings : List Binding) (table r : Resolver) (b : Binding)
    → In b bindings
    → IsBound bindings table r
    → IsBound bindings table (add_binding r b)
unfolding add_binding
add_binding-IsBound bindings table r b m t = chosen b.enabled refl
  where
    compiled : Resolver
    compiled =
        compile_binding r b (binding_selector b.user_selector) (binding_selector b.role_selector)

    chosen : (on : Bool) → b.enabled ≡ on → IsBound bindings table (if on then compiled else r)
    chosen true on = compile_binding-IsBound bindings table r b _ _ m on refl refl t
    chosen false off = t

pub add_bindings-IsBound :
    (bindings rest : List Binding) (table r : Resolver)
    → ((b : Binding) → In b rest → In b bindings)
    → IsBound bindings table r
    → IsBound bindings table (add_bindings r rest)
unfolding add_bindings
add_bindings-IsBound bindings [] table r sub t = t
add_bindings-IsBound bindings (b ∷ rest) table r sub t =
    add_bindings-IsBound bindings rest table (add_binding r b) (λ x h. sub x (inr h))
      (add_binding-IsBound bindings table r b (sub b (inl refl)) t)

pub add_roles-bindings :
    (r : Resolver) (roles : List Role) → (add_roles r roles).bindings ≡ r.bindings
unfolding add_roles
add_roles-bindings r [] = refl
add_roles-bindings r (role ∷ roles) =
    add_roles-bindings (add_role r role) roles ∙ (unfold add_role in ground arith)
