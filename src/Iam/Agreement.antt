-- ===== src/Iam/Agreement.antt =====
-- The two readers of `visit` agree (internal/iam/resolve.go).
use access_gateway.Prelude.{
  ℕ, zero, suc, ◌≡◌, refl, Bool, not, Option, none, some, List, [], ◌∷◌, ◌++◌, map, Text, is_empty,
  ap, ap₂, ◌∙◌, sym,
}
use access_gateway.Label.Keys.{Labels}
use access_gateway.Iam.Roles.{Role}
use access_gateway.Iam.Resolver.{
  GrantSource, DirectGrant, Resolver, index_of, call, direct_calls, visit, set_true, append_at,
  mark, collect, no_flags, no_sources, granted_roles, explained_roles, direct_grants,
  resolver_resolve, explain, no_source,
}

-- Which roles have a source.
flags_of : List (List GrantSource) → List Bool
flags_of [] = []
flags_of (ss ∷ sources) = not (is_empty ss) ∷ flags_of sources

indices : List (ℕ × GrantSource) → List ℕ
indices [] = []
indices ((i, s) ∷ calls) = i ∷ indices calls

set_true-flags_of :
    (sources : List (List GrantSource)) (i : ℕ) (s : GrantSource)
    → flags_of (append_at sources i s) ≡ set_true (flags_of sources) i
unfolding flags_of append_at set_true
set_true-flags_of [] i s = refl
set_true-flags_of ([] ∷ sources) zero s = refl
set_true-flags_of ((t ∷ ss) ∷ sources) zero s = refl
set_true-flags_of (ss ∷ sources) (suc i) s = rw (set_true-flags_of sources i s)

-- Marking depends on the indices alone.
mark-collect :
    (sources : List (List GrantSource)) (calls other : List (ℕ × GrantSource))
    → indices calls ≡ indices other
    → flags_of (collect sources calls) ≡ mark (flags_of sources) other
unfolding collect mark indices
mark-collect sources [] [] same = refl
mark-collect sources [] (c ∷ other) same = cc
mark-collect sources (c ∷ calls) [] same = cc
mark-collect sources ((i, s) ∷ calls) ((j, t) ∷ other) same =
    let at : i ≡ j = cc in
    rw (mark-collect (append_at sources i s) calls other (cc))
      (rw (set_true-flags_of sources i s) (rw at))

indices-append : (xs ys : List (ℕ × GrantSource)) → indices (xs ++ ys) ≡ indices xs ++ indices ys
unfolding indices
indices-append [] ys = refl
indices-append (x ∷ xs) ys = rw (indices-append xs ys)

abbrev roles_of : List DirectGrant → List Text
roles_of = map (λ d. d.role)

call-indices :
    (s t : GrantSource) (found : Option ℕ) → indices (call s found) ≡ indices (call t found)
unfolding indices
call-indices s t none = refl
call-indices s t (some i) = refl

direct_calls-indices :
    (by_name : List (Text × ℕ)) (direct : List DirectGrant)
    → indices (direct_calls by_name direct)
      ≡ indices (direct_calls by_name (direct_grants (roles_of direct)))
unfolding direct_calls direct_grants
direct_calls-indices by_name [] = refl
direct_calls-indices by_name (d ∷ direct) =
    let found = index_of d.role by_name in
    indices-append (call d.source found) (direct_calls by_name direct)
    ∙ ap₂ (λ xs ys. xs ++ ys) (call-indices d.source no_source found)
        (direct_calls-indices by_name direct)
    ∙ sym (
        indices-append (call no_source found)
          (direct_calls by_name (direct_grants (roles_of direct))))

visit-indices :
    (r : Resolver) (subject : Labels) (direct : List DirectGrant)
    → indices (visit r subject direct) ≡ indices (visit r subject (direct_grants (roles_of direct)))
unfolding visit
visit-indices r subject direct = simp (indices-append, direct_calls-indices r.by_name direct)

granted-explained :
    (roles : List Role) (sources : List (List GrantSource))
    → map (λ g. g.role) (explained_roles roles sources) ≡ granted_roles roles (flags_of sources)
unfolding explained_roles granted_roles flags_of
granted-explained [] [] = refl
granted-explained [] (ss ∷ sources) = refl
granted-explained (role ∷ roles) [] = refl
granted-explained (role ∷ roles) ([] ∷ sources) = granted-explained roles sources
granted-explained (role ∷ roles) ((s ∷ ss) ∷ sources) = rw (granted-explained roles sources)

no_flags-no_sources : (roles : List Role) → flags_of (no_sources roles) ≡ no_flags roles
unfolding flags_of no_sources no_flags
no_flags-no_sources [] = refl
no_flags-no_sources (role ∷ roles) = rw (no_flags-no_sources roles)

-- `Explain` lists exactly the roles that `Resolve` grants for the same subject and the names of the
-- same direct grants, in the same order: an explanation shows every granted role and no other.
pub explain-resolve :
    (r : Resolver) (subject : Labels) (direct : List DirectGrant)
    → map (λ g. g.role) (explain r subject direct)
      ≡ resolver_resolve r subject (map (λ d. d.role) direct)
unfolding explain resolver_resolve
explain-resolve r subject direct =
    granted-explained r.roles (collect (no_sources r.roles) (visit r subject direct))
    ∙ ap (granted_roles r.roles) (
        mark-collect (no_sources r.roles) (visit r subject direct)
          (visit r subject (direct_grants (roles_of direct))) (visit-indices r subject direct)
        ∙ ap (λ flags. mark flags (visit r subject (direct_grants (roles_of direct))))
            (no_flags-no_sources r.roles))
