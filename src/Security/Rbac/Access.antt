-- ===== src/Security/Rbac/Access.antt =====
-- Who may invoke what under the RbacPolicy of src/aduib_rpc/security/rbac.py.
use Prim.Native.String.{String}
use aduib_rpc.Prelude.{
  Bool, List, Option, [], any, ap, arith, false, not, refl, ◌&&◌, ◌||◌, ◌∷◌, ◌≡◌, some, ◌∙◌,
}
use aduib_rpc.Security.Rbac.{
  Role, can_invoke_method, RbacPolicy, denied, allowed_loop, Principal, get_role, denied_by,
  allowed_by, is_superadmin, restricts, is_method_allowed,
}

module _ (fnmatch : String → String → Bool) where
  -- Whether some role of a list of names is defined and has a property.
  abbrev pub some_role : RbacPolicy → (Option Role → Bool) → List String → Bool
  some_role policy test names = any (λ name. test (get_role name policy)) names

  denied_lem :
      (policy : RbacPolicy) (names : List String) (method : String)
      → denied fnmatch policy names method
        ≡ some_role policy (λ r. denied_by fnmatch r method) names
  unfolding denied
  denied_lem policy [] method = refl
  denied_lem policy (name ∷ names) method =
      ap (λ b. denied_by fnmatch (get_role name policy) method || b)
        (denied_lem policy names method)

  allowed_loop_lem :
      (policy : RbacPolicy) (names : List String) (method : String) (flag : Bool)
      → allowed_loop fnmatch policy names method flag ≡ (
          some_role policy (λ r. allowed_by fnmatch r method) names
          || not (flag || some_role policy restricts names))
  unfolding allowed_loop
  allowed_loop_lem policy [] method flag = ground arith
  allowed_loop_lem policy (name ∷ names) method flag =
      ground
        (arith, allowed_loop_lem policy names method (flag || restricts (get_role name policy)))

  -- A principal may invoke a method exactly if it has the superadmin role, or no role of its denies
  -- the method and either some role allows it or no role says which methods it allows. Roles that
  -- are not defined play no part, and neither does the order of the roles.
  pub can_invoke_method_lem :
      (policy : RbacPolicy) (p : Principal) (method : String)
      → can_invoke_method fnmatch policy p method ≡ (
          is_superadmin policy p
          || (not (some_role policy (λ r. denied_by fnmatch r method) p.roles)
              && (some_role policy (λ r. allowed_by fnmatch r method) p.roles
                  || not (some_role policy restricts p.roles))))
  unfolding can_invoke_method
  can_invoke_method_lem policy p method =
      ground (arith, denied_lem policy p.roles method, allowed_loop_lem policy p.roles method false)

  -- For a principal that is no superadmin and has one role, which is defined, the policy decides as
  -- `is_method_allowed` of that role does.
  pub can_invoke_method_single :
      (policy : RbacPolicy) (p : Principal) (name method : String) (r : Role)
      → is_superadmin policy p ≡ false
      → p.roles ≡ name ∷ []
      → get_role name policy ≡ some r
      → can_invoke_method fnmatch policy p method ≡ is_method_allowed fnmatch r method
  unfolding is_method_allowed denied_by allowed_by restricts
  can_invoke_method_single policy p name method r ordinary one found =
      can_invoke_method_lem policy p method ∙ rw (ordinary, one, found) (ground arith)
