-- ===== src/Security/Rbac/Audit.antt =====
-- What the RbacPolicy of src/aduib_rpc/security/rbac.py tells its audit callback.
use Prim.Native.String.{String}
use aduib_rpc.Prelude.{Bool, [], arith, false, if◌then◌else◌, none, some, text_dec, ◌∷◌, ◌≡◌, ◌≢◌}
use aduib_rpc.Prelude.Dict
use aduib_rpc.Security.Rbac.{
  Role, require_permission, get_role, has_permission, add_role, RbacPolicy, remove_role, Principal,
  Permission, permission_check, permission_denied,
}

module _ (fnmatch : String → String → Bool) where
  -- `require_permission` decides as `has_permission` does; an audited policy tells of the check, with
  -- the decision, and after a refusal of the denial too, and one with no callback tells nothing.
  pub require_permission_lem :
      (policy : RbacPolicy) (p : Principal) (q : Permission)
      → let granted = (has_permission fnmatch policy p q).0 in
        ((require_permission fnmatch policy p q).0 ≡ granted)
        × ((require_permission fnmatch policy p q).1 ≡ (
            if policy.audited
            then permission_check p q granted
              ∷ (if granted then [] else permission_denied p q false ∷ [])
            else []))
  unfolding require_permission has_permission
  require_permission_lem policy p q = ground arith

-- The last role registered under a name is the one that counts, and other names keep theirs; a
-- removed name is undefined.
pub get_role_lem :
    (policy : RbacPolicy) (r : Role) (name : String)
    → Dict.IsDict text_dec policy.roles
    → (get_role r.name (add_role r policy) ≡ some r)
      × (name ≢ r.name → get_role name (add_role r policy) ≡ get_role name policy)
      × (get_role name (remove_role name policy) ≡ none)
unfolding get_role add_role remove_role
get_role_lem policy r name d = (
  Dict.get-set_self text_dec r.name r policy.roles,
  (λ n. Dict.get-set_ne text_dec r.name name r policy.roles n),
  Dict.get-pop_self text_dec name policy.roles d,
)
