-- ===== src/Tests/Rbac.antt =====
-- src/aduib_rpc/security/rbac.py on concrete policies, with patterns that match only themselves.
use aduib_rpc.Prelude.Dict
use aduib_rpc.Prelude.{
  same_text, [], false, none, not, refl, some, text_dec, true, ◌&&◌, ◌||◌, ◌∷◌, ◌≡◌,
}
use aduib_rpc.Security.Rbac.{
  Role, Principal, RbacPolicy, Permission, can_invoke_method, is_superadmin, get_role, denied_by,
  allowed_by, restricts,
}
use aduib_rpc.Security.Rbac.Access.{can_invoke_method_lem, some_role}

abbrev reader : Role
reader = record {
  name = "reader";
  permissions = (record { resource = "users"; action = "read" }) ∷ [];
  allowed_methods = "users.get" ∷ [];
  denied_methods = "users.delete" ∷ [];
}

abbrev writer : Role
writer = record {
  name = "writer";
  permissions = (record { resource = "users"; action = "write" }) ∷ [];
  allowed_methods = [];
  denied_methods = [];
}

abbrev policy : RbacPolicy
policy = record {
  roles = ("reader", reader) ∷ ("writer", writer) ∷ [];
  superadmin_role = some "root";
  default_role = none;
  audited = true;
}

abbrev alice : Principal
alice = record { id = some "alice"; kind = "user"; roles = "reader" ∷ [] }

alice_deletes : can_invoke_method same_text policy alice "users.delete" ≡ false
unfolding can_invoke_method is_superadmin Dict.get text_dec
alice_deletes = refl

alice_gets : can_invoke_method same_text policy alice "users.get" ≡ true
unfolding can_invoke_method is_superadmin Dict.get text_dec
alice_gets = refl

can_invoke_method_lem_example : can_invoke_method same_text policy alice "users.get" ≡ (
    is_superadmin policy alice
    || (not (some_role same_text policy (λ r. denied_by same_text r "users.get") ("reader" ∷ []))
        && (some_role same_text policy (λ r. allowed_by same_text r "users.get") ("reader" ∷ [])
            || not (some_role same_text policy restricts ("reader" ∷ [])))))
can_invoke_method_lem_example = can_invoke_method_lem same_text policy alice "users.get"

alice_ordinary : is_superadmin policy alice ≡ false
unfolding is_superadmin
alice_ordinary = refl

reader_found : get_role "reader" policy ≡ some reader
unfolding get_role Dict.get text_dec
reader_found = refl

abbrev write_users : Permission
write_users = record { resource = "users"; action = "write" }
