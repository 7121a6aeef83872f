-- ===== src/Server/Access/Tests.antt =====
-- The names of roles are read back.
use silentguard_xdr.Server.Access.{Role, super_admin, role_value, parse_role}
use silentguard_xdr.Prelude.{◌≡◌, refl, some}

parse-role_value : (r : Role) → parse_role (role_value r) ≡ some r
unfolding parse_role
parse-role_value super_admin = refl
parse-role_value _ = refl
