-- ===== src/Catalog/Principals.antt =====
-- The caller of a request: `Principal` and the role names of
-- apps/catalog-api/app/core/security.py.
use datagenie.Prelude.{String, Bool, ◌||◌, List, any, contains, ◌∷◌, [], ◌≡◌, arith, eq_comm, refl}

pub record Principal : Type 0 where
  pub subject : String
  pub tenant_id : String
  pub roles : List String

abbrev pub role_platform_admin : String
role_platform_admin = "platform_admin"

abbrev pub role_data_steward : String
role_data_steward = "data_steward"

abbrev pub role_data_owner : String
role_data_owner = "data_owner"

abbrev pub role_analyst : String
role_analyst = "analyst"

abbrev pub role_read_only : String
role_read_only = "read_only"

-- `bool(roles.intersection(accepted))`
abbrev pub intersects : List String → List String → Bool
intersects roles accepted = any (λ r. contains r accepted) roles

unfoldable pub has_any_role : Principal → List String → Bool
has_any_role p accepted = contains role_platform_admin p.roles || intersects p.roles accepted

pub intersects-pair :
    (roles : List String) (a b : String)
    → intersects roles (a ∷ b ∷ []) ≡ contains a roles || contains b roles
intersects-pair [] a b = refl
intersects-pair (r ∷ roles) a b =
    rw (intersects-pair roles a b) (ground (arith, eq_comm a r, eq_comm b r))

pub intersects-single :
    (roles : List String) (a : String) → intersects roles (a ∷ []) ≡ contains a roles
intersects-single [] a = refl
intersects-single (r ∷ roles) a = rw (intersects-single roles a) (ground (arith, eq_comm a r))
