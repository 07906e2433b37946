-- ===== src/Roles.antt =====
-- packages/cloudspells-core/src/cloudspells/core/abstractions/tiers.py and roles.py.
use cloudspells.Common.{Bool, true, false}
use cloudspells.Common.Text.{Text, codes}

-- The `SubnetTier` literals.
pub data SubnetTier : Type 0 where
  public private secure management : SubnetTier

unfoldable pub tier_name : SubnetTier → Text
tier_name public = codes "public"
tier_name private = codes "private"
tier_name secure = codes "secure"
tier_name management = codes "management"

-- One value for each tier: what the code keeps in attributes `public_…` to `management_…`.
pub record PerTier (A : Type 0) : Type 0 where
  pub at_public : A
  pub at_private : A
  pub at_secure : A
  pub at_management : A

abbrev pub at_tier : {A : Type 0} → PerTier A → SubnetTier → A
at_tier p public = p.at_public
at_tier p private = p.at_private
at_tier p secure = p.at_secure
at_tier p management = p.at_management

abbrev pub per_tier : {A : Type 0} → (SubnetTier → A) → PerTier A
per_tier f = record {
  at_public = f public;
  at_private = f private;
  at_secure = f secure;
  at_management = f management;
}

pub record Role : Type 0 where
  pub name : Text
  pub subnet_tier : SubnetTier
  pub egress_internet : Bool
  pub egress_services : Bool
  pub accept_management_ssh : Bool

-- The role objects. `is INTERNET_EDGE` compares identities, so the constants are told apart from
-- equal roles that a user makes.
pub data RoleObject : Type 0 where
  internet_edge app_server database cache management_role : RoleObject
  custom : Role → RoleObject

unfoldable pub role_of : RoleObject → Role
role_of internet_edge = record {
  name = codes "INTERNET_EDGE";
  subnet_tier = public;
  egress_internet = false;
  egress_services = false;
  accept_management_ssh = false;
}
role_of app_server = record {
  name = codes "APP_SERVER";
  subnet_tier = private;
  egress_internet = true;
  egress_services = true;
  accept_management_ssh = true;
}
role_of database = record {
  name = codes "DATABASE";
  subnet_tier = secure;
  egress_internet = false;
  egress_services = true;
  accept_management_ssh = true;
}
role_of cache = record {
  name = codes "CACHE";
  subnet_tier = private;
  egress_internet = true;
  egress_services = true;
  accept_management_ssh = true;
}
role_of management_role = record {
  name = codes "MANAGEMENT";
  subnet_tier = management;
  egress_internet = false;
  egress_services = true;
  accept_management_ssh = true;
}
role_of (custom role) = role

unfoldable pub is_internet_edge : RoleObject → Bool
is_internet_edge internet_edge = true
is_internet_edge _ = false

unfoldable pub same_tier : SubnetTier → SubnetTier → Bool
same_tier public public = true
same_tier private private = true
same_tier secure secure = true
same_tier management management = true
same_tier _ _ = false
