-- ===== src/Naming.antt =====
-- packages/cloudspells-core/src/cloudspells/core/naming.py and
-- packages/cloudspells-oci/src/cloudspells/providers/oci/_naming.py: names of resources.
pub mod Laws
use cloudspells.Common.{ℕ, suc, ◌+◌, ◌++◌, ◌≡◌, refl, ap}
use cloudspells.Common.Text.{Text, codes, append_cancel}
use cloudspells.Common.Decimal.{str, str_injective}

pub record ResourceNamer : Type 0 where
  pub stack_name : Text
  pub resource_name : Text

unfoldable pub create_resource_name : ResourceNamer → Text → Text
create_resource_name n suffix =
    n.stack_name ++ (codes "-" ++ (n.resource_name ++ (codes "-" ++ suffix)))

unfoldable pub create_dns_label : ResourceNamer → Text → Text
create_dns_label n prefix = prefix ++ n.stack_name

-- The index is a counter from 0, so the check for a negative one has no case here.
unfoldable pub ordinal_suffix : Text → ℕ → Text
ordinal_suffix prefix index = prefix ++ (codes "-" ++ str (index + 1))
