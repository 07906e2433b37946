-- ===== src/Naming/Laws.antt =====
-- Names that differ in their suffix, or in their ordinal, are different names.
use cloudspells.Common.{ℕ, ◌+◌, ◌≡◌, arith}
use cloudspells.Common.Text.{Text, codes, append_cancel}
use cloudspells.Common.Decimal.{str_injective}
use cloudspells.Naming.{ResourceNamer, create_resource_name, ordinal_suffix}

create_resource_name_injective :
    (n : ResourceNamer) (s t : Text) → create_resource_name n s ≡ create_resource_name n t → s ≡ t
unfolding create_resource_name
create_resource_name_injective n s t e = append_cancel (codes "-") s t (
    append_cancel n.resource_name _ _
      (append_cancel (codes "-") _ _ (append_cancel n.stack_name _ _ e)))

-- Two resources of one spell whose ordinal suffixes differ in the index have different names.
pub ordinal_name_injective :
    (n : ResourceNamer) (prefix : Text) (i j : ℕ)
    → create_resource_name n (ordinal_suffix prefix i)
      ≡ create_resource_name n (ordinal_suffix prefix j)
    → i ≡ j
unfolding ordinal_suffix
ordinal_name_injective n prefix i j e =
    let suffixes = create_resource_name_injective n _ _ e in
    let numbers = append_cancel (codes "-") _ _ (append_cancel prefix _ _ suffixes) in
    omega (arith, str_injective (i + 1) (j + 1) numbers)
