-- ===== src/Tests/Imports.antt =====
-- Rules at concrete addresses, and an imported network.
use cloudspells.Common.{refl, none, some}
use cloudspells.Common.Text.{codes}
use cloudspells.VcnRef.{
  VcnRef, VcnRefArgs, new_vcn_ref, ref_get_secure_subnet_id, ref_get_secure_subnet_cidr,
  ref_get_management_subnet_id, ref_get_management_subnet_cidr,
}
use cloudspells.VcnRef.Laws.{IsWhole, new_vcn_ref-IsWhole}

abbrev pub ref_args : VcnRefArgs
ref_args = record {
  vcn_id = codes "vcn";
  public_subnet_id = codes "sn1";
  private_subnet_id = codes "sn2";
  public_subnet_cidr = codes "10.0.48.0/21";
  private_subnet_cidr = codes "10.0.0.0/19";
  cidr_block = some (codes "10.0.0.0/18");
  public_security_list_id = none;
  private_security_list_id = none;
  secure_subnet_id = some (codes "sn3");
  secure_subnet_cidr = some (codes "10.0.32.0/20");
  secure_security_list_id = none;
  management_subnet_id = none;
  management_subnet_cidr = none;
  management_security_list_id = none;
  drg_id = none;
}

abbrev pub made_ref : VcnRef
made_ref = record {
  id = codes "vcn";
  cidr_block = codes "10.0.0.0/18";
  public_subnet = codes "sn1";
  private_subnet = codes "sn2";
  public_subnet_cidr = codes "10.0.48.0/21";
  private_subnet_cidr = codes "10.0.0.0/19";
  public_security_list = none;
  private_security_list = none;
  secure_subnet = some (codes "sn3");
  secure_subnet_cidr = some (codes "10.0.32.0/20");
  secure_security_list = none;
  management_subnet = none;
  management_subnet_cidr = none;
  management_security_list = none;
  drg_id = none;
}

new_vcn_ref-IsWhole_example :
    IsWhole (ref_get_secure_subnet_id made_ref) (ref_get_secure_subnet_cidr made_ref)
    × IsWhole (ref_get_management_subnet_id made_ref) (ref_get_management_subnet_cidr made_ref)
unfolding new_vcn_ref codes
new_vcn_ref-IsWhole_example = new_vcn_ref-IsWhole ref_args (λ e. cc) (λ e. cc) refl
