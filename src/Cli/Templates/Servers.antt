-- ===== src/Cli/Templates/Servers.antt =====
-- The templates of stacks with servers: compute.py, autoscale.py and bastion.py of
-- templates/spells.
use cloudspells.Common.{none, some, List, [], ◌∷◌, ◌++◌}
use cloudspells.Common.Text.{Text, codes}
use cloudspells.Cli.Templates.Yaml.{ConfigKey, config_key, Template, unlines, pulumi_yaml}

unfoldable pub compute_keys : List ConfigKey
compute_keys =
    config_key "compartment_ocid" "string" "OCI compartment OCID" none
    ∷ config_key "image_ocid" "string" "Boot image OCID" none
    ∷ config_key "cidr_block" "string" "VCN CIDR block" (some (codes "10.0.0.0/18"))
    ∷ config_key "ssh_key" "string" "SSH public key (auto-generated if omitted)" none
    ∷ []

unfoldable pub compute_main : Text → Text
compute_main name = unlines (
    (codes "\"\"\"CloudSpells ComputeInstance stack — " ++ (name ++ codes ".\"\"\""))
    ∷ []
    ∷ codes "from cloudspells.core import Config"
    ∷ codes "from cloudspells.providers.oci.compute import ComputeInstance"
    ∷ codes "from cloudspells.providers.oci.network import Vcn"
    ∷ []
    ∷ codes "config = Config()"
    ∷ codes "compartment_id = config.require(\"compartment_ocid\")"
    ∷ codes "image_id = config.require(\"image_ocid\")"
    ∷ codes "cidr_block = config.get(\"cidr_block\") or \"10.0.0.0/18\""
    ∷ codes "ssh_key = config.get(\"ssh_key\")"
    ∷ []
    ∷ codes "vcn = Vcn("
    ∷ (codes "    name=\"" ++ (name ++ codes "\","))
    ∷ codes "    compartment_id=compartment_id,"
    ∷ codes "    cidr_block=cidr_block,"
    ∷ codes ")"
    ∷ []
    ∷ codes "instance = ComputeInstance("
    ∷ (codes "    name=\"" ++ (name ++ codes "\","))
    ∷ codes "    compartment_id=compartment_id,"
    ∷ codes "    vcn=vcn,"
    ∷ codes "    image_id=image_id,"
    ∷ codes "    ssh_public_key=ssh_key,"
    ∷ codes ")"
    ∷ []
    ∷ codes "vcn.export()"
    ∷ codes "instance.export()"
    ∷ [])

unfoldable pub compute_template : Text → Template
compute_template name = record {
  yaml = pulumi_yaml name (codes "CloudSpells ComputeInstance stack") compute_keys;
  main = compute_main name;
}

unfoldable pub autoscale_keys : List ConfigKey
autoscale_keys =
    config_key "compartment_ocid" "string" "OCI compartment OCID" none
    ∷ config_key "image_ocid" "string" "Boot image OCID for pool instances" none
    ∷ config_key "cidr_block" "string" "VCN CIDR block" (some (codes "10.0.0.0/18"))
    ∷ config_key "ssh_key" "string" "SSH public key installed on pool instances" none
    ∷ config_key "max_instances" "string" "Maximum pool size for autoscaling" (some (codes "5"))
    ∷ []

unfoldable pub autoscale_main : Text → Text
autoscale_main name = unlines (
    (codes "\"\"\"CloudSpells ScalableWorkload stack — " ++ (name ++ codes ".\"\"\""))
    ∷ []
    ∷ codes "from cloudspells.core import Config"
    ∷ codes "from cloudspells.providers.oci.autoscale import ScalableWorkload"
    ∷ codes "from cloudspells.providers.oci.network import Vcn"
    ∷ []
    ∷ codes "config = Config()"
    ∷ codes "compartment_id = config.require(\"compartment_ocid\")"
    ∷ codes "image_id = config.require(\"image_ocid\")"
    ∷ codes "cidr_block = config.get(\"cidr_block\") or \"10.0.0.0/18\""
    ∷ codes "ssh_key = config.get(\"ssh_key\")"
    ∷ codes "max_instances = config.get_int(\"max_instances\") or 5"
    ∷ []
    ∷ codes "vcn = Vcn("
    ∷ (codes "    name=\"" ++ (name ++ codes "\","))
    ∷ codes "    compartment_id=compartment_id,"
    ∷ codes "    cidr_block=cidr_block,"
    ∷ codes ")"
    ∷ []
    ∷ codes "workload = ScalableWorkload("
    ∷ (codes "    name=\"" ++ (name ++ codes "\","))
    ∷ codes "    compartment_id=compartment_id,"
    ∷ codes "    vcn=vcn,"
    ∷ codes "    image_id=image_id,"
    ∷ codes "    ssh_public_key=ssh_key,"
    ∷ codes "    max_instances=max_instances,"
    ∷ codes ")"
    ∷ []
    ∷ codes "vcn.export()"
    ∷ codes "workload.export()"
    ∷ [])

unfoldable pub autoscale_template : Text → Template
autoscale_template name = record {
  yaml = pulumi_yaml name (codes "CloudSpells ScalableWorkload stack") autoscale_keys;
  main = autoscale_main name;
}

unfoldable pub bastion_keys : List ConfigKey
bastion_keys =
    config_key "compartment_ocid" "string" "OCI compartment OCID" none
    ∷ config_key "image_ocid" "string" "Boot image OCID for the target instance" none
    ∷ config_key "cidr_block" "string" "VCN CIDR block" (some (codes "10.0.0.0/18"))
    ∷ config_key "ssh_key" "string" "SSH public key installed on the target instance" none
    ∷ []

unfoldable pub bastion_main : Text → Text
bastion_main name = unlines (
    (codes "\"\"\"CloudSpells Bastion stack — " ++ (name ++ codes ".\"\"\""))
    ∷ []
    ∷ codes "from cloudspells.core import Config"
    ∷ codes "from cloudspells.providers.oci.bastion import Bastion"
    ∷ codes "from cloudspells.providers.oci.compute import ComputeInstance"
    ∷ codes "from cloudspells.providers.oci.network import Vcn"
    ∷ []
    ∷ codes "config = Config()"
    ∷ codes "compartment_id = config.require(\"compartment_ocid\")"
    ∷ codes "image_id = config.require(\"image_ocid\")"
    ∷ codes "cidr_block = config.get(\"cidr_block\") or \"10.0.0.0/18\""
    ∷ codes "ssh_key = config.get(\"ssh_key\")"
    ∷ []
    ∷ codes "vcn = Vcn("
    ∷ (codes "    name=\"" ++ (name ++ codes "\","))
    ∷ codes "    compartment_id=compartment_id,"
    ∷ codes "    cidr_block=cidr_block,"
    ∷ codes ")"
    ∷ []
    ∷ codes "instance = ComputeInstance("
    ∷ (codes "    name=\"" ++ (name ++ codes "\","))
    ∷ codes "    compartment_id=compartment_id,"
    ∷ codes "    vcn=vcn,"
    ∷ codes "    image_id=image_id,"
    ∷ codes "    ssh_public_key=ssh_key,"
    ∷ codes ")"
    ∷ []
    ∷ codes "bastion = Bastion("
    ∷ (codes "    name=\"" ++ (name ++ codes "\","))
    ∷ codes "    compartment_id=compartment_id,"
    ∷ codes "    vcn=vcn,"
    ∷ codes "    allowed_client_cidrs=[\"0.0.0.0/0\"],"
    ∷ codes ")"
    ∷ []
    ∷ codes "vcn.export()"
    ∷ codes "instance.export()"
    ∷ codes "bastion.export()"
    ∷ [])

unfoldable pub bastion_template : Text → Template
bastion_template name = record {
  yaml = pulumi_yaml name (codes "CloudSpells Bastion stack") bastion_keys;
  main = bastion_main name;
}
