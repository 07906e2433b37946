-- ===== src/Cli/Templates/Networks.antt =====
-- The templates of networks: vcn.py, loadbalancer.py and web_db.py of templates/spells.
use cloudspells.Common.{none, some, List, [], ◌∷◌, ◌++◌}
use cloudspells.Common.Text.{Text, codes}
use cloudspells.Cli.Templates.Yaml.{ConfigKey, config_key, Template, unlines, pulumi_yaml}

unfoldable pub vcn_keys : List ConfigKey
vcn_keys =
    config_key "compartment_ocid" "string" "OCI compartment OCID" none
    ∷ config_key "cidr_block" "string" "VCN CIDR block" (some (codes "10.0.0.0/18"))
    ∷ []

unfoldable pub vcn_main : Text → Text
vcn_main name = unlines (
    (codes "\"\"\"CloudSpells VCN stack — " ++ (name ++ codes ".\"\"\""))
    ∷ []
    ∷ codes "from cloudspells.core import Config"
    ∷ codes "from cloudspells.providers.oci.network import Vcn"
    ∷ []
    ∷ codes "config = Config()"
    ∷ codes "compartment_id = config.require(\"compartment_ocid\")"
    ∷ codes "cidr_block = config.get(\"cidr_block\") or \"10.0.0.0/18\""
    ∷ []
    ∷ codes "vcn = Vcn("
    ∷ (codes "    name=\"" ++ (name ++ codes "\","))
    ∷ codes "    compartment_id=compartment_id,"
    ∷ codes "    cidr_block=cidr_block,"
    ∷ codes ")"
    ∷ codes "vcn.export()"
    ∷ [])

unfoldable pub vcn_template : Text → Template
vcn_template name = record {
  yaml = pulumi_yaml name (codes "CloudSpells VCN stack") vcn_keys;
  main = vcn_main name;
}

unfoldable pub loadbalancer_keys : List ConfigKey
loadbalancer_keys =
    config_key "compartment_ocid" "string" "OCI compartment OCID" none
    ∷ config_key "certificate_name" "string" "TLS certificate name pre-uploaded to OCI" none
    ∷ config_key "cidr_block" "string" "VCN CIDR block" (some (codes "10.0.0.0/18"))
    ∷ []

unfoldable pub loadbalancer_main : Text → Text
loadbalancer_main name = unlines (
    (codes "\"\"\"CloudSpells LoadBalancer stack — " ++ (name ++ codes ".\"\"\""))
    ∷ []
    ∷ codes "from cloudspells.core import Config"
    ∷ codes "from cloudspells.providers.oci.loadbalancer import LoadBalancer"
    ∷ codes "from cloudspells.providers.oci.network import Vcn"
    ∷ []
    ∷ codes "config = Config()"
    ∷ codes "compartment_id = config.require(\"compartment_ocid\")"
    ∷ codes "certificate_name = config.require(\"certificate_name\")"
    ∷ codes "cidr_block = config.get(\"cidr_block\") or \"10.0.0.0/18\""
    ∷ []
    ∷ codes "vcn = Vcn("
    ∷ (codes "    name=\"" ++ (name ++ codes "\","))
    ∷ codes "    compartment_id=compartment_id,"
    ∷ codes "    cidr_block=cidr_block,"
    ∷ codes ")"
    ∷ []
    ∷ codes "lb = LoadBalancer("
    ∷ (codes "    name=\"" ++ (name ++ codes "\","))
    ∷ codes "    compartment_id=compartment_id,"
    ∷ codes "    vcn=vcn,"
    ∷ codes "    certificate_name=certificate_name,"
    ∷ codes ")"
    ∷ []
    ∷ codes "vcn.export()"
    ∷ codes "lb.export()"
    ∷ [])

unfoldable pub loadbalancer_template : Text → Template
loadbalancer_template name = record {
  yaml = pulumi_yaml name (codes "CloudSpells LoadBalancer stack") loadbalancer_keys;
  main = loadbalancer_main name;
}

unfoldable pub web_db_keys : List ConfigKey
web_db_keys =
    config_key "compartment_ocid" "string" "OCI compartment OCID" none
    ∷ config_key "image_ocid" "string" "Boot image OCID" none
    ∷ config_key "cidr_block" "string" "VCN CIDR block" (some (codes "10.0.0.0/18"))
    ∷ config_key "ssh_key" "string" "SSH public key installed on all VMs" none
    ∷ config_key "app_port" "string" "Application backend TCP port" (some (codes "8080"))
    ∷ config_key "db_port" "string" "Database TCP port" (some (codes "5432"))
    ∷ []

unfoldable pub web_db_main : Text → Text
web_db_main name = unlines (
    (codes "\"\"\"CloudSpells 3-tier web+DB stack — " ++ (name ++ codes ".\"\"\""))
    ∷ []
    ∷ codes "from cloudspells.core import Config"
    ∷ codes "from cloudspells.providers.oci.compute import ComputeInstance"
    ∷ codes "from cloudspells.providers.oci.network import Vcn"
    ∷ codes "from cloudspells.providers.oci.nsg import Nsg"
    ∷ codes "from cloudspells.providers.oci.roles import APP_SERVER, DATABASE, INTERNET_EDGE"
    ∷ []
    ∷ codes "config = Config()"
    ∷ codes "compartment_id = config.require(\"compartment_ocid\")"
    ∷ codes "image_id = config.require(\"image_ocid\")"
    ∷ codes "cidr_block = config.get(\"cidr_block\") or \"10.0.0.0/18\""
    ∷ codes "ssh_key = config.get(\"ssh_key\")"
    ∷ codes "app_port = config.get_int(\"app_port\") or 8080"
    ∷ codes "db_port = config.get_int(\"db_port\") or 5432"
    ∷ []
    ∷ codes "vcn = Vcn("
    ∷ (codes "    name=\"" ++ (name ++ codes "\","))
    ∷ codes "    compartment_id=compartment_id,"
    ∷ codes "    cidr_block=cidr_block,"
    ∷ codes ")"
    ∷ []
    ∷ (codes "lb_nsg = Nsg(\""
        ++ (name
            ++ codes
                "-lb\", role=INTERNET_EDGE, ports=[80, 443, 22], vcn=vcn, compartment_id=compartment_id)"))
    ∷ (codes "web_nsg = Nsg(\""
        ++ (name ++ codes "-web\", role=APP_SERVER, vcn=vcn, compartment_id=compartment_id)"))
    ∷ (codes "db_nsg = Nsg(\""
        ++ (name ++ codes "-db\", role=DATABASE, vcn=vcn, compartment_id=compartment_id)"))
    ∷ []
    ∷ codes "lb_nsg.serves(web_nsg, port=app_port)"
    ∷ codes "web_nsg.serves(db_nsg, port=db_port)"
    ∷ []
    ∷ codes "web = ComputeInstance("
    ∷ (codes "    name=\"" ++ (name ++ codes "-web\","))
    ∷ codes "    compartment_id=compartment_id,"
    ∷ codes "    vcn=vcn,"
    ∷ codes "    image_id=image_id,"
    ∷ codes "    ssh_public_key=ssh_key,"
    ∷ codes "    nsg=web_nsg,"
    ∷ codes ")"
    ∷ []
    ∷ codes "db = ComputeInstance("
    ∷ (codes "    name=\"" ++ (name ++ codes "-db\","))
    ∷ codes "    compartment_id=compartment_id,"
    ∷ codes "    vcn=vcn,"
    ∷ codes "    image_id=image_id,"
    ∷ codes "    ssh_public_key=ssh_key,"
    ∷ codes "    nsg=db_nsg,"
    ∷ codes ")"
    ∷ []
    ∷ codes "vcn.export()"
    ∷ codes "web.export()"
    ∷ codes "db.export()"
    ∷ [])

unfoldable pub web_db_template : Text → Template
web_db_template name = record {
  yaml = pulumi_yaml name (codes "CloudSpells 3-tier web+DB stack") web_db_keys;
  main = web_db_main name;
}
