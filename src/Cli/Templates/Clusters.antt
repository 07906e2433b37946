-- ===== src/Cli/Templates/Clusters.antt =====
-- The template of a cluster: oke.py of templates/spells.
use cloudspells.Common.{none, some, List, [], ◌∷◌, ◌++◌}
use cloudspells.Common.Text.{Text, codes}
use cloudspells.Cli.Templates.Yaml.{ConfigKey, config_key, Template, unlines, pulumi_yaml}

unfoldable pub oke_keys : List ConfigKey
oke_keys =
    config_key "compartment_ocid" "string" "OCI compartment OCID" none
    ∷ config_key "kubernetes_version" "string" "Kubernetes version (e.g. \"v1.32.1\")" none
    ∷ config_key "node_image_id" "string" "Boot image OCID for node pool instances" none
    ∷ config_key "node_shape" "string" "Node compute shape" (some (codes "VM.Standard.A1.Flex"))
    ∷ config_key "node_count" "string" "Number of nodes in the pool" (some (codes "2"))
    ∷ config_key "ocpus" "string" "OCPUs per node" (some (codes "2"))
    ∷ config_key "memory_in_gbs" "string" "Memory GiB per node" (some (codes "12"))
    ∷ []

unfoldable pub oke_main : Text → Text
oke_main name = unlines (
    (codes "\"\"\"CloudSpells OkeCluster stack — " ++ (name ++ codes ".\"\"\""))
    ∷ []
    ∷ codes "from cloudspells.core import Config"
    ∷ codes "from cloudspells.providers.oci.kubernetes import NodePoolConfig, OkeCluster"
    ∷ codes "from cloudspells.providers.oci.network import Vcn"
    ∷ []
    ∷ codes "config = Config()"
    ∷ codes "compartment_id = config.require(\"compartment_ocid\")"
    ∷ codes "kubernetes_version = config.require(\"kubernetes_version\")"
    ∷ codes "node_image_id = config.require(\"node_image_id\")"
    ∷ codes "node_shape = config.get(\"node_shape\") or \"VM.Standard.A1.Flex\""
    ∷ codes "node_count = config.get_int(\"node_count\") or 2"
    ∷ codes "ocpus = config.get_int(\"ocpus\") or 2"
    ∷ codes "memory_in_gbs = config.get_int(\"memory_in_gbs\") or 12"
    ∷ []
    ∷ codes "vcn = Vcn("
    ∷ (codes "    name=\"" ++ (name ++ codes "\","))
    ∷ codes "    compartment_id=compartment_id,"
    ∷ codes ")"
    ∷ []
    ∷ codes "cluster = OkeCluster("
    ∷ (codes "    name=\"" ++ (name ++ codes "\","))
    ∷ codes "    compartment_id=compartment_id,"
    ∷ codes "    vcn=vcn,"
    ∷ codes "    kubernetes_version=kubernetes_version,"
    ∷ codes "    node_pools=["
    ∷ codes "        NodePoolConfig("
    ∷ codes "            name=\"workers\","
    ∷ codes "            shape=node_shape,"
    ∷ codes "            image=node_image_id,"
    ∷ codes "            node_count=node_count,"
    ∷ codes "            ocpus=ocpus,"
    ∷ codes "            memory_in_gbs=memory_in_gbs,"
    ∷ codes "        )"
    ∷ codes "    ],"
    ∷ codes ")"
    ∷ []
    ∷ codes "vcn.export()"
    ∷ codes "cluster.export()"
    ∷ [])

unfoldable pub oke_template : Text → Template
oke_template name = record {
  yaml = pulumi_yaml name (codes "CloudSpells OkeCluster stack") oke_keys;
  main = oke_main name;
}
