-- ===== src/Cli/Templates/Services.antt =====
-- The templates of services without a network: storage.py and iam.py of templates/spells.
use cloudspells.Common.{none, List, [], ◌∷◌, ◌++◌}
use cloudspells.Common.Text.{Text, codes}
use cloudspells.Cli.Templates.Yaml.{ConfigKey, config_key, Template, unlines, pulumi_yaml}

unfoldable pub storage_keys : List ConfigKey
storage_keys =
    config_key "compartment_ocid" "string" "OCI compartment OCID" none
    ∷ config_key "namespace" "string" "OCI tenancy object storage namespace" none
    ∷ []

unfoldable pub storage_main : Text → Text
storage_main name = unlines (
    (codes "\"\"\"CloudSpells Object Storage stack — " ++ (name ++ codes ".\"\"\""))
    ∷ []
    ∷ codes "import pulumi"
    ∷ []
    ∷ codes "from cloudspells.core import Config"
    ∷ codes "from cloudspells.providers.oci.storage import BackupBucket, DataLakeBucket"
    ∷ []
    ∷ codes "config = Config()"
    ∷ codes "compartment_id = config.require(\"compartment_ocid\")"
    ∷ codes "namespace = config.require(\"namespace\")"
    ∷ []
    ∷ codes "backup = BackupBucket("
    ∷ (codes "    name=\"" ++ (name ++ codes "-backups\","))
    ∷ codes "    compartment_id=compartment_id,"
    ∷ codes "    namespace=namespace,"
    ∷ codes ")"
    ∷ []
    ∷ codes "lake = DataLakeBucket("
    ∷ (codes "    name=\"" ++ (name ++ codes "-lake\","))
    ∷ codes "    compartment_id=compartment_id,"
    ∷ codes "    namespace=namespace,"
    ∷ codes ")"
    ∷ []
    ∷ codes "pulumi.export(\"backup_bucket_name\", backup.bucket_name)"
    ∷ codes "pulumi.export(\"lake_bucket_name\", lake.bucket_name)"
    ∷ [])

unfoldable pub storage_template : Text → Template
storage_template name = record {
  yaml = pulumi_yaml name (codes "CloudSpells Object Storage stack") storage_keys;
  main = storage_main name;
}

unfoldable pub iam_keys : List ConfigKey
iam_keys =
    config_key "compartment_ocid" "string" "OCI compartment OCID" none
    ∷ config_key "tenancy_ocid" "string" "OCI tenancy OCID" none
    ∷ []

unfoldable pub iam_main : Text → Text
iam_main name = unlines (
    (codes "\"\"\"CloudSpells IAM stack — " ++ (name ++ codes ".\"\"\""))
    ∷ []
    ∷ codes "from cloudspells.core import Config"
    ∷ codes
        "from cloudspells.providers.oci.iam import CompartmentAdminGroup, ComputeInstancePrincipal"
    ∷ []
    ∷ codes "config = Config()"
    ∷ codes "compartment_id = config.require(\"compartment_ocid\")"
    ∷ codes "tenancy_id = config.require(\"tenancy_ocid\")"
    ∷ []
    ∷ codes "app_principal = ComputeInstancePrincipal("
    ∷ (codes "    name=\"" ++ (name ++ codes "-app\","))
    ∷ codes "    compartment_id=compartment_id,"
    ∷ codes "    tenancy_id=tenancy_id,"
    ∷ codes "    grants=["
    ∷ codes "        \"read secret-family\","
    ∷ codes "        \"read object-family\","
    ∷ codes "    ],"
    ∷ codes ")"
    ∷ []
    ∷ codes "ops_group = CompartmentAdminGroup("
    ∷ (codes "    name=\"" ++ (name ++ codes "-ops\","))
    ∷ codes "    compartment_id=compartment_id,"
    ∷ codes "    tenancy_id=tenancy_id,"
    ∷ codes ")"
    ∷ []
    ∷ codes "app_principal.export()"
    ∷ codes "ops_group.export()"
    ∷ [])

unfoldable pub iam_template : Text → Template
iam_template name = record {
  yaml = pulumi_yaml name (codes "CloudSpells IAM stack") iam_keys;
  main = iam_main name;
}
