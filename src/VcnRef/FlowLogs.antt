-- ===== src/VcnRef/FlowLogs.antt =====
-- network_logging.py: `VcnFlowLogs` on an imported network, whose subnets are ids.
use cloudspells.Common.{ℕ, Option, none, some, not, if◌then◌else◌}
use cloudspells.Common.Text.{Text, codes}
use cloudspells.Exec.{Result, ok, err, value_error}
use cloudspells.Naming.{create_resource_name}
use cloudspells.Roles.{SubnetTier, public, private, secure, management, tier_name}
use cloudspells.Vcn.FlowLogs.{FlowLogsArgs, group_name, valid_retention}
use cloudspells.VcnRef.{VcnRef}

pub record RefFlowLog : Type 0 where
  pub display_name : Text
  pub subnet_tier : Text
  pub resource : Text
  pub log_group : Text
  pub retention_duration : ℕ

pub record RefFlowLogs : Type 0 where
  pub compartment_id : Text
  pub log_group : Text
  pub public_flow_log : RefFlowLog
  pub private_flow_log : RefFlowLog
  pub secure_flow_log : Option RefFlowLog
  pub management_flow_log : Option RefFlowLog

unfoldable pub ref_flow_log : FlowLogsArgs → SubnetTier → Text → Text → RefFlowLog
ref_flow_log a tier suffix subnet_id = record {
  display_name = create_resource_name a.namer suffix;
  subnet_tier = tier_name tier;
  resource = subnet_id;
  log_group = group_name a;
  retention_duration = a.retention_duration;
}

abbrev log_if_known : FlowLogsArgs → SubnetTier → Text → Option Text → Option RefFlowLog
log_if_known a tier suffix none = none
log_if_known a tier suffix (some id) = some (ref_flow_log a tier suffix id)

-- `finalize_network` has nothing to do, and the two subnets that must be there always are.
unfoldable pub ref_create_flow_logs : FlowLogsArgs → Text → VcnRef → RefFlowLogs
unfolding ref_flow_log
ref_create_flow_logs a compartment_id ref = record {
  compartment_id = compartment_id;
  log_group = group_name a;
  public_flow_log = ref_flow_log a public (codes "flow-log-public") ref.public_subnet;
  private_flow_log = ref_flow_log a private (codes "flow-log-private") ref.private_subnet;
  secure_flow_log = log_if_known a secure (codes "flow-log-secure") ref.secure_subnet;
  management_flow_log =
      log_if_known a management (codes "flow-log-management") ref.management_subnet;
}

-- The compartment must be given, since an imported network has none.
unfoldable pub new_ref_flow_logs : FlowLogsArgs → VcnRef → Result RefFlowLogs
unfolding ref_create_flow_logs valid_retention
new_ref_flow_logs a ref = elim a.compartment_id [
  | none ↦ err value_error
  | some compartment_id ↦
      if not (valid_retention a.retention_duration)
      then err value_error
      else ok (ref_create_flow_logs a compartment_id ref)
]
