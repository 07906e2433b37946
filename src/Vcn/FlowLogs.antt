-- ===== src/Vcn/FlowLogs.antt =====
-- `VcnFlowLogs` of packages/cloudspells-oci/src/cloudspells/providers/oci/network_logging.py, over a
-- live VCN. Its constructor finalizes the VCN; the call is a parameter here, since `finalize_network`
-- makes flow logs in its turn.
use cloudspells.Common.{ℕ, Option, none, some, ◌==◌, ◌||◌, Bool, not}
use cloudspells.Common.Text.{Text, codes}
use cloudspells.Exec.{
  Exec, Action, runtime_error, value_error, raise, pure, gets, raise_if, ◌>>=◌, ◌>>◌,
}
use cloudspells.Naming.{ResourceNamer, create_resource_name}
use cloudspells.Roles.{SubnetTier, public, private, secure, management, tier_name}
use cloudspells.Vcn.Defs.{Vcn, Subnet, FlowLog, VcnFlowLogs}

-- `_VALID_RETENTION`
unfoldable pub valid_retention : ℕ → Bool
valid_retention d = d == 30 || d == 60 || d == 90 || d == 120 || d == 150 || d == 180

pub record FlowLogsArgs : Type 0 where
  pub namer : ResourceNamer
  pub compartment_id : Option Text
  pub retention_duration : ℕ

abbrev pub group_name : FlowLogsArgs → Text
group_name a = create_resource_name a.namer (codes "network-audit")

unfoldable pub flow_log : FlowLogsArgs → SubnetTier → Text → Subnet → FlowLog
flow_log a tier suffix subnet = record {
  display_name = create_resource_name a.namer suffix;
  subnet_tier = tier_name tier;
  resource = subnet;
  log_group = group_name a;
  retention_duration = a.retention_duration;
}

abbrev must_exist : Option Subnet → Exec Vcn Subnet
must_exist none = raise runtime_error
must_exist (some subnet) = pure subnet

abbrev log_if_there : FlowLogsArgs → SubnetTier → Text → Option Subnet → Option FlowLog
log_if_there a tier suffix none = none
log_if_there a tier suffix (some subnet) = some (flow_log a tier suffix subnet)

unfoldable pub create_flow_logs : Action Vcn → FlowLogsArgs → Exec Vcn VcnFlowLogs
create_flow_logs finalize a = do
  finalize
  subnets ← gets (λ v. v.subnets)
  pub_subnet ← must_exist subnets.at_public
  priv_subnet ← must_exist subnets.at_private
  pure (record {
    log_group = group_name a;
    public_flow_log = flow_log a public (codes "flow-log-public") pub_subnet;
    private_flow_log = flow_log a private (codes "flow-log-private") priv_subnet;
    secure_flow_log = log_if_there a secure (codes "flow-log-secure") subnets.at_secure;
    management_flow_log =
        log_if_there a management (codes "flow-log-management") subnets.at_management;
  })

-- `VcnFlowLogs(…)`: the retention is checked first. A compartment that is left out is the VCN's.
unfoldable pub new_flow_logs : Action Vcn → FlowLogsArgs → Exec Vcn VcnFlowLogs
unfolding create_flow_logs valid_retention
new_flow_logs finalize a = do
  raise_if (not (valid_retention a.retention_duration)) value_error
  create_flow_logs finalize a
