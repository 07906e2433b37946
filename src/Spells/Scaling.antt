-- ===== src/Spells/Scaling.antt =====
-- Autoscaling of a pool: the policies of core/abstractions/autoscale.py and how autoscale.py turns
-- them into the policies that OCI is given.
pub mod Bounds
use cloudspells.Common.{Option, none, some, List, [], ◌∷◌, ◌++◌, map}
use cloudspells.Common.Text.{Text, codes}
use cloudspells.Common.Int.{ℤ, pos, negsuc, ◌+ℤ◌, min_int, max_int}

pub data ScalingMetric : Type 0 where
  cpu_utilization memory_utilization : ScalingMetric

pub data ScalingAction : Type 0 where
  change_count_by change_count_to : ScalingAction

pub record MetricScalingPolicy : Type 0 where
  pub scale_out_threshold : ℤ
  pub scale_in_threshold : ℤ
  pub scale_out_value : ℤ
  pub scale_in_value : ℤ
  pub cooldown_in_seconds : ℤ
  pub metric : ScalingMetric

pub record ScheduleEntry : Type 0 where
  pub cron_expression : Text
  pub action : ScalingAction
  pub value : ℤ
  pub display_name : Text

pub data ScalingPolicy : Type 0 where
  metric_policy : MetricScalingPolicy → ScalingPolicy
  schedule_policy : List ScheduleEntry → ScalingPolicy

-- `MetricScalingPolicy()`
abbrev pub default_metric_policy : MetricScalingPolicy
default_metric_policy = record {
  scale_out_threshold = pos 80;
  scale_in_threshold = pos 20;
  scale_out_value = pos 1;
  scale_in_value = negsuc 0;
  cooldown_in_seconds = pos 300;
  metric = cpu_utilization;
}

-- The sizes of a pool.
pub record Sizes : Type 0 where
  pub min_instances : ℤ
  pub max_instances : ℤ
  pub initial_instances : ℤ

pub record Capacity : Type 0 where
  pub initial : ℤ
  pub min : ℤ
  pub max : ℤ

pub data Operator : Type 0 where
  gt lt : Operator

pub record ThresholdRule : Type 0 where
  pub display_name : Text
  pub action : ScalingAction
  pub value : ℤ
  pub metric_type : ScalingMetric
  pub operator : Operator
  pub threshold : ℤ

pub data PolicyKind : Type 0 where
  by_threshold : List ThresholdRule → PolicyKind
  by_schedule : Text → PolicyKind

pub record PoolPolicy : Type 0 where
  pub display_name : Text
  pub kind : PolicyKind
  pub capacity : Capacity

pub record AutoScalingConfiguration : Type 0 where
  pub display_name : Text
  pub cool_down_in_seconds : Option ℤ
  pub policies : List PoolPolicy

threshold_rule : MetricScalingPolicy → Text → Operator → ℤ → ℤ → ThresholdRule
threshold_rule p display_name operator threshold value = record {
  display_name = display_name;
  action = change_count_by;
  value = value;
  metric_type = p.metric;
  operator = operator;
  threshold = threshold;
}

-- `_create_metric_autoscaling`
unfoldable pub metric_autoscaling : Text → Sizes → MetricScalingPolicy → AutoScalingConfiguration
unfolding threshold_rule
metric_autoscaling asc_name s p = record {
  display_name = asc_name;
  cool_down_in_seconds = some p.cooldown_in_seconds;
  policies =
      record {
        display_name = asc_name ++ codes "-policy";
        kind = by_threshold (
            threshold_rule p (codes "Scale Out") gt p.scale_out_threshold p.scale_out_value
            ∷ threshold_rule p (codes "Scale In") lt p.scale_in_threshold p.scale_in_value
            ∷ []);
        capacity = record {
          initial = s.initial_instances;
          min = s.min_instances;
          max = s.max_instances;
        };
      }
      ∷ [];
}

-- The capacity that a scheduled entry sets.
unfoldable pub entry_capacity : Sizes → ScalingAction → ℤ → Capacity
entry_capacity s change_count_to value = record {
  initial = value;
  min = min_int value s.min_instances;
  max = max_int value s.max_instances;
}
entry_capacity s change_count_by value = record {
  initial = max_int s.min_instances (min_int s.max_instances (s.initial_instances +ℤ value));
  min = s.min_instances;
  max = s.max_instances;
}

-- `_create_schedule_autoscaling`
unfoldable pub schedule_autoscaling : Text → Sizes → List ScheduleEntry → AutoScalingConfiguration
unfolding entry_capacity
schedule_autoscaling asc_name s schedules = record {
  display_name = asc_name;
  cool_down_in_seconds = none;
  policies =
      map
        (λ (entry : ScheduleEntry). record {
          display_name = entry.display_name;
          kind = by_schedule entry.cron_expression;
          capacity = entry_capacity s entry.action entry.value;
        })
        schedules;
}

-- `_create_autoscaling_configuration`
unfoldable pub create_autoscaling :
    Text → Sizes → Option ScalingPolicy → Option AutoScalingConfiguration
unfolding metric_autoscaling schedule_autoscaling
create_autoscaling asc_name s none = none
create_autoscaling asc_name s (some (metric_policy p)) = some (metric_autoscaling asc_name s p)
create_autoscaling asc_name s (some (schedule_policy schedules)) =
    some (schedule_autoscaling asc_name s schedules)
