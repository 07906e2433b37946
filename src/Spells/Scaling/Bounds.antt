-- ===== src/Spells/Scaling/Bounds.antt =====
-- The capacities of autoscaling policies are in order.
use cloudspells.Common.{◌≡◌, true, Option, none, some, List, [], ◌∷◌, All}
use cloudspells.Common.Text.{Text}
use cloudspells.Common.Int.{ℤ, leb_int, min_int-le_left, le_left-max_int, max_int-le, leb_int_trans}
use cloudspells.Spells.Scaling.{
  Sizes, Capacity, ScalingAction, change_count_by, change_count_to, ScheduleEntry, ScalingPolicy,
  metric_policy, schedule_policy, AutoScalingConfiguration, PoolPolicy, entry_capacity,
  metric_autoscaling, schedule_autoscaling, create_autoscaling,
}

-- `min <= initial <= max`
abbrev pub IsOrdered : Capacity → Type 0
IsOrdered c = (leb_int c.min c.initial ≡ true) × (leb_int c.initial c.max ≡ true)

abbrev pub policies_of : Option AutoScalingConfiguration → List PoolPolicy
policies_of none = []
policies_of (some c) = c.policies

entry_capacity-IsOrdered :
    (s : Sizes) (action : ScalingAction) (value : ℤ)
    → leb_int s.min_instances s.max_instances ≡ true
    → IsOrdered (entry_capacity s action value)
unfolding entry_capacity
entry_capacity-IsOrdered s change_count_to value h =
    (min_int-le_left value s.min_instances, le_left-max_int value s.max_instances)
entry_capacity-IsOrdered s change_count_by value h = (
  le_left-max_int s.min_instances _,
  max_int-le s.min_instances _ s.max_instances h (min_int-le_left s.max_instances _),
)

entries-IsOrdered :
    (asc_name : Text) (s : Sizes) (schedules : List ScheduleEntry)
    → leb_int s.min_instances s.max_instances ≡ true
    → All
        (λ (p : PoolPolicy). IsOrdered p.capacity)
        (schedule_autoscaling asc_name s schedules).policies
unfolding schedule_autoscaling
entries-IsOrdered asc_name s [] h = tt
entries-IsOrdered asc_name s (entry ∷ schedules) h = (
  entry_capacity-IsOrdered s entry.action entry.value h,
  entries-IsOrdered asc_name s schedules h,
)

-- Where the sizes of a pool are in order, so is the capacity of every autoscaling policy that is
-- made for it: the minimum is at most the initial size, and that is at most the maximum. This
-- holds for a metric policy and for each entry of a schedule, whatever the count of the entry.
pub create_autoscaling-IsOrdered :
    (asc_name : Text) (s : Sizes) (policy : Option ScalingPolicy)
    → leb_int s.min_instances s.initial_instances ≡ true
    → leb_int s.initial_instances s.max_instances ≡ true
    → All
        (λ (p : PoolPolicy). IsOrdered p.capacity)
        (policies_of (create_autoscaling asc_name s policy))
unfolding create_autoscaling metric_autoscaling
create_autoscaling-IsOrdered asc_name s none low high = tt
create_autoscaling-IsOrdered asc_name s (some (metric_policy p)) low high = ((low, high), tt)
create_autoscaling-IsOrdered asc_name s (some (schedule_policy schedules)) low high =
    entries-IsOrdered asc_name s schedules (leb_int_trans _ s.initial_instances _ low high)
