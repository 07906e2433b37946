-- ===== src/Storage.antt =====
-- storage.py: the spells for Object Storage buckets. `current` is the name of the current stack.
pub mod Fate
use cloudspells.Common.{ℕ, Bool, true, false, Option, none, some, List, [], ◌∷◌, if◌then◌else◌}
use cloudspells.Common.Text.{Text, codes}
use cloudspells.Common.Decimal.{str}
use cloudspells.Common.Int.{ℤ, pos, leb_int, int_str}
use cloudspells.Exec.{Result, ok, err, value_error}
use cloudspells.Naming.{create_resource_name}
use cloudspells.Tagging.{Tags, create_freeform_tags}
use cloudspells.Base.{BaseResource, new_base_resource}

pub record BucketArgs : Type 0 where
  pub name : Text
  pub compartment_id : Text
  pub namespace : Text
  pub stack_name : Option Text

-- An inline retention rule of a bucket.
pub record RetentionRule : Type 0 where
  pub display_name : Text
  pub time_amount : Text
  pub time_unit : Text

pub record Bucket : Type 0 where
  pub name : Text
  pub compartment_id : Option Text
  pub namespace : Text
  pub access_type : Text
  pub storage_tier : Text
  pub versioning : Text
  pub retention_rules : List RetentionRule
  pub freeform_tags : Tags

pub record LifecycleRule : Type 0 where
  pub action : Text
  pub is_enabled : Bool
  pub name : Text
  pub time_amount : Text
  pub time_unit : Text
  pub target : Text

pub record LifecyclePolicy : Type 0 where
  pub name : Text
  pub namespace : Text
  pub bucket : Text
  pub rules : List LifecycleRule

-- What a spell declares.
pub record Storage : Type 0 where
  pub base : BaseResource
  pub bucket : Bucket
  pub lifecycle_policy : Option LifecyclePolicy

-- `_MULTIPART_EXPIRY_DAYS`
abbrev multipart_expiry_days : ℕ
multipart_expiry_days = 7

unfoldable pub abort_multipart_rule : LifecycleRule
abort_multipart_rule = record {
  action = codes "ABORT";
  is_enabled = true;
  name = codes "abort-stale-multipart-uploads";
  time_amount = str multipart_expiry_days;
  time_unit = codes "DAYS";
  target = codes "multipart-uploads";
}

-- A rule on the objects of a bucket, after a number of days.
unfoldable pub object_rule : Text → Text → ℤ → LifecycleRule
object_rule action name days = record {
  action = action;
  is_enabled = true;
  name = name;
  time_amount = int_str days;
  time_unit = codes "DAYS";
  target = codes "objects";
}

unfoldable pub new_bucket : BaseResource → Text → Text → Text → Text → List RetentionRule → Bucket
new_bucket b namespace access_type storage_tier versioning retention_rules =
    let name = create_resource_name b.namer (codes "bucket") in
    record {
      name = name;
      compartment_id = b.compartment_id;
      namespace = namespace;
      access_type = access_type;
      storage_tier = storage_tier;
      versioning = versioning;
      retention_rules = retention_rules;
      freeform_tags = create_freeform_tags b.tagger name (codes "bucket") none;
    }

unfoldable pub new_policy : BaseResource → Bucket → List LifecycleRule → LifecyclePolicy
new_policy b bucket rules = record {
  name = create_resource_name b.namer (codes "lifecycle");
  namespace = bucket.namespace;
  bucket = bucket.name;
  rules = rules;
}

abbrev base_of : Text → Text → BucketArgs → BaseResource
base_of current type a =
    new_base_resource current type a.name (some a.compartment_id) a.stack_name none

-- What each spell declares, where it does not refuse its arguments.
unfoldable pub plain_storage : Text → Text → Text → BucketArgs → Storage
unfolding new_bucket
plain_storage current type access_type a =
    let b = base_of current type a in
    record {
      base = b;
      bucket = new_bucket b a.namespace access_type (codes "Standard") (codes "Disabled") [];
      lifecycle_policy = none;
    }

unfoldable pub object_storage_bucket : Text → BucketArgs → Result Storage
unfolding plain_storage
object_storage_bucket current a =
    ok (
      plain_storage current (codes "custom:storage:ObjectStorageBucket") (codes "NoPublicAccess") a)

-- The warning that this one prints is not kept.
unfoldable pub static_website_bucket : Text → BucketArgs → Result Storage
unfolding plain_storage
static_website_bucket current a =
    ok (plain_storage current (codes "custom:storage:StaticWebsiteBucket") (codes "ObjectRead") a)

unfoldable pub backup_storage : Text → BucketArgs → ℤ → Storage
unfolding new_bucket new_policy object_rule abort_multipart_rule
backup_storage current a retention_days =
    let b = base_of current (codes "custom:storage:BackupBucket") a in
    let bucket =
      new_bucket b a.namespace (codes "NoPublicAccess") (codes "Standard") (codes "Enabled") [] in
    let rules =
      object_rule (codes "DELETE") (codes "delete-after-retention") retention_days
      ∷ abort_multipart_rule
      ∷ [] in
    record { base = b; bucket = bucket; lifecycle_policy = some (new_policy b bucket rules) }

unfoldable pub backup_bucket : Text → BucketArgs → ℤ → Result Storage
unfolding backup_storage
backup_bucket current a retention_days =
    if leb_int retention_days (pos 0)
    then err value_error
    else ok (backup_storage current a retention_days)

unfoldable pub data_lake_storage : Text → BucketArgs → ℤ → ℤ → Storage
unfolding new_bucket new_policy object_rule abort_multipart_rule
data_lake_storage current a hot_days delete_days =
    let b = base_of current (codes "custom:storage:DataLakeBucket") a in
    let bucket =
      new_bucket b a.namespace (codes "NoPublicAccess") (codes "Standard") (codes "Disabled") [] in
    let rules =
      object_rule (codes "ARCHIVE") (codes "archive-cold-data") hot_days
      ∷ object_rule (codes "DELETE") (codes "delete-expired-data") delete_days
      ∷ abort_multipart_rule
      ∷ [] in
    record { base = b; bucket = bucket; lifecycle_policy = some (new_policy b bucket rules) }

unfoldable pub data_lake_bucket : Text → BucketArgs → ℤ → ℤ → Result Storage
unfolding data_lake_storage
data_lake_bucket current a hot_days delete_days =
    if leb_int delete_days hot_days
    then err value_error
    else ok (data_lake_storage current a hot_days delete_days)

unfoldable pub archive_storage : Text → BucketArgs → ℤ → Storage
unfolding new_bucket
archive_storage current a retention_days =
    let b = base_of current (codes "custom:storage:ArchiveBucket") a in
    let rule : RetentionRule = record {
      display_name = create_resource_name b.namer (codes "retention-rule");
      time_amount = int_str retention_days;
      time_unit = codes "DAYS";
    } in
    record {
      base = b;
      bucket =
          new_bucket b a.namespace (codes "NoPublicAccess") (codes "Archive") (codes "Enabled")
            (rule ∷ []);
      lifecycle_policy = none;
    }

unfoldable pub archive_bucket : Text → BucketArgs → ℤ → Result Storage
unfolding archive_storage
archive_bucket current a retention_days =
    if leb_int retention_days (pos 0)
    then err value_error
    else ok (archive_storage current a retention_days)
