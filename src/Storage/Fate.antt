-- ===== src/Storage/Fate.antt =====
-- What becomes of an object in a bucket as it ages, under the rules of the bucket.
use cloudspells.Common.{
  ◌≡◌, refl, ◌∙◌, ℕ, Bool, true, false, not, ◌&&◌, ◌||◌, Option, none, some, List, [], ◌∷◌, leb,
  ltb, arith, ◌⊎◌, inl, inr, if◌then◌else◌, Bool-cases,
}
use cloudspells.Common.Text.{Text, codes, text_eq}
use cloudspells.Common.Decimal.{read, read-str}
use cloudspells.Common.Int.{ℤ, pos, negsuc, leb_int, int_str}
use cloudspells.Exec.{Result, ok, err, value_error}
use cloudspells.Storage.{
  BucketArgs, RetentionRule, LifecycleRule, LifecyclePolicy, Storage, plain_storage,
  object_storage_bucket, backup_storage, backup_bucket, data_lake_storage, data_lake_bucket,
  archive_storage, archive_bucket, static_website_bucket,
}

-- The five spells, with their numbers of days.
pub data Kind : Type 0 where
  object_storage static_website : Kind
  backup archive : ℤ → Kind
  data_lake : ℤ → ℤ → Kind

unfoldable pub new_storage : Text → BucketArgs → Kind → Result Storage
new_storage current a object_storage = object_storage_bucket current a
new_storage current a static_website = static_website_bucket current a
new_storage current a (backup days) = backup_bucket current a days
new_storage current a (archive days) = archive_bucket current a days
new_storage current a (data_lake hot_days delete_days) =
    data_lake_bucket current a hot_days delete_days

-- Where an object is.
pub data Place : Type 0 where
  hot archived deleted : Place

-- The rule is on objects of this age, by its action.
unfoldable pub applies : Text → ℕ → LifecycleRule → Bool
applies action age r =
    r.is_enabled
    && (text_eq r.target (codes "objects")
        && (text_eq r.action action
            && (text_eq r.time_unit (codes "DAYS") && leb (read 0 r.time_amount) age)))

unfoldable pub some_applies : Text → ℕ → List LifecycleRule → Bool
unfolding applies
some_applies action age [] = false
some_applies action age (r ∷ rules) = applies action age r || some_applies action age rules

abbrev rules_of : Option LifecyclePolicy → List LifecycleRule
rules_of none = []
rules_of (some policy) = policy.rules

-- An object of an age in days: the rules for deletion come first.
unfoldable pub place : Storage → ℕ → Place
unfolding some_applies
place s age =
    if some_applies (codes "DELETE") age (rules_of s.lifecycle_policy)
    then deleted
    else if text_eq s.bucket.storage_tier (codes "Archive")
        || some_applies (codes "ARCHIVE") age (rules_of s.lifecycle_policy)
    then archived
    else hot

retained : ℕ → List RetentionRule → Bool
retained age [] = false
retained age (r ∷ rules) =
    (text_eq r.time_unit (codes "DAYS") && ltb age (read 0 r.time_amount)) || retained age rules

-- No one may delete or change the object.
unfoldable pub is_retained : Storage → ℕ → Bool
unfolding retained
is_retained s age = retained age s.bucket.retention_rules

unfoldable pub is_public : Storage → Bool
is_public s = not (text_eq s.bucket.access_type (codes "NoPublicAccess"))

-- The numbers of days that a spell accepts.
abbrev pub accepts : Kind → Bool
accepts object_storage = true
accepts static_website = true
accepts (backup days) = not (leb_int days (pos 0))
accepts (archive days) = not (leb_int days (pos 0))
accepts (data_lake hot_days delete_days) = not (leb_int delete_days hot_days)

-- The days until objects are moved are not negative.
abbrev pub is_counted : Kind → Bool
is_counted (data_lake hot_days delete_days) = leb_int (pos 0) hot_days
is_counted kind = true

abbrev reached : ℤ → ℕ → Bool
reached days age = leb_int days (pos age)

-- What the documentation promises about an object of an age.
abbrev pub promised_place : Kind → ℕ → Place
promised_place object_storage age = hot
promised_place static_website age = hot
promised_place (backup days) age = if reached days age then deleted else hot
promised_place (archive days) age = archived
promised_place (data_lake hot_days delete_days) age =
    if reached delete_days age then deleted else if reached hot_days age then archived else hot

abbrev pub promised_retention : Kind → ℕ → Bool
promised_retention (archive days) age = not (reached days age)
promised_retention kind age = false

abbrev pub is_website : Kind → Bool
is_website static_website = true
is_website kind = false

-- The storage keeps what is promised.
abbrev pub KeepsPromise : Kind → Storage → ℕ → Type 0
KeepsPromise k s age =
    (place s age ≡ promised_place k age)
    × (is_retained s age ≡ promised_retention k age)
    × (is_public s ≡ is_website k)

plain_keeps :
    (current type : Text) (a : BucketArgs) (age : ℕ)
    → KeepsPromise object_storage (plain_storage current type (codes "NoPublicAccess") a) age
      × KeepsPromise static_website (plain_storage current type (codes "ObjectRead") a) age
unfolding place is_retained is_public plain_storage text_eq codes
plain_keeps current type a age = ((refl, refl, refl), (refl, refl, refl))

or_none : (b : Bool) → (b || false) ≡ b
or_none true = refl
or_none false = refl

ltb-not-leb : (m n : ℕ) → ltb m n ≡ not (leb n m)
ltb-not-leb m n = ground arith

backup_keeps :
    (current : Text) (a : BucketArgs) (days age : ℕ)
    → KeepsPromise (backup (pos days)) (backup_storage current a (pos days)) age
unfolding place is_retained is_public backup_storage text_eq codes int_str
backup_keeps current a days age =
    (rw (read-str days) (rw (or_none (leb days age)) refl), refl, refl)

data_lake_keeps :
    (current : Text) (a : BucketArgs) (h d age : ℕ)
    → KeepsPromise (data_lake (pos h) (pos d)) (data_lake_storage current a (pos h) (pos d)) age
unfolding place is_retained is_public data_lake_storage text_eq codes int_str
data_lake_keeps current a h d age =
    (rw (read-str d, read-str h) (rw (or_none (leb d age), or_none (leb h age)) refl), refl, refl)

archive_keeps :
    (current : Text) (a : BucketArgs) (days age : ℕ)
    → KeepsPromise (archive (pos days)) (archive_storage current a (pos days)) age
unfolding place is_retained is_public archive_storage text_eq codes int_str
archive_keeps current a days age =
    (refl, rw (read-str days) (or_none (ltb age days) ∙ ltb-not-leb age days), refl)

data_lake_promise :
    (current : Text) (a : BucketArgs) (hot_days delete_days : ℤ) (age : ℕ)
    → leb_int (pos 0) hot_days ≡ true
    → leb_int delete_days hot_days ≡ false
    → KeepsPromise
        (data_lake hot_days delete_days)
        (data_lake_storage current a hot_days delete_days)
        age
data_lake_promise current a (pos h) (pos d) age counted above = data_lake_keeps current a h d age
data_lake_promise current a (pos h) (negsuc d) age counted above = absurd (cc)
data_lake_promise current a (negsuc h) delete_days age counted above = absurd (cc)

-- A spell for a bucket refuses its numbers of days with `ValueError` exactly if a retention is not
-- positive or objects of a data lake would be deleted no later than archived. Otherwise it returns,
-- and its rules keep what is promised of an object of any age: a backup bucket deletes it once it has
-- the given age, a data lake moves it to the archive at one age and deletes it at the other, an
-- archive holds it there and protects it up to the given age, and the others keep it as it is; only
-- the bucket of a static website is public. Days until archiving are not negative here.
pub new_storage-KeepsPromise :
    (current : Text) (a : BucketArgs) (k : Kind) (age : ℕ)
    → is_counted k ≡ true
    → ((accepts k ≡ false) × (new_storage current a k ≡ err value_error))
      ⊎ ((accepts k ≡ true)
          × (s : Storage) × (new_storage current a k ≡ ok s)
          × KeepsPromise k s age)
unfolding new_storage object_storage_bucket static_website_bucket backup_bucket data_lake_bucket
    archive_bucket
new_storage-KeepsPromise current a object_storage age h =
    inr (refl, _, refl, (plain_keeps current _ a age).0)
new_storage-KeepsPromise current a static_website age h =
    inr (refl, _, refl, (plain_keeps current _ a age).1)
new_storage-KeepsPromise current a (backup (pos days)) age h = elim (Bool-cases (leb days 0)) [
  | inl e ↦ inl (rw e, rw e)
  | inr e ↦ inr (rw e, _, rw e, backup_keeps current a days age)
]
new_storage-KeepsPromise current a (backup (negsuc days)) age h = inl (refl, refl)
new_storage-KeepsPromise current a (archive (pos days)) age h = elim (Bool-cases (leb days 0)) [
  | inl e ↦ inl (rw e, rw e)
  | inr e ↦ inr (rw e, _, rw e, archive_keeps current a days age)
]
new_storage-KeepsPromise current a (archive (negsuc days)) age h = inl (refl, refl)
new_storage-KeepsPromise current a (data_lake hot_days delete_days) age h =
    elim (Bool-cases (leb_int delete_days hot_days)) [
      | inl e ↦ inl (rw e, rw e)
      | inr e ↦ inr (rw e, _, rw e, data_lake_promise current a hot_days delete_days age h e)
    ]
