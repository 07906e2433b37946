-- ===== src/Volume/Checks.antt =====
-- Which volumes the constructor accepts.
use cloudspells.Common.{◌≡◌, ◌&&◌, arith, if◌then◌else◌}
use cloudspells.Exec.{ok, err, value_error}
use cloudspells.Volume.{VolumeSpec, new_volume_spec, at_least, at_most, valid_vpus, max_size_in_gbs}
use cloudspells.Volume.Label.{is_label, strip_newline, label_matches-eq}

-- The constructor returns the volume that it was given when the size is from 50 to 32768, the
-- performance is one of the four tiers, and the label, without one newline at its end, is as
-- described. Otherwise it raises `ValueError`.
new_volume_spec-eq :
    (v : VolumeSpec)
    → new_volume_spec v ≡ (
        if at_least 50 v.size_in_gbs
          && (at_most max_size_in_gbs v.size_in_gbs
              && (valid_vpus v.vpus_per_gb && is_label (strip_newline v.label)))
        then ok v
        else err value_error)
unfolding new_volume_spec
new_volume_spec-eq v = ground (arith, label_matches-eq v.label)
