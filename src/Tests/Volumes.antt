-- ===== src/Tests/Volumes.antt =====
-- A volume whose label ends in a newline.
use cloudspells.Common.Int.{pos}
use cloudspells.Volume.{VolumeSpec, new_volume_spec, label_matches}
use cloudspells.Volume.Label.{is_label, strip_newline, label_matches-eq}
use cloudspells.Common.{◌≡◌, refl, false, none, [], ◌∷◌, ◌++◌}
use cloudspells.Common.Text.{codes}
use cloudspells.Exec.{ok}

-- A label that ends in a newline.
abbrev data_volume : VolumeSpec
data_volume = record {
  size_in_gbs = pos 100;
  label = codes "data-1" ++ (b'\n' ∷ []);
  vpus_per_gb = pos 10;
  is_read_only = false;
  device = none;
}

label_matches-eq_example :
    label_matches data_volume.label ≡ is_label (strip_newline data_volume.label)
label_matches-eq_example = label_matches-eq data_volume.label

accepted : new_volume_spec data_volume ≡ ok data_volume
unfolding new_volume_spec label_matches codes
accepted = refl
