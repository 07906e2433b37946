-- ===== src/Spells/Outputs/Volumes.antt =====
-- What an instance exports of its volumes.
use cloudspells.Common.{
  ◌≤◌, ◌≡◌, refl, ◌∙◌, Bool, true, false, Option, none, some, List, [], ◌∷◌, ◌⊎◌, Bool-cases, inl,
  inr, arith,
}
use mathlib.Core.Path.{subst}
use cloudspells.Common.Text.{Text, codes, text_eq, text_eq_sound}
use cloudspells.Exec.{Result, ok, err}
use cloudspells.IpNetwork.{IpText}
use cloudspells.Naming.{ResourceNamer}
use cloudspells.Nsg.Roles.{is_public}
use cloudspells.Volume.{VolumeSpec}
use cloudspells.Spells.Site.{Site}
use cloudspells.Spells.Keys.{SshKeys, GenerateKeys}
use cloudspells.Spells.Compute.{
  ComputeArgs, ComputeInstance, BlockVolume, count_label, some_twice, by_label, get_volume,
  new_compute_instance,
}
use cloudspells.Spells.Compute.Volumes.{made_instance, checked_volumes-once}
use cloudspells.Spells.Outputs.{
  Assigned, Output, plain, read_output, output_key, key_outputs, volume_key, volume_outputs,
  instance_outputs, ssh_outputs, export_compute_instance,
}
use cloudspells.Spells.Outputs.Keys.{
  output_key-volume_key, apart, fits, found_or-none, read_output-absent,
}

-- The id of a volume that was found.
abbrev pub shown : Assigned → Result BlockVolume → Option Output
shown at (ok vol) = some (plain (at.id vol.display_name))
shown at (err e) = none

volume_outputs-none :
    (at : Assigned) (n : ResourceNamer) (specs : List VolumeSpec) (volumes : List BlockVolume)
    (label : Text)
    → count_label specs label ≡ 0
    → read_output (volume_outputs at n specs volumes) (output_key n (volume_key label)) ≡ none
unfolding volume_outputs read_output count_label
volume_outputs-none at n [] volumes label h = refl
volume_outputs-none at n (x ∷ specs) [] label h = refl
volume_outputs-none at n (x ∷ specs) (vol ∷ volumes) label h =
    elim (Bool-cases (text_eq x.label label)) [
      | inl e ↦ absurd (omega (arith, rw e at h))
      | inr e ↦
          rw
            (
              volume_outputs-none at n specs volumes label (omega (arith, rw e at h)),
              output_key-volume_key,
              e,
            )
            refl
    ]

volume_outputs-by_label :
    (at : Assigned) (n : ResourceNamer) (specs : List VolumeSpec) (volumes : List BlockVolume)
    (label : Text)
    → count_label specs label ≤ 1
    → read_output (volume_outputs at n specs volumes) (output_key n (volume_key label))
      ≡ shown at (by_label specs volumes label)
unfolding volume_outputs read_output count_label by_label
volume_outputs-by_label at n [] volumes label h = refl
volume_outputs-by_label at n (x ∷ specs) [] label h = refl
volume_outputs-by_label at n (x ∷ specs) (vol ∷ volumes) label h =
    elim (Bool-cases (text_eq x.label label)) [
      | inl e ↦
          rw
            (
              volume_outputs-none at n specs volumes label (omega (arith, rw e at h)),
              output_key-volume_key,
              e,
            )
            refl
      | inr e ↦
          rw
            (
              output_key-volume_key,
              e,
              volume_outputs-by_label at n specs volumes label (omega (arith, rw e at h)),
            )
            (found_or-none _)
    ]

-- A label stands at most once, where none of the specs has one that stands twice.
once_at_most :
    (specs all_specs : List VolumeSpec) (label : Text)
    → some_twice specs all_specs ≡ false
    → (count_label specs label ≡ 0) ⊎ (count_label all_specs label ≤ 1)
unfolding some_twice count_label
once_at_most [] all_specs label h = inl refl
once_at_most (x ∷ specs) all_specs label h = elim (Bool-cases (text_eq x.label label)) [
  | inl e ↦ inr (
      subst (λ (l : Text). count_label all_specs l ≤ 1) (text_eq_sound x.label label e)
        (ground arith))
  | inr e ↦ elim (once_at_most specs all_specs label (ground arith)) [
    | inl none_there ↦ inl (rw e (omega (arith, none_there)))
    | inr once ↦ inr once
  ]
]

instance_outputs-none :
    (at : Assigned) (n : ResourceNamer) (c : ComputeInstance) (label : Text)
    → read_output (instance_outputs at n c) (output_key n (volume_key label)) ≡ none
unfolding instance_outputs read_output fits codes
instance_outputs-none at n c label = elim (Bool-cases (is_public c.subnet)) [
  | inl e ↦
      rw
        (
          e,
          apart n (codes "id") label refl,
          apart n (codes "private_ip") label refl,
          apart n (codes "public_ip") label refl,
          apart n (codes "availability_domain") label refl,
          apart n (codes "shape") label refl,
          apart n (codes "fault_domain") label refl,
        )
        refl
  | inr e ↦
      rw
        (
          e,
          apart n (codes "id") label refl,
          apart n (codes "private_ip") label refl,
          apart n (codes "availability_domain") label refl,
          apart n (codes "shape") label refl,
          apart n (codes "fault_domain") label refl,
        )
        refl
]

key_outputs-none :
    (n : ResourceNamer) (b : Bool) (public_key : Text) (private_key : Option Text) (label : Text)
    → let keys : SshKeys = record {
      ssh_public_key = public_key;
      ssh_private_key = private_key;
      auto_generated_keys = b;
    } in
      read_output (key_outputs n keys) (output_key n (volume_key label)) ≡ none
unfolding key_outputs read_output fits codes
key_outputs-none n false p k label = refl
key_outputs-none n true p none label = refl
key_outputs-none n true p (some []) label = refl
key_outputs-none n true p (some (c ∷ s)) label =
    rw (apart n (codes "ssh_private_key") label refl) refl

ssh_outputs-none :
    (n : ResourceNamer) (keys : SshKeys) (label : Text)
    → read_output (ssh_outputs n keys) (output_key n (volume_key label)) ≡ none
unfolding ssh_outputs read_output fits codes
ssh_outputs-none n keys label =
    rw
      (
        key_outputs-none n keys.auto_generated_keys keys.ssh_public_key keys.ssh_private_key label,
        apart n (codes "ssh_public_key") label refl,
      )
      refl

once :
    (specs : List VolumeSpec) (label : Text)
    → some_twice specs specs ≡ false
    → count_label specs label ≤ 1
once specs label h = elim (once_at_most specs specs label h) [
  | inl e ↦ omega (arith, e)
  | inr e ↦ e
]

-- An instance that was made exports, under `{name}_{label}_volume_id` for any label, the id of the
-- volume that `get_volume` gives for the label, in the clear, and nothing where that raises
-- `KeyError`: no other output has such a key.
pub export-get_volume :
    (ip : IpText) (generate : GenerateKeys) (b64encode : Text → Text) (a : ComputeArgs) (s : Site)
    {c : ComputeInstance}
    → (new_compute_instance ip generate b64encode a s).0 ≡ ok c
    → (at : Assigned) (n : ResourceNamer) (label : Text)
    → read_output (export_compute_instance at n c) (output_key n (volume_key label))
      ≡ shown at (get_volume c label)
unfolding export_compute_instance get_volume
export-get_volume ip generate b64encode a s {c} h at n label =
    let (checked, _, _) = made_instance ip generate b64encode a s h in
    read_output-absent (instance_outputs at n c) _ (ssh_outputs n c.ssh_keys) _
      (instance_outputs-none at n c label) (ssh_outputs-none n c.ssh_keys label)
    ∙ volume_outputs-by_label at n c.volumes_spec c.block_volumes label
        (once c.volumes_spec label (checked_volumes-once a.volumes checked))
