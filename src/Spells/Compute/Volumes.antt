-- ===== src/Spells/Compute/Volumes.antt =====
-- The block volumes of an instance, by their labels.
use cloudspells.Common.{
  ℕ, zero, suc, ◌+◌, ◌≤◌, ◌≡◌, refl, ap, ◌∙◌, false, Option, none, some, List, [], ◌∷◌, map,
  get_elem?, tick, Bool-cases, inl, inr, arith, if◌then◌else◌,
}
use mathlib.Core.Path.{subst}
use cloudspells.Common.Text.{Text, codes, text_eq, text_eq_refl}
use cloudspells.Exec.{ok, err, key_error, value_error, lift, >>=-ok, ok_injective}
use cloudspells.IpNetwork.{IpText}
use cloudspells.Volume.{VolumeSpec}
use cloudspells.Spells.Site.{Site, on_own, site_finalize_network}
use cloudspells.Spells.Keys.{GenerateKeys}
use cloudspells.Spells.Compute.{
  ComputeArgs, ComputeInstance, block_volume, volume_attachment, attach_block_volumes, count_label,
  some_twice, checked_volumes, by_label, get_volume, get_volume_attachment, new_compute_instance,
  ssh_if_open, placement, assert_subnets_ready,
}

count_label-pos :
    (specs : List VolumeSpec) (i : ℕ) {spec : VolumeSpec}
    → get_elem? specs i ≡ some spec
    → 1 ≤ count_label specs spec.label
unfolding count_label
count_label-pos [] i h = absurd (ground arith)
count_label-pos (x ∷ specs) zero {spec} h =
    let e : x ≡ spec = cc in
    subst (λ (y : VolumeSpec). 1 ≤ tick (text_eq x.label y.label) + count_label specs y.label) e
      (rw text_eq_refl (omega arith))
count_label-pos (x ∷ specs) (suc i) h = omega (arith, count_label-pos specs i h)

-- Values that were made for the specs one by one, from an index on.
pub made : {A : Type 0} → (ℕ → VolumeSpec → A) → ℕ → List VolumeSpec → List A
made f index [] = []
made f index (spec ∷ specs) = f index spec ∷ made f (index + 1) specs

by_label-made :
    {A : Type 0} (f : ℕ → VolumeSpec → A) (specs : List VolumeSpec) (index i : ℕ)
    {spec : VolumeSpec}
    → get_elem? specs i ≡ some spec
    → count_label specs spec.label ≤ 1
    → by_label specs (made f index specs) spec.label ≡ ok (f (index + i) spec)
unfolding by_label made count_label
by_label-made f [] index i h once = absurd (ground arith)
by_label-made f (x ∷ specs) index zero {spec} h once =
    let e : x ≡ spec = cc in
    subst
      (λ (y : VolumeSpec).
        by_label (x ∷ specs) (made f index (x ∷ specs)) y.label ≡ ok (f (index + 0) y))
      e (rw text_eq_refl (ap (λ n. ok (f n x)) (omega arith)))
by_label-made f (x ∷ specs) index (suc i) {spec} h once =
    elim (Bool-cases (text_eq x.label spec.label)) [
      | inl same ↦ absurd (omega (arith, rw same at once, count_label-pos specs i h))
      | inr other ↦ rw other (
          by_label-made f specs (index + 1) i h (omega (arith, rw other at once))
          ∙ ap (λ n. ok (f n spec)) (omega arith))
    ]

by_label-missing :
    {A : Type 0} (f : ℕ → VolumeSpec → A) (specs : List VolumeSpec) (index : ℕ) (label : Text)
    → count_label specs label ≡ 0
    → by_label specs (made f index specs) label ≡ err key_error
unfolding by_label made count_label
by_label-missing f [] index label h = refl
by_label-missing f (x ∷ specs) index label h = elim (Bool-cases (text_eq x.label label)) [
  | inl same ↦ absurd (omega (arith, rw same at h))
  | inr other ↦ rw other (by_label-missing f specs (index + 1) label (omega (arith, rw other at h)))
]

made-block_volume :
    (a : ComputeArgs) (index : ℕ) (specs : List VolumeSpec)
    → map (λ p. p.0) (attach_block_volumes a index specs) ≡ made (block_volume a) index specs
unfolding made attach_block_volumes
made-block_volume a index [] = refl
made-block_volume a index (x ∷ specs) =
    ap (λ l. block_volume a index x ∷ l) (made-block_volume a (index + 1) specs)

made-volume_attachment :
    (a : ComputeArgs) (index : ℕ) (specs : List VolumeSpec)
    → map (λ p. p.1) (attach_block_volumes a index specs) ≡ made (volume_attachment a) index specs
unfolding made attach_block_volumes
made-volume_attachment a index [] = refl
made-volume_attachment a index (x ∷ specs) =
    ap (λ l. volume_attachment a index x ∷ l) (made-volume_attachment a (index + 1) specs)

some_twice-once :
    (specs all_specs : List VolumeSpec) (i : ℕ) {spec : VolumeSpec}
    → some_twice specs all_specs ≡ false
    → get_elem? specs i ≡ some spec
    → count_label all_specs spec.label ≤ 1
unfolding some_twice
some_twice-once [] all_specs i h e = absurd (ground arith)
some_twice-once (x ∷ specs) all_specs zero {spec} h e =
    let same : x ≡ spec = cc in
    subst (λ (y : VolumeSpec). count_label all_specs y.label ≤ 1) same (ground arith)
some_twice-once (x ∷ specs) all_specs (suc i) h e =
    some_twice-once specs all_specs i (ground arith) e

unless_twice :
    (specs : List VolumeSpec) {specs' : List VolumeSpec}
    → (if some_twice specs specs then err value_error else ok specs) ≡ ok specs'
    → some_twice specs' specs' ≡ false
unless_twice specs h = elim (Bool-cases (some_twice specs specs)) [
  | inl twice ↦ absurd (ground arith)
  | inr once ↦
      subst (λ (l : List VolumeSpec). some_twice l l ≡ false) (ok_injective (rw once at h)) once
]

pub checked_volumes-once :
    (volumes : Option (List VolumeSpec)) {specs : List VolumeSpec}
    → checked_volumes volumes ≡ ok specs
    → some_twice specs specs ≡ false
unfolding checked_volumes some_twice count_label text_eq codes
checked_volumes-once none h =
    subst (λ (l : List VolumeSpec). some_twice l l ≡ false) (ok_injective h) refl
checked_volumes-once (some []) h = absurd (ground arith)
checked_volumes-once (some (x ∷ specs)) h = unless_twice (x ∷ specs) h

-- An instance that was made keeps the specs that were checked, with a volume and an attachment for
-- each.
pub made_instance :
    (ip : IpText) (generate : GenerateKeys) (b64encode : Text → Text) (a : ComputeArgs) (s : Site)
    {c : ComputeInstance}
    → (new_compute_instance ip generate b64encode a s).0 ≡ ok c
    → (checked_volumes a.volumes ≡ ok c.volumes_spec)
      × (c.block_volumes ≡ made (block_volume a) 0 c.volumes_spec)
      × (c.volume_attachments ≡ made (volume_attachment a) 0 c.volumes_spec)
unfolding new_compute_instance
made_instance ip generate b64encode a s {c} h =
    let (specs, checked, h1) = >>=-ok (lift (checked_volumes a.volumes)) _ s h in
    let (_, _, h2) = >>=-ok (on_own (ssh_if_open (placement a.nsg a.subnet))) _ s h1 in
    let (_, _, h3) = >>=-ok (site_finalize_network ip) _ _ h2 in
    let (ids, _, h4) = >>=-ok assert_subnets_ready _ _ h3 in
    subst
      (λ (d : ComputeInstance).
        (checked_volumes a.volumes ≡ ok d.volumes_spec)
        × (d.block_volumes ≡ made (block_volume a) 0 d.volumes_spec)
        × (d.volume_attachments ≡ made (volume_attachment a) 0 d.volumes_spec))
      (ok_injective h4) (checked, made-block_volume a 0 specs, made-volume_attachment a 0 specs)

-- The volumes of an instance that was made are found by their labels: the label of each spec leads
-- to the volume and to the attachment of that very spec, since no two specs have one label, and a
-- label that no spec has raises `KeyError`.
pub volumes_by_label :
    (ip : IpText) (generate : GenerateKeys) (b64encode : Text → Text) (a : ComputeArgs) (s : Site)
    {c : ComputeInstance}
    → (new_compute_instance ip generate b64encode a s).0 ≡ ok c
    → ((i : ℕ) (spec : VolumeSpec)
        → get_elem? c.volumes_spec i ≡ some spec
        → (get_volume c spec.label ≡ ok (block_volume a i spec))
          × (get_volume_attachment c spec.label ≡ ok (volume_attachment a i spec)))
      × ((label : Text)
          → count_label c.volumes_spec label ≡ 0
          → (get_volume c label ≡ err key_error) × (get_volume_attachment c label ≡ err key_error))
unfolding get_volume get_volume_attachment
volumes_by_label ip generate b64encode a s {c} h =
    let (checked, volumes, attachments) = made_instance ip generate b64encode a s h in
    let twice = checked_volumes-once a.volumes checked in
    (
      (λ i spec e.
          let once = some_twice-once c.volumes_spec c.volumes_spec i twice e in
          let from_zero : 0 + i ≡ i = omega arith in
          (
            ap (λ l. by_label c.volumes_spec l spec.label) volumes
                ∙ by_label-made (block_volume a) c.volumes_spec 0 i e once
                ∙ ap (λ n. ok (block_volume a n spec)) from_zero,
            ap (λ l. by_label c.volumes_spec l spec.label) attachments
                ∙ by_label-made (volume_attachment a) c.volumes_spec 0 i e once
                ∙ ap (λ n. ok (volume_attachment a n spec)) from_zero,
          )),
      (λ label e. (
        ap (λ l. by_label c.volumes_spec l label) volumes
            ∙ by_label-missing (block_volume a) c.volumes_spec 0 label e,
        ap (λ l. by_label c.volumes_spec l label) attachments
            ∙ by_label-missing (volume_attachment a) c.volumes_spec 0 label e,
      )),
    )
