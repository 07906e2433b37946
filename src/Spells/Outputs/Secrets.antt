-- ===== src/Spells/Outputs/Secrets.antt =====
-- What the spells export in the clear.
use cloudspells.Common.{
  ◌≡◌, refl, ap, ◌∙◌, sym, Bool, true, false, Option, none, some, [], ◌∷◌, ◌++◌, if◌then◌else◌,
  Bool-cases, inl, inr,
}
use cloudspells.Common.Text.{Text}
use cloudspells.Naming.{ResourceNamer}
use cloudspells.Spells.Keys.{SshKeys}
use cloudspells.Spells.Compute.{ComputeInstance}
use cloudspells.Spells.Workload.{ScalableWorkload}
use cloudspells.Spells.Oke.Cluster.{OkeCluster}
use cloudspells.Spells.Outputs.{
  Assigned, Exports, key_outputs, instance_outputs, volume_outputs, ssh_outputs,
  export_compute_instance, export_scalable_workload, export_oke_cluster,
}

-- The outputs that are not secrets.
unfoldable pub in_clear : Exports → Exports
in_clear [] = []
in_clear ((k, o) ∷ exports) =
    let rest = in_clear exports in if o.is_secret then rest else (k, o) ∷ rest

in_clear-append : (xs ys : Exports) → in_clear (xs ++ ys) ≡ in_clear xs ++ in_clear ys
unfolding in_clear
in_clear-append [] ys = refl
in_clear-append ((k, o) ∷ xs) ys = elim (Bool-cases o.is_secret) [
  | inl e ↦ rw e (in_clear-append xs ys)
  | inr e ↦ simp e (ap (λ l. (k, o) ∷ l) (in_clear-append xs ys))
]

in_clear-tail :
    (xs ys zs zs' : Exports)
    → in_clear zs ≡ in_clear zs'
    → in_clear (xs ++ (ys ++ zs)) ≡ in_clear (xs ++ (ys ++ zs'))
in_clear-tail xs ys zs zs' h =
    in_clear-append xs (ys ++ zs)
    ∙ ap (λ l. in_clear xs ++ l)
        (in_clear-append ys zs ∙ ap (λ l. in_clear ys ++ l) h ∙ sym (in_clear-append ys zs'))
    ∙ sym (in_clear-append xs (ys ++ zs'))

abbrev pub with_private_key : SshKeys → Option Text → SshKeys
with_private_key keys k = record keys { ssh_private_key = k }

in_clear-key_outputs :
    (n : ResourceNamer) (b : Bool) (public_key : Text) (private_key : Option Text)
    → let keys : SshKeys = record {
      ssh_public_key = public_key;
      ssh_private_key = private_key;
      auto_generated_keys = b;
    } in
      in_clear (key_outputs n keys) ≡ []
unfolding key_outputs in_clear
in_clear-key_outputs n false p k = refl
in_clear-key_outputs n true p none = refl
in_clear-key_outputs n true p (some []) = refl
in_clear-key_outputs n true p (some (c ∷ s)) = refl

keys_in_clear :
    (n : ResourceNamer) (keys : SshKeys) (k : Option Text)
    → in_clear (key_outputs n (with_private_key keys k)) ≡ in_clear (key_outputs n keys)
keys_in_clear n keys k =
    in_clear-key_outputs n keys.auto_generated_keys keys.ssh_public_key k
    ∙ sym (in_clear-key_outputs n keys.auto_generated_keys keys.ssh_public_key keys.ssh_private_key)

ssh_in_clear :
    (n : ResourceNamer) (keys : SshKeys) (k : Option Text)
    → in_clear (ssh_outputs n (with_private_key keys k)) ≡ in_clear (ssh_outputs n keys)
unfolding ssh_outputs in_clear
ssh_in_clear n keys k = rw (keys_in_clear n keys k) refl

-- The outputs in the clear tell nothing of a private key, nor of the kubeconfig of a cluster: they
-- are the same with any other one in its place, for an instance, a workload and a cluster.
pub private_keys_stay_secret :
    (at : Assigned) (n : ResourceNamer)
    → ((c : ComputeInstance) (k : Option Text)
        → in_clear
            (export_compute_instance at n (record c { ssh_keys = with_private_key c.ssh_keys k }))
          ≡ in_clear (export_compute_instance at n c))
      × ((w : ScalableWorkload) (k : Option Text)
          → in_clear (
              export_scalable_workload at n (record w { ssh_keys = with_private_key w.ssh_keys k }))
            ≡ in_clear (export_scalable_workload at n w))
      × ((is_dry_run : Bool) (o : OkeCluster) (f : Text → Text)
          → in_clear (export_oke_cluster (record at { kubeconfig = f }) is_dry_run n o)
            ≡ in_clear (export_oke_cluster at is_dry_run n o))
unfolding export_compute_instance export_scalable_workload export_oke_cluster in_clear
    instance_outputs
private_keys_stay_secret at n = (
  (λ c k.
      in_clear-tail (instance_outputs at n c) (volume_outputs at n c.volumes_spec c.block_volumes) _
        _ (ssh_in_clear n c.ssh_keys k)),
  (λ w k. rw (keys_in_clear n w.ssh_keys k) refl),
  (λ is_dry_run o f. elim (Bool-cases is_dry_run) [ inl e ↦ rw e refl | inr e ↦ rw e refl ]),
)
