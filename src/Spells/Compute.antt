-- ===== src/Spells/Compute.antt =====
-- compute.py: `ComputeInstance`. The availability domain, which may be an output, is its value, and
-- numbers that are only passed on are texts. Encoding user data in base 64 is a parameter.
pub mod Volumes
use cloudspells.Common.{
  ℕ, ◌+◌, Bool, false, not, ◌||◌, Option, none, some, List, [], ◌∷◌, map, ltb, tick, if◌then◌else◌,
}
use cloudspells.Common.Text.{Text, codes, text_eq}
use cloudspells.Common.Int.{pos, int_str}
use cloudspells.Exec.{
  Exec, Action, Result, ok, err, value_error, key_error, pure, lift, when, ◌>>=◌, ◌>>◌,
}
use cloudspells.IpNetwork.{IpText}
use cloudspells.Naming.{ResourceNamer, create_resource_name, ordinal_suffix}
use cloudspells.Roles.{SubnetTier, public, private, secure, management, RoleObject, role_of}
use cloudspells.Rules.{SlIngress, internet}
use cloudspells.Vcn.Defs.{Vcn, subnet_cidr, add_unique_security_list_rules}
use cloudspells.Nsg.Roles.{ingress_for, is_public}
use cloudspells.Volume.{VolumeSpec}
use cloudspells.Spells.Site.{Site, on_own, site_finalize_network, there, tcp_from}
use cloudspells.Spells.Keys.{SshKeys, GenerateKeys, setup_ssh_keys}

-- The group of an instance: its id and its role.
pub record InstanceNsg : Type 0 where
  pub id : Text
  pub role : Option RoleObject

pub record ComputeArgs : Type 0 where
  pub namer : ResourceNamer
  pub image_id : Text
  pub availability_domain : Text
  pub ssh_public_key : Option Text
  pub shape : Text
  pub ocpus : Text
  pub memory_in_gbs : Text
  pub subnet : SubnetTier
  pub boot_volume_size_in_gbs : Text
  pub volumes : Option (List VolumeSpec)
  pub nsg : Option InstanceNsg
  pub user_data : Option Text
  pub fault_domain : Option Text
  pub hostname_label : Option Text

pub record Instance : Type 0 where
  pub display_name : Text
  pub availability_domain : Text
  pub fault_domain : Option Text
  pub shape : Text
  pub ocpus : Text
  pub memory_in_gbs : Text
  pub source_id : Text
  pub boot_volume_size_in_gbs : Text
  pub boot_volume_vpus_per_gb : Text
  pub subnet_id : Text
  pub assign_public_ip : Bool
  pub vnic_display_name : Text
  pub nsg_ids : List Text
  pub hostname_label : Option Text
  pub ssh_authorized_keys : Text
  pub user_data : Option Text

pub record BlockVolume : Type 0 where
  pub display_name : Text
  pub availability_domain : Text
  pub size_in_gbs : Text
  pub vpus_per_gb : Text

pub record VolumeAttachment : Type 0 where
  pub display_name : Text
  pub instance : Text
  pub volume : Text
  pub attachment_type : Text
  pub is_read_only : Bool
  pub device : Option Text

pub record ComputeInstance : Type 0 where
  pub subnet : SubnetTier
  pub volumes_spec : List VolumeSpec
  pub ssh_keys : SshKeys
  pub instance : Instance
  pub block_volumes : List BlockVolume
  pub volume_attachments : List VolumeAttachment

-- The role of the group decides the tier.
unfoldable pub placement : Option InstanceNsg → SubnetTier → SubnetTier
placement none subnet = subnet
placement (some g) subnet = elim g.role [ none ↦ subnet | some role ↦ (role_of role).subnet_tier ]

-- `VolumeSpec(size_in_gbs=100)`
abbrev pub default_volume : VolumeSpec
default_volume = record {
  size_in_gbs = pos 100;
  label = codes "data";
  vpus_per_gb = pos 10;
  is_read_only = false;
  device = none;
}

-- `labels.count(label)`
unfoldable pub count_label : List VolumeSpec → Text → ℕ
count_label [] label = 0
count_label (spec ∷ specs) label = tick (text_eq spec.label label) + count_label specs label

-- Some label of the specs, the first ones, stands more than once in all of them.
unfoldable pub some_twice : List VolumeSpec → List VolumeSpec → Bool
unfolding count_label
some_twice [] all_specs = false
some_twice (spec ∷ specs) all_specs =
    ltb 1 (count_label all_specs spec.label) || some_twice specs all_specs

unfoldable pub checked_volumes : Option (List VolumeSpec) → Result (List VolumeSpec)
unfolding some_twice
checked_volumes none = ok (default_volume ∷ [])
checked_volumes (some []) = err value_error
checked_volumes (some (spec ∷ specs)) =
    if some_twice (spec ∷ specs) (spec ∷ specs) then err value_error else ok (spec ∷ specs)

-- Where SSH may come from, for an instance in the tier.
unfoldable pub ssh_rule : Vcn → SubnetTier → SlIngress
ssh_rule v public = tcp_from internet 22 22 (codes "SSH access from the internet")
ssh_rule v private =
    tcp_from (subnet_cidr v public) 22 22 (codes "SSH access from public subnet (bastion host)")
ssh_rule v secure = tcp_from (subnet_cidr v private) 22 22 (codes "SSH access from private subnet")
ssh_rule v management =
    tcp_from (subnet_cidr v private) 22 22 (codes "SSH access from private subnet")

unfoldable pub ssh_fingerprint : SubnetTier → Text
ssh_fingerprint public = codes "public-ingress-tcp-22"
ssh_fingerprint private = codes "compute-private-ingress-tcp-22"
ssh_fingerprint secure = codes "compute-secure-ingress-tcp-22"
ssh_fingerprint management = codes "compute-management-ingress-tcp-22"

-- `_add_compute_security_rules`
unfoldable pub compute_security_rules : SubnetTier → Action Vcn
unfolding ssh_rule ssh_fingerprint
compute_security_rules subnet v =
    add_unique_security_list_rules (ssh_fingerprint subnet)
      (ingress_for subnet (ssh_rule v subnet ∷ [])) v

-- The guard of the call: a network that is finalized gets no rule, and no error.
unfoldable pub ssh_if_open : SubnetTier → Action Vcn
unfolding compute_security_rules
ssh_if_open subnet v = when (not v.security_lists_finalized) (compute_security_rules subnet) v

pub record SubnetIds : Type 0 where
  pub private_id : Text
  pub public_id : Text
  pub secure_id : Text
  pub management_id : Text

-- `_assert_subnets_ready`, with what it has seen
unfoldable pub assert_subnets_ready : Exec Site SubnetIds
assert_subnets_ready = do
  private_id ← there private
  public_id ← there public
  secure_id ← there secure
  management_id ← there management
  pure (record {
    private_id = private_id;
    public_id = public_id;
    secure_id = secure_id;
    management_id = management_id;
  })

unfoldable pub resolve_subnet_id : SubnetTier → SubnetIds → Text
resolve_subnet_id public ids = ids.public_id
resolve_subnet_id secure ids = ids.secure_id
resolve_subnet_id management ids = ids.management_id
resolve_subnet_id private ids = ids.private_id

unfoldable pub new_instance : ComputeArgs → (Text → Text) → SubnetTier → Text → SshKeys → Instance
new_instance a b64encode subnet subnet_id keys = record {
  display_name = create_resource_name a.namer (codes "instance");
  availability_domain = a.availability_domain;
  fault_domain = a.fault_domain;
  shape = a.shape;
  ocpus = a.ocpus;
  memory_in_gbs = a.memory_in_gbs;
  source_id = a.image_id;
  boot_volume_size_in_gbs = a.boot_volume_size_in_gbs;
  boot_volume_vpus_per_gb = codes "10";
  subnet_id = subnet_id;
  assign_public_ip = is_public subnet;
  vnic_display_name = create_resource_name a.namer (codes "vnic");
  nsg_ids = elim a.nsg [ none ↦ [] | some g ↦ g.id ∷ [] ];
  hostname_label = a.hostname_label;
  ssh_authorized_keys = keys.ssh_public_key;
  user_data = elim a.user_data [ none ↦ none | some raw ↦ some (b64encode raw) ];
}

unfoldable pub block_volume : ComputeArgs → ℕ → VolumeSpec → BlockVolume
block_volume a index spec = record {
  display_name = create_resource_name a.namer (ordinal_suffix (codes "vol") index);
  availability_domain = a.availability_domain;
  size_in_gbs = int_str spec.size_in_gbs;
  vpus_per_gb = int_str spec.vpus_per_gb;
}

unfoldable pub volume_attachment : ComputeArgs → ℕ → VolumeSpec → VolumeAttachment
unfolding block_volume
volume_attachment a index spec = record {
  display_name = create_resource_name a.namer (ordinal_suffix (codes "vol-attach") index);
  instance = create_resource_name a.namer (codes "instance");
  volume = (block_volume a index spec).display_name;
  attachment_type = codes "paravirtualized";
  is_read_only = spec.is_read_only;
  device = spec.device;
}

-- `_attach_block_volumes`, from an index on
unfoldable pub attach_block_volumes :
    ComputeArgs → ℕ → List VolumeSpec → List (BlockVolume × VolumeAttachment)
unfolding block_volume volume_attachment
attach_block_volumes a index [] = []
attach_block_volumes a index (spec ∷ specs) =
    (block_volume a index spec, volume_attachment a index spec)
    ∷ attach_block_volumes a (index + 1) specs

-- `ComputeInstance(…)`
unfoldable pub new_compute_instance :
    IpText → GenerateKeys → (Text → Text) → ComputeArgs → Exec Site ComputeInstance
unfolding checked_volumes ssh_if_open assert_subnets_ready
new_compute_instance ip generate b64encode a = do
  let subnet = placement a.nsg a.subnet
  volumes_spec ← lift (checked_volumes a.volumes)
  let keys = setup_ssh_keys generate a.namer a.ssh_public_key
  on_own (ssh_if_open subnet)
  site_finalize_network ip
  ids ← assert_subnets_ready
  let attached = attach_block_volumes a 0 volumes_spec
  pure (record {
    subnet = subnet;
    volumes_spec = volumes_spec;
    ssh_keys = keys;
    instance = new_instance a b64encode subnet (resolve_subnet_id subnet ids) keys;
    block_volumes = map (λ p. p.0) attached;
    volume_attachments = map (λ p. p.1) attached;
  })

-- The first of the values whose spec has the label.
unfoldable pub by_label {ℓ} : {A : Type ℓ} → List VolumeSpec → List A → Text → Result A
by_label [] values label = err key_error
by_label (spec ∷ specs) [] label = err key_error
by_label (spec ∷ specs) (value ∷ values) label =
    let rest = by_label specs values label in if text_eq spec.label label then ok value else rest

unfoldable pub get_volume : ComputeInstance → Text → Result BlockVolume
unfolding by_label
get_volume c label = by_label c.volumes_spec c.block_volumes label

unfoldable pub get_volume_attachment : ComputeInstance → Text → Result VolumeAttachment
unfolding by_label
get_volume_attachment c label = by_label c.volumes_spec c.volume_attachments label
