-- ===== src/Tests/Cli.antt =====
-- The command line, tags and buckets at concrete inputs.
use mathlib.Core.List.{reverse}
use cloudspells.Common.{
  ◌≡◌, ◌≤◌, refl, ℕ, Bool, true, false, Option, none, some, List, [], ◌∷◌, ◌++◌, map, take, length,
  All, ◌⊎◌, if◌then◌else◌,
}
use cloudspells.Common.Int.{pos}
use cloudspells.Common.Text.{Text, codes, text_eq}
use cloudspells.Exec.{ok, err, value_error}
use cloudspells.Cli.Machine.{Machine, Engine, Call, pulumi_yaml_name}
use cloudspells.Cli.Changes.{changes}
use cloudspells.Cli.Templates.{is_registered}
use cloudspells.Cli.Project.{ProjectConfig, deploy_project, destroy_project}
use cloudspells.Cli.Project.Scaffold.{Keeps}
use cloudspells.Cli.Project.Order.{up_call, destroy_call, deploy_project-ordered}
use cloudspells.Cli.Project.Kept.{HasProgram, deploy_project-Keeps}
use cloudspells.Cli.Project.Cycle.{IsKnown, deploy_destroy}
use cloudspells.Cli.Project.Run.{all_registered, project_new, project_up, new_refs, project_status}
use cloudspells.Cli.Project.Fresh.{project_new-up}
use cloudspells.Cli.Project.Status.{AllTold, project_status-AllTold}
use cloudspells.Tagging.{
  ResourceTagger, Tags, get, baseline, create_freeform_tags, network_extra,
  create_network_resource_tags, create_gateway_tags,
}
use cloudspells.Tagging.Lookup.{first_some, given, tags_by_key}
use cloudspells.Base.{after_colon, lower, spell_type_from_urn}
use cloudspells.Base.SpellType.{without_hyphens, no_capital, double_hyphen, no_hyphen}
use cloudspells.Base.Words.{cut, spell_type_from_urn-kebab}
use cloudspells.Storage.{BucketArgs, Storage}
use cloudspells.Storage.Fate.{
  data_lake, new_storage, accepts, KeepsPromise, new_storage-KeepsPromise,
}
use cloudspells.Tests.Codec.{codec, codec-IsReadBack}

-- An engine that succeeds always, and one that does so for four calls.
abbrev willing : Engine
willing = record {
  succeeds = λ calls c. true;
  has_oci_plugin = λ calls work_dir. true;
  exported = λ calls stack work_dir. none;
}

abbrev few : List Call → Bool
few (a ∷ (b ∷ (c ∷ (d ∷ calls)))) = false
few calls = true

abbrev failing : Engine
failing = record {
  succeeds = λ calls c. few calls;
  has_oci_plugin = λ calls work_dir. true;
  exported = λ calls stack work_dir. none;
}

abbrev blank : Machine
blank = record { directories = λ path. none; calls = [] }

-- A machine with a program in the directory `lab`.
abbrev at_work : Machine
at_work = record {
  directories = λ path.
      if text_eq path (codes "lab")
      then some (λ name. if text_eq name pulumi_yaml_name then some (codes "name: lab") else none)
      else none;
  calls = [];
}

abbrev demo : ProjectConfig
demo = record {
  name = codes "demo";
  description = [];
  spells =
      record { spell = codes "vcn"; name = codes "net" }
      ∷ record { spell = codes "oke"; name = codes "cluster" }
      ∷ [];
}

IsKnown-demo : All IsKnown demo.spells
unfolding is_registered text_eq codes
IsKnown-demo = (refl, (refl, tt))

deploy_destroy_example :
    let m1 = (deploy_project willing demo (codes "dev") (codes "demo") false blank).1 in
    ((deploy_project willing demo (codes "dev") (codes "demo") false blank).0 ≡ ok tt)
    × ((destroy_project willing demo (codes "dev") (codes "demo") m1).0 ≡ ok tt)
    × (changes (destroy_project willing demo (codes "dev") (codes "demo") m1).1.calls
        ≡ changes blank.calls
          ++ (map (up_call (codes "dev") (codes "demo")) demo.spells
              ++ map (destroy_call (codes "dev") (codes "demo")) (reverse demo.spells)))
deploy_destroy_example =
    deploy_destroy willing demo (codes "dev") (codes "demo") blank (λ calls c. refl) IsKnown-demo

-- The fifth call fails, so the second stack is not put up.
deploy_project-ordered_example :
    (k : ℕ) × (k ≤ length demo.spells)
    × (changes (deploy_project failing demo (codes "dev") (codes "demo") false blank).1.calls
        ≡ changes blank.calls ++ map (up_call (codes "dev") (codes "demo")) (take k demo.spells))
    × ((deploy_project failing demo (codes "dev") (codes "demo") false blank).0 ≡ ok tt
        → k ≡ length demo.spells)
deploy_project-ordered_example =
    deploy_project-ordered failing demo (codes "dev") (codes "demo") blank

deploy_project-Keeps_example :
    Keeps at_work (deploy_project willing demo (codes "dev") (codes "demo") true at_work).1
    × ((deploy_project willing demo (codes "dev") (codes "demo") true at_work).0 ≡ ok tt
        → All
            (HasProgram
              (codes "demo")
              (deploy_project willing demo (codes "dev") (codes "demo") true at_work).1)
            demo.spells)
deploy_project-Keeps_example =
    deploy_project-Keeps willing demo (codes "dev") (codes "demo") true at_work

abbrev wanted : List Text
wanted = codes "vcn" ∷ codes "storage" ∷ []

known_wanted : all_registered wanted ≡ true
unfolding all_registered is_registered text_eq codes
known_wanted = refl

project_new-up_example :
    let made = project_new codec (codes "shop") wanted [] (codes "dev") false blank in
    let upped = project_up willing codec (codes "shop") (codes "dev") false true false made.1 in
    (made.0 ≡ ok tt)
    × (made.1.calls ≡ blank.calls)
    × (upped.0 ≡ ok tt)
    × (changes upped.1.calls
        ≡ changes blank.calls
          ++ map (up_call (codes "dev") (codes "shop")) (new_refs (codes "shop") wanted))
project_new-up_example =
    project_new-up willing codec (codes "shop") [] (codes "dev") wanted false false blank
      codec-IsReadBack (λ calls c. refl) refl known_wanted refl

project_status-AllTold_example :
    AllTold failing
      (codes "dev")
      (codes "demo")
      demo.spells
      at_work
      (project_status failing demo (codes "dev") (codes "demo") at_work)
project_status-AllTold_example =
    project_status-AllTold failing demo (codes "dev") (codes "demo") at_work

abbrev lab_tagger : ResourceTagger
lab_tagger = record {
  stack_name = codes "prod";
  resource_name = codes "lab";
  spell_type = codes "vcn";
}

abbrev extra_tags : Tags
extra_tags = (codes "managed-by", codes "ops") ∷ []

-- A caller replaces a tag of the baseline.
tags_by_key_example :
    (get
        (create_freeform_tags lab_tagger (codes "prod-lab-vcn") (codes "vcn") (some extra_tags))
        (codes "managed-by")
      ≡ first_some
          (given (some extra_tags) (codes "managed-by"))
          (get (baseline lab_tagger (codes "prod-lab-vcn") (codes "vcn")) (codes "managed-by")))
    × ((network : Text) (group : Option Text)
        → get
            (create_network_resource_tags lab_tagger
              (codes "prod-lab-vcn")
              (codes "vcn")
              network
              group
              (some extra_tags))
            (codes "managed-by")
          ≡ first_some (given (some extra_tags) (codes "managed-by")) (
              first_some (get (network_extra network group) (codes "managed-by")) (
                get
                  (baseline lab_tagger (codes "prod-lab-vcn") (codes "vcn"))
                  (codes "managed-by"))))
    × ((gateway : Text)
        → get
            (create_gateway_tags lab_tagger (codes "prod-lab-vcn") gateway (some extra_tags))
            (codes "managed-by")
          ≡ first_some (given (some extra_tags) (codes "managed-by")) (
              first_some (get ((codes "gateway-type", gateway) ∷ []) (codes "managed-by")) (
                get
                  (baseline lab_tagger (codes "prod-lab-vcn") (codes "gateway"))
                  (codes "managed-by"))))
tags_by_key_example =
    tags_by_key lab_tagger (codes "prod-lab-vcn") (codes "vcn") (some extra_tags)
      (codes "managed-by")

overridden :
    get (create_freeform_tags lab_tagger [] [] (some extra_tags)) (codes "managed-by")
    ≡ some (codes "ops")
unfolding get create_freeform_tags text_eq codes
overridden = refl

flow_logs_type : spell_type_from_urn (codes "custom:network:VcnFlowLogs") ≡ codes "vcn-flow-logs"
unfolding spell_type_from_urn codes
flow_logs_type = refl

acronym_type : spell_type_from_urn (codes "custom:x:OCIVcnV2Nsg") ≡ codes "oci-vcn-v2-nsg"
unfolding spell_type_from_urn codes
acronym_type = refl

plain_name : no_hyphen (after_colon (codes "custom:network:VcnFlowLogs")) ≡ true
unfolding no_hyphen after_colon codes
plain_name = refl

spell_type_from_urn-kebab_example :
    let urn = codes "custom:network:VcnFlowLogs" in
    (spell_type_from_urn urn ≡ lower (cut (after_colon urn)))
    × (no_capital (spell_type_from_urn urn) ≡ true)
    × (double_hyphen false (spell_type_from_urn urn) ≡ false)
    × (without_hyphens (cut (after_colon urn)) ≡ after_colon urn)
spell_type_from_urn-kebab_example =
    spell_type_from_urn-kebab (codes "custom:network:VcnFlowLogs") plain_name

abbrev lake_args : BucketArgs
lake_args = record {
  name = codes "events";
  compartment_id = codes "c";
  namespace = codes "acme";
  stack_name = none;
}

new_storage-KeepsPromise_example :
    ((accepts (data_lake (pos 90) (pos 365)) ≡ false)
      × (new_storage (codes "prod") lake_args (data_lake (pos 90) (pos 365)) ≡ err value_error))
    ⊎ ((accepts (data_lake (pos 90) (pos 365)) ≡ true)
        × (s : Storage) × (new_storage (codes "prod") lake_args (data_lake (pos 90) (pos 365))
            ≡ ok s)
        × KeepsPromise (data_lake (pos 90) (pos 365)) s 200)
new_storage-KeepsPromise_example =
    new_storage-KeepsPromise (codes "prod") lake_args (data_lake (pos 90) (pos 365)) 200 refl
