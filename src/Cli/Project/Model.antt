-- ===== src/Cli/Project/Model.antt =====
-- project/model.py: `ProjectConfig.load` and `save`. Reading and printing YAML is a parameter.
use cloudspells.Common.{◌≡◌, refl, Option, none, some, List, [], ◌∷◌, map}
use cloudspells.Common.Text.{Text, codes}
use cloudspells.Exec.{Result, ok, err, key_error, typer_exit, Exec, Action}
use cloudspells.Cli.Machine.{Machine, files_of, write_text}
use cloudspells.Cli.Project.{SpellRef, ProjectConfig}

-- What stands under the keys of a document, where they are there.
pub record SpellData : Type 0 where
  pub spell : Option Text
  pub name : Option Text

pub record ProjectData : Type 0 where
  pub name : Option Text
  pub description : Option Text
  pub spells : Option (List SpellData)

-- `yaml.safe_load` and `yaml.dump`
pub record Yaml : Type 0 where
  pub safe_load : Text → Result ProjectData
  pub dump : ProjectData → Text

-- What was printed is read back.
abbrev pub IsReadBack : Yaml → Type 0
IsReadBack y = (d : ProjectData) → y.safe_load (y.dump d) ≡ ok d

abbrev key_value : Option Text → Result Text
key_value none = err key_error
key_value (some value) = ok value

abbrev pub bind : {A B : Type 0} → Result A → (A → Result B) → Result B
bind (ok a) f = f a
bind (err e) f = err e

unfoldable pub spell_ref : SpellData → Result SpellRef
spell_ref s =
    bind (key_value s.spell)
      λ spell. bind (key_value s.name) λ name. ok (record { spell = spell; name = name })

unfoldable pub spell_refs : List SpellData → Result (List SpellRef)
unfolding spell_ref
spell_refs [] = ok []
spell_refs (s ∷ spells) = bind (spell_ref s) λ ref. bind (spell_refs spells) λ refs. ok (ref ∷ refs)

abbrev spells_of : Option (List SpellData) → List SpellData
spells_of none = []
spells_of (some spells) = spells

abbrev text_of : Option Text → Text
text_of none = []
text_of (some text) = text

-- `ProjectConfig.load`, on a file that is there
unfoldable pub load : Yaml → Text → Result ProjectConfig
unfolding spell_refs
load y text = bind (y.safe_load text) λ data'. bind (spell_refs (spells_of data'.spells)) λ spells.
    bind (key_value data'.name)
      λ name. ok (record { name = name; description = text_of data'.description; spells = spells })

unfoldable pub spell_data : SpellRef → SpellData
spell_data s = record { spell = some s.spell; name = some s.name }

abbrev pub project_data : ProjectConfig → ProjectData
project_data p = record {
  name = some p.name;
  description = some p.description;
  spells = some (map spell_data p.spells);
}

abbrev pub project_yaml : Text
project_yaml = codes "project.yaml"

-- `project.save(path / "project.yaml")`
unfoldable pub save : Yaml → ProjectConfig → Text → Action Machine
save y p path = write_text path project_yaml (y.dump (project_data p))

abbrev pub loaded : Yaml → Option Text → Result ProjectConfig
loaded y none = err typer_exit
loaded y (some text) = load y text

-- `_load_project` of commands/project.py
unfoldable pub load_project : Yaml → Text → Exec Machine ProjectConfig
load_project y work_dir m = (loaded y (files_of (m.directories work_dir) project_yaml), m)

spell_refs-map : (spells : List SpellRef) → spell_refs (map spell_data spells) ≡ ok spells
unfolding spell_refs spell_data
spell_refs-map [] = refl
spell_refs-map (s ∷ spells) = rw (spell_refs-map spells)

-- What was printed for a project is read as that project.
pub load-dump :
    (y : Yaml) (p : ProjectConfig) → IsReadBack y → load y (y.dump (project_data p)) ≡ ok p
unfolding load
load-dump y p back = rw (back (project_data p), spell_refs-map p.spells)
