-- ===== src/Cli/Project/Run.antt =====
-- commands/project.py: `cs project new`, `up`, `destroy` and `status`.
use cloudspells.Common.{
  ℕ, ◌+◌, Bool, true, false, not, ◌&&◌, Option, none, some, List, [], ◌∷◌, ◌++◌, tick,
  if◌then◌else◌,
}
use cloudspells.Common.Text.{Text, codes, text_eq}
use cloudspells.Exec.{
  Error, typer_exit, Exec, Action, Result, ok, err, pure, lift, raise_if, when, for_each, ◌>>=◌,
  ◌>>◌,
}
use cloudspells.Cli.Machine.{
  Machine, Engine, export_stack, is_some, ask, get_stack, has_program, mkdir,
}
use cloudspells.Cli.Templates.{is_registered, render}
use cloudspells.Cli.Commands.{confirm_unless}
use cloudspells.Cli.Project.{
  SpellRef, ProjectConfig, under, write_files, deploy_project, destroy_project,
}
use cloudspells.Cli.Project.Model.{Yaml, load_project, save}

unfoldable pub all_registered : List Text → Bool
all_registered [] = true
all_registered (s ∷ spells) = is_registered s && all_registered spells

abbrev pub is_empty : {A : Type 0} → List A → Bool
is_empty [] = true
is_empty (x ∷ xs) = false

unfoldable pub new_ref : Text → Text → SpellRef
new_ref name spell = record { spell = spell; name = name ++ (codes "-" ++ spell) }

-- One round of the loop of `project_new`.
unfoldable pub new_spell : Text → Text → Text → Action Machine
unfolding new_ref
new_spell name stack spell = do
  files ← lift (render spell (new_ref name spell).name stack)
  mkdir (under name (new_ref name spell).name)
  write_files (under name (new_ref name spell).name) files

unfoldable pub new_refs : Text → List Text → List SpellRef
new_refs name [] = []
new_refs name (spell ∷ spells) = new_ref name spell ∷ new_refs name spells

unfoldable pub project_new : Yaml → Text → List Text → Text → Text → Bool → Action Machine
project_new y name spells description stack force = do
  raise_if (is_empty spells) typer_exit
  raise_if (not (all_registered spells)) typer_exit
  (λ m. raise_if (is_some (m.directories name) && not force) typer_exit m)
  mkdir name
  for_each spells (new_spell name stack)
  save y (record { name = name; description = description; spells = new_refs name spells }) name

abbrev is_value_error : Error → Bool
is_value_error Error.value_error = true
is_value_error e = false

-- `except ValueError as exc: raise typer.Exit(1)`; other errors go on.
abbrev pub exit_on_value_error : Result (Unit {0}) → Result (Unit {0})
exit_on_value_error (ok a) = ok a
exit_on_value_error (err e) = if is_value_error e then err typer_exit else err e

unfoldable pub deploy_or_exit : Engine → ProjectConfig → Text → Text → Bool → Action Machine
deploy_or_exit e p stack work_dir only_preview m =
    let (r, m') = deploy_project e p stack work_dir only_preview m in (exit_on_value_error r, m')

unfoldable pub project_up : Engine → Yaml → Text → Text → Bool → Bool → Bool → Action Machine
unfolding deploy_or_exit
project_up e y work_dir stack only_preview agreed answer = do
  p ← load_project y work_dir
  when (not only_preview) (confirm_unless agreed answer)
  deploy_or_exit e p stack work_dir only_preview

unfoldable pub project_destroy : Engine → Yaml → Text → Text → Bool → Bool → Action Machine
project_destroy e y work_dir stack agreed answer = do
  p ← load_project y work_dir
  confirm_unless agreed answer
  destroy_project e p stack work_dir

pub record StatusRow : Type 0 where
  pub name : Text
  pub spell : Text
  pub status : Text
  pub resources : ℕ

-- The resources of a state that are not the stack itself.
unfoldable pub count_resources : List Text → ℕ
count_resources [] = 0
count_resources (type ∷ types) =
    tick (not (text_eq type (codes "pulumi:pulumi:Stack"))) + count_resources types

unfoldable pub row : SpellRef → Text → ℕ → StatusRow
row s status resources = record {
  name = s.name;
  spell = s.spell;
  status = status;
  resources = resources;
}

abbrev pub exported_row : SpellRef → Option (List Text) → StatusRow
exported_row s none = row s (codes "empty") 0
exported_row s (some types) = row s (codes "deployed") (count_resources types)

-- Any exception gives the status "not deployed".
abbrev pub asked_row : SpellRef → Result (Unit {0}) → Option (List Text) → StatusRow
asked_row s (ok a) exported = exported_row s exported
asked_row s (err e) exported = row s (codes "not deployed") 0

unfoldable pub spell_status : Engine → Text → Text → SpellRef → Exec Machine StatusRow
spell_status e stack work_dir s m =
    let path = under work_dir s.name in
    let (r, m') = (get_stack e stack path >> ask e export_stack stack path) m in
    if has_program path m
    then (ok (asked_row s r (e.exported m'.calls stack path)), m')
    else (ok (row s (codes "not scaffolded") 0), m)

unfoldable pub status_rows : Engine → Text → Text → List SpellRef → Exec Machine (List StatusRow)
unfolding spell_status
status_rows e stack work_dir [] = pure []
status_rows e stack work_dir (s ∷ spells) = do
  r ← spell_status e stack work_dir s
  rows ← status_rows e stack work_dir spells
  pure (r ∷ rows)

unfoldable pub project_status : Engine → ProjectConfig → Text → Text → Exec Machine (List StatusRow)
project_status e p stack work_dir = status_rows e stack work_dir p.spells
