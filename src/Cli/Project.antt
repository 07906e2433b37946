-- ===== src/Cli/Project.antt =====
-- project/model.py, project/runner.py and commands/project.py: projects of several stacks.
pub mod Scaffold
pub mod Order
pub mod Kept
pub mod Cycle
pub mod Model
pub mod Run
pub mod Fresh
pub mod Status
use mathlib.Core.List.{reverse}
use cloudspells.Common.{
  ℕ, suc, Bool, true, false, not, ◌&&◌, Option, none, some, List, [], ◌∷◌, ◌++◌, if◌then◌else◌,
}
use cloudspells.Common.Text.{Text, codes, text_eq}
use cloudspells.Exec.{
  Error, value_error, typer_exit, typer_abort, Exec, Action, Result, ok, err, raise, pure, lift,
  done, raise_if, when, for_each, ◌>>=◌, ◌>>◌,
}
use cloudspells.Cli.Machine.{
  Machine, Engine, Operation, up, preview, destroy, export_stack, ask, get_stack, has_program,
  mkdir, write_text, pulumi_yaml_name,
}
use cloudspells.Cli.Templates.{is_registered, render}
use cloudspells.Cli.Templates.Yaml.{Template}

pub record SpellRef : Type 0 where
  pub spell : Text
  pub name : Text

pub record ProjectConfig : Type 0 where
  pub name : Text
  pub description : Text
  pub spells : List SpellRef

-- `path / name`
unfoldable pub under : Text → Text → Text
under path name = path ++ (codes "/" ++ name)

-- `for fname, content in files.items(): (path / fname).write_text(content)`
unfoldable pub write_files : Text → Template → Action Machine
write_files path files = do
  write_text path pulumi_yaml_name files.yaml
  write_text path (codes "__main__.py") files.main

unfoldable pub scaffold : Text → Text → Text → Text → Action Machine
unfolding write_files
scaffold path spell name stack = do
  files ← lift (render spell name stack)
  mkdir path
  write_files path files

-- `_ensure_spell_dir`
unfoldable pub ensure_spell_dir : SpellRef → Text → Text → Exec Machine Text
unfolding scaffold
ensure_spell_dir s work_dir stack = do
  raise_if (not (is_registered s.spell)) value_error
  let path = under work_dir s.name
  (λ m. when (not (has_program path m)) (scaffold path s.spell s.name stack) m)
  pure path

-- One round of the loop of `deploy_project`.
unfoldable pub deploy_spell : Engine → Text → Text → Bool → SpellRef → Action Machine
deploy_spell e stack work_dir only_preview s = do
  path ← ensure_spell_dir s work_dir stack
  get_stack e stack path
  ask e (if only_preview then preview else up) stack path

unfoldable pub deploy_project : Engine → ProjectConfig → Text → Text → Bool → Action Machine
deploy_project e p stack work_dir only_preview =
    for_each p.spells (deploy_spell e stack work_dir only_preview)

-- One round of the loop of `destroy_project`.
unfoldable pub destroy_spell : Engine → Text → Text → SpellRef → Action Machine
destroy_spell e stack work_dir s =
    let path = under work_dir s.name in
    λ m. when (has_program path m) (get_stack e stack path >> ask e destroy stack path) m

unfoldable pub destroy_project : Engine → ProjectConfig → Text → Text → Action Machine
destroy_project e p stack work_dir = for_each (reverse p.spells) (destroy_spell e stack work_dir)
