-- ===== src/Cli/Wizard.antt =====
-- commands/wizard.py: the guided commands. They ask for what the other commands take as arguments,
-- and print an error of the engine instead of ending with it.
use cloudspells.Common.{
  ℕ, Bool, not, ◌&&◌, ◌||◌, Option, none, some, List, [], ◌∷◌, get_elem?, if◌then◌else◌,
}
use cloudspells.Common.Text.{Text, codes}
use cloudspells.Exec.{Exec, Action, index_error, pure, raise, lift, when, done, ◌>>=◌, ◌>>◌}
use cloudspells.Cli.Machine.{
  Machine, Engine, preview, up, destroy, refresh, export_stack, is_some, ask, get_stack,
  has_program, mkdir, try_or,
}
use cloudspells.Cli.Templates.{is_registered, render}
use cloudspells.Cli.Project.{write_files}

-- What the user answers about a deployment.
pub record DeployAnswers : Type 0 where
  pub stack_name : Text
  pub preview : Bool
  pub confirmed : Bool

-- `try: body except CommandError as exc: console.print(…)`
abbrev pub or_print : Action Machine → Action Machine
or_print body = try_or body done

-- If the stack cannot be made, nothing more is tried.
unfoldable pub wizard_deploy : Engine → Text → DeployAnswers → Action Machine
wizard_deploy e work_dir a m =
    when (has_program work_dir m && (a.preview || a.confirmed))
      (or_print (
        get_stack e a.stack_name work_dir
        >> (if a.preview
            then ask e preview a.stack_name work_dir
            else ask e up a.stack_name work_dir)))
      m

unfoldable pub wizard_refresh : Engine → Text → Text → Action Machine
wizard_refresh e work_dir stack_name m =
    when (has_program work_dir m)
      (or_print (get_stack e stack_name work_dir >> ask e refresh stack_name work_dir)) m

unfoldable pub wizard_destroy : Engine → Text → Text → Bool → Action Machine
wizard_destroy e work_dir stack_name confirmed m =
    when (has_program work_dir m && confirmed)
      (or_print (get_stack e stack_name work_dir >> ask e destroy stack_name work_dir)) m

-- An error of the engine ends this one.
unfoldable pub wizard_status : Engine → Text → Text → Action Machine
wizard_status e work_dir stack_name m =
    when (has_program work_dir m)
      (get_stack e stack_name work_dir >> ask e export_stack stack_name work_dir) m

-- The keys of `SPELL_LORE` in theme.py.
unfoldable pub spell_lore : List Text
spell_lore =
    codes "vcn"
    ∷ codes "compute"
    ∷ codes "oke"
    ∷ codes "autoscale"
    ∷ codes "lb"
    ∷ codes "bastion"
    ∷ codes "storage"
    ∷ codes "iam"
    ∷ codes "web-db"
    ∷ []

-- `[s for s in SPELL_LORE if s in SPELL_REGISTRY]`
unfoldable pub canonical : List Text → List Text
canonical [] = []
canonical (s ∷ lore) = if is_registered s then s ∷ canonical lore else canonical lore

abbrev item : Option Text → Exec Machine Text
item none = raise index_error
item (some s) = pure s

-- What the user answers about a new stack.
pub record NewAnswers : Type 0 where
  pub index : ℕ
  pub name : Text
  pub overwrite : Bool
  pub deploy_now : Bool
  pub deploy : DeployAnswers

unfoldable pub wizard_new : Engine → NewAnswers → Action Machine
unfolding spell_lore canonical
wizard_new e a = do
  spell ← item (get_elem? (canonical spell_lore) a.index)
  (λ m.
      when (not (is_some (m.directories a.name)) || a.overwrite)
        (do
          files ← lift (render spell a.name (codes "dev"))
          mkdir a.name
          write_files a.name files
          when a.deploy_now (wizard_deploy e a.name a.deploy))
        m)
