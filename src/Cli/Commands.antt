-- ===== src/Cli/Commands.antt =====
-- commands/up.py, destroy.py, refresh.py, status.py, stack.py, config.py and new.py: the commands on
-- one stack. A path is taken as resolved, and what the user answers to a question is an argument.
use cloudspells.Common.{Bool, false, not, [], if◌then◌else◌}
use cloudspells.Common.Text.{Text}
use cloudspells.Exec.{typer_exit, typer_abort, Action, raise, raise_if, when, done, ◌>>◌}
use cloudspells.Cli.Machine.{
  Machine, Engine, preview, up, destroy, refresh, export_stack, list_stacks, get_config,
  get_all_config, remove_stack, set_config, ask, get_stack, get_workspace, has_program, try_or,
}

-- No `Pulumi.yaml`: the command ends.
unfoldable pub require_pulumi_yaml : Text → Action Machine
require_pulumi_yaml work_dir m = raise_if (not (has_program work_dir m)) typer_exit m

-- `try: body except CommandError: raise typer.Exit(1)`
abbrev pub or_exit : Action Machine → Action Machine
or_exit body = try_or body (raise typer_exit)

-- `if not yes: typer.confirm(…, abort=True)`
abbrev pub confirm_unless : Bool → Bool → Action Machine
confirm_unless agreed answer = when (not agreed) (raise_if (not answer) typer_abort)

-- The stack is made or selected before the question is asked.
unfoldable pub up_command : Engine → Text → Bool → Text → Bool → Bool → Action Machine
unfolding require_pulumi_yaml
up_command e work_dir only_preview stack agreed answer = do
  require_pulumi_yaml work_dir
  or_exit (get_stack e stack work_dir)
  if only_preview
      then or_exit (ask e preview stack work_dir)
      else (confirm_unless agreed answer >> or_exit (ask e up stack work_dir))

unfoldable pub destroy_command : Engine → Text → Text → Bool → Bool → Bool → Action Machine
unfolding require_pulumi_yaml
destroy_command e work_dir stack agreed remove answer = do
  require_pulumi_yaml work_dir
  confirm_unless agreed answer
  or_exit (get_stack e stack work_dir)
  or_exit (ask e destroy stack work_dir)
  when remove (try_or (ask e (remove_stack false) stack work_dir) done)

unfoldable pub refresh_command : Engine → Text → Text → Bool → Bool → Action Machine
unfolding require_pulumi_yaml
refresh_command e work_dir stack agreed answer = do
  require_pulumi_yaml work_dir
  confirm_unless agreed answer
  or_exit (get_stack e stack work_dir)
  or_exit (ask e refresh stack work_dir)

unfoldable pub stack_rm : Engine → Text → Text → Bool → Bool → Bool → Action Machine
unfolding require_pulumi_yaml
stack_rm e name work_dir agreed force answer = do
  require_pulumi_yaml work_dir
  confirm_unless agreed answer
  or_exit (get_stack e name work_dir >> ask e (remove_stack force) name work_dir)

-- The commands below read a stack, and print what they read.
unfoldable pub status : Engine → Text → Text → Action Machine
unfolding require_pulumi_yaml
status e work_dir stack = do
  require_pulumi_yaml work_dir
  or_exit (get_stack e stack work_dir >> ask e export_stack stack work_dir)

unfoldable pub stack_list : Engine → Text → Action Machine
unfolding require_pulumi_yaml
stack_list e work_dir = do
  require_pulumi_yaml work_dir
  or_exit (get_workspace e work_dir >> ask e list_stacks [] work_dir)

unfoldable pub config_set : Engine → Text → Text → Bool → Text → Text → Action Machine
unfolding require_pulumi_yaml
config_set e key value secret work_dir stack = do
  require_pulumi_yaml work_dir
  or_exit (get_stack e stack work_dir >> ask e (set_config key value secret) stack work_dir)

unfoldable pub config_get : Engine → Text → Text → Action Machine
unfolding require_pulumi_yaml
config_get e work_dir stack = do
  require_pulumi_yaml work_dir
  or_exit (get_stack e stack work_dir >> ask e get_config stack work_dir)

unfoldable pub config_list : Engine → Text → Text → Action Machine
unfolding require_pulumi_yaml
config_list e work_dir stack = do
  require_pulumi_yaml work_dir
  or_exit (get_stack e stack work_dir >> ask e get_all_config stack work_dir)
