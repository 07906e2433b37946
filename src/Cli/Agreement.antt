-- ===== src/Cli/Agreement.antt =====
-- The commands on one stack: what they ask of the engine, and what they need the user's consent for.
use cloudspells.Common.{Bool, true, false, ◌||◌, List, [], ◌∷◌, if◌then◌else◌}
use cloudspells.Common.Text.{Text}
use cloudspells.Exec.{Action}
use cloudspells.Cli.Machine.{
  Machine, Engine, create_or_select, preview, up, destroy, refresh, export_stack, get_config,
  get_all_config, list_stacks, remove_stack, set_config, Call,
}
use cloudspells.Cli.Changes.{call}
use cloudspells.Cli.Commands.{
  up_command, destroy_command, refresh_command, stack_rm, status, stack_list, config_set,
  config_get, config_list,
}
use cloudspells.Cli.Wizard.{wizard_deploy, wizard_refresh, wizard_destroy, wizard_status}

-- The commands that work on one stack, with their flags and the answer of the user.
pub data StackCommand : Type 0 where
  up_stack : Bool → Bool → Bool → StackCommand
  destroy_stack : Bool → Bool → Bool → StackCommand
  refresh_stack : Bool → Bool → StackCommand
  rm_stack : Bool → Bool → Bool → StackCommand
  show_status get_key list_keys list_stack guided_refresh guided_status : StackCommand
  set_key : Text → Text → Bool → StackCommand
  guided_deploy : Bool → Bool → StackCommand
  guided_destroy : Bool → StackCommand

-- The flags are in the order of the commands' parameters, and the answer stands last.
unfoldable pub run_command : Engine → Text → Text → StackCommand → Action Machine
run_command e stack work_dir (up_stack only agreed answer) =
    up_command e work_dir only stack agreed answer
run_command e stack work_dir (destroy_stack agreed remove answer) =
    destroy_command e work_dir stack agreed remove answer
run_command e stack work_dir (refresh_stack agreed answer) =
    refresh_command e work_dir stack agreed answer
run_command e stack work_dir (rm_stack agreed force answer) =
    stack_rm e stack work_dir agreed force answer
run_command e stack work_dir show_status = status e work_dir stack
run_command e stack work_dir get_key = config_get e work_dir stack
run_command e stack work_dir list_keys = config_list e work_dir stack
run_command e stack work_dir list_stack = stack_list e work_dir
run_command e stack work_dir (set_key key value secret) =
    config_set e key value secret work_dir stack
run_command e stack work_dir (guided_deploy only confirmed) =
    wizard_deploy e work_dir (record { stack_name = stack; preview = only; confirmed = confirmed })
run_command e stack work_dir guided_refresh = wizard_refresh e work_dir stack
run_command e stack work_dir (guided_destroy confirmed) = wizard_destroy e work_dir stack confirmed
run_command e stack work_dir guided_status = wizard_status e work_dir stack

-- What a command asks of the engine where all goes well, besides looking after the plugin: the stack
-- is made or selected first. A command that destroys, refreshes or removes does nothing without
-- the user's consent, by the flag `--yes` or by an answer; `up` has made the stack by then. The
-- wizard refreshes without a question.
abbrev pub plan : Text → Text → StackCommand → List Call
plan stack work_dir (up_stack true agreed answer) =
    call create_or_select stack work_dir ∷ call preview stack work_dir ∷ []
plan stack work_dir (up_stack false agreed answer) =
    call create_or_select stack work_dir
    ∷ (if agreed || answer then call up stack work_dir ∷ [] else [])
plan stack work_dir (destroy_stack agreed true answer) =
    if agreed || answer
    then call create_or_select stack work_dir
      ∷ call destroy stack work_dir
      ∷ call (remove_stack false) stack work_dir
      ∷ []
    else []
plan stack work_dir (destroy_stack agreed false answer) =
    if agreed || answer
    then call create_or_select stack work_dir ∷ call destroy stack work_dir ∷ []
    else []
plan stack work_dir (refresh_stack agreed answer) =
    if agreed || answer
    then call create_or_select stack work_dir ∷ call refresh stack work_dir ∷ []
    else []
plan stack work_dir (rm_stack agreed force answer) =
    if agreed || answer
    then call create_or_select stack work_dir ∷ call (remove_stack force) stack work_dir ∷ []
    else []
plan stack work_dir show_status =
    call create_or_select stack work_dir ∷ call export_stack stack work_dir ∷ []
plan stack work_dir get_key =
    call create_or_select stack work_dir ∷ call get_config stack work_dir ∷ []
plan stack work_dir list_keys =
    call create_or_select stack work_dir ∷ call get_all_config stack work_dir ∷ []
plan stack work_dir list_stack = call list_stacks [] work_dir ∷ []
plan stack work_dir (set_key key value secret) =
    call create_or_select stack work_dir ∷ call (set_config key value secret) stack work_dir ∷ []
plan stack work_dir (guided_deploy only confirmed) =
    if only || confirmed
    then call create_or_select stack work_dir
      ∷ call (if only then preview else up) stack work_dir
      ∷ []
    else []
plan stack work_dir guided_refresh =
    call create_or_select stack work_dir ∷ call refresh stack work_dir ∷ []
plan stack work_dir (guided_destroy confirmed) =
    if confirmed
    then call create_or_select stack work_dir ∷ call destroy stack work_dir ∷ []
    else []
plan stack work_dir guided_status =
    call create_or_select stack work_dir ∷ call export_stack stack work_dir ∷ []
