-- ===== src/Cli/Machine.antt =====
-- What the command line works on: directories with their files, and the calls that it makes of the
-- Pulumi Automation API through automation/workspace.py.
use cloudspells.Common.{
  Bool, true, false, not, Option, none, some, List, [], ◌∷◌, ◌++◌, if◌then◌else◌,
}
use cloudspells.Common.Text.{Text, codes, text_eq}
use cloudspells.Exec.{Error, command_error, Action, Result, ok, err, raise, done, when, ◌>>◌}

-- The operations that the code asks of a stack or of its workspace.
pub data Operation : Type 0 where
  create_or_select list_plugins install_plugin preview up destroy refresh export_stack outputs
        get_config get_all_config list_stacks :
      Operation
  remove_stack : Bool → Operation
  set_config : Text → Text → Bool → Operation

pub record Call : Type 0 where
  pub operation : Operation
  pub stack : Text
  pub work_dir : Text

-- What an operation answers may depend on every call before it: whether it succeeds or raises
-- `CommandError`, whether the plugin for OCI is there, and the types of the resources in the state
-- of a stack, where it has a state.
pub record Engine : Type 0 where
  pub succeeds : List Call → Call → Bool
  pub has_oci_plugin : List Call → Text → Bool
  pub exported : List Call → Text → Text → Option (List Text)

-- The files of a directory, by name, and the directories, by path.
abbrev pub Files : Type 0
Files = Text → Option Text

pub record Machine : Type 0 where
  pub directories : Text → Option Files
  pub calls : List Call

module _ {A : Type 0} where
  -- `m[k] = v`
  unfoldable pub put : Text → A → (Text → Option A) → Text → Option A
  put k v m j = if text_eq k j then some v else m j

abbrev pub is_some : {A : Type 0} → Option A → Bool
is_some none = false
is_some (some a) = true

abbrev no_files : Files
no_files name = none

abbrev pub files_of : Option Files → Files
files_of none = no_files
files_of (some files) = files

-- `(path / name).exists()`
unfoldable pub file_exists : Machine → Text → Text → Bool
file_exists m path name = is_some (files_of (m.directories path) name)

abbrev pub pulumi_yaml_name : Text
pulumi_yaml_name = codes "Pulumi.yaml"

-- `(work_dir / "Pulumi.yaml").exists()`
unfoldable pub has_program : Text → Machine → Bool
unfolding file_exists
has_program path m = file_exists m path pulumi_yaml_name

-- `path.mkdir(parents=True, exist_ok=True)`
unfoldable pub mkdir : Text → Action Machine
unfolding put
mkdir path m =
    (ok tt, record m { directories = put path (files_of (m.directories path)) m.directories })

-- `(path / name).write_text(content)`
unfoldable pub write_text : Text → Text → Text → Action Machine
unfolding put
write_text path name content m =
    let files = put name content (files_of (m.directories path)) in
    (ok tt, record m { directories = put path files m.directories })

-- One call of the engine.
unfoldable pub ask : Engine → Operation → Text → Text → Action Machine
ask e operation stack work_dir m =
    let c : Call = record { operation = operation; stack = stack; work_dir = work_dir } in
    (
      if e.succeeds m.calls c then ok tt else err command_error,
      record m { calls = m.calls ++ c ∷ [] },
    )

abbrev pub is_command_error : Error → Bool
is_command_error Error.command_error = true
is_command_error e = false

-- `except CommandError: handler`, at the result of the body
abbrev pub catch : Result (Unit {0}) → Action Machine → Action Machine
catch (ok a) handler = done
catch (err e) handler = if is_command_error e then handler else raise e

-- `try: body except CommandError: handler`
abbrev pub try_or : Action Machine → Action Machine → Action Machine
try_or body handler m = let (r, m') = body m in catch r handler m'

-- The names of the plugins are asked for, and the one for OCI is installed if it is missing.
unfoldable pub install_if_missing : Engine → Text → Action Machine
unfolding ask
install_if_missing e work_dir = do
  ask e list_plugins [] work_dir
  (λ m. when (not (e.has_oci_plugin m.calls work_dir)) (ask e install_plugin [] work_dir) m)

unfoldable pub ensure_oci_plugin : Engine → Text → Action Machine
unfolding install_if_missing
ensure_oci_plugin e work_dir = try_or (install_if_missing e work_dir) done

unfoldable pub get_workspace : Engine → Text → Action Machine
unfolding ensure_oci_plugin
get_workspace e work_dir = ensure_oci_plugin e work_dir

-- The stack is made if it is not there.
unfoldable pub get_stack : Engine → Text → Text → Action Machine
unfolding ensure_oci_plugin ask
get_stack e stack work_dir = do ask e create_or_select stack work_dir; ensure_oci_plugin e work_dir
