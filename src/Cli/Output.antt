-- ===== src/Cli/Output.antt =====
-- commands/output.py, and automation/backend.py. What the stack has as outputs is a parameter, which
-- may depend on the calls made; the order in which outputs are shown is not kept.
use cloudspells.Common.{Option, none, some, List, [], ◌∷◌, ◌++◌, if◌then◌else◌}
use cloudspells.Common.Text.{Text, codes}
use cloudspells.Exec.{Exec, Result, ok, err, typer_exit, ◌>>◌}
use cloudspells.Spells.Outputs.{Output, Exports, read_output}
use cloudspells.Cli.Machine.{Call, Operation, Engine, Machine, ask, get_stack}
use cloudspells.Cli.Commands.{require_pulumi_yaml, or_exit}

-- What is printed: the value of one key, or all outputs.
pub data Display : Type 0 where
  one_value : Text → Display
  all_values : List (Text × Text) → Display

-- A secret is not shown in a list of outputs.
unfoldable pub shown_value : Output → Text
shown_value o = if o.is_secret then codes "[secret]" else o.value

unfoldable pub shown_values : Exports → List (Text × Text)
unfolding shown_value
shown_values [] = []
shown_values ((key, o) ∷ outputs) = (key, shown_value o) ∷ shown_values outputs

-- An unknown key ends the command. The value of a key is printed, a secret too.
unfoldable pub display : Option Text → Exports → Result Display
unfolding shown_values
display none outputs = ok (all_values (shown_values outputs))
display (some key) outputs = elim (read_output outputs key) [
  | none ↦ err typer_exit
  | some o ↦ ok (one_value o.value)
]

unfoldable pub output_command :
    Engine → (List Call → Exports) → Text → Text → Option Text → Exec Machine Display
unfolding display require_pulumi_yaml
output_command e outputs work_dir stack key = do
  require_pulumi_yaml work_dir
  or_exit (get_stack e stack work_dir >> ask e Operation.outputs stack work_dir)
  (λ m. (display key (outputs m.calls), m))

unfoldable pub oci_backend_url : Text → Text → Text → Text
oci_backend_url namespace bucket region =
    codes "s3://"
    ++ (bucket
        ++ (codes "?endpoint=https://"
            ++ (namespace
                ++ (codes ".compat.objectstorage."
                    ++ (region
                        ++ (codes ".oraclecloud.com&region="
                            ++ (region ++ codes "&s3ForcePathStyle=true")))))))
