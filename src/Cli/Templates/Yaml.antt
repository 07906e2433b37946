-- ===== src/Cli/Templates/Yaml.antt =====
-- templates/base.py: `ConfigKey` and `pulumi_yaml`, and the two files that a template gives.
use cloudspells.Common.{Option, none, some, List, [], ◌∷◌, ◌++◌}
use cloudspells.Common.Text.{Text, codes}
use Prim.Native.String.{String}

-- Every default in the templates is a text.
pub record ConfigKey : Type 0 where
  pub name : Text
  pub type : Text
  pub description : Text
  pub default : Option Text

abbrev pub config_key : String → String → String → Option Text → ConfigKey
config_key name type description default = record {
  name = codes name;
  type = codes type;
  description = codes description;
  default = default;
}

-- What `render` returns: the files `Pulumi.yaml` and `__main__.py`.
pub record Template : Type 0 where
  pub yaml : Text
  pub main : Text

-- Each line with its newline.
unfoldable pub unlines : List Text → Text
unlines [] = []
unlines (line ∷ lines) = line ++ (codes "\n" ++ unlines lines)

abbrev default_lines : Option Text → List Text
default_lines none = []
default_lines (some value) = (codes "    default: \"" ++ (value ++ codes "\"")) ∷ []

unfoldable pub key_lines : ConfigKey → List Text
key_lines key =
    (codes "  " ++ (key.name ++ codes ":"))
    ∷ (codes "    type: " ++ key.type)
    ∷ (codes "    description: " ++ key.description)
    ∷ default_lines key.default

unfoldable pub keys_lines : List ConfigKey → List Text
unfolding key_lines
keys_lines [] = []
keys_lines (key ∷ keys) = key_lines key ++ keys_lines keys

abbrev config_lines : List ConfigKey → List Text
config_lines [] = []
config_lines (key ∷ keys) = codes "config:" ∷ keys_lines (key ∷ keys)

unfoldable pub pulumi_yaml : Text → Text → List ConfigKey → Text
unfolding unlines keys_lines
pulumi_yaml project_name description config_keys = unlines (
    (codes "name: " ++ project_name)
    ∷ codes "runtime:"
    ∷ codes "  name: python"
    ∷ (codes "description: " ++ description)
    ∷ config_lines config_keys)
