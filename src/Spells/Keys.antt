-- ===== src/Spells/Keys.antt =====
-- SSH keys of a spell: `_setup_ssh_keys` and `_get_ssh_outputs` of
-- packages/cloudspells-core/src/cloudspells/core/base.py. Making a pair of keys is a parameter.
use cloudspells.Common.{
  ℕ, Bool, true, false, ◌&&◌, ◌||◌, Option, none, some, List, [], ◌∷◌, leb, ◌==◌, if◌then◌else◌,
}
use cloudspells.Common.Text.{Text, codes}
use cloudspells.Naming.{ResourceNamer}

-- `str.isspace`, for one character
abbrev pub is_space : ℕ → Bool
is_space c =
    (leb 9 c && leb c 13)
    || (leb 28 c && leb c 32)
    || c == 133
    || c == 160
    || c == 5760
    || (leb 8192 c && leb c 8202)
    || c == 8232
    || c == 8233
    || c == 8239
    || c == 8287
    || c == 12288

-- `text.strip() == ""`
unfoldable pub is_blank : Text → Bool
is_blank [] = true
is_blank (c ∷ s) = is_space c && is_blank s

pub record SshKeys : Type 0 where
  pub ssh_public_key : Text
  pub ssh_private_key : Option Text
  pub auto_generated_keys : Bool

-- `Helper().generate_ssh_key_pair(stack_name, name)`: the public key and the private one.
abbrev pub GenerateKeys : Type 0
GenerateKeys = Text → Text → Text × Text

abbrev generated : GenerateKeys → ResourceNamer → SshKeys
generated generate n =
    let (public_key, private_key) = generate n.stack_name n.resource_name in
    record {
      ssh_public_key = public_key;
      ssh_private_key = some private_key;
      auto_generated_keys = true;
    }

unfoldable pub setup_ssh_keys : GenerateKeys → ResourceNamer → Option Text → SshKeys
setup_ssh_keys generate n none = generated generate n
setup_ssh_keys generate n (some key) =
    if is_blank key
    then generated generate n
    else record { ssh_public_key = key; ssh_private_key = none; auto_generated_keys = false }

private_output : Option Text → List (Text × Text)
private_output none = []
private_output (some []) = []
private_output (some (c ∷ s)) = (codes "ssh_private_key", c ∷ s) ∷ []

-- `_get_ssh_outputs`: the keys that a stack shows, which are secrets.
unfoldable pub get_ssh_outputs : SshKeys → List (Text × Text)
unfolding private_output
get_ssh_outputs k =
    if k.auto_generated_keys
    then (codes "ssh_public_key", k.ssh_public_key) ∷ private_output k.ssh_private_key
    else []
