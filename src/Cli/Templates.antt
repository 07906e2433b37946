-- ===== src/Cli/Templates.antt =====
-- templates/__init__.py: the registry of templates.
pub mod Yaml
pub mod Servers
pub mod Networks
pub mod Clusters
pub mod Services
use cloudspells.Common.{Bool, Option, none, some, List, [], ◌∷◌, if◌then◌else◌}
use cloudspells.Common.Text.{Text, codes, text_eq}
use cloudspells.Exec.{Result, ok, err, key_error}
use Yaml.{Template}
use Servers.{compute_template, autoscale_template, bastion_template}
use Networks.{vcn_template, loadbalancer_template, web_db_template}
use Clusters.{oke_template}
use Services.{storage_template, iam_template}
use cloudspells.Cli.Machine.{is_some}

abbrev Renders : Type 0
Renders = List (Text × (Text → Template))

-- `SPELL_REGISTRY`; no template uses the name of the stack.
unfoldable pub spell_registry : Renders
spell_registry =
    (codes "vcn", vcn_template)
    ∷ (codes "compute", compute_template)
    ∷ (codes "oke", oke_template)
    ∷ (codes "autoscale", autoscale_template)
    ∷ (codes "lb", loadbalancer_template)
    ∷ (codes "loadbalancer", loadbalancer_template)
    ∷ (codes "bastion", bastion_template)
    ∷ (codes "storage", storage_template)
    ∷ (codes "iam", iam_template)
    ∷ (codes "web-db", web_db_template)
    ∷ []

unfoldable pub find : Renders → Text → Option (Text → Template)
find [] spell = none
find ((key, render) ∷ rest) spell =
    let others = find rest spell in if text_eq key spell then some render else others

-- `spell in SPELL_REGISTRY`
unfoldable pub is_registered : Text → Bool
unfolding spell_registry find
is_registered spell = is_some (find spell_registry spell)

abbrev rendered : Option (Text → Template) → Text → Result Template
rendered none name = err key_error
rendered (some template) name = ok (template name)

unfoldable pub render : Text → Text → Text → Result Template
unfolding spell_registry find
render spell name stack = rendered (find spell_registry spell) name
