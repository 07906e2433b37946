-- ===== src/Cli/Project/Fresh.antt =====
-- A project that `cs project new` made is one that `cs project up` deploys.
use cloudspells.Common.{
  ◌≡◌, refl, ap, ◌∙◌, Bool, true, false, not, ◌&&◌, List, [], ◌∷◌, ◌++◌, map, inl, inr, Bool-cases,
  All,
}
use cloudspells.Common.Text.{Text, text_eq_refl}
use cloudspells.Exec.{ok, for_each}
use cloudspells.Cli.Machine.{Machine, Engine, is_some, mkdir, write_text}
use cloudspells.Cli.Changes.{changes}
use cloudspells.Cli.Templates.{is_registered}
use cloudspells.Cli.Project.{ProjectConfig, write_files, deploy_spell, deploy_project}
use cloudspells.Cli.Project.Scaffold.{render-registered}
use cloudspells.Cli.Project.Order.{up_call, loop_whole, All-ready, deploy_spell-Makes}
use cloudspells.Cli.Project.Cycle.{AlwaysSucceeds, IsKnown, loop-ok, deploy_spell-ok}
use cloudspells.Cli.Project.Model.{Yaml, IsReadBack, save, load_project, load-dump, project_yaml}
use cloudspells.Cli.Project.Run.{
  all_registered, is_empty, new_ref, new_refs, new_spell, project_new, deploy_or_exit, project_up,
}

new_spell-ok :
    (name stack spell : Text) (m : Machine)
    → is_registered spell ≡ true
    → ((new_spell name stack spell m).0 ≡ ok tt)
      × ((new_spell name stack spell m).1.calls ≡ m.calls)
unfolding new_spell write_files mkdir write_text
new_spell-ok name stack spell m h =
    let (t, e) = render-registered spell (new_ref name spell).name stack h in rw e (refl, refl)

new_spells-ok :
    (name stack : Text) (spells : List Text) (m : Machine)
    → all_registered spells ≡ true
    → ((for_each spells (new_spell name stack) m).0 ≡ ok tt)
      × ((for_each spells (new_spell name stack) m).1.calls ≡ m.calls)
unfolding for_each all_registered
new_spells-ok name stack [] m h = (refl, refl)
new_spells-ok name stack (s ∷ spells) m h = elim (Bool-cases (is_registered s)) [
  | inl e ↦
      let (returned, calls) = new_spell-ok name stack s m e in
      let (rest, more) = new_spells-ok name stack spells (new_spell name stack s m).1 (rw e at h) in
      rw returned (rest, more ∙ calls)
  | inr e ↦ absurd (let wrong : false ≡ true = rw e at h in cc)
]

new_refs-IsKnown :
    (name : Text) (spells : List Text)
    → all_registered spells ≡ true
    → All IsKnown (new_refs name spells)
unfolding all_registered new_refs new_ref
new_refs-IsKnown name [] h = tt
new_refs-IsKnown name (s ∷ spells) h = elim (Bool-cases (is_registered s)) [
  | inl e ↦ (e, new_refs-IsKnown name spells (rw e at h))
  | inr e ↦ absurd (let wrong : false ≡ true = rw e at h in cc)
]

abbrev pub new_project : Text → Text → List Text → ProjectConfig
new_project name description spells = record {
  name = name;
  description = description;
  spells = new_refs name spells;
}

-- What was saved is loaded.
load-save :
    (y : Yaml) (p : ProjectConfig) (path : Text) (m : Machine)
    → IsReadBack y
    → load_project y path (save y p path m).1 ≡ (ok p, (save y p path m).1)
unfolding load_project save write_text
load-save y p path m back =
    rw (text_eq_refl path) (rw (text_eq_refl project_yaml) (rw (load-dump y p back)))

-- The machine that `project_new` leaves where it does not refuse.
made_project :
    (y : Yaml) (name description stack : Text) (spells : List Text) (force : Bool) (m : Machine)
    → is_empty spells ≡ false
    → all_registered spells ≡ true
    → (is_some (m.directories name) && not force) ≡ false
    → (m1 : Machine) × (m1.calls ≡ m.calls)
      × (project_new y name spells description stack force m
          ≡ save y (new_project name description spells) name m1)
unfolding project_new mkdir
made_project y name description stack spells force m some_spell known free =
    let m0 = (mkdir name m).1 in
    let (returned, calls) = new_spells-ok name stack spells m0 known in
    ((for_each spells (new_spell name stack) m0).1, calls, rw (some_spell, known, free, returned))

save-ok :
    (y : Yaml) (p : ProjectConfig) (path : Text) (m : Machine)
    → ((save y p path m).0 ≡ ok tt) × ((save y p path m).1.calls ≡ m.calls)
unfolding save write_text
save-ok y p path m = (refl, refl)

deploys :
    (e : Engine) (p : ProjectConfig) (stack work_dir : Text) (m : Machine)
    → AlwaysSucceeds e
    → All IsKnown p.spells
    → ((deploy_project e p stack work_dir false m).0 ≡ ok tt)
      × (changes (deploy_project e p stack work_dir false m).1.calls
          ≡ changes m.calls ++ map (up_call stack work_dir) p.spells)
unfolding deploy_project
deploys e p stack work_dir m always known =
    let body = deploy_spell e stack work_dir false in
    let returned =
      loop-ok body (λ s m. IsKnown s) (λ s t m h. h)
        (λ s m. deploy_spell-ok e stack work_dir s m always) p.spells m known in
    (
      returned,
      loop_whole (up_call stack work_dir) body (λ s m. Unit {0}) (λ s t m h. tt)
          (λ s m h. deploy_spell-Makes e stack work_dir s m) p.spells m (All-ready p.spells)
          returned,
    )

up_loaded :
    (e : Engine) (y : Yaml) (p : ProjectConfig) (stack path : Text) (answer : Bool) (m : Machine)
    → load_project y path m ≡ (ok p, m)
    → project_up e y path stack false true answer m ≡ deploy_or_exit e p stack path false m
unfolding project_up
up_loaded e y p stack path answer m h = rw h

-- A call of `cs project new` that names templates, all of them known, and a directory that is not
-- there or may be overwritten, returns and changes nothing that is deployed. If YAML is read back as
-- it was printed and the engine raises nothing, `cs project up --yes` in that directory then returns,
-- and what it changes is that the stacks of the named templates are put up, in that order.
pub project_new-up :
    (e : Engine) (y : Yaml) (name description stack : Text) (spells : List Text)
    (force answer : Bool) (m : Machine)
    → IsReadBack y
    → AlwaysSucceeds e
    → is_empty spells ≡ false
    → all_registered spells ≡ true
    → (is_some (m.directories name) && not force) ≡ false
    → let made = project_new y name spells description stack force m in
      let upped = project_up e y name stack false true answer made.1 in
      (made.0 ≡ ok tt)
      × (made.1.calls ≡ m.calls)
      × (upped.0 ≡ ok tt)
      × (changes upped.1.calls ≡ changes m.calls ++ map (up_call stack name) (new_refs name spells))
unfolding deploy_or_exit
project_new-up e y name description stack spells force answer m back always some_spell known free =
    let p = new_project name description spells in
    let (m1, calls, same) =
      made_project y name description stack spells force m some_spell known free in
    let (saved, kept) = save-ok y p name m1 in
    let m2 = (save y p name m1).1 in
    let up_same = up_loaded e y p stack name answer m2 (load-save y p name m1 back) in
    let (returned, ups) = deploys e p stack name m2 always (new_refs-IsKnown name spells known) in
    rw same (
      saved,
      kept ∙ calls,
      rw up_same (rw returned refl),
      rw up_same (
          ups
          ∙ ap (λ t. changes t ++ map (up_call stack name) (new_refs name spells)) (kept ∙ calls)),
    )
