-- ===== src/Cli/Project/Cycle.antt =====
-- A whole cycle of a project: it is deployed and destroyed.
use mathlib.Core.List.{reverse, reverse-cons}
use cloudspells.Common.{
  ◌≡◌, refl, ap, ◌∙◌, true, false, List, [], ◌∷◌, ◌++◌, map, append_assoc, arith, inl, inr,
  Bool-cases, All, All-append,
}
use cloudspells.Common.Text.{Text}
use cloudspells.Exec.{Action, ok, for_each}
use cloudspells.Cli.Machine.{
  Machine, Engine, Operation, create_or_select, up, destroy, Call, ask, get_stack, has_program,
  ensure_oci_plugin, install_if_missing,
}
use cloudspells.Cli.Changes.{changes, call}
use cloudspells.Cli.Templates.{is_registered}
use cloudspells.Cli.Project.{
  SpellRef, ProjectConfig, under, deploy_spell, deploy_project, destroy_spell, destroy_project,
}
use cloudspells.Cli.Project.Scaffold.{Keeps-same}
use cloudspells.Cli.Project.Order.{
  attempt, attempt-Makes, Makes-at, keep-All, attempt-directories, Makes, loop_whole, All-ready,
  deploy_spell-Makes, deploy_spell-eq, up_call, destroy_call,
}
use cloudspells.Cli.Project.Kept.{HasProgram, deploy_project-Keeps}

-- The engine raises nothing.
abbrev pub AlwaysSucceeds : Engine → Type 0
AlwaysSucceeds e = (calls : List Call) (c : Call) → e.succeeds calls c ≡ true

ask-ok :
    (e : Engine) (operation : Operation) (stack path : Text) (m : Machine)
    → AlwaysSucceeds e
    → (ask e operation stack path m).0 ≡ ok tt
unfolding ask
ask-ok e operation stack path m always = rw (always m.calls (call operation stack path))

-- Looking for the plugin never raises.
ensure_oci_plugin-ok :
    (e : Engine) (path : Text) (m : Machine) → (ensure_oci_plugin e path m).0 ≡ ok tt
unfolding ensure_oci_plugin install_if_missing ask
ensure_oci_plugin-ok e path m = ground arith

get_stack-ok :
    (e : Engine) (stack path : Text) (m : Machine)
    → AlwaysSucceeds e
    → (get_stack e stack path m).0 ≡ ok tt
unfolding get_stack
get_stack-ok e stack path m always =
    rw (ask-ok e create_or_select stack path m always) (ensure_oci_plugin-ok e path _)

attempt-ok :
    (e : Engine) (operation : Operation) (stack path : Text) (m : Machine)
    → AlwaysSucceeds e
    → (attempt e operation stack path m).0 ≡ ok tt
attempt-ok e operation stack path m always =
    rw (get_stack-ok e stack path m always) (ask-ok e operation stack path _ always)

destroy_spell-eq :
    (e : Engine) (stack work_dir : Text) (s : SpellRef) (m : Machine)
    → HasProgram work_dir m s
    → destroy_spell e stack work_dir s m ≡ attempt e destroy stack (under work_dir s.name) m
unfolding destroy_spell
destroy_spell-eq e stack work_dir s m h = rw h

-- A loop whose rounds return where `Ready` holds.
module _ (body : SpellRef → Action Machine) (Ready : SpellRef → Machine → Type 0)
    (keep : (s t : SpellRef) (m : Machine) → Ready t m → Ready t (body s m).1)
    (round : (s : SpellRef) (m : Machine) → Ready s m → (body s m).0 ≡ ok tt) where
  pub loop-ok :
      (xs : List SpellRef) (m : Machine) → All (λ s. Ready s m) xs → (for_each xs body m).0 ≡ ok tt
  unfolding for_each
  loop-ok [] m _ = refl
  loop-ok (s ∷ xs) m (ready, rest) =
      rw (round s m ready) (loop-ok xs (body s m).1 (keep-All body Ready keep s m xs rest))

All-reverse : (P : SpellRef → Type 0) (xs : List SpellRef) → All P xs → All P (reverse xs)
All-reverse P [] h = h
All-reverse P (x ∷ xs) (h, hs) =
    rw (reverse-cons x xs) (All-append P (reverse xs) (x ∷ []) (All-reverse P xs hs) (h, tt))

-- What `destroy_spell` needs stays while others are destroyed.
destroy_spell-keep :
    (e : Engine) (stack work_dir : Text) (s t : SpellRef) (m : Machine)
    → HasProgram work_dir m t
    → HasProgram work_dir (destroy_spell e stack work_dir s m).1 t
unfolding destroy_spell
destroy_spell-keep e stack work_dir s t m h =
    let path = under work_dir s.name in
    elim (Bool-cases (has_program path m)) [
      | inl p ↦
          rw p
            (Keeps-same m _ (attempt-directories e destroy stack path m) (under work_dir t.name)
              h).1
      | inr p ↦ rw p h
    ]

destroy_spell-Makes :
    (e : Engine) (stack work_dir : Text) (s : SpellRef) (m : Machine)
    → HasProgram work_dir m s
    → Makes (destroy_call stack work_dir s) (destroy_spell e stack work_dir s) m
destroy_spell-Makes e stack work_dir s m h =
    Makes-at _ (destroy_spell e stack work_dir s) (attempt e destroy stack (under work_dir s.name))
      m m (destroy_spell-eq e stack work_dir s m h) refl (attempt-Makes e destroy stack _ m refl)

pub deploy_spell-ok :
    (e : Engine) (stack work_dir : Text) (s : SpellRef) (m : Machine)
    → AlwaysSucceeds e
    → is_registered s.spell ≡ true
    → (deploy_spell e stack work_dir false s m).0 ≡ ok tt
deploy_spell-ok e stack work_dir s m always h =
    let (m1, _, _, _, same) = deploy_spell-eq e stack work_dir false s m h in
    rw same (attempt-ok e up stack (under work_dir s.name) m1 always)

abbrev pub IsKnown : SpellRef → Type 0
IsKnown s = is_registered s.spell ≡ true

-- Where all templates of a project are known and the engine raises nothing, `deploy_project`
-- returns, `destroy_project` then returns too, and what they change is: each stack of the project is
-- put up in the order of the declarations, and then each is destroyed in reverse order.
pub deploy_destroy :
    (e : Engine) (p : ProjectConfig) (stack work_dir : Text) (m : Machine)
    → AlwaysSucceeds e
    → All IsKnown p.spells
    → let m1 = (deploy_project e p stack work_dir false m).1 in
      ((deploy_project e p stack work_dir false m).0 ≡ ok tt)
      × ((destroy_project e p stack work_dir m1).0 ≡ ok tt)
      × (changes (destroy_project e p stack work_dir m1).1.calls
          ≡ changes m.calls
            ++ (map (up_call stack work_dir) p.spells
                ++ map (destroy_call stack work_dir) (reverse p.spells)))
unfolding deploy_project destroy_project
deploy_destroy e p stack work_dir m always known =
    let up_body = deploy_spell e stack work_dir false in
    let down = destroy_spell e stack work_dir in
    let m1 = (for_each p.spells up_body m).1 in
    let returned =
      loop-ok up_body (λ s m. IsKnown s) (λ s t m h. h)
        (λ s m. deploy_spell-ok e stack work_dir s m always) p.spells m known in
    let made =
      loop_whole (up_call stack work_dir) up_body (λ s m. Unit {0}) (λ s t m h. tt)
        (λ s m h. deploy_spell-Makes e stack work_dir s m) p.spells m (All-ready p.spells)
        returned in
    let ready =
      All-reverse (HasProgram work_dir m1) p.spells
        ((deploy_project-Keeps e p stack work_dir false m).1 returned) in
    let ended =
      loop-ok down (λ s m. HasProgram work_dir m s) (destroy_spell-keep e stack work_dir)
        (λ s m h.
          rw (destroy_spell-eq e stack work_dir s m h)
            (attempt-ok e destroy stack (under work_dir s.name) m always))
        (reverse p.spells) m1 ready in
    let gone =
      loop_whole (destroy_call stack work_dir) down (λ s m. HasProgram work_dir m s)
        (destroy_spell-keep e stack work_dir) (destroy_spell-Makes e stack work_dir)
        (reverse p.spells) m1 ready ended in
    (
      returned,
      ended,
      gone
          ∙ ap (λ t. t ++ map (destroy_call stack work_dir) (reverse p.spells)) made
          ∙ append_assoc (changes m.calls) (map (up_call stack work_dir) p.spells) _,
    )
