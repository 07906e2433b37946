-- ===== src/Cli/Project/Kept.antt =====
-- What a project's directories hold after it was deployed, and a whole cycle of a project.
use mathlib.Core.Path.{subst}
use cloudspells.Common.{◌≡◌, sym, ap, ◌∙◌, Bool, true, List, [], ◌∷◌, inl, inr, Bool-cases, All}
use cloudspells.Common.Text.{Text}
use cloudspells.Exec.{Action, Result, Result-cases, ok, err, value_error, for_each}
use cloudspells.Cli.Machine.{Machine, Engine, Operation, has_program}
use cloudspells.Cli.Templates.{is_registered}
use cloudspells.Cli.Project.{SpellRef, ProjectConfig, under, deploy_spell, deploy_project}
use cloudspells.Cli.Project.Scaffold.{Keeps, Keeps-refl, Keeps-trans, Keeps-same}
use cloudspells.Cli.Project.Order.{
  attempt, attempt-directories, deploy_spell-eq, deploy_spell_unknown,
}

attempt-Keeps :
    (e : Engine) (operation : Operation) (stack path : Text) (m : Machine)
    → Keeps m (attempt e operation stack path m).1
attempt-Keeps e operation stack path m =
    Keeps-same m _ (attempt-directories e operation stack path m)

deploy_spell-Keeps :
    (e : Engine) (stack work_dir : Text) (only : Bool) (s : SpellRef) (m : Machine)
    → Keeps m (deploy_spell e stack work_dir only s m).1
deploy_spell-Keeps e stack work_dir only s m = elim (Bool-cases (is_registered s.spell)) [
  | inl h ↦
      let (m1, keeps, _, _, same) = deploy_spell-eq e stack work_dir only s m h in
      rw same (Keeps-trans m m1 _ keeps (attempt-Keeps e _ stack _ m1))
  | inr h ↦ rw (deploy_spell_unknown e stack work_dir only s m h) (Keeps-refl m)
]

-- A round that returned has a program in its directory.
deploy_spell-has_program :
    (e : Engine) (stack work_dir : Text) (only : Bool) (s : SpellRef) (m : Machine)
    → (deploy_spell e stack work_dir only s m).0 ≡ ok tt
    → has_program (under work_dir s.name) (deploy_spell e stack work_dir only s m).1 ≡ true
deploy_spell-has_program e stack work_dir only s m w = elim (Bool-cases (is_registered s.spell)) [
  | inl h ↦
      let (m1, _, p, _, same) = deploy_spell-eq e stack work_dir only s m h in
      rw same (attempt-Keeps e _ stack (under work_dir s.name) m1 (under work_dir s.name) p).1
  | inr h ↦ absurd (
      let wrong : ◌≡◌ {A = Result (Unit {0})} (err value_error) (ok tt) =
        ap (λ r. r.0) (sym (deploy_spell_unknown e stack work_dir only s m h)) ∙ w in
      cc)
]

for_each-Keeps :
    (body : SpellRef → Action Machine)
    → ((s : SpellRef) (m : Machine) → Keeps m (body s m).1)
    → (xs : List SpellRef) (m : Machine) → Keeps m (for_each xs body m).1
unfolding for_each
for_each-Keeps body keeps [] m = Keeps-refl m
for_each-Keeps body keeps (s ∷ xs) m = elim (Result-cases (body s m).0) [
  | inl (_, r) ↦ rw r (Keeps-trans m (body s m).1 _ (keeps s m) (for_each-Keeps body keeps xs _))
  | inr (x, r) ↦ rw r (keeps s m)
]

abbrev pub HasProgram : Text → Machine → SpellRef → Type 0
HasProgram work_dir m s = has_program (under work_dir s.name) m ≡ true

for_each-HasProgram :
    (e : Engine) (stack work_dir : Text) (only : Bool) (xs : List SpellRef) (m : Machine)
    → (for_each xs (deploy_spell e stack work_dir only) m).0 ≡ ok tt
    → All (HasProgram work_dir (for_each xs (deploy_spell e stack work_dir only) m).1) xs
unfolding for_each
for_each-HasProgram e stack work_dir only [] m w = tt
for_each-HasProgram e stack work_dir only (s ∷ xs) m w =
    let body = deploy_spell e stack work_dir only in
    elim (Result-cases (body s m).0) [
      | inl (_, r) ↦
          let kept =
            for_each-Keeps body (deploy_spell-Keeps e stack work_dir only) xs (body s m).1 in
          let same : for_each (s ∷ xs) body m ≡ for_each xs body (body s m).1 = rw r in
          subst (λ t. All (HasProgram work_dir t.1) (s ∷ xs)) (sym same)
            (
              (kept (under work_dir s.name)
                  (deploy_spell-has_program e stack work_dir only s m r)).1,
              for_each-HasProgram e stack work_dir only xs (body s m).1
                  (ap (λ t. t.0) (sym same) ∙ w),
            )
      | inr (x, r) ↦
          absurd (let wrong : ◌≡◌ {A = Result (Unit {0})} (err x) (ok tt) = rw r at w in cc)
    ]

-- `deploy_project`, also as a preview, changes no file in a directory that has a `Pulumi.yaml`; if
-- it returns, the directory of every spell of the project has one.
pub deploy_project-Keeps :
    (e : Engine) (p : ProjectConfig) (stack work_dir : Text) (only : Bool) (m : Machine)
    → Keeps m (deploy_project e p stack work_dir only m).1
      × ((deploy_project e p stack work_dir only m).0 ≡ ok tt
          → All (HasProgram work_dir (deploy_project e p stack work_dir only m).1) p.spells)
unfolding deploy_project
deploy_project-Keeps e p stack work_dir only m = (
  for_each-Keeps _ (deploy_spell-Keeps e stack work_dir only) p.spells m,
  for_each-HasProgram e stack work_dir only p.spells m,
)
