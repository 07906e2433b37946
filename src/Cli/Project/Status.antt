-- ===== src/Cli/Project/Status.antt =====
-- `cs project status` tells of every stack of a project, whatever the engine answers.
use cloudspells.Common.{
  ◌≡◌, refl, sym, ℕ, ◌+◌, zero, suc, true, false, List, [], ◌∷◌, ◌++◌, take, tick, length, All,
  arith, append-nil, inl, inr, Bool-cases, Option, none, some, ◌⊎◌,
}
use cloudspells.Common.Text.{Text, codes, text_eq}
use cloudspells.Exec.{Action, Error, Result, ok, err, ◌>>◌}
use cloudspells.Cli.Machine.{
  Machine, Engine, create_or_select, export_stack, Call, ask, get_stack, has_program,
}
use cloudspells.Cli.Changes.{call}
use cloudspells.Cli.Steps.{steps}
use cloudspells.Cli.Guards.{Follows-stack}
use cloudspells.Cli.Project.{SpellRef, ProjectConfig, under}
use cloudspells.Cli.Project.Run.{
  StatusRow, row, count_resources, asked_row, spell_status, status_rows, project_status,
}

-- How many entries of a state are the stack itself.
unfoldable pub stack_entries : List Text → ℕ
stack_entries [] = 0
stack_entries (type ∷ types) =
    tick (text_eq type (codes "pulumi:pulumi:Stack")) + stack_entries types

-- Every entry is a resource or the stack itself.
count_resources-stack_entries :
    (types : List Text) → count_resources types + stack_entries types ≡ length types
unfolding count_resources stack_entries
count_resources-stack_entries [] = refl
count_resources-stack_entries (type ∷ types) =
    let rest = count_resources-stack_entries types in
    elim (Bool-cases (text_eq type (codes "pulumi:pulumi:Stack"))) [
      | inl e ↦ rw e (omega (arith, rest))
      | inr e ↦ rw e (omega (arith, rest))
    ]

-- The stack of a directory is selected, and its state asked for.
abbrev pub look : Engine → Text → Text → Action Machine
look e stack path = get_stack e stack path >> ask e export_stack stack path

-- What is known of a spell at `m`, the machine when its turn comes: the status and the number of
-- resources that are to be told of it.
pub data Known (e : Engine) (stack path : Text) (m : Machine) : Text → ℕ → Type 0 where
  not_scaffolded : has_program path m ≡ false → Known e stack path m (codes "not scaffolded") 0
  not_deployed :
      (x : Error)
      → has_program path m ≡ true
      → (look e stack path m).0 ≡ err x
      → Known e stack path m (codes "not deployed") 0
  empty :
      has_program path m ≡ true
      → (look e stack path m).0 ≡ ok tt
      → e.exported (look e stack path m).1.calls stack path ≡ none
      → Known e stack path m (codes "empty") 0
  deployed :
      (types : List Text) (resources : ℕ)
      → has_program path m ≡ true
      → (look e stack path m).0 ≡ ok tt
      → e.exported (look e stack path m).1.calls stack path ≡ some types
      → resources + stack_entries types ≡ length types
      → Known e stack path m (codes "deployed") resources

-- A call that makes or selects the stack of the name, or asks for its state.
abbrev pub IsLook : Text → Call → Type 0
IsLook stack c =
    (c ≡ call create_or_select stack c.work_dir) ⊎ (c ≡ call export_stack stack c.work_dir)

-- The row is about the spell, it tells what is known, and nothing but looks was asked of the engine,
-- besides looking after the plugin; no file is changed.
pub record Tells (e : Engine) (stack path : Text) (s : SpellRef) (m : Machine) (r : StatusRow)
    (m' : Machine) : Type 0 where
  pub same_name : r.name ≡ s.name
  pub same_spell : r.spell ≡ s.spell
  pub known : Known e stack path m r.status r.resources
  pub looks : List Call
  pub looked : steps m'.calls ≡ steps m.calls ++ looks
  pub only_looks : All (IsLook stack) looks
  pub same_files : m'.directories ≡ m.directories

-- One row for each spell, from the machine at the start to the one at the end.
abbrev pub AllTell :
    Engine → Text → Text → List SpellRef → Machine → List StatusRow → Machine → Type 0
AllTell e stack work_dir [] m [] m' = m' ≡ m
AllTell e stack work_dir [] m (r ∷ rows) m' = ⊥
AllTell e stack work_dir (s ∷ spells) m [] m' = ⊥
AllTell e stack work_dir (s ∷ spells) m (r ∷ rows) m' =
    (next : Machine) × Tells e stack (under work_dir s.name) s m r next
    × AllTell e stack work_dir spells next rows m'

taken_looks :
    (stack path : Text) (k : ℕ)
    → All
        (IsLook stack)
        (take k (call create_or_select stack path ∷ call export_stack stack path ∷ []))
taken_looks stack path zero = tt
taken_looks stack path (suc zero) = (inl refl, tt)
taken_looks stack path (suc (suc zero)) = (inl refl, (inr refl, tt))
taken_looks stack path (suc (suc (suc k))) = (inl refl, (inr refl, tt))

asked_about :
    (s : SpellRef) (r : Result (Unit {0})) (x : Option (List Text))
    → ((asked_row s r x).name ≡ s.name) × ((asked_row s r x).spell ≡ s.spell)
unfolding row
asked_about s (ok a) none = (refl, refl)
asked_about s (ok a) (some types) = (refl, refl)
asked_about s (err e) x = (refl, refl)

asked-Known :
    (e : Engine) (stack path : Text) (s : SpellRef) (m : Machine) (r : Result (Unit {0}))
    (x : Option (List Text))
    → has_program path m ≡ true
    → (look e stack path m).0 ≡ r
    → e.exported (look e stack path m).1.calls stack path ≡ x
    → Known e stack path m (asked_row s r x).status (asked_row s r x).resources
unfolding row
asked-Known e stack path s m (ok tt) none p got state = empty p got state
asked-Known e stack path s m (ok tt) (some types) p got state =
    deployed types (count_resources types) p got state (count_resources-stack_entries types)
asked-Known e stack path s m (err x) state p got exported = not_deployed x p got

-- One spell: a row comes back, whatever the engine answers.
abbrev Told : Engine → Text → Text → SpellRef → Machine → Result StatusRow × Machine → Type 0
Told e stack work_dir s m out =
    (r : StatusRow) × (out.0 ≡ ok r) × Tells e stack (under work_dir s.name) s m r out.1

spell_status-Told :
    (e : Engine) (stack work_dir : Text) (s : SpellRef) (m : Machine)
    → Told e stack work_dir s m (spell_status e stack work_dir s m)
unfolding spell_status row
spell_status-Told e stack work_dir s m =
    let path = under work_dir s.name in
    let out = look e stack path m in
    let state = e.exported out.1.calls stack path in
    elim (Bool-cases (has_program path m)) [
      | inr p ↦ rw p (
        row s (codes "not scaffolded") 0,
        refl,
        record {
          same_name = refl;
          same_spell = refl;
          known = not_scaffolded p;
          looks = [];
          looked = sym (append-nil (steps m.calls));
          only_looks = tt;
          same_files = refl;
        },
      )
      | inl p ↦
          let follows = Follows-stack e stack path export_stack m refl in
          let (name, spell) = asked_about s out.0 state in
          let about : Tells e stack path s m (asked_row s out.0 state) out.1 = record {
            same_name = name;
            same_spell = spell;
            known = asked-Known e stack path s m out.0 state p refl refl;
            looks = _;
            looked = follows.adds.0;
            only_looks = taken_looks stack path follows.count;
            same_files = follows.adds.1;
          } in
          (asked_row s out.0 state, rw p refl, rw p about)
    ]

-- Rows about all spells come back.
abbrev pub AllTold :
    Engine → Text → Text → List SpellRef → Machine → Result (List StatusRow) × Machine → Type 0
AllTold e stack work_dir spells m out =
    (rows : List StatusRow) × (out.0 ≡ ok rows) × AllTell e stack work_dir spells m rows out.1

status_rows-Told :
    (e : Engine) (stack work_dir : Text) (spells : List SpellRef) (m : Machine)
    → AllTold e stack work_dir spells m (status_rows e stack work_dir spells m)
unfolding status_rows
status_rows-Told e stack work_dir [] m = ([], refl, refl)
status_rows-Told e stack work_dir (s ∷ spells) m =
    let (r, got, tells) = spell_status-Told e stack work_dir s m in
    let m1 = (spell_status e stack work_dir s m).1 in
    let (rows, more, all) = status_rows-Told e stack work_dir spells m1 in
    (r ∷ rows, rw (got, more) refl, rw (got, more) (m1, tells, all))

-- Whatever the engine answers, `project_status` returns one row for each spell of the project, in
-- the order of the declarations and with its name and template. The row says "not scaffolded" if its
-- directory has no `Pulumi.yaml`, "not deployed" if the stack could not be selected or exported,
-- "empty" if it has no state, and "deployed" otherwise, with the number of the entries that are not
-- the stack itself. No file is changed, and besides looking after the plugin the engine is only
-- asked to make or select stacks of the name and to export their states.
pub project_status-AllTold :
    (e : Engine) (p : ProjectConfig) (stack work_dir : Text) (m : Machine)
    → AllTold e stack work_dir p.spells m (project_status e p stack work_dir m)
unfolding project_status
project_status-AllTold e p stack work_dir m = status_rows-Told e stack work_dir p.spells m
