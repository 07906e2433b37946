-- ===== src/Cli/Project/Order.antt =====
-- A project is deployed in the order of its declarations and destroyed in reverse order.
use cloudspells.Common.{
  ◌≡◌, ◌≢◌, refl, sym, ap, ◌∙◌, ℕ, suc, ◌≤◌, Bool, true, false, List, [], ◌∷◌, ◌++◌, map, take,
  length, append_assoc, append-nil, arith, ◌⊎◌, inl, inr, if◌then◌else◌, Bool-cases, All,
}
use cloudspells.Common.Text.{Text}
use cloudspells.Exec.{Action, Result-cases, ok, err, value_error, for_each, ◌>>◌}
use cloudspells.Cli.Machine.{
  Machine, Engine, Operation, up, preview, destroy, Call, ask, get_stack, has_program,
}
use cloudspells.Cli.Changes.{is_change, changes, call, Quiet-get_stack, changes-ask}
use cloudspells.Cli.Templates.{is_registered}
use cloudspells.Cli.Project.{SpellRef, ProjectConfig, under, deploy_spell, deploy_project}
use cloudspells.Cli.Project.Scaffold.{
  Keeps, ensured, ensured-Keeps, ensured-has_program, ensured-calls, ensure_spell_dir-eq,
  ensure_spell_dir_unknown,
}

-- What every step of a project does with a stack.
abbrev pub attempt : Engine → Operation → Text → Text → Action Machine
attempt e operation stack path = get_stack e stack path >> ask e operation stack path

-- The action `a`, run at `m`, makes the change `c` as its last one, or raises before that.
abbrev pub Makes : Call → Action Machine → Machine → Type 0
Makes c a m =
    (changes (a m).1.calls ≡ changes m.calls ++ c ∷ [])
    ⊎ ((changes (a m).1.calls ≡ changes m.calls) × ((a m).0 ≢ ok tt))

pub Makes-at :
    (c : Call) (a b : Action Machine) (m m1 : Machine)
    → a m ≡ b m1
    → m1.calls ≡ m.calls
    → Makes c b m1
    → Makes c a m
Makes-at c a b m m1 same calls (inl made) =
    inl (rw same (made ∙ ap (λ t. changes t ++ c ∷ []) calls))
Makes-at c a b m m1 same calls (inr (quiet, raised)) =
    inr (rw same (quiet ∙ ap changes calls), λ w. raised (ap (λ r. r.0) (sym same) ∙ w))

pub attempt-Makes :
    (e : Engine) (operation : Operation) (stack path : Text) (m : Machine)
    → is_change operation ≡ true
    → Makes (call operation stack path) (attempt e operation stack path) m
attempt-Makes e operation stack path m h = elim (Result-cases (get_stack e stack path m).0) [
  | inl (_, r) ↦ inl (
      rw r (
        changes-ask e operation stack path (get_stack e stack path m).1 h
        ∙ ap (λ t. t ++ call operation stack path ∷ []) (Quiet-get_stack e stack path m).0))
  | inr (x, r) ↦ inr (rw r ((Quiet-get_stack e stack path m).0, λ w. cc))
]

ask-directories :
    (e : Engine) (operation : Operation) (stack path : Text) (m : Machine)
    → (ask e operation stack path m).1.directories ≡ m.directories
unfolding ask
ask-directories e operation stack path m = refl

pub attempt-directories :
    (e : Engine) (operation : Operation) (stack path : Text) (m : Machine)
    → (attempt e operation stack path m).1.directories ≡ m.directories
attempt-directories e operation stack path m = elim (Result-cases (get_stack e stack path m).0) [
  | inl (_, r) ↦ rw r (
      ask-directories e operation stack path (get_stack e stack path m).1
      ∙ (Quiet-get_stack e stack path m).1)
  | inr (x, r) ↦ rw r (Quiet-get_stack e stack path m).1
]

module _ (body : SpellRef → Action Machine) (Ready : SpellRef → Machine → Type 0)
    (keep : (s t : SpellRef) (m : Machine) → Ready t m → Ready t (body s m).1) where
  pub keep-All :
      (s : SpellRef) (m : Machine) (ts : List SpellRef)
      → All (λ t. Ready t m) ts
      → All (λ t. Ready t (body s m).1) ts
  keep-All s m [] _ = tt
  keep-All s m (t ∷ ts) (h, hs) = (keep s t m h, keep-All s m ts hs)

take-length : (xs : List SpellRef) → take (length xs) xs ≡ xs
take-length [] = refl
take-length (s ∷ xs) = ap (λ t. s ∷ t) (take-length xs)

-- A loop whose rounds each make one change, where `Ready` holds of what is still to come.
module _ (change : SpellRef → Call) (body : SpellRef → Action Machine)
    (Ready : SpellRef → Machine → Type 0)
    (keep : (s t : SpellRef) (m : Machine) → Ready t m → Ready t (body s m).1)
    (round : (s : SpellRef) (m : Machine) → Ready s m → Makes (change s) (body s) m) where
  -- The changes are those of the first items, and of all if the loop ends.
  pub loop :
      (xs : List SpellRef) (m : Machine)
      → All (λ s. Ready s m) xs
      → (k : ℕ) × (k ≤ length xs)
        × (changes (for_each xs body m).1.calls ≡ changes m.calls ++ map change (take k xs))
        × ((for_each xs body m).0 ≡ ok tt → k ≡ length xs)
  unfolding for_each
  loop [] m _ = (0, omega arith, sym (append-nil (changes m.calls)), λ _. refl)
  loop (s ∷ xs) m (ready, rest) = elim (Result-cases (body s m).0) [
    | inl (_, r) ↦ elim (round s m ready) [
      | inl made ↦
          let (k, le, same, full) = loop xs (body s m).1 (keep-All body Ready keep s m xs rest) in
          (
            suc k,
            omega arith,
            rw r (
                same
                ∙ ap (λ t. t ++ map change (take k xs)) made
                ∙ append_assoc (changes m.calls) (change s ∷ []) (map change (take k xs))),
            rw r (λ w. omega (arith, full w)),
          )
      | inr (_, raised) ↦ absurd (raised r)
    ]
    | inr (x, r) ↦ elim (round s m ready) [
      | inl made ↦ (1, omega arith, rw r made, rw r (λ w. absurd (cc)))
      | inr (same, _) ↦ (
        0,
        omega arith,
        rw r (same ∙ sym (append-nil (changes m.calls))),
        rw r (λ w. absurd (cc)),
      )
    ]
  ]

  -- A loop that ends has made the change of every item.
  pub loop_whole :
      (xs : List SpellRef) (m : Machine)
      → All (λ s. Ready s m) xs
      → (for_each xs body m).0 ≡ ok tt
      → changes (for_each xs body m).1.calls ≡ changes m.calls ++ map change xs
  loop_whole xs m ready ended =
      let (k, _, made, whole) = loop xs m ready in
      made
      ∙ ap (λ n. changes m.calls ++ map change (take n xs)) (whole ended)
      ∙ ap (λ ys. changes m.calls ++ map change ys) (take-length xs)

pub All-ready : (xs : List SpellRef) → All (λ s. Unit {0}) xs
All-ready [] = tt
All-ready (s ∷ xs) = (tt, All-ready xs)

-- A spell whose template is known is deployed in its directory, which is made first if need be.
pub deploy_spell-eq :
    (e : Engine) (stack work_dir : Text) (only : Bool) (s : SpellRef) (m : Machine)
    → is_registered s.spell ≡ true
    → (m1 : Machine) × Keeps m m1
      × (has_program (under work_dir s.name) m1 ≡ true)
      × (m1.calls ≡ m.calls)
      × (deploy_spell e stack work_dir only s m
          ≡ attempt e (if only then preview else up) stack (under work_dir s.name) m1)
unfolding deploy_spell
deploy_spell-eq e stack work_dir only s m h =
    let path : Text = under work_dir s.name in
    let (t, _, made) = ensure_spell_dir-eq s work_dir stack m h in
    (
      ensured t path m,
      ensured-Keeps t path m,
      ensured-has_program t path m,
      ensured-calls t path m,
      rw made,
    )

pub deploy_spell_unknown :
    (e : Engine) (stack work_dir : Text) (only : Bool) (s : SpellRef) (m : Machine)
    → is_registered s.spell ≡ false
    → deploy_spell e stack work_dir only s m ≡ (err value_error, m)
unfolding deploy_spell
deploy_spell_unknown e stack work_dir only s m h =
    rw (ensure_spell_dir_unknown s work_dir stack m h)

abbrev pub up_call : Text → Text → SpellRef → Call
up_call stack work_dir s = call up stack (under work_dir s.name)

abbrev pub destroy_call : Text → Text → SpellRef → Call
destroy_call stack work_dir s = call destroy stack (under work_dir s.name)

pub deploy_spell-Makes :
    (e : Engine) (stack work_dir : Text) (s : SpellRef) (m : Machine)
    → Makes (up_call stack work_dir s) (deploy_spell e stack work_dir false s) m
deploy_spell-Makes e stack work_dir s m = elim (Bool-cases (is_registered s.spell)) [
  | inl h ↦
      let (m1, _, _, calls, same) = deploy_spell-eq e stack work_dir false s m h in
      Makes-at _ (deploy_spell e stack work_dir false s)
        (attempt e up stack (under work_dir s.name)) m m1 same calls
        (attempt-Makes e up stack (under work_dir s.name) m1 refl)
  | inr h ↦ rw (deploy_spell_unknown e stack work_dir false s m h) (inr (refl, λ w. cc))
]

-- The stacks that `deploy_project` puts up are, in the order of the declarations, those of the first
-- spells of the project, and no other change is made; if it returns, they are those of all spells.
pub deploy_project-ordered :
    (e : Engine) (p : ProjectConfig) (stack work_dir : Text) (m : Machine)
    → (k : ℕ) × (k ≤ length p.spells)
      × (changes (deploy_project e p stack work_dir false m).1.calls
          ≡ changes m.calls ++ map (up_call stack work_dir) (take k p.spells))
      × ((deploy_project e p stack work_dir false m).0 ≡ ok tt → k ≡ length p.spells)
unfolding deploy_project
deploy_project-ordered e p stack work_dir m =
    loop (up_call stack work_dir) (deploy_spell e stack work_dir false) (λ s m. Unit {0})
      (λ s t m h. tt) (λ s m h. deploy_spell-Makes e stack work_dir s m) p.spells m
      (All-ready p.spells)
