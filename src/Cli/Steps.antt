-- ===== src/Cli/Steps.antt =====
-- The calls that an action makes of the engine, and when it returns. The calls that only look after
-- the plugin are left out.
use cloudspells.Common.{
  ◌≡◌, refl, sym, ap, ◌∙◌, Bool, true, false, not, List, [], ◌∷◌, ◌++◌, append_assoc, append-nil,
  inl, inr, Bool-cases, if◌then◌else◌,
}
use cloudspells.Common.Text.{Text}
use cloudspells.Exec.{Error, ok, Action, Result-cases, raise, done, when, ◌>>◌}
use cloudspells.Cli.Machine.{
  Machine, Engine, Operation, create_or_select, list_plugins, install_plugin, Call, ask,
  is_command_error, try_or, install_if_missing, ensure_oci_plugin, get_stack,
}
use cloudspells.Cli.Changes.{call}

-- The operation looks for the plugin, or installs it.
abbrev pub is_upkeep : Operation → Bool
is_upkeep Operation.list_plugins = true
is_upkeep Operation.install_plugin = true
is_upkeep operation = false

unfoldable pub steps : List Call → List Call
steps [] = []
steps (c ∷ calls) = let rest = steps calls in if is_upkeep c.operation then rest else c ∷ rest

steps-append : (xs ys : List Call) → steps (xs ++ ys) ≡ steps xs ++ steps ys
unfolding steps
steps-append [] ys = refl
steps-append (c ∷ xs) ys = elim (Bool-cases (is_upkeep c.operation)) [
  | inl e ↦ rw e (steps-append xs ys)
  | inr e ↦ rw e (ap (λ t. c ∷ t) (steps-append xs ys))
]

-- The steps that the action adds at `m`, where no file is changed.
abbrev pub Adds : List Call → Action Machine → Machine → Type 0
Adds cs a m = (steps (a m).1.calls ≡ steps m.calls ++ cs) × ((a m).1.directories ≡ m.directories)

abbrev pub Silent : Action Machine → Type 0
Silent a = (m : Machine) → Adds [] a m

abbrev pub Exactly : Call → Action Machine → Type 0
Exactly c a = (m : Machine) → Adds (c ∷ []) a m

pub nothing_added : (m : Machine) → steps m.calls ≡ steps m.calls ++ []
nothing_added m = sym (append-nil (steps m.calls))

pub Silent-done : Silent done
Silent-done m = (nothing_added m, refl)

pub Silent-raise : (x : Error) → Silent (raise x)
Silent-raise x m = (nothing_added m, refl)

-- Two actions one after the other, if the first one returns.
pub Adds-then :
    (cs ds : List Call) (a b : Action Machine) (m : Machine)
    → Adds cs a m
    → Adds ds b (a m).1
    → steps (b (a m).1).1.calls ≡ steps m.calls ++ (cs ++ ds)
Adds-then cs ds a b m p q = q.0 ∙ ap (λ t. t ++ ds) p.0 ∙ append_assoc (steps m.calls) cs ds

then-Silent :
    (cs : List Call) (a b : Action Machine) (m : Machine)
    → Adds cs a m
    → Silent b
    → Adds cs (a >> b) m
then-Silent cs a b m p q = elim (Result-cases (a m).0) [
  | inl (_, r) ↦
      let after = q (a m).1 in
      rw r (
        Adds-then cs [] a b m p after ∙ ap (λ t. steps m.calls ++ t) (append-nil cs),
        after.1 ∙ p.1,
      )
  | inr (x, r) ↦ rw r p
]

pub try-Silent :
    (cs : List Call) (a h : Action Machine) (m : Machine)
    → Adds cs a m
    → Silent h
    → Adds cs (try_or a h) m
try-Silent cs a h m p q = elim (Result-cases (a m).0) [
  | inl (_, r) ↦ rw r p
  | inr (x, r) ↦ elim (Bool-cases (is_command_error x)) [
    | inl c ↦
        let after = q (a m).1 in
        rw (r, c) (after.0 ∙ append-nil (steps (a m).1.calls) ∙ p.0, after.1 ∙ p.1)
    | inr c ↦ rw (r, c) p
  ]
]

Silent-when : (b : Bool) (a : Action Machine) → Silent a → Silent (when b a)
Silent-when true a q = q
Silent-when false a q = Silent-done

Silent-ask :
    (e : Engine) (operation : Operation) (stack work_dir : Text)
    → is_upkeep operation ≡ true
    → Silent (ask e operation stack work_dir)
unfolding ask steps
Silent-ask e operation stack work_dir h m = (steps-append m.calls _ ∙ rw h refl, refl)

pub Exactly-ask :
    (e : Engine) (operation : Operation) (stack work_dir : Text)
    → is_upkeep operation ≡ false
    → Exactly (call operation stack work_dir) (ask e operation stack work_dir)
unfolding ask steps
Exactly-ask e operation stack work_dir h m = (steps-append m.calls _ ∙ rw h refl, refl)

pub Silent-ensure_oci_plugin :
    (e : Engine) (work_dir : Text) → Silent (ensure_oci_plugin e work_dir)
unfolding ensure_oci_plugin install_if_missing
Silent-ensure_oci_plugin e work_dir m =
    try-Silent [] (install_if_missing e work_dir) done m
      (then-Silent [] (ask e list_plugins [] work_dir) _ m (Silent-ask e list_plugins _ _ refl m)
        (λ m.
          Silent-when (not (e.has_oci_plugin m.calls work_dir)) _
            (Silent-ask e install_plugin _ _ refl) m))
      Silent-done

pub Exactly-get_stack :
    (e : Engine) (stack work_dir : Text)
    → Exactly (call create_or_select stack work_dir) (get_stack e stack work_dir)
unfolding get_stack
Exactly-get_stack e stack work_dir m =
    then-Silent _ (ask e create_or_select stack work_dir) _ m
      (Exactly-ask e create_or_select stack work_dir refl m) (Silent-ensure_oci_plugin e work_dir)

-- Every call of the engine succeeds.
abbrev pub Succeeds : Engine → Type 0
Succeeds e = (calls : List Call) (c : Call) → e.succeeds calls c ≡ true

-- The action returns if every call of the engine does.
abbrev pub Works : Engine → Action Machine → Type 0
Works e a = Succeeds e → (m : Machine) → (a m).0 ≡ ok tt

pub Works-ask :
    (e : Engine) (operation : Operation) (stack work_dir : Text)
    → Works e (ask e operation stack work_dir)
unfolding ask
Works-ask e operation stack work_dir g m = rw (g m.calls _) refl

Works-then : (e : Engine) (a b : Action Machine) → Works e a → Works e b → Works e (a >> b)
Works-then e a b p q g m = rw (p g m) (q g (a m).1)

pub Works-try : (e : Engine) (a h : Action Machine) → Works e a → Works e (try_or a h)
Works-try e a h p g m = rw (p g m) refl

Works-when : (e : Engine) (b : Bool) (a : Action Machine) → Works e a → Works e (when b a)
Works-when e true a p g m = p g m
Works-when e false a p g m = refl

pub Works-ensure_oci_plugin :
    (e : Engine) (work_dir : Text) → Works e (ensure_oci_plugin e work_dir)
unfolding ensure_oci_plugin install_if_missing
Works-ensure_oci_plugin e work_dir = Works-try e (install_if_missing e work_dir) done (
    Works-then e (ask e list_plugins [] work_dir) _ (Works-ask e list_plugins [] work_dir) (λ g m.
      Works-when e (not (e.has_oci_plugin m.calls work_dir)) _
        (Works-ask e install_plugin [] work_dir) g m))

pub Works-get_stack : (e : Engine) (stack work_dir : Text) → Works e (get_stack e stack work_dir)
unfolding get_stack
Works-get_stack e stack work_dir =
    Works-then e (ask e create_or_select stack work_dir) (ensure_oci_plugin e work_dir)
      (Works-ask e create_or_select stack work_dir) (Works-ensure_oci_plugin e work_dir)
