-- ===== src/Cli/Changes.antt =====
-- Which calls change what is deployed, and the actions that make no such call.
use cloudspells.Common.{
  ◌≡◌, refl, ap, ◌∙◌, Bool, true, false, not, List, [], ◌∷◌, ◌++◌, append-nil, inl, inr,
  if◌then◌else◌, Bool-cases,
}
use cloudspells.Common.Text.{Text}
use cloudspells.Exec.{Action, Result-cases, done, when, ◌>>◌}
use cloudspells.Cli.Machine.{
  Operation, create_or_select, list_plugins, install_plugin, Call, Engine, Machine, ask,
  is_command_error, try_or, install_if_missing, ensure_oci_plugin, get_stack,
}

-- Resources or the state of a stack are changed.
abbrev pub is_change : Operation → Bool
is_change Operation.up = true
is_change Operation.destroy = true
is_change Operation.refresh = true
is_change (Operation.remove_stack force) = true
is_change operation = false

unfoldable pub changes : List Call → List Call
changes [] = []
changes (c ∷ calls) = if is_change c.operation then c ∷ changes calls else changes calls

changes-append : (xs ys : List Call) → changes (xs ++ ys) ≡ changes xs ++ changes ys
unfolding changes
changes-append [] ys = refl
changes-append (c ∷ xs) ys = elim (Bool-cases (is_change c.operation)) [
  | inl e ↦ rw e (ap (λ t. c ∷ t) (changes-append xs ys))
  | inr e ↦ rw e (changes-append xs ys)
]

-- The action changes no directory and nothing that is deployed.
abbrev pub Quiet : Action Machine → Type 0
Quiet a =
    (m : Machine)
    → (changes (a m).1.calls ≡ changes m.calls) × ((a m).1.directories ≡ m.directories)

Quiet-done : Quiet done
Quiet-done m = (refl, refl)

Quiet-then : (a b : Action Machine) → Quiet a → Quiet b → Quiet (a >> b)
Quiet-then a b qa qb m = elim (Result-cases (a m).0) [
  | inl (_, e) ↦ rw e ((qb (a m).1).0 ∙ (qa m).0, (qb (a m).1).1 ∙ (qa m).1)
  | inr (_, e) ↦ rw e (qa m)
]

Quiet-try : (a b : Action Machine) → Quiet a → Quiet b → Quiet (try_or a b)
Quiet-try a b qa qb m = elim (Result-cases (a m).0) [
  | inl (_, e) ↦ rw e (qa m)
  | inr (x, e) ↦ elim (Bool-cases (is_command_error x)) [
    | inl c ↦ rw (e, c) ((qb (a m).1).0 ∙ (qa m).0, (qb (a m).1).1 ∙ (qa m).1)
    | inr c ↦ rw (e, c) (qa m)
  ]
]

Quiet-when : (b : Bool) (a : Action Machine) → Quiet a → Quiet (when b a)
Quiet-when true a q = q
Quiet-when false a q = Quiet-done

Quiet-ask :
    (e : Engine) (operation : Operation) (stack work_dir : Text)
    → is_change operation ≡ false
    → Quiet (ask e operation stack work_dir)
unfolding ask changes
Quiet-ask e operation stack work_dir h m =
    (changes-append m.calls _ ∙ rw h (append-nil (changes m.calls)), refl)

Quiet-ensure_oci_plugin : (e : Engine) (work_dir : Text) → Quiet (ensure_oci_plugin e work_dir)
unfolding ensure_oci_plugin install_if_missing
Quiet-ensure_oci_plugin e work_dir =
    Quiet-try _ _
      (Quiet-then _ _ (Quiet-ask e list_plugins _ _ refl) (λ m.
        Quiet-when (not (e.has_oci_plugin m.calls work_dir)) _ (Quiet-ask e install_plugin _ _ refl)
          m))
      Quiet-done

pub Quiet-get_stack : (e : Engine) (stack work_dir : Text) → Quiet (get_stack e stack work_dir)
unfolding get_stack
Quiet-get_stack e stack work_dir =
    Quiet-then _ _ (Quiet-ask e create_or_select _ _ refl) (Quiet-ensure_oci_plugin e work_dir)

abbrev pub call : Operation → Text → Text → Call
call operation stack work_dir = record { operation = operation; stack = stack; work_dir = work_dir }

-- A call that changes something is the last change, whether it succeeds or not.
pub changes-ask :
    (e : Engine) (operation : Operation) (stack work_dir : Text) (m : Machine)
    → is_change operation ≡ true
    → changes (ask e operation stack work_dir m).1.calls
      ≡ changes m.calls ++ call operation stack work_dir ∷ []
unfolding ask changes
changes-ask e operation stack work_dir m h = changes-append m.calls _ ∙ rw h refl
