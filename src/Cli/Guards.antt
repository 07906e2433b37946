-- ===== src/Cli/Guards.antt =====
-- Each command on one stack follows its plan.
use cloudspells.Common.{◌≡◌, refl, Bool, true, false, ◌||◌, List, [], ◌∷◌, if◌then◌else◌}
use cloudspells.Common.Text.{Text}
use cloudspells.Exec.{Action, typer_exit, done, raise, when, ◌>>◌}
use cloudspells.Cli.Machine.{
  Machine, Engine, Operation, create_or_select, preview, up, destroy, refresh, remove_stack, Call,
  ask, get_stack, try_or,
}
use cloudspells.Cli.Changes.{call}
use cloudspells.Cli.Commands.{
  require_pulumi_yaml, confirm_unless, or_exit, up_command, destroy_command, refresh_command,
  stack_rm,
}
use cloudspells.Cli.Steps.{
  is_upkeep, Exactly, Exactly-ask, Exactly-get_stack, Works-ask, Works-get_stack, Works-try,
  Silent-done, Silent-raise, try-Silent,
}
use cloudspells.Cli.Consent.{
  Follows, Follows-Silent, Follows-one, Follows-cons, Follows-try, Follows-confirm, Guarded,
  with_program,
}

module _ (e : Engine) (stack work_dir : Text) where
  abbrev pub at : Operation → Call
  at operation = call operation stack work_dir

  Exactly-or_exit : (c : Call) (a : Action Machine) → Exactly c a → Exactly c (or_exit a)
  Exactly-or_exit c a q m =
      try-Silent (c ∷ []) a (raise typer_exit) m (q m) (Silent-raise typer_exit)

  -- A step that ends the command if it fails.
  last :
      (operation : Operation) (m : Machine)
      → is_upkeep operation ≡ false
      → Follows e (at operation ∷ []) (or_exit (ask e operation stack work_dir)) m
  last operation m h = Follows-one e (at operation) (or_exit (ask e operation stack work_dir)) m (
      Exactly-or_exit (at operation) (ask e operation stack work_dir)
        (Exactly-ask e operation stack work_dir h))

  -- The stack is made or selected, and then comes the rest.
  selected :
      (plan : List Call) (b : Action Machine) (m : Machine)
      → ((m' : Machine) → Follows e plan b m')
      → Follows e (at create_or_select ∷ plan) (or_exit (get_stack e stack work_dir) >> b) m
  selected plan b m w =
      Follows-cons e (at create_or_select) plan (or_exit (get_stack e stack work_dir)) b m
        (Exactly-or_exit (at create_or_select) (get_stack e stack work_dir)
          (Exactly-get_stack e stack work_dir))
        (Works-try e (get_stack e stack work_dir) (raise typer_exit)
          (Works-get_stack e stack work_dir))
        w

  pub Follows-stack :
      (operation : Operation) (m : Machine)
      → is_upkeep operation ≡ false
      → Follows e
          (at create_or_select ∷ at operation ∷ [])
          (get_stack e stack work_dir >> ask e operation stack work_dir)
          m
  Follows-stack operation m h =
      Follows-cons e (at create_or_select) (at operation ∷ []) (get_stack e stack work_dir)
        (ask e operation stack work_dir) m (Exactly-get_stack e stack work_dir)
        (Works-get_stack e stack work_dir)
        (λ m.
          Follows-one e (at operation) (ask e operation stack work_dir) m
            (Exactly-ask e operation stack work_dir h))

  abbrev pub up_plan : Bool → Bool → Bool → List Call
  up_plan true agreed answer = at create_or_select ∷ at preview ∷ []
  up_plan false agreed answer = at create_or_select ∷ (if agreed || answer then at up ∷ [] else [])

  pub up-Guarded :
      (only agreed answer : Bool) (m : Machine)
      → Guarded e
          (up_plan only agreed answer)
          work_dir
          (up_command e work_dir only stack agreed answer)
          m
  unfolding up_command
  up-Guarded true agreed answer m = with_program e _ work_dir _ m (
      selected (at preview ∷ []) (or_exit (ask e preview stack work_dir)) m
        (λ m. last preview m refl))
  up-Guarded false agreed answer m =
      let ups = or_exit (ask e up stack work_dir) in
      with_program e _ work_dir _ m (
        selected _ (confirm_unless agreed answer >> ups) m
          (λ m. Follows-confirm e agreed answer (at up ∷ []) ups m (λ m. last up m refl)))

  abbrev pub removal : Bool → List Call
  removal true = at (remove_stack false) ∷ []
  removal false = []

  Follows-removal :
      (remove : Bool) (m : Machine)
      → Follows e
          (removal remove)
          (when remove (try_or (ask e (remove_stack false) stack work_dir) done))
          m
  Follows-removal true m =
      Follows-try e _ (ask e (remove_stack false) stack work_dir) done m
        (Follows-one e _ (ask e (remove_stack false) stack work_dir) m
          (Exactly-ask e (remove_stack false) stack work_dir refl))
        Silent-done
  Follows-removal false m = Follows-Silent e done m Silent-done

  pub destroy-Guarded :
      (agreed remove answer : Bool) (m : Machine)
      → Guarded e
          (if agreed || answer then at create_or_select ∷ at destroy ∷ removal remove else [])
          work_dir
          (destroy_command e work_dir stack agreed remove answer)
          m
  unfolding destroy_command
  destroy-Guarded agreed remove answer m =
      let destroys = or_exit (ask e destroy stack work_dir) in
      let removes = when remove (try_or (ask e (remove_stack false) stack work_dir) done) in
      with_program e _ work_dir _ m (
        Follows-confirm e agreed answer _
          (or_exit (get_stack e stack work_dir) >> (destroys >> removes)) m
          (λ m. selected _ (destroys >> removes) m (λ m.
            Follows-cons e (at destroy) (removal remove) destroys removes m
              (Exactly-or_exit (at destroy) (ask e destroy stack work_dir)
                (Exactly-ask e destroy stack work_dir refl))
              (Works-try e (ask e destroy stack work_dir) (raise typer_exit)
                (Works-ask e destroy stack work_dir))
              (Follows-removal remove))))

  pub refresh-Guarded :
      (agreed answer : Bool) (m : Machine)
      → Guarded e
          (if agreed || answer then at create_or_select ∷ at refresh ∷ [] else [])
          work_dir
          (refresh_command e work_dir stack agreed answer)
          m
  unfolding refresh_command
  refresh-Guarded agreed answer m =
      let refreshes = or_exit (ask e refresh stack work_dir) in
      with_program e _ work_dir _ m (
        Follows-confirm e agreed answer _ (or_exit (get_stack e stack work_dir) >> refreshes) m
          (λ m. selected _ refreshes m (λ m. last refresh m refl)))

  -- The stack and one operation, where any error ends the command.
  Follows-both :
      (operation : Operation) (m : Machine)
      → is_upkeep operation ≡ false
      → Follows e
          (at create_or_select ∷ at operation ∷ [])
          (or_exit (get_stack e stack work_dir >> ask e operation stack work_dir))
          m
  Follows-both operation m h =
      Follows-try e _ (get_stack e stack work_dir >> ask e operation stack work_dir)
        (raise typer_exit) m (Follows-stack operation m h) (Silent-raise typer_exit)

  pub stack_rm-Guarded :
      (agreed force answer : Bool) (m : Machine)
      → Guarded e
          (if agreed || answer then at create_or_select ∷ at (remove_stack force) ∷ [] else [])
          work_dir
          (stack_rm e stack work_dir agreed force answer)
          m
  unfolding stack_rm
  stack_rm-Guarded agreed force answer m = with_program e _ work_dir _ m (
      Follows-confirm e agreed answer _
        (or_exit (get_stack e stack work_dir >> ask e (remove_stack force) stack work_dir)) m
        (λ m. Follows-both (remove_stack force) m refl))

  -- A command without a question, of one operation.
  pub one-Guarded :
      (operation : Operation) (m : Machine)
      → is_upkeep operation ≡ false
      → Guarded e
          (at create_or_select ∷ at operation ∷ [])
          work_dir
          (require_pulumi_yaml work_dir
            >> or_exit (get_stack e stack work_dir >> ask e operation stack work_dir))
          m
  one-Guarded operation m h =
      with_program e _ work_dir
        (or_exit (get_stack e stack work_dir >> ask e operation stack work_dir)) m
        (Follows-both operation m h)

  -- What a guided command does.
  pub Follows-guided :
      (operation : Operation) (m : Machine)
      → is_upkeep operation ≡ false
      → Follows e
          (at create_or_select ∷ at operation ∷ [])
          (try_or (get_stack e stack work_dir >> ask e operation stack work_dir) done)
          m
  Follows-guided operation m h =
      Follows-try e _ (get_stack e stack work_dir >> ask e operation stack work_dir) done m
        (Follows-stack operation m h) Silent-done
