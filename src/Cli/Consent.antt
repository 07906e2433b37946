-- ===== src/Cli/Consent.antt =====
-- The calls that a command makes of the engine, as a first part of a plan.
use cloudspells.Common.{
  ◌≡◌, refl, sym, ap, ◌∙◌, ℕ, suc, Bool, true, false, ◌||◌, ◌&&◌, List, [], ◌∷◌, ◌++◌, take, inl,
  inr, Bool-cases, if◌then◌else◌,
}
use cloudspells.Common.Text.{Text}
use cloudspells.Exec.{ok, err, Action, Result-cases, when, ◌>>◌}
use cloudspells.Cli.Machine.{Machine, Engine, Call, has_program, try_or}
use cloudspells.Cli.Commands.{require_pulumi_yaml, confirm_unless}
use cloudspells.Cli.Steps.{
  steps, Adds, Silent, Exactly, nothing_added, Silent-done, Adds-then, try-Silent, Succeeds, Works,
}

-- The steps that the action adds at `m` are the first ones of a plan, and all of them if every call
-- succeeds; no file is changed.
pub record Follows (e : Engine) (plan : List Call) (a : Action Machine) (m : Machine) : Type 0 where
  pub count : ℕ
  pub adds : Adds (take count plan) a m
  pub whole : Succeeds e → take count plan ≡ plan

module _ (e : Engine) where
  pub Follows-Silent : (a : Action Machine) (m : Machine) → Silent a → Follows e [] a m
  Follows-Silent a m q = record { count = 0; adds = q m; whole = λ g. refl }

  pub Follows-one :
      (c : Call) (a : Action Machine) (m : Machine) → Exactly c a → Follows e (c ∷ []) a m
  Follows-one c a m q = record { count = 1; adds = q m; whole = λ g. refl }

  -- The first step, and then the others.
  pub Follows-cons :
      (c : Call) (plan : List Call) (a b : Action Machine) (m : Machine)
      → Exactly c a
      → Works e a
      → ((m' : Machine) → Follows e plan b m')
      → Follows e (c ∷ plan) (a >> b) m
  Follows-cons c plan a b m q works w = elim (Result-cases (a m).0) [
    | inl (_, r) ↦
        let rest = w (a m).1 in
        record {
          count = suc rest.count;
          adds = rw r (
            Adds-then (c ∷ []) (take rest.count plan) a b m (q m) rest.adds,
            rest.adds.1 ∙ (q m).1,
          );
          whole = λ g. ap (λ l. c ∷ l) (rest.whole g);
        }
    | inr (x, r) ↦ record {
      count = 1;
      adds = rw r (q m);
      whole = λ g. absurd (let wrong : ok tt ≡ err x = sym (works g m) ∙ r in cc);
    }
  ]

  pub Follows-then :
      (plan : List Call) (a b : Action Machine) (m : Machine)
      → Silent a
      → Works e a
      → ((m' : Machine) → Follows e plan b m')
      → Follows e plan (a >> b) m
  Follows-then plan a b m q works w = elim (Result-cases (a m).0) [
    | inl (_, r) ↦
        let rest = w (a m).1 in
        record {
          count = rest.count;
          adds =
              rw r
                (Adds-then [] (take rest.count plan) a b m (q m) rest.adds, rest.adds.1 ∙ (q m).1);
          whole = rest.whole;
        }
    | inr (x, r) ↦ record {
      count = 0;
      adds = rw r (q m);
      whole = λ g. absurd (let wrong : ok tt ≡ err x = sym (works g m) ∙ r in cc);
    }
  ]

  pub Follows-try :
      (plan : List Call) (a h : Action Machine) (m : Machine)
      → Follows e plan a m
      → Silent h
      → Follows e plan (try_or a h) m
  Follows-try plan a h m w q = record {
    count = w.count;
    adds = try-Silent (take w.count plan) a h m w.adds q;
    whole = w.whole;
  }

  -- What follows a question is done if the user agreed.
  pub Follows-confirm :
      (agreed answer : Bool) (plan : List Call) (b : Action Machine) (m : Machine)
      → ((m' : Machine) → Follows e plan b m')
      → Follows e (if agreed || answer then plan else []) (confirm_unless agreed answer >> b) m
  Follows-confirm true answer plan b m w =
      Follows-then plan (confirm_unless true answer) b m Silent-done (λ g m. refl) w
  Follows-confirm false true plan b m w =
      Follows-then plan (confirm_unless false true) b m Silent-done (λ g m. refl) w
  Follows-confirm false false plan b m w = record {
    count = 0;
    adds = (nothing_added m, refl);
    whole = λ g. refl;
  }

  -- What is promised of a command that acts in `work_dir`: its calls follow the plan, and do all of it
  -- if every call succeeds and there is a program; no file is changed, and there is no call at all
  -- if there is no program.
  abbrev pub Guarded : List Call → Text → Action Machine → Machine → Type 0
  Guarded plan work_dir a m =
      ((k : ℕ) × (steps (a m).1.calls ≡ steps m.calls ++ take k plan)
        × (has_program work_dir m ≡ true → Succeeds e → take k plan ≡ plan))
      × ((a m).1.directories ≡ m.directories)
      × (has_program work_dir m ≡ false → (a m).1.calls ≡ m.calls)

  pub with_program :
      (plan : List Call) (work_dir : Text) (b : Action Machine) (m : Machine)
      → Follows e plan b m
      → Guarded plan work_dir (require_pulumi_yaml work_dir >> b) m
  unfolding require_pulumi_yaml
  with_program plan work_dir b m w = elim (Bool-cases (has_program work_dir m)) [
    | inl p ↦ rw p ((w.count, w.adds.0, λ h. w.whole), w.adds.1, λ h. absurd (cc))
    | inr p ↦ rw p ((0, nothing_added m, λ h. absurd (cc)), refl, λ h. refl)
  ]

  -- The guided commands do nothing where there is no program.
  pub when_program :
      (plan : List Call) (work_dir : Text) (b : Action Machine) (m : Machine)
      → Follows e plan b m
      → Guarded plan work_dir (λ m. when (has_program work_dir m) b m) m
  when_program plan work_dir b m w = elim (Bool-cases (has_program work_dir m)) [
    | inl p ↦ rw p ((w.count, w.adds.0, λ h. w.whole), w.adds.1, λ h. absurd (cc))
    | inr p ↦ rw p ((0, nothing_added m, λ h. absurd (cc)), refl, λ h. refl)
  ]

  pub when_program_and :
      (plan : List Call) (work_dir : Text) (agreed : Bool) (b : Action Machine) (m : Machine)
      → Follows e plan b m
      → Guarded
          (if agreed then plan else [])
          work_dir
          (λ m. when (has_program work_dir m && agreed) b m)
          m
  when_program_and plan work_dir agreed b m w = elim (Bool-cases (has_program work_dir m)) [
    | inr p ↦ rw p ((0, nothing_added m, λ h. absurd (cc)), refl, λ h. refl)
    | inl p ↦ elim (Bool-cases agreed) [
      | inl y ↦ rw (p, y) ((w.count, w.adds.0, λ h. w.whole), w.adds.1, λ h. absurd (cc))
      | inr n ↦ rw (p, n) ((0, nothing_added m, λ h g. refl), refl, λ h. refl)
    ]
  ]
