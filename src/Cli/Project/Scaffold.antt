-- ===== src/Cli/Project/Scaffold.antt =====
-- The directories that a project is given: what is there stays, and what is missing is made.
use cloudspells.Common.{
  ◌≡◌, refl, sym, ap, ◌∙◌, true, false, Option, inl, inr, if◌then◌else◌, Bool-cases, Option-cases,
}
use cloudspells.Common.Text.{Text, codes, text_eq, text_eq_refl, text_eq_sound}
use cloudspells.Exec.{ok, err, value_error}
use cloudspells.Cli.Machine.{Machine, Files, file_exists, has_program, mkdir, write_text}
use cloudspells.Cli.Templates.{spell_registry, find, is_registered, render}
use cloudspells.Cli.Templates.Yaml.{Template}
use cloudspells.Cli.Project.{SpellRef, under, write_files, scaffold, ensure_spell_dir}

-- A registered template renders.
pub render-registered :
    (spell name stack : Text)
    → is_registered spell ≡ true
    → (t : Template) × (render spell name stack ≡ ok t)
unfolding render is_registered
render-registered spell name stack h = elim (Option-cases (find spell_registry spell)) [
  | inl e ↦ absurd (let f : false ≡ true = rw e at h in cc)
  | inr (t, e) ↦ (t name, rw e)
]

-- The machine when the files of a template are written.
abbrev pub filled : Text → Template → Machine → Machine
filled path t m = (write_files path t (mkdir path m).1).1

filled_other :
    (path : Text) (t : Template) (m : Machine) (d : Text)
    → text_eq path d ≡ false
    → (filled path t m).directories d ≡ m.directories d
unfolding write_files mkdir write_text
filled_other path t m d h = simp h

filled-has_program :
    (path : Text) (t : Template) (m : Machine) → has_program path (filled path t m) ≡ true
unfolding write_files mkdir write_text has_program text_eq codes
filled-has_program path t m = simp text_eq_refl

-- What the directory of a spell is made of: nothing is written where a program is.
abbrev pub ensured : Template → Text → Machine → Machine
ensured t path m = if has_program path m then m else filled path t m

pub ensure_spell_dir-eq :
    (s : SpellRef) (work_dir stack : Text) (m : Machine)
    → is_registered s.spell ≡ true
    → (t : Template) × (render s.spell s.name stack ≡ ok t)
      × (ensure_spell_dir s work_dir stack m
          ≡ (ok (under work_dir s.name), ensured t (under work_dir s.name) m))
unfolding ensure_spell_dir scaffold write_files mkdir write_text
ensure_spell_dir-eq s work_dir stack m h =
    let (t, e) = render-registered s.spell s.name stack h in
    elim (Bool-cases (has_program (under work_dir s.name) m)) [
      | inl p ↦ (t, e, rw (h, p))
      | inr p ↦ (t, e, rw (h, p, e))
    ]

pub ensure_spell_dir_unknown :
    (s : SpellRef) (work_dir stack : Text) (m : Machine)
    → is_registered s.spell ≡ false
    → ensure_spell_dir s work_dir stack m ≡ (err value_error, m)
unfolding ensure_spell_dir
ensure_spell_dir_unknown s work_dir stack m h = rw h

has_program-at :
    (d : Text) (m m' : Machine)
    → m'.directories d ≡ m.directories d
    → has_program d m ≡ true
    → has_program d m' ≡ true
unfolding has_program file_exists
has_program-at d m m' e h = rw e h

-- No file changes in a directory that has a program.
abbrev pub Keeps : Machine → Machine → Type 0
Keeps m m' =
    (d : Text)
    → has_program d m ≡ true
    → (m'.directories d ≡ m.directories d) × (has_program d m' ≡ true)

pub Keeps-refl : (m : Machine) → Keeps m m
Keeps-refl m d h = (refl, h)

pub Keeps-trans : (m1 m2 m3 : Machine) → Keeps m1 m2 → Keeps m2 m3 → Keeps m1 m3
Keeps-trans m1 m2 m3 k l d h = let (e, p) = k d h in let (f, q) = l d p in (f ∙ e, q)

pub Keeps-same : (m m' : Machine) → m'.directories ≡ m.directories → Keeps m m'
Keeps-same m m' e d h =
    let same = ap (λ (f : Text → Option Files). f d) e in (same, has_program-at d m m' same h)

Keeps-filled :
    (path : Text) (t : Template) (m : Machine)
    → has_program path m ≡ false
    → Keeps m (filled path t m)
Keeps-filled path t m missing d h = elim (Bool-cases (text_eq path d)) [
  | inl e ↦ absurd (
      let wrong : true ≡ false =
        sym h ∙ ap (λ k. has_program k m) (sym (text_eq_sound path d e)) ∙ missing in
      cc)
  | inr e ↦
      let same = filled_other path t m d e in (same, has_program-at d m (filled path t m) same h)
]

pub ensured-Keeps : (t : Template) (path : Text) (m : Machine) → Keeps m (ensured t path m)
ensured-Keeps t path m = elim (Bool-cases (has_program path m)) [
  | inl e ↦ rw e (Keeps-refl m)
  | inr e ↦ rw e (Keeps-filled path t m e)
]

pub ensured-has_program :
    (t : Template) (path : Text) (m : Machine) → has_program path (ensured t path m) ≡ true
ensured-has_program t path m = elim (Bool-cases (has_program path m)) [
  | inl e ↦ rw e e
  | inr e ↦ rw e (filled-has_program path t m)
]

pub ensured-calls : (t : Template) (path : Text) (m : Machine) → (ensured t path m).calls ≡ m.calls
unfolding write_files mkdir write_text
ensured-calls t path m = elim (Bool-cases (has_program path m)) [ inl e ↦ rw e | inr e ↦ rw e ]
