-- ===== src/Tests/Codec.antt =====
-- A printer and a reader of project files, which stand for YAML in the tests.
use cloudspells.Common.{◌≡◌, refl, ℕ, zero, suc, Option, none, some, List, [], ◌∷◌, length}
use cloudspells.Common.Text.{Text}
use cloudspells.Exec.{Result, ok}
use cloudspells.Cli.Project.Model.{SpellData, ProjectData, Yaml, IsReadBack}

print_text : Text → Text → Text
print_text [] rest = zero ∷ rest
print_text (c ∷ s) rest = suc c ∷ print_text s rest

read_text : Text → Text × Text
read_text [] = ([], [])
read_text (zero ∷ rest) = ([], rest)
read_text (suc c ∷ s) = let (t, rest) = read_text s in (c ∷ t, rest)

read-print_text : (s rest : Text) → read_text (print_text s rest) ≡ (s, rest)
unfolding read_text print_text
read-print_text [] rest = refl
read-print_text (c ∷ s) rest = rw (read-print_text s rest)

print_value : Option Text → Text → Text
print_value none rest = 0 ∷ rest
print_value (some s) rest = 1 ∷ print_text s rest

read_value : Text → Option Text × Text
read_value [] = (none, [])
read_value (zero ∷ rest) = (none, rest)
read_value (suc c ∷ s) = let (t, rest) = read_text s in (some t, rest)

read-print_value : (o : Option Text) (rest : Text) → read_value (print_value o rest) ≡ (o, rest)
unfolding read_value print_value
read-print_value none rest = refl
read-print_value (some s) rest = rw (read-print_text s rest)

print_spells : List SpellData → Text
print_spells [] = []
print_spells (s ∷ spells) = print_value s.spell (print_value s.name (print_spells spells))

read_spells : ℕ → Text → List SpellData
read_spells zero s = []
read_spells (suc n) s =
    let (spell, rest) = read_value s in
    let (name, more) = read_value rest in record { spell = spell; name = name } ∷ read_spells n more

read-print_spells :
    (spells : List SpellData) → read_spells (length spells) (print_spells spells) ≡ spells
unfolding read_spells print_spells
read-print_spells [] = refl
read-print_spells (s ∷ spells) =
    rw (read-print_value s.spell (print_value s.name (print_spells spells)))
      (rw (read-print_value s.name (print_spells spells)) (rw (read-print_spells spells)))

print_list : Option (List SpellData) → Text
print_list none = []
print_list (some spells) = length spells ∷ print_spells spells

read_list : Text → Option (List SpellData)
read_list [] = none
read_list (n ∷ s) = some (read_spells n s)

read-print_list : (o : Option (List SpellData)) → read_list (print_list o) ≡ o
unfolding read_list print_list
read-print_list none = refl
read-print_list (some spells) = rw (read-print_spells spells)

print_project : ProjectData → Text
print_project d = print_value d.name (print_value d.description (print_list d.spells))

read_project : Text → Result ProjectData
read_project s =
    let (name, rest) = read_value s in
    let (description, more) = read_value rest in
    ok (record { name = name; description = description; spells = read_list more })

pub codec : Yaml
codec = record { safe_load = read_project; dump = print_project }

pub codec-IsReadBack : IsReadBack codec
unfolding codec read_project print_project
codec-IsReadBack d =
    rw (read-print_value d.name (print_value d.description (print_list d.spells)))
      (rw (read-print_value d.description (print_list d.spells)) (rw (read-print_list d.spells)))
