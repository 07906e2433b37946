-- ===== src/Cli/New.antt =====
-- commands/new.py: `cs new`, with `_inject_backend_url`.
use cloudspells.Common.{
  ℕ, Bool, not, ◌&&◌, ◌||◌, ◌==◌, Option, none, some, [], ◌∷◌, ◌++◌, if◌then◌else◌,
}
use cloudspells.Common.Text.{Text, codes, starts_with}
use cloudspells.Exec.{typer_exit, Exec, Action, pure, raise, lift, raise_if, done, ◌>>=◌, ◌>>◌}
use cloudspells.Cli.Machine.{Machine, is_some, mkdir, write_text, pulumi_yaml_name}
use cloudspells.Cli.Templates.{is_registered, render}
use cloudspells.Cli.Project.{write_files}

-- `old in text`
unfoldable pub occurs : Text → Text → Bool
occurs old [] = starts_with [] old
occurs old (c ∷ s) = starts_with (c ∷ s) old || occurs old s

-- What is left of a text behind a prefix of the length of the first.
skip : Text → Text → Text
skip [] text = text
skip (d ∷ old) [] = []
skip (d ∷ old) (c ∷ s) = skip old s

-- `text.replace(old, new, 1)`, for a text `old` that is not empty
unfoldable pub replace_first : Text → Text → Text → Text
unfolding skip
replace_first old new [] = []
replace_first old new (c ∷ s) =
    let rest = c ∷ replace_first old new s in
    if starts_with (c ∷ s) old then new ++ skip old (c ∷ s) else rest

-- What a character adds in front of a text that is stripped already.
abbrev kept : ℕ → Text → Text
kept c [] = if c == b'\n' then [] else c ∷ []
kept c (d ∷ s) = c ∷ d ∷ s

-- `text.rstrip("\n")`
unfoldable pub rstrip_newlines : Text → Text
rstrip_newlines [] = []
rstrip_newlines (c ∷ s) = kept c (rstrip_newlines s)

abbrev pub backend_block : Text → Text
backend_block url = codes "backend:\n  url: " ++ (url ++ codes "\n")

unfoldable pub inject_backend_url : Text → Text → Text
unfolding occurs replace_first rstrip_newlines
inject_backend_url text url =
    if occurs (codes "config:") text
    then replace_first (codes "config:") (backend_block url ++ codes "config:") text
    else rstrip_newlines text ++ (codes "\n" ++ backend_block url)

abbrev given : Option Text → Exec Machine Text
given none = raise typer_exit
given (some text) = pure text

-- The backend is written where it is given and not empty.
abbrev with_backend : Text → Text → Option Text → Action Machine
with_backend path yaml none = done
with_backend path yaml (some []) = done
with_backend path yaml (some (c ∷ url)) =
    write_text path pulumi_yaml_name (inject_backend_url yaml (c ∷ url))

-- `new(spell, name, stack, force, list_flag, backend)`; a listing ends the command by `typer.Exit` too.
unfoldable pub new_command :
    Option Text → Option Text → Text → Bool → Bool → Option Text → Action Machine
unfolding inject_backend_url
new_command spell name stack force list_flag backend = do
  raise_if list_flag typer_exit
  s ← given spell
  path ← given name
  raise_if (not (is_registered s)) typer_exit
  (λ m. raise_if (is_some (m.directories path) && not force) typer_exit m)
  files ← lift (render s path stack)
  mkdir path
  write_files path files
  with_backend path files.yaml backend
