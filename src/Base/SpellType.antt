-- ===== src/Base/SpellType.antt =====
-- What the substitutions for the name of a spell leave as it was.
use cloudspells.Common.{
  ◌≡◌, refl, ap, ◌∙◌, ℕ, Bool, true, false, not, ◌&&◌, ◌||◌, [], ◌∷◌, ◌==◌, arith, inl, inr,
  if◌then◌else◌, Bool-cases,
}
use cloudspells.Common.Text.{Text}
use cloudspells.Base.{
  is_upper, is_lower, is_digit, starts_word, split_acronyms, starts_upper, split_words, to_lower,
  lower,
}

-- The text without its hyphens.
unfoldable pub without_hyphens : Text → Text
without_hyphens [] = []
without_hyphens (c ∷ s) = if c == b'-' then without_hyphens s else c ∷ without_hyphens s

-- No capital letter.
unfoldable pub no_capital : Text → Bool
no_capital [] = true
no_capital (c ∷ s) = not (is_upper c) && no_capital s

-- Two hyphens in a row, where a hyphen may stand in front.
unfoldable pub double_hyphen : Bool → Text → Bool
double_hyphen hyphen [] = false
double_hyphen hyphen (c ∷ s) = (hyphen && c == b'-') || double_hyphen (c == b'-') s

upper_is_no_hyphen : (c : ℕ) → is_upper c ≡ true → (c == b'-') ≡ false
upper_is_no_hyphen c h = ground arith

small_is_no_hyphen : (c : ℕ) → (is_lower c || is_digit c) ≡ true → (c == b'-') ≡ false
small_is_no_hyphen c h = ground arith

pub without_hyphens-split_acronyms :
    (s : Text) → without_hyphens (split_acronyms s) ≡ without_hyphens s
unfolding without_hyphens split_acronyms
without_hyphens-split_acronyms [] = refl
without_hyphens-split_acronyms (c ∷ s) =
    let rest = without_hyphens-split_acronyms s in
    elim (Bool-cases (is_upper c && starts_word s)) [ inl e ↦ rw (e, rest) | inr e ↦ rw (e, rest) ]

pub without_hyphens-split_words : (s : Text) → without_hyphens (split_words s) ≡ without_hyphens s
unfolding without_hyphens split_words
without_hyphens-split_words [] = refl
without_hyphens-split_words (c ∷ s) =
    let rest = without_hyphens-split_words s in
    elim (Bool-cases ((is_lower c || is_digit c) && starts_upper s)) [
      | inl e ↦ rw (e, rest)
      | inr e ↦ rw (e, rest)
    ]

to_lower_hyphen : (c : ℕ) → (to_lower c == b'-') ≡ (c == b'-')
to_lower_hyphen c = ground arith

pub no_capital-lower : (s : Text) → no_capital (lower s) ≡ true
unfolding no_capital lower
no_capital-lower [] = refl
no_capital-lower (c ∷ s) = ground (arith, no_capital-lower s)

unfoldable pub no_hyphen : Text → Bool
no_hyphen [] = true
no_hyphen (c ∷ s) = not (c == b'-') && no_hyphen s

pub without_hyphens_free : (s : Text) → no_hyphen s ≡ true → without_hyphens s ≡ s
unfolding without_hyphens no_hyphen
without_hyphens_free [] h = refl
without_hyphens_free (c ∷ s) h = ground (arith, without_hyphens_free s)

free_parts :
    (c : ℕ) (s : Text) → no_hyphen (c ∷ s) ≡ true → ((c == b'-') ≡ false) × (no_hyphen s ≡ true)
unfolding no_hyphen
free_parts c s h = (ground arith, ground arith)

and_no : (b : Bool) → (b && false) ≡ false
and_no true = refl
and_no false = refl

pub double_hyphen-split_acronyms :
    (h : Bool) (s : Text) → no_hyphen s ≡ true → double_hyphen h (split_acronyms s) ≡ false
unfolding double_hyphen split_acronyms
double_hyphen-split_acronyms h [] free = refl
double_hyphen-split_acronyms h (c ∷ s) free =
    let (plain, rest) = free_parts c s free in
    elim (Bool-cases (is_upper c && starts_word s)) [
      | inl e ↦ rw e (rw (plain, and_no h) (double_hyphen-split_acronyms true s rest))
      | inr e ↦ rw e (rw (plain, and_no h) (double_hyphen-split_acronyms false s rest))
    ]

-- In front of a capital letter a hyphen is no double one.
double_hyphen-upper :
    (s : Text) → starts_upper s ≡ true → double_hyphen true s ≡ double_hyphen false s
unfolding double_hyphen
double_hyphen-upper [] h = refl
double_hyphen-upper (c ∷ s) h = rw (upper_is_no_hyphen c h)

or_parts : (a b : Bool) → (a || b) ≡ false → (a ≡ false) × (b ≡ false)
or_parts true b h = absurd (cc)
or_parts false b h = (refl, h)

pub and_parts : (a b : Bool) → (a && b) ≡ true → (a ≡ true) × (b ≡ true)
and_parts true b h = (refl, h)
and_parts false b h = absurd (cc)

pub double_hyphen-split_words :
    (h : Bool) (s : Text) → double_hyphen h s ≡ false → double_hyphen h (split_words s) ≡ false
unfolding double_hyphen split_words
double_hyphen-split_words h [] single = refl
double_hyphen-split_words h (c ∷ s) single =
    let (here, rest) = or_parts (h && c == b'-') (double_hyphen (c == b'-') s) single in
    elim (Bool-cases ((is_lower c || is_digit c) && starts_upper s)) [
      | inr e ↦ rw e (rw here (double_hyphen-split_words (c == b'-') s rest))
      | inl e ↦
          let (small, capital) = and_parts (is_lower c || is_digit c) (starts_upper s) e in
          let plain = small_is_no_hyphen c small in
          let after = double_hyphen-upper s capital ∙ (rw plain at rest) in
          rw e (rw (plain, and_no h) (double_hyphen-split_words true s after))
    ]

pub double_hyphen-lower : (h : Bool) (s : Text) → double_hyphen h (lower s) ≡ double_hyphen h s
unfolding double_hyphen lower
double_hyphen-lower h [] = refl
double_hyphen-lower h (c ∷ s) =
    rw (to_lower_hyphen c) (ap (λ b. (h && c == b'-') || b) (double_hyphen-lower (c == b'-') s))
