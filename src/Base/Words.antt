-- ===== src/Base/Words.antt =====
-- The kebab-case name of a spell: its words are those of the class.
use cloudspells.Common.{
  ◌≡◌, refl, ap, sym, ◌∙◌, ℕ, Bool, true, false, ◌&&◌, ◌||◌, [], ◌∷◌, arith, inl, inr,
  if◌then◌else◌, Bool-cases,
}
use cloudspells.Common.Text.{Text}
use cloudspells.Base.{
  is_upper, is_lower, is_digit, after_colon, starts_word, split_acronyms, starts_upper, split_words,
  lower, spell_type_from_urn,
}
use cloudspells.Base.SpellType.{
  without_hyphens, no_capital, double_hyphen, no_hyphen, without_hyphens-split_words,
  without_hyphens-split_acronyms, without_hyphens_free, no_capital-lower, double_hyphen-lower,
  double_hyphen-split_words, double_hyphen-split_acronyms, and_parts,
}

-- A word ends between the letter and what follows it: at a small letter or a digit in front of a
-- capital, and at a capital in front of a capital that a small letter follows.
abbrev pub word_ends : ℕ → Text → Bool
word_ends c s = ((is_lower c || is_digit c) && starts_upper s) || (is_upper c && starts_word s)

-- The text with a hyphen at the end of each word but the last, in one pass.
unfoldable pub cut : Text → Text
cut [] = []
cut (c ∷ s) = let rest = cut s in if word_ends c s then c ∷ b'-' ∷ rest else c ∷ rest

starts_upper-split_acronyms : (s : Text) → starts_upper (split_acronyms s) ≡ starts_upper s
unfolding split_acronyms
starts_upper-split_acronyms [] = refl
starts_upper-split_acronyms (c ∷ s) = elim (Bool-cases (is_upper c && starts_word s)) [
  | inl e ↦ rw e
  | inr e ↦ rw e
]

-- A capital letter is no small one and no digit.
upper_alone : (c : ℕ) → is_upper c ≡ true → (is_lower c || is_digit c) ≡ false
upper_alone c h = ground arith

or_no : (b : Bool) → (b || false) ≡ b
or_no true = refl
or_no false = refl

-- The two substitutions find the ends of the words of the name itself.
split_words-split_acronyms : (s : Text) → split_words (split_acronyms s) ≡ cut s
unfolding split_words split_acronyms cut
split_words-split_acronyms [] = refl
split_words-split_acronyms (c ∷ s) =
    let rest = split_words-split_acronyms s in
    elim (Bool-cases (is_upper c && starts_word s)) [
      | inl e ↦
          let (upper, _) = and_parts (is_upper c) (starts_word s) e in
          rw (e, upper_alone c upper, rest) refl
      | inr e ↦
          rw
            (
              e,
              starts_upper-split_acronyms s,
              rest,
              or_no ((is_lower c || is_digit c) && starts_upper s),
            )
            refl
    ]

-- For a class name without hyphens, the spell type is that name in kebab case: the lower case of the
-- name with a hyphen at the end of each word but the last, and at no other place. It has no capital
-- letter and no two hyphens in a row, and without the hyphens the cut name is the name.
pub spell_type_from_urn-kebab :
    (resource_type : Text)
    → no_hyphen (after_colon resource_type) ≡ true
    → (spell_type_from_urn resource_type ≡ lower (cut (after_colon resource_type)))
      × (no_capital (spell_type_from_urn resource_type) ≡ true)
      × (double_hyphen false (spell_type_from_urn resource_type) ≡ false)
      × (without_hyphens (cut (after_colon resource_type)) ≡ after_colon resource_type)
unfolding spell_type_from_urn
spell_type_from_urn-kebab resource_type free =
    let name = after_colon resource_type in
    let words = split_words (split_acronyms name) in
    (
      ap lower (split_words-split_acronyms name),
      no_capital-lower words,
      double_hyphen-lower false words
          ∙ double_hyphen-split_words false (split_acronyms name)
              (double_hyphen-split_acronyms false name free),
      ap without_hyphens (sym (split_words-split_acronyms name))
          ∙ without_hyphens-split_words (split_acronyms name)
          ∙ without_hyphens-split_acronyms name
          ∙ without_hyphens_free name free,
    )
