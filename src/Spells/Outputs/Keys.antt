-- ===== src/Spells/Outputs/Keys.antt =====
-- The keys of outputs: which of them are apart, and reading in lists of outputs.
use cloudspells.Common.{
  ℕ, ◌≡◌, refl, ap, ◌∙◌, sym, Bool, true, false, ◌&&◌, Option, none, some, [], ◌∷◌, ◌++◌, leb, ◌==◌,
  length, length-append, Bool-cases, inl, inr, arith, if◌then◌else◌,
}
use cloudspells.Common.Text.{Text, codes, text_eq, text_eq_refl, text_eq_sound}
use cloudspells.Naming.{ResourceNamer}
use cloudspells.Spells.Outputs.{
  Output, Exports, found_or, read_output, underscored, output_key, volume_key,
}

append_cancel_right : (s s' t : Text) → s ++ t ≡ s' ++ t → s ≡ s'
append_cancel_right [] [] t h = refl
append_cancel_right [] (d ∷ s') t h =
    absurd (omega (arith, ap (λ l. length l) h, length-append s' t))
append_cancel_right (c ∷ s) [] t h = absurd (omega (arith, ap (λ l. length l) h, length-append s t))
append_cancel_right (c ∷ s) (d ∷ s') t h = let rest = append_cancel_right s s' t (cc) in cc

text_eq-append_right : (s s' t : Text) → text_eq (s ++ t) (s' ++ t) ≡ text_eq s s'
text_eq-append_right s s' t = elim (Bool-cases (text_eq s s')) [
  | inl e ↦ rw (text_eq_sound s s' e) (text_eq_refl (s' ++ t) ∙ sym (text_eq_refl s'))
  | inr e ↦ elim (Bool-cases (text_eq (s ++ t) (s' ++ t))) [
    | inl h ↦
        let same = append_cancel_right s s' t (text_eq_sound _ _ h) in
        absurd (ground (arith, rw same at e, text_eq_refl s'))
    | inr h ↦ rw (e, h) refl
  ]
]

text_eq-append_left : (p s t : Text) → text_eq (p ++ s) (p ++ t) ≡ text_eq s t
unfolding text_eq
text_eq-append_left [] s t = refl
text_eq-append_left (c ∷ p) s t = ground (arith, text_eq-append_left p s t)

-- The keys of two labels are equal where the labels are.
pub output_key-volume_key :
    (n : ResourceNamer) (label label' : Text)
    → text_eq (output_key n (volume_key label)) (output_key n (volume_key label'))
      ≡ text_eq label label'
unfolding output_key volume_key text_eq
output_key-volume_key n label label' =
    text_eq-append_left (underscored n.resource_name) _ _
    ∙ text_eq-append_right label label' (codes "_volume_id")

-- The last code point, and another one for an empty text.
final : Text → ℕ → ℕ
final [] d = d
final (c ∷ s) d = final s c

final-append : (s : Text) (c d : ℕ) (t : Text) → final (s ++ (c ∷ t)) d ≡ final t c
unfolding final
final-append [] c d t = refl
final-append (x ∷ s) c d t = final-append s c x t

-- The text may be what `volume_key` makes of a label: it is long enough, and has its last letter.
unfoldable pub fits : Text → Bool
unfolding final
fits s = leb 10 (length s) && (final s 0 == b'd')

fits-volume_key : (label : Text) → fits (volume_key label) ≡ true
unfolding fits volume_key codes
fits-volume_key label = rw final-append (ground (arith, length-append label (codes "_volume_id")))

pub apart :
    (n : ResourceNamer) (suffix label : Text)
    → fits suffix ≡ false
    → text_eq (output_key n suffix) (output_key n (volume_key label)) ≡ false
unfolding output_key text_eq
apart n suffix label h =
    text_eq-append_left (underscored n.resource_name) _ _
    ∙ elim (Bool-cases (text_eq suffix (volume_key label))) [
      | inl e ↦
          let same = text_eq_sound suffix (volume_key label) e in
          absurd (ground (arith, rw same at h, fits-volume_key label))
      | inr e ↦ rw e refl
    ]

pub found_or-none : (o : Option Output) → found_or o none ≡ o
found_or-none none = refl
found_or-none (some o) = refl

found_or_assoc : (a b c : Option Output) → found_or (found_or a b) c ≡ found_or a (found_or b c)
found_or_assoc none b c = refl
found_or_assoc (some a) b c = refl

read_output-append :
    (xs ys : Exports) (key : Text)
    → read_output (xs ++ ys) key ≡ found_or (read_output ys key) (read_output xs key)
unfolding read_output
read_output-append [] ys key = sym (found_or-none (read_output ys key))
read_output-append ((k, o) ∷ xs) ys key =
    ap (λ r. found_or r (if text_eq k key then some o else none)) (read_output-append xs ys key)
    ∙ found_or_assoc (read_output ys key) (read_output xs key) _

pub read_output-absent :
    (xs ys zs : Exports) (key : Text)
    → read_output xs key ≡ none
    → read_output zs key ≡ none
    → read_output (xs ++ (ys ++ zs)) key ≡ read_output ys key
read_output-absent xs ys zs key hx hz =
    rw (read_output-append, hx, found_or-none, read_output-append, hz) refl
