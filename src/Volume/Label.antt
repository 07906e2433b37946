-- ===== src/Volume/Label.antt =====
-- The pattern for labels accepts what the documentation describes, and that with a newline behind.
use cloudspells.Common.{
  ℕ, ◌≡◌, refl, Bool, true, false, not, ◌&&◌, ◌||◌, [], ◌∷◌, ◌==◌, arith, if◌then◌else◌, Bool-cases,
  inl, inr,
}
use cloudspells.Common.Text.{Text}
use cloudspells.Volume.{is_lower, is_word, is_nil, follows, label_matches}

-- The description, point by point.
pub starts_lower : Text → Bool
starts_lower [] = false
starts_lower (c ∷ s) = is_lower c

-- lowercase letters, digits and hyphens only
pub all_allowed : Text → Bool
all_allowed [] = true
all_allowed (c ∷ s) = (is_word c || c == b'-') && all_allowed s

-- no two hyphens in a row, where a hyphen may stand in front
pub single_hyphens : Bool → Text → Bool
single_hyphens hyphen [] = true
single_hyphens hyphen (c ∷ s) = not (hyphen && c == b'-') && single_hyphens (c == b'-') s

pub ends_hyphen : Bool → Text → Bool
ends_hyphen hyphen [] = hyphen
ends_hyphen hyphen (c ∷ s) = ends_hyphen (c == b'-') s

pub is_label : Text → Bool
unfolding starts_lower all_allowed single_hyphens ends_hyphen
is_label s =
    starts_lower s && (all_allowed s && (single_hyphens false s && not (ends_hyphen false s)))

-- the text without one newline at its end
pub strip_newline : Text → Text
strip_newline [] = []
strip_newline (c ∷ s) = if c == b'\n' && is_nil s then [] else c ∷ strip_newline s

rest_ok : Bool → Text → Bool
unfolding all_allowed single_hyphens ends_hyphen
rest_ok hyphen s = all_allowed s && (single_hyphens hyphen s && not (ends_hyphen hyphen s))

word_is_plain : (c : ℕ) → is_word c ≡ true → ((c == b'-') ≡ false) × ((c == b'\n') ≡ false)
word_is_plain c h = (ground arith, ground arith)

hyphen_is_no_newline : (c : ℕ) → (c == b'-') ≡ true → (c == b'\n') ≡ false
hyphen_is_no_newline c h = ground arith

single_after :
    (hyphen : Bool) (t : Text)
    → rest_ok false t ≡ (
        true
        && (all_allowed t
            && ((not (hyphen && false) && single_hyphens false t) && not (ends_hyphen false t))))
unfolding rest_ok
single_after true t = refl
single_after false t = refl

and_false : (b : Bool) → false ≡ (b && false)
and_false true = refl
and_false false = refl

single_hyphen_after :
    (hyphen f : Bool) (t : Text)
    → f ≡ rest_ok true t
    → (not hyphen && f) ≡ (
        all_allowed t
        && ((not (hyphen && true) && single_hyphens true t) && not (ends_hyphen true t)))
unfolding rest_ok
single_hyphen_after true f t e = and_false (all_allowed t)
single_hyphen_after false f t e = e

-- a newline at the end, or a character that no label has
other_after :
    (hyphen stop : Bool) (c : ℕ) (t : Text)
    → is_word c ≡ false
    → (c == b'-') ≡ false
    → (not hyphen && stop) ≡ rest_ok hyphen (if stop then [] else c ∷ t)
unfolding rest_ok all_allowed single_hyphens ends_hyphen
other_after true true c t w h = refl
other_after false true c t w h = refl
other_after true false c t w h = rw (w, h) refl
other_after false false c t w h = rw (w, h) refl

follows-eq : (hyphen : Bool) (s : Text) → follows hyphen s ≡ rest_ok hyphen (strip_newline s)
unfolding follows rest_ok strip_newline all_allowed single_hyphens ends_hyphen
follows-eq true [] = refl
follows-eq false [] = refl
follows-eq hyphen (c ∷ s) =
    let word = follows-eq false s in
    let dash = follows-eq true s in
    elim (Bool-cases (is_word c)) [
      | inl w ↦
          let (h, n) = word_is_plain c w in
          rw (w, n) (rw (w, h) (rw word (single_after hyphen (strip_newline s))))
      | inr w ↦ elim (Bool-cases (c == b'-')) [
        | inl h ↦
            let n = hyphen_is_no_newline c h in
            rw (w, h, n)
              (rw (w, h) (single_hyphen_after hyphen (follows true s) (strip_newline s) dash))
        | inr h ↦ rw (w, h) (other_after hyphen (c == b'\n' && is_nil s) c (strip_newline s) w h)
      ]
    ]

-- A label passes the pattern exactly when it is as described, after one newline at its end is
-- dropped.
pub label_matches-eq : (s : Text) → label_matches s ≡ is_label (strip_newline s)
unfolding label_matches is_label starts_lower strip_newline rest_ok
label_matches-eq [] = refl
label_matches-eq (c ∷ []) = ground arith
label_matches-eq (c ∷ (d ∷ s)) = ground (arith, follows-eq false (d ∷ s))
