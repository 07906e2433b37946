-- ===== src/Volume.antt =====
-- `VolumeSpec` of packages/cloudspells-oci/src/cloudspells/providers/oci/volume.py: a block volume
-- and the checks that it makes of itself.
pub mod Label
pub mod Checks
use cloudspells.Common.{
  ℕ, Bool, true, false, not, ◌&&◌, ◌||◌, Option, List, [], ◌∷◌, leb, ◌==◌, if◌then◌else◌,
}
use cloudspells.Common.Int.{ℤ, pos, negsuc}
use cloudspells.Common.Text.{Text}
use cloudspells.Exec.{Result, ok, err, value_error}

pub record VolumeSpec : Type 0 where
  pub size_in_gbs : ℤ
  pub label : Text
  pub vpus_per_gb : ℤ
  pub is_read_only : Bool
  pub device : Option Text

-- `n <= i` and `i <= n`
abbrev pub at_least : ℕ → ℤ → Bool
at_least n (pos k) = leb n k
at_least n (negsuc k) = false

abbrev pub at_most : ℕ → ℤ → Bool
at_most n (pos k) = leb k n
at_most n (negsuc k) = true

-- `_VALID_VPUS`
abbrev pub valid_vpus : ℤ → Bool
valid_vpus (pos k) = k == 0 || k == 10 || k == 20 || k == 120
valid_vpus (negsuc k) = false

abbrev pub max_size_in_gbs : ℕ
max_size_in_gbs = 32768

abbrev pub is_lower : ℕ → Bool
is_lower c = leb b'a' c && leb c b'z'

abbrev pub is_digit : ℕ → Bool
is_digit c = leb b'0' c && leb c b'9'

-- `[a-z0-9]`
abbrev pub is_word : ℕ → Bool
is_word c = is_lower c || is_digit c

abbrev pub is_nil : Text → Bool
is_nil [] = true
is_nil (_ ∷ _) = false

-- `_LABEL_RE`, read from left to right: what may follow a letter or digit, and what may follow a
-- hyphen. Python's `$` matches at the end, and before a newline at the end.
unfoldable pub follows : Bool → Text → Bool
follows false [] = true
follows true [] = false
follows hyphen (c ∷ s) =
    let word = follows false s in
    let dash = follows true s in
    if is_word c
    then word
    else if c == b'-'
    then not hyphen && dash
    else not hyphen && (c == b'\n' && is_nil s)

unfoldable pub label_matches : Text → Bool
unfolding follows
label_matches [] = false
label_matches (c ∷ s) = is_lower c && follows false s

-- `VolumeSpec(…)`, with the checks in their order.
unfoldable pub new_volume_spec : VolumeSpec → Result VolumeSpec
unfolding label_matches
new_volume_spec v =
    if not (at_least 50 v.size_in_gbs)
    then err value_error
    else if not (at_most max_size_in_gbs v.size_in_gbs)
    then err value_error
    else if not (valid_vpus v.vpus_per_gb)
    then err value_error
    else if not (label_matches v.label)
    then err value_error
    else ok v
