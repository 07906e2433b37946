-- ===== src/Exec/Keeps.antt =====
-- Invariants of actions, one rule for each way to build an action.
use cloudspells.Common.{◌≡◌, refl, Bool, true, false, List, [], ◌∷◌, inl, inr, if◌then◌else◌}
use cloudspells.Exec.{Exec, Action, Result-cases, when, for_each, ◌>>=◌}

-- The action keeps `P`, whether it returns or raises.
abbrev pub Keeps : {S A : Type 0} → (S → Type 0) → Exec S A → Type 0
Keeps {S} P m = (s : S) → P s → P (m s).1

module _ {S : Type 0} (P : S → Type 0) where
  pub Keeps-bind :
      {A B : Type 0} (m : Exec S A) (f : A → Exec S B)
      → Keeps P m
      → ((a : A) → Keeps P (f a))
      → Keeps P (m >>= f)
  Keeps-bind m f km kf s h = elim (Result-cases (m s).0) [
    | inl (a, e) ↦ rw e (kf a (m s).1 (km s h))
    | inr (x, e) ↦ rw e (km s h)
  ]

  pub Keeps-when : (b : Bool) (m : Action S) → (b ≡ true → Keeps P m) → Keeps P (when b m)
  Keeps-when true m k = k refl
  Keeps-when false m k = λ s h. h

  pub Keeps-if :
      {A : Type 0} (b : Bool) (m n : Exec S A)
      → Keeps P m
      → Keeps P n
      → Keeps P (if b then m else n)
  Keeps-if true m n km kn = km
  Keeps-if false m n km kn = kn

  pub Keeps-for_each :
      {A : Type 0} (xs : List A) (body : A → Action S)
      → ((x : A) → Keeps P (body x))
      → Keeps P (for_each xs body)
  unfolding for_each
  Keeps-for_each [] body k = λ s h. h
  Keeps-for_each (x ∷ xs) body k =
      Keeps-bind (body x) (λ _. for_each xs body) (k x) (λ _. Keeps-for_each xs body k)
