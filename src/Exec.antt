-- ===== src/Exec.antt =====
-- Methods that change an object and may raise: what was written before a raise stays written, so
-- the state comes back beside an error too.
pub mod Keeps
use cloudspells.Common.{
  ◌≡◌, refl, Bool, true, false, List, [], ◌∷◌, arith, Option, none, some, ◌⊎◌, inl, inr,
}

-- The exception classes that the modelled code raises. Messages are not kept.
pub data Error : Type 0 where
  value_error runtime_error index_error assertion_error recursion_error attribute_error key_error
        type_error command_error typer_exit typer_abort :
      Error

pub data Result {ℓ} (A : Type ℓ) : Type ℓ where
  ok : A → Result A
  err : Error → Result A

pub Result-cases {ℓ} :
    {A : Type ℓ} (r : Result A) → ((a : A) × (r ≡ ok a)) ⊎ ((e : Error) × (r ≡ err e))
Result-cases (ok a) = inl (a, refl)
Result-cases (err e) = inr (e, refl)

abbrev pub Exec : Type 0 → Type 0 → Type 0
Exec S A = S → Result A × S

abbrev pub Action : Type 0 → Type 0
Action S = Exec S (Unit {0})

module _ {S A : Type 0} where
  abbrev pub pure : A → Exec S A
  pure a s = (ok a, s)

  abbrev pub raise : Error → Exec S A
  raise e s = (err e, s)

  abbrev pub lift : Result A → Exec S A
  lift r s = (r, s)

  abbrev pub gets : (S → A) → Exec S A
  gets f s = (ok (f s), s)

abbrev pub modify : {S : Type 0} → (S → S) → Action S
modify f s = (ok tt, f s)

abbrev pub done : {S : Type 0} → Action S
done s = (ok tt, s)

module _ {S A B : Type 0} where
  abbrev pub proceed : Result A → (A → Exec S B) → Exec S B
  proceed (ok a) f = f a
  proceed (err e) f = raise e

  infixl 5 ◌>>=◌ ◌>>◌
  abbrev pub ◌>>=◌ : Exec S A → (A → Exec S B) → Exec S B
  m >>= f = λ s. let (r, s') = m s in proceed r f s'

  abbrev pub ◌>>◌ : Exec S A → Exec S B → Exec S B
  m >> n = m >>= λ _. n

-- `if test: raise e`
abbrev pub raise_if : {S : Type 0} → Bool → Error → Action S
raise_if true e = raise e
raise_if false e = done

-- `if test: body`
abbrev pub when : {S : Type 0} → Bool → Action S → Action S
when true body = body
when false body = done

-- `for x in xs: body x`
unfoldable pub for_each : {S A : Type 0} → List A → (A → Action S) → Action S
for_each [] body = done
for_each (x ∷ xs) body = do body x; for_each xs body

-- Inversion of a sequence that returned: both parts returned, and the second had the last word.
pub >>-ok :
    {S : Type 0} (m n : Action S) (s : S)
    → ((m >> n) s).0 ≡ ok tt
    → ((m s).0 ≡ ok tt) × ((n (m s).1).0 ≡ ok tt) × ((m >> n) s ≡ n (m s).1)
>>-ok m n s h = elim (Result-cases (m s).0) [
  | inl (tt, e) ↦ (e, rw e at h, rw e)
  | inr (x, e) ↦ absurd (ground arith)
]

-- A sequence raises what its first part raises.
pub >>-err :
    {S : Type 0} (m n : Action S) (s : S) (e : Error)
    → (m s).0 ≡ err e
    → (m >> n) s ≡ (err e, (m s).1)
>>-err m n s e h = rw h

-- Inversion of a sequence that returned: its first part returned, and then the second.
pub >>=-ok :
    {S A B : Type 0} (m : Exec S A) (f : A → Exec S B) (s : S) {b : B}
    → ((m >>= f) s).0 ≡ ok b
    → (a : A) × ((m s).0 ≡ ok a) × ((f a (m s).1).0 ≡ ok b)
>>=-ok m f s h = elim (Result-cases (m s).0) [
  | inl (a, e) ↦ (a, e, rw e at h)
  | inr (x, e) ↦ absurd (ground arith)
]

pub ok_injective : {A : Type 0} {a b : A} → ok a ≡ ok b → a ≡ b
ok_injective e = cc
