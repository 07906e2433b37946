-- ===== src/Spells/Compose.antt =====
-- Spells placed on one live network, one after another: each of them changes the network through
-- calls of its methods alone.
use cloudspells.Common.{
  ◌≡◌, refl, sym, ap, ◌∙◌, Bool, true, false, List, [], ◌∷◌, ◌++◌, inl, inr, if◌then◌else◌,
}
use cloudspells.Common.Text.{Text}
use cloudspells.Exec.{Exec, Action, Result, Result-cases, ◌>>=◌, ◌>>◌}
use cloudspells.IpNetwork.{IpText}
use cloudspells.Roles.{SubnetTier}
use cloudspells.Rules.{SlRules}
use cloudspells.Vcn.Defs.{Vcn, add_security_list_rules, add_unique_security_list_rules}
use cloudspells.Vcn.Collect.{Call, add, add_unique, finalize, call, calls}
use cloudspells.Spells.Site.{Site, vcn, on_own, site_finalize_network, there, ask}

pub calls-append :
    (ip : IpText) (cs ds : List Call) (v : Vcn)
    → calls ip (cs ++ ds) v ≡ calls ip ds (calls ip cs v)
unfolding calls
calls-append ip [] ds v = refl
calls-append ip (c ∷ cs) ds v = calls-append ip cs ds (call ip c v).1

-- The action leaves a network that some calls of its methods leave.
abbrev pub IsCalls : IpText → {A : Type 0} → Exec Vcn A → Vcn → Type 0
IsCalls ip m v = (cs : List Call) × ((m v).1 ≡ calls ip cs v)

abbrev pub IsSiteCalls : IpText → {A : Type 0} → Exec Site A → Vcn → Type 0
IsSiteCalls ip m v = (cs : List Call) × ((m (vcn v)).1 ≡ vcn (calls ip cs v))

-- A step that leaves everything as it is.
abbrev pub Looks : {A : Type 0} → Exec Site A → Type 0
Looks m = (s : Site) → (m s).1 ≡ s

pub Looks-bind :
    {A B : Type 0} (m : Exec Site A) (k : A → Exec Site B)
    → Looks m
    → ((a : A) → Looks (k a))
    → Looks (m >>= k)
Looks-bind m k hm hk s = elim (Result-cases (m s).0) [
  | inl (a, e) ↦ rw e (hk a (m s).1 ∙ hm s)
  | inr (x, e) ↦ rw e (hm s)
]

pub Looks-ask :
    {A B : Type 0} (f : Site → Result A) (k : A → Exec Site B)
    → ((a : A) → Looks (k a))
    → Looks (ask f >>= k)
Looks-ask f k h = Looks-bind (ask f) k (λ s. refl) h

pub Looks-there :
    {B : Type 0} (tier : SubnetTier) (k : Text → Exec Site B)
    → ((id : Text) → Looks (k id))
    → Looks (there tier >>= k)
Looks-there tier k h = Looks-bind (there tier) k (λ s. refl) h

module _ (ip : IpText) where
  pub still : (v : Vcn) → (cs : List Call) × (v ≡ calls ip cs v)
  unfolding calls
  still v = ([], refl)

  pub IsCalls-bind :
      {A B : Type 0} (m : Exec Vcn A) (f : A → Exec Vcn B) (v : Vcn)
      → IsCalls ip m v
      → ((a : A) (w : Vcn) → IsCalls ip (f a) w)
      → IsCalls ip (m >>= f) v
  IsCalls-bind m f v (cs, e) k = elim (Result-cases (m v).0) [
    | inl (a, r) ↦
        let (ds, e') = k a (m v).1 in
        (cs ++ ds, rw r (e' ∙ ap (calls ip ds) e ∙ sym (calls-append ip cs ds v)))
    | inr (x, r) ↦ (cs, rw r e)
  ]

  IsSiteCalls-bind :
      {A B : Type 0} (m : Exec Site A) (f : A → Exec Site B) (v : Vcn)
      → IsSiteCalls ip m v
      → ((a : A) (w : Vcn) → IsSiteCalls ip (f a) w)
      → IsSiteCalls ip (m >>= f) v
  IsSiteCalls-bind m f v (cs, e) k = elim (Result-cases (m (vcn v)).0) [
    | inl (a, r) ↦
        let (ds, e') = k a (calls ip cs v) in
        (cs ++ ds, rw (r, e) (e' ∙ ap vcn (sym (calls-append ip cs ds v))))
    | inr (x, r) ↦ (cs, rw r e)
  ]

  pub add-IsCalls : (added : SlRules) (v : Vcn) → IsCalls ip (add_security_list_rules added) v
  unfolding calls call
  add-IsCalls added v = (add added ∷ [], refl)

  pub add_unique-IsCalls :
      (fingerprint : Text) (added : SlRules) (v : Vcn)
      → IsCalls ip (add_unique_security_list_rules fingerprint added) v
  unfolding calls call
  add_unique-IsCalls fingerprint added v = (add_unique fingerprint added ∷ [], refl)

  on_own-IsSiteCalls : (m : Action Vcn) (v : Vcn) → IsCalls ip m v → IsSiteCalls ip (on_own m) v
  unfolding on_own
  on_own-IsSiteCalls m v (cs, e) = (cs, ap vcn e)

  site_finalize-IsSiteCalls : (v : Vcn) → IsSiteCalls ip (site_finalize_network ip) v
  unfolding site_finalize_network on_own calls call
  site_finalize-IsSiteCalls v = (finalize ∷ [], refl)

  -- Whatever the test says.
  pub pick-IsCalls :
      {A : Type 0} (b : Bool) (x y : Result A × Vcn) (v : Vcn)
      → (cs : List Call) × (x.1 ≡ calls ip cs v)
      → (cs : List Call) × (y.1 ≡ calls ip cs v)
      → (cs : List Call) × ((if b then x else y).1 ≡ calls ip cs v)
  pick-IsCalls true x y v hx hy = hx
  pick-IsCalls false x y v hx hy = hy

  Looks-IsSiteCalls : {A : Type 0} (m : Exec Site A) → Looks m → (v : Vcn) → IsSiteCalls ip m v
  Looks-IsSiteCalls m h v = let (cs, e) = still v in (cs, h (vcn v) ∙ ap vcn e)

-- How a spell is placed: its checks, its rules, the network finalized, and what it makes there.
abbrev pub placed :
    {A B : Type 0} → IpText → Exec Site B → (B → Action Vcn) → (B → Exec Site A) → Exec Site A
placed ip guard rules look =
    guard >>= λ b. (on_own (rules b) >> (site_finalize_network ip >> look b))

-- On a live network, the spell is placed so.
pub record IsPlaced (ip : IpText) {A : Type 0} (spell : Exec Site A) : Type 1 where
  pub Checked : Type 0
  pub guard : Exec Site Checked
  pub rules : Checked → Action Vcn
  pub look : Checked → Exec Site A
  pub shape : (v : Vcn) → spell (vcn v) ≡ placed ip guard rules look (vcn v)
  pub guard_looks : Looks guard
  pub rules_calls : (b : Checked) (v : Vcn) → IsCalls ip (rules b) v
  pub look_looks : (b : Checked) → Looks (look b)

module _ (ip : IpText) {A : Type 0} (spell : Exec Site A) (p : IsPlaced ip spell) where
  finish : p.Checked → Exec Site A
  finish b = site_finalize_network ip >> p.look b

  finish-IsSiteCalls : (b : p.Checked) (v : Vcn) → IsSiteCalls ip (finish b) v
  unfolding finish
  finish-IsSiteCalls b v =
      IsSiteCalls-bind ip (site_finalize_network ip) (λ (_ : Unit {0}). p.look b) v
        (site_finalize-IsSiteCalls ip v) (λ _ w. Looks-IsSiteCalls ip (p.look b) (p.look_looks b) w)

  pub IsPlaced-IsSiteCalls : (v : Vcn) → IsSiteCalls ip spell v
  unfolding finish
  IsPlaced-IsSiteCalls v = rw (p.shape v) (
      IsSiteCalls-bind ip p.guard (λ b. (on_own (p.rules b) >> finish b)) v
        (Looks-IsSiteCalls ip p.guard p.guard_looks v)
        (λ b w.
          IsSiteCalls-bind ip (on_own (p.rules b)) (λ (_ : Unit {0}). finish b) w
            (on_own-IsSiteCalls ip (p.rules b) w (p.rules_calls b w))
            (λ _ x. finish-IsSiteCalls b x)))
