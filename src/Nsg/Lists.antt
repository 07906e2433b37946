-- ===== src/Nsg/Lists.antt =====
-- Rules in the security lists of a live network: added once, and kept by later calls.
use cloudspells.Common.{ℕ, ◌≡◌, refl, true, false, [], ◌∷◌, inl, ◌==◌, ==_iff}
use cloudspells.Common.Text.{Text, codes, contains, text_eq}
use cloudspells.Exec.{ok}
use cloudspells.Exec.Keeps.{Keeps}
use cloudspells.Roles.{SubnetTier, public, private, secure, management, tier_name, same_tier}
use cloudspells.Rules.{SlIngress, SlEgress, SlRules, extend, ingress_of, egress_of}
use cloudspells.Vcn.Defs.{Vcn, has_ambient_rule, add_unique_security_list_rules}
use cloudspells.Vcn.Collect.{IsExtension, add_unique-IsExtension, with_rules}
use cloudspells.Nsg.Defs.{live}
use cloudspells.Nsg.Roles.{
  on_vcn, sl_for_tier, ingress_for, egress_for, egress_fingerprint, ingress_fingerprint,
}
use cloudspells.Nsg.Serves.{Any, Any-append_left, Any-append_right}

-- One rule stands in the egress of the one tier, and one in the ingress of the other.
pub record IsListed (from to : SubnetTier) (out : SlEgress) (back : SlIngress) (v : Vcn)
    : Type 0 where
  pub listed_out : Any (λ r. r ≡ out) (egress_of v.rules from)
  pub listed_back : Any (λ r. r ≡ back) (ingress_of v.rules to)

egress_of-extend :
    (P : SlEgress → Type 0) (r more : SlRules) (tier : SubnetTier)
    → Any P (egress_of r tier)
    → Any P (egress_of (extend r more) tier)
egress_of-extend P r more public h = Any-append_left P _ _ h
egress_of-extend P r more private h = Any-append_left P _ _ h
egress_of-extend P r more secure h = Any-append_left P _ _ h
egress_of-extend P r more management h = Any-append_left P _ _ h

ingress_of-extend :
    (P : SlIngress → Type 0) (r more : SlRules) (tier : SubnetTier)
    → Any P (ingress_of r tier)
    → Any P (ingress_of (extend r more) tier)
ingress_of-extend P r more public h = Any-append_left P _ _ h
ingress_of-extend P r more private h = Any-append_left P _ _ h
ingress_of-extend P r more secure h = Any-append_left P _ _ h
ingress_of-extend P r more management h = Any-append_left P _ _ h

egress_of-added :
    (r : SlRules) (tier : SubnetTier) (rule : SlEgress)
    → Any (λ e. e ≡ rule) (egress_of (extend r (egress_for tier (rule ∷ []))) tier)
egress_of-added r public rule = Any-append_right _ r.public_egress (rule ∷ []) (inl refl)
egress_of-added r private rule = Any-append_right _ r.private_egress (rule ∷ []) (inl refl)
egress_of-added r secure rule = Any-append_right _ r.secure_egress (rule ∷ []) (inl refl)
egress_of-added r management rule = Any-append_right _ r.management_egress (rule ∷ []) (inl refl)

ingress_of-added :
    (r : SlRules) (tier : SubnetTier) (rule : SlIngress)
    → Any (λ e. e ≡ rule) (ingress_of (extend r (ingress_for tier (rule ∷ []))) tier)
ingress_of-added r public rule = Any-append_right _ r.public_ingress (rule ∷ []) (inl refl)
ingress_of-added r private rule = Any-append_right _ r.private_ingress (rule ∷ []) (inl refl)
ingress_of-added r secure rule = Any-append_right _ r.secure_ingress (rule ∷ []) (inl refl)
ingress_of-added r management rule = Any-append_right _ r.management_ingress (rule ∷ []) (inl refl)

-- The first call with a fingerprint, on an open network.
pub add_unique-first :
    (fingerprint : Text) (added : SlRules) (v : Vcn)
    → v.security_lists_finalized ≡ false
    → has_ambient_rule v fingerprint ≡ false
    → add_unique_security_list_rules fingerprint added v ≡ (
      ok tt,
      with_rules v (extend v.rules added) (fingerprint ∷ v.applied_ambient_rule_fingerprints),
    )
unfolding add_unique_security_list_rules
add_unique-first fingerprint added v open_ fresh = rw (open_, fresh)

-- Egress and ingress have different fingerprints, when the tiers differ.
pub fingerprints_differ :
    (from to : SubnetTier) (port : Text)
    → same_tier from to ≡ false
    → text_eq (egress_fingerprint from port to) (ingress_fingerprint to port from) ≡ false
unfolding text_eq codes tier_name egress_fingerprint ingress_fingerprint same_tier
fingerprints_differ public private port h = refl
fingerprints_differ public secure port h = refl
fingerprints_differ public management port h = refl
fingerprints_differ private public port h = refl
fingerprints_differ private secure port h = refl
fingerprints_differ private management port h = refl
fingerprints_differ secure public port h = refl
fingerprints_differ secure private port h = refl
fingerprints_differ secure management port h = refl
fingerprints_differ management public port h = refl
fingerprints_differ management private port h = refl
fingerprints_differ management secure port h = refl
fingerprints_differ public public port h = cc
fingerprints_differ private private port h = cc
fingerprints_differ secure secure port h = cc
fingerprints_differ management management port h = cc

module _ (from to : SubnetTier) (out : SlEgress) (back : SlIngress) where
  IsListed-extend :
      {v w : Vcn} → IsExtension v w → IsListed from to out back v → IsListed from to out back w
  IsListed-extend {v} {w} x h = rw x.shape (record {
    listed_out = egress_of-extend _ v.rules x.more from h.listed_out;
    listed_back = ingress_of-extend _ v.rules x.more to h.listed_back;
  })

  pub IsListed-sl_for_tier :
      (k : ℕ) (fingerprint : Text) (added : SlRules)
      → Keeps (λ c. IsListed from to out back (c.vcns k)) (sl_for_tier (live k) fingerprint added)
  unfolding sl_for_tier on_vcn
  IsListed-sl_for_tier k fingerprint added c h =
      let e : (k == k) ≡ true = (==_iff k k).1 refl in
      rw e (IsListed-extend (add_unique-IsExtension fingerprint added (c.vcns k)) h)

  -- Both rules are there after the two calls.
  pub IsListed-both :
      (f g : Text) (v : Vcn)
      → v.security_lists_finalized ≡ false
      → has_ambient_rule v f ≡ false
      → has_ambient_rule v g ≡ false
      → text_eq f g ≡ false
      → IsListed from to out back
          (add_unique_security_list_rules g
            (ingress_for to (back ∷ []))
            (add_unique_security_list_rules f (egress_for from (out ∷ [])) v).1).1
  unfolding has_ambient_rule contains
  IsListed-both f g v open_ fresh_f fresh_g differ =
      let w =
        with_rules v (extend v.rules (egress_for from (out ∷ [])))
          (f ∷ v.applied_ambient_rule_fingerprints) in
      rw (add_unique-first f (egress_for from (out ∷ [])) v open_ fresh_f) (
        rw (add_unique-first g (ingress_for to (back ∷ [])) w open_ (rw (differ, fresh_g)))
          (record {
            listed_out =
                egress_of-extend _ w.rules (ingress_for to (back ∷ [])) from
                  (egress_of-added v.rules from out);
            listed_back = ingress_of-added w.rules to back;
          }))
