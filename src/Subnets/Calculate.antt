-- ===== src/Subnets/Calculate.antt =====
-- `calculate_subnets`: enough subnets, none wasted, and none that overlap.
use cloudspells.Common.{
  ℕ, zero, suc, ◌+◌, ◌-◌, ◌^◌, ◌≤◌, ◌<◌, ◌≡◌, refl, ap, sym, List, [], ◌∷◌, arith, ltb, take,
  length, Bool-cases, inl, inr, length-take_of_le, ◌==◌, if◌then◌else◌,
}
use native.Mathlib.Nat.{pow-suc, pow-le-pow_right}
use native.Mathlib.Decide.{ℕ_discrete, dec_lt}
use cloudspells.Exec.{Result, ok, err, value_error}
use cloudspells.IpNetwork.{IpNetwork, num_addresses, tally, subnets}
use cloudspells.IpNetwork.Tiling.{
  parts, subnets-eq-parts, tally-subnets, length-parts, subnets_to-eq-subnets,
}
use cloudspells.Subnets.{grow_prefix, calculate_networks}

lt-two_pow : (n : ℕ) → n < 2 ^ n
lt-two_pow zero = omega arith
lt-two_pow (suc n) = rw (pow-suc 2 n) (omega (arith, lt-two_pow n))

-- The loop stops at the least number of new bits that makes enough subnets.
record IsLeast (bits num : ℕ) : Type 0 where
  enough : num ≤ 2 ^ bits
  least : (fewer : ℕ) → fewer < bits → 2 ^ fewer < num

below_suc :
    (fewer bits num : ℕ)
    → ((k : ℕ) → k < bits → 2 ^ k < num)
    → 2 ^ bits < num
    → fewer < bits + 1
    → 2 ^ fewer < num
below_suc fewer bits num below last lt = elim (ℕ_discrete fewer bits) [
  | yes e ↦ rw e last
  | no ne ↦ below fewer (omega arith)
]

grow_prefix-IsLeast :
    (fuel prefix num bits : ℕ)
    → num ≤ fuel + bits
    → ((fewer : ℕ) → fewer < bits → 2 ^ fewer < num)
    → (bits' : ℕ) × (grow_prefix fuel prefix num (prefix + bits) ≡ prefix + bits')
      × IsLeast bits' num
unfolding grow_prefix
grow_prefix-IsLeast zero prefix num bits h below =
    (bits, refl, record { enough = omega (arith, lt-two_pow bits); least = below })
grow_prefix-IsLeast (suc fuel) prefix num bits h below =
    let e : prefix + bits - prefix ≡ bits = omega arith in
    let e' : prefix + bits + 1 ≡ prefix + (bits + 1) = omega arith in
    rw (e, e')
      (elim (Bool-cases (ltb (2 ^ bits) num)) [
        | inl few ↦ rw few (
            grow_prefix-IsLeast fuel prefix num (bits + 1) (omega arith)
              (λ fewer lt. below_suc fewer bits num below (ground arith) lt))
        | inr stop ↦ rw stop (bits, refl, record { enough = ground arith; least = below })
      ])

tally-take : (a n : ℕ) (nets : List IpNetwork) → tally a (take n nets) ≤ tally a nets
unfolding tally
tally-take a zero nets = omega arith
tally-take a (suc n) [] = omega arith
tally-take a (suc n) (net ∷ nets) = omega (arith, tally-take a n nets)

-- What a plan of `num` subnets promises: there are so many, they lie in the network, and no
-- address is in two of them.
pub record IsPlan (net : IpNetwork) (num : ℕ) (nets : List IpNetwork) : Type 0 where
  pub complete : length nets ≡ num
  pub disjoint : (a : ℕ) → tally a nets ≤ tally a (net ∷ [])

IsPlan-take :
    (net : IpNetwork) (num bits : ℕ)
    → net.prefixlen + bits ≤ net.max_prefixlen
    → num ≤ 2 ^ bits
    → IsPlan net num (take num (parts net bits))
IsPlan-take net num bits fits enough = record {
  complete = length-take_of_le num (parts net bits) (rw (length-parts net bits) enough);
  disjoint = λ a. omega (
    arith,
    tally-take a num (parts net bits),
    tally-subnets net bits a (subnets-eq-parts net bits fits),
  );
}

abbrev take_all : ℕ → Result (List IpNetwork) → Result (List IpNetwork)
take_all num (ok nets) = ok (take num nets)
take_all num (err e) = err e

-- calculate_networks with the number of new bits that its loop finds
calculate_networks-eq :
    (net : IpNetwork) (num : ℕ)
    → (bits : ℕ) × (calculate_networks net num ≡ take_all num (subnets net bits)) × IsLeast bits num
unfolding calculate_networks
calculate_networks-eq net num =
    let start : net.prefixlen + 0 ≡ net.prefixlen = omega arith in
    let (bits, reached, least) =
      grow_prefix-IsLeast num net.prefixlen num 0 (omega arith)
        (λ fewer lt. absurd (omega arith)) in
    let stop : grow_prefix num net.prefixlen num net.prefixlen - net.prefixlen ≡ bits =
      omega (arith, ap (λ p. grow_prefix num net.prefixlen num p) (sym start), reached) in
    let grown : net.prefixlen ≤ grow_prefix num net.prefixlen num net.prefixlen =
      omega (arith, ap (λ p. grow_prefix num net.prefixlen num p) (sym start), reached) in
    (bits, rw (subnets_to-eq-subnets net _ grown, stop) (ground arith), least)

bits_fit :
    (net : IpNetwork) (num bits : ℕ)
    → net.prefixlen ≤ net.max_prefixlen
    → num ≤ num_addresses net
    → IsLeast bits num
    → net.prefixlen + bits ≤ net.max_prefixlen
bits_fit net num bits valid room least =
    let spare = net.max_prefixlen - net.prefixlen in
    elim (dec_lt spare bits) [
      | yes over ↦ absurd (omega (arith, least.least spare over))
      | no within ↦ omega arith
    ]

bits_over :
    (net : IpNetwork) (num bits : ℕ)
    → num_addresses net < num
    → IsLeast bits num
    → net.max_prefixlen < net.prefixlen + bits
bits_over net num bits full least =
    let spare = net.max_prefixlen - net.prefixlen in
    elim (dec_lt spare bits) [
      | yes over ↦ omega arith
      | no within ↦ absurd (
          omega (
            arith,
            least.enough,
            pow-le-pow_right {n = 2} (omega arith) {i = bits} {j = spare} (omega arith),
          ))
    ]

-- When the network has enough addresses, the result is `num` subnets that lie in the network and
-- do not overlap.
pub calculate_networks-IsPlan :
    (net : IpNetwork) (num : ℕ)
    → net.prefixlen ≤ net.max_prefixlen
    → num ≤ num_addresses net
    → (nets : List IpNetwork) × (calculate_networks net num ≡ ok nets) × IsPlan net num nets
calculate_networks-IsPlan net num valid room =
    let (bits, e, least) = calculate_networks-eq net num in
    let fits = bits_fit net num bits valid room least in
    (
      take num (parts net bits),
      rw (e, subnets-eq-parts net bits fits),
      IsPlan-take net num bits fits least.enough,
    )

take_single : (net : IpNetwork) (num : ℕ) → 1 < num → take num (net ∷ []) ≡ net ∷ []
take_single net zero h = absurd (omega arith)
take_single net (suc zero) h = refl
take_single net (suc (suc num)) h = refl

-- When it has too few, the call raises `ValueError`, but a single address "splits" into itself: the
-- result is then a list of that one network, and no error.
pub calculate_networks_short :
    (net : IpNetwork) (num : ℕ)
    → net.prefixlen ≤ net.max_prefixlen
    → num_addresses net < num
    → calculate_networks net num
      ≡ (if net.prefixlen == net.max_prefixlen then ok (net ∷ []) else err value_error)
unfolding subnets
calculate_networks_short net num valid full =
    let (bits, e, least) = calculate_networks-eq net num in
    let over = bits_over net num bits full least in
    elim (Bool-cases (net.prefixlen == net.max_prefixlen)) [
      | inl same ↦
          rw (e, same)
            (ap ok (
              take_single net num
                (omega (arith, lt-two_pow (net.max_prefixlen - net.prefixlen), full))))
      | inr other ↦ rw (e, other) (ground (arith, over))
    ]
