-- ===== src/Rights/Monotone.antt =====
-- Capabilities only shrink, and a role is given once.
use aaaos_renovation_agent_o.Prelude.{
  ℕ, ◌-◌, ◌^◌, ◌≤◌, ◌<◌, ◌≡◌, refl, ap, ◌∙◌, true, false, arith, ℤ, inl, inr, ◌⊎◌, ◌↔◌,
}
use aaaos_renovation_agent_o.Proc.{Proc, ok, is_normal, cap_all}
use aaaos_renovation_agent_o.Rights.{minus, cap_set, role_set, with_caps}
use aaaos_renovation_agent_o.Rights.Bits.{
  bit, bit-zero, bit-and, bit-not, bit-le, eq-zero-of-bits, and-le,
}

-- Every right of the first set is in the second.
abbrev pub Within : ℕ → ℕ → Type 0
Within a b = (k : ℕ) → k < 64 → bit k a ≤ bit k b

minus-Within : (a b : ℕ) → b < 2 ^ 64 → minus a b ≡ 0 → Within a b
unfolding minus
minus-Within a b h e k l = omega (
  arith,
  bit-and k a (2 ^ 64 - 1 - b),
  ap (bit k) e ∙ bit-zero k,
  bit-not 64 k b l h,
  bit-le k a,
  bit-le k b,
)

Within-minus : (a b : ℕ) → a < 2 ^ 64 → b < 2 ^ 64 → Within a b → minus a b ≡ 0
unfolding minus
Within-minus a b ha hb w =
    eq-zero-of-bits 64 _ (omega (arith, and-le a a (2 ^ 64 - 1 - b) (omega arith))) λ k l.
      omega
        (arith, bit-and k a (2 ^ 64 - 1 - b), bit-not 64 k b l hb, bit-le k a, bit-le k b, w k l)

-- cap_set succeeds exactly for an Agent and a set of its own defined rights, and then that set is
-- what the Agent has.
pub cap_set_iff :
    (p : Proc) (caps : ℕ)
    → p.agent_capabilities < 2 ^ 64
    → caps < 2 ^ 64
    → ((cap_set p caps).0 ≡ ok)
      ↔ ((is_normal p ≡ false) × Within caps cap_all × Within caps p.agent_capabilities)
unfolding cap_set
cap_set_iff p caps hp hc = (
  (λ h.
      let e : minus caps cap_all ≡ 0 = ground arith in
      let f : minus caps p.agent_capabilities ≡ 0 = ground arith in
      (
        ground arith,
        minus-Within caps cap_all (omega arith) e,
        minus-Within caps p.agent_capabilities hp f,
      )),
  λ h.
      let e : minus caps cap_all ≡ 0 = Within-minus caps cap_all hc (omega arith) h.1 in
      let f : minus caps p.agent_capabilities ≡ 0 =
        Within-minus caps p.agent_capabilities hc hp h.2 in
      let n = h.0 in ground arith,
)

pub Within-refl : (a : ℕ) → Within a a
Within-refl a k l = omega arith

cap_set-cases :
    (p : Proc) (caps : ℕ)
    → ((cap_set p caps).1 ≡ p)
      ⊎ ((minus caps p.agent_capabilities ≡ 0) × ((cap_set p caps).1 ≡ with_caps p caps))
unfolding cap_set
cap_set-cases p caps = ground arith

pub cap_set_lem :
    (p : Proc) (caps : ℕ)
    → p.agent_capabilities < 2 ^ 64
    → caps < 2 ^ 64
    → Within (cap_set p caps).1.agent_capabilities p.agent_capabilities
      × ((cap_set p caps).1.agent_capabilities < 2 ^ 64)
      × ((cap_set p caps).1.agent_role ≡ p.agent_role)
      × ((cap_set p caps).1.agent_role_locked ≡ p.agent_role_locked)
cap_set_lem p caps hp hc = elim (cap_set-cases p caps) [
  | inl e ↦ rw e (Within-refl p.agent_capabilities, hp, refl, refl)
  | inr (m, e) ↦ rw e (minus-Within caps p.agent_capabilities hp m, hc, refl, refl)
]

pub role_set-locked : (p : Proc) (role : ℤ) → p.agent_role_locked ≡ true → (role_set p role).1 ≡ p
unfolding role_set
role_set-locked p role h = ground arith
