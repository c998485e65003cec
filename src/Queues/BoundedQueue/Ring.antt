-- ===== src/Queues/BoundedQueue/Ring.antt =====
-- Slots of a ring.
use tl2_cpp.Common.{
  ℕ, ◌+◌, ◌-◌, ◌%◌, ◌≤◌, ◌<◌, ◌≡◌, ap, sym, ◌∙◌, true, false, ◌==◌, arith, ltb, Bool-cases, inl,
  inr, eq_of_==, ==_refl, ltb→lt,
}
use native.Mathlib.Nat.{mod-lt, mod-add-mod, mod-eq-sub-mod, mod-eq_of_lt}

-- Less than a lap on, the remainder is another.
lap : (r d c : ℕ) → r < c → 0 < d → d < c → r ≡ (r + d) % c → ⊥
lap r d c small pos bound e = elim (Bool-cases (ltb (r + d) c)) [
  | inl l ↦
      let at_most : (r + d) % c ≡ r + d = mod-eq_of_lt (ltb→lt (r + d) c l) in
      omega (arith, e ∙ at_most, pos)
  | inr g ↦
      let over : c ≤ r + d = ground (arith, g) in
      let back : (r + d) % c ≡ r + d - c =
        mod-eq-sub-mod over ∙ mod-eq_of_lt (omega (arith, small, bound, over)) in
      omega (arith, e ∙ back, pos, bound, over)
]

-- Positions less than a lap apart have different slots.
slots_differ : (a d c : ℕ) → 0 < d → d < c → (a % c == (a + d) % c) ≡ false
slots_differ a d c pos small = elim (Bool-cases (a % c == (a + d) % c)) [
  | inr n ↦ n
  | inl e ↦
      let r : a % c < c = mod-lt a (omega (arith, pos, small)) in
      let same : a % c ≡ (a % c + d) % c =
        eq_of_== (a % c) ((a + d) % c) e ∙ sym (mod-add-mod a c d) in
      absurd (lap (a % c) d c r pos small same)
]

pub slot : (t i c : ℕ) → t ≡ i → (t % c == i % c) ≡ true
slot t i c e = ap (λ n. n % c == i % c) e ∙ ==_refl (i % c)

pub differ : (t i d c : ℕ) → t ≡ i + d → 0 < d → d < c → (t % c == i % c) ≡ false
differ t i d c e pos small =
    ap (λ n. n % c == i % c) e ∙ turn (i % c) ((i + d) % c) (slots_differ i d c pos small)
  where
    turn : (a b : ℕ) → (a == b) ≡ false → (b == a) ≡ false
    turn a b n = ground (arith, n)
