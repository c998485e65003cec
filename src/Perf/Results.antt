-- ===== src/Perf/Results.antt =====
-- What the programs of perf/ and of the shared counters leave.
use tl2_cpp.Common.{
  some-ne_none, ℕ, zero, suc, ◌+◌, ◌*◌, ◌%◌, ◌^◌, ◌<◌, ◌≡◌, false, refl, ap, ◌∙◌, some, List, [],
  ◌∷◌, ◌++◌, ◌==◌, update, arith, ==_refl, sym, ◌⊎◌, inl, inr, if◌then◌else◌,
}
use tl2_cpp.Manager.{Exception}
use tl2_cpp.Tx.{Tx, Ending, exec}
use tl2_cpp.Perf.{count_thread, exec_all, run, exchange, exchange_thread}

ending :
    {V A : Type 0} (o : Ending V A)
    → ((e : Exception) × (o ≡ inl e)) ⊎ ((r : A × (ℕ → V)) × (o ≡ inr r))
ending (inl e) = inl (e, refl)
ending (inr r) = inr (r, refl)

-- Lists of transactions one after the other.
exec_all-append :
    (ts us : List (Tx ℕ Unit)) (mem mem' : ℕ → ℕ)
    → exec_all ts mem ≡ some mem'
    → exec_all (ts ++ us) mem ≡ exec_all us mem'
unfolding exec_all
exec_all-append [] us mem mem' e = (let same : mem ≡ mem' = cc in ap (exec_all us) same)
exec_all-append (t ∷ ts) us mem mem' e = elim (ending (exec t mem)) [
  | inl (x, throws) ↦ absurd (some-ne_none (sym (rw (throws, exec_all) at e)))
  | inr ((_, mem₁), done) ↦
      rw (done, exec_all) (exec_all-append ts us mem₁ mem' (rw (done, exec_all) at e))
]

count_thread-value :
    (c niters : ℕ) (mem : ℕ → ℕ)
    → mem c < 2 ^ 32
    → (mem' : ℕ → ℕ) × (exec_all (count_thread c niters) mem ≡ some mem')
      × (mem' c ≡ (mem c + niters) % 2 ^ 32)
unfolding exec_all count_thread exec
count_thread-value c zero mem lt = (mem, refl, omega (arith, lt))
count_thread-value c (suc niters) mem lt =
    let (mem', e, at) =
      count_thread-value c niters (update mem c ((mem c + 1) % 2 ^ 32))
        (rw (==_refl c) (omega arith)) in
    (mem', e, at ∙ rw (==_refl c) (omega arith))

-- The program counts all increments of both threads, modulo 2 ^ 32.
pub run-value : (c niters : ℕ) (mem : ℕ → ℕ) → run c niters mem ≡ some (2 * niters % 2 ^ 32)
unfolding run exec
run-value c niters mem =
    let start = update mem c 0 in
    let (mem₁, e₁, at₁) = count_thread-value c niters start (rw (==_refl c) (omega arith)) in
    let (mem₂, e₂, at₂) = count_thread-value c niters mem₁ (omega (arith, at₁)) in
    let both = exec_all-append (count_thread c niters) (count_thread c niters) start mem₁ e₁ ∙ e₂ in
    let zero_start : start c ≡ 0 = rw (==_refl c) refl in
    rw (both, run) (ap some (omega (arith, at₂, at₁, zero_start)))

-- After an even number of exchanges the two variables have their values again, after an odd number
-- each has that of the other.
pub exchange_thread-values :
    (a b n : ℕ) (mem : ℕ → ℕ)
    → (a == b) ≡ false
    → (mem' : ℕ → ℕ) × (exec_all (exchange_thread a b n) mem ≡ some mem')
      × (mem' a ≡ (if n % 2 == 0 then mem a else mem b))
      × (mem' b ≡ (if n % 2 == 0 then mem b else mem a))
unfolding exec_all exchange_thread exchange exec
exchange_thread-values a b zero mem ne = (mem, refl, refl, refl)
exchange_thread-values a b (suc n) mem ne =
    let swapped = update (update mem a (mem b)) b (mem a) in
    let (mem', e, at_a, at_b) = exchange_thread-values a b n swapped ne in
    let now_a : swapped a ≡ mem b = ground (arith, ne) in
    let now_b : swapped b ≡ mem a = rw (==_refl b) refl in
    (mem', e, ground (arith, at_a, now_a, now_b), ground (arith, at_b, now_a, now_b))
