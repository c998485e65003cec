-- ===== src/Atomic/Escaped.antt =====
-- What is left on a thread by an exception that the `catch` block of `atomically`, tl2/stm.h, does not
-- catch, since it is no `std::exception`.
use tl2_cpp.Common.{ℕ, suc, ◌≡◌, refl, subst, Bool, true, false, inl, inr, List}
use tl2_cpp.LocationSet.Vendored.{AddrMap, Sorter}
use tl2_cpp.Manager.{
  Shared, World, foreign, Outcome, done, thrown, spinning, undefined, in_transaction,
}
use tl2_cpp.TVar.Alone.{IsRunning, view}
use tl2_cpp.Tx.{Tx, Ending, exec, run}
use tl2_cpp.Tx.Runs.{Runs, run-exec}
use tl2_cpp.Atomic.{Arg, atomically}
use tl2_cpp.Atomic.Alone.{IsSound, IsOpen, HasRoom, Ends, atomically-exec, quiet_env}

module _ {m : AddrMap} {V : Type 0} where
  in_transaction-running : {w : World m V} → IsRunning w → in_transaction w.manager ≡ true
  unfolding in_transaction
  in_transaction-running r = rw r.state refl

module _ {m : AddrMap} {V A : Type 0} where
  -- The call has returned or thrown with the shared state as it is in `s`, inside a transaction.
  abbrev pub Unwritten : Shared V → Outcome (World m V) A → Type 0
  Unwritten s (done r w) = (w.shared ≡ s) × (in_transaction w.manager ≡ true)
  Unwritten s (thrown e w) = (w.shared ≡ s) × (in_transaction w.manager ≡ true)
  Unwritten s spinning = ⊥
  Unwritten s undefined = ⊥

  Runs-Unwritten :
      (trivial : Bool) (t : Tx V A) (w : World m V) (o : Ending V A)
      → Runs trivial t w o
      → Unwritten w.shared (run trivial t w)
  Runs-Unwritten trivial t w (inl e) (w', at, r, k) = rw at (k.shared, in_transaction-running r)
  Runs-Unwritten trivial t w (inr (x, mem)) (w', at, r, k, v, s) =
      rw at (k.shared, in_transaction-running r)

module _ {m : AddrMap} (srt : Sorter) {V A B C D : Type 0} (trivial : Bool)
    (t : List (Arg B) → Tx V (A × List (Arg B))) (u : List (Arg D) → Tx V (C × List (Arg D))) where
  -- Outside a transaction, with an attempt allowed, no lock held, a version left, each entry of the
  -- log with a live object of its own, and while no other thread moves: a body that throws what is no
  -- `std::exception` leaves its thread in the transaction, with the shared state as it was. Whatever
  -- the next call of `atomically` is given as its body, and however many attempts, it returns or
  -- throws without any of its writes in the data, the clock where it was, and still in a transaction.
  pub atomically-Unwritten :
      (k n : ℕ) (args : List (Arg B)) (next : List (Arg D)) (w : World m V)
      → in_transaction w.manager ≡ false
      → IsSound w
      → IsOpen w.shared
      → HasRoom w.shared
      → exec (t args) w.shared.mem ≡ inl foreign
      → (w₁ : World m V) × (atomically srt trivial t quiet_env (suc k) args w ≡ thrown foreign w₁)
        × Unwritten w.shared (atomically srt trivial u quiet_env n next w₁)
  unfolding atomically
  atomically-Unwritten k n args next w out sound o room e =
      let ended : Ends srt trivial t (inl foreign) (suc k) args w =
        subst (λ x. Ends srt trivial t x (suc k) args w) e
          (atomically-exec srt trivial t k args w out sound o room) in
      let (w₁, at, same, me, r) = ended in
      (
        w₁,
        at,
        subst (λ s. Unwritten s (atomically srt trivial u quiet_env n next w₁)) same
            (rw (in_transaction-running r, atomically)
              (Runs-Unwritten trivial (u next) w₁ _
                (run-exec trivial (u next) w₁ (view w₁) r (λ b. refl)))),
      )
