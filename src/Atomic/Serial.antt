-- ===== src/Atomic/Serial.antt =====
-- `atomically` of tl2/stm.h among other threads, over all its attempts.
use tl2_cpp.Common.{
  ℕ, zero, suc, ◌+◌, ◌*◌, ◌^◌, ◌<◌, ◌≡◌, refl, sym, ◌∙◌, ap, subst, Bool, true, false, List, arith,
  ◌⊎◌, inl, inr, Bool-cases,
}
use tl2_cpp.Common.Res.{ok}
use tl2_cpp.LocationSet.Vendored.{AddrMap, Sorter}
use tl2_cpp.Manager.{Shared, World, done, in_transaction}
use tl2_cpp.TVar.Alone.{over}
use tl2_cpp.Tx.{Tx, Ending, exec}
use tl2_cpp.Tx.Runs.{Runs, run-exec}
use tl2_cpp.Stm.Commit.{decides}
use tl2_cpp.Stm.TryCommit.{Tried, next_version, try_commit-Tried, vec}
use tl2_cpp.Atomic.{Arg, start, handle, attempts, atomically}
use tl2_cpp.Atomic.Alone.{IsSound, next_version-decides, start-IsRunning, tried-IsOpen}
use tl2_cpp.Atomic.Others.{ver, IsQuiet, Later, Later-trans, small-HasRoom, Tried-Later}
use tl2_cpp.Atomic.Restored.{SameVars, restore_args-same}
use tl2_cpp.Atomic.Attempt.{IsPeers, Took-me, Serial, others, threw, committed, retried}

module _ {m : AddrMap} (srt : Sorter) {V A B : Type 0} (trivial : Bool)
    (t : List (Arg B) → Tx V (A × List (Arg B))) (env : ℕ → Shared V → Shared V) where
  module _ (d : ℕ) (peers : IsPeers d env) (args : List (Arg B))
      (tame : (mem : ℕ → V) (r : A) (args' : List (Arg B)) (mem' : ℕ → V)
        → exec (t args) mem ≡ inr ((r, args'), mem')
        → SameVars args args') where
    -- One attempt, and what follows it: either it is the last one because no other thread moves in
    -- it, or the call goes on well after it.
    turn :
        (k n : ℕ) (w w₁ : World m V) (o : Ending V (A × List (Arg B)))
        → ((s : Shared V) → env n s ≡ s)
          ⊎ ((w₃ : World m V)
              → IsSound w₃
              → IsQuiet w₃.shared
              → ver w₃.shared.clock + k * suc d < 2 ^ 63
              → Serial srt trivial t env args w₃
                  (handle (attempts srt trivial t env k (suc n) args args w₃)))
        → IsQuiet w.shared
        → ver w.shared.clock + suc d + k * suc d < 2 ^ 63
        → start w ≡ done tt w₁
        → w₁.shared ≡ w.shared
        → w₁.manager.me ≡ w.manager.me
        → w₁.manager.rv ≡ ver w.shared.clock
        → ((mem : ℕ → V) (b : ℕ) → over w₁ mem b ≡ mem b)
        → exec (t args) w.shared.mem ≡ o
        → Runs trivial (t args) w₁ o
        → Serial srt trivial t env args w
            (handle (attempts srt trivial t env (suc k) n args args w))
    turn k n w w₁ (inl e) next q small e₁ sh me rv v₁ eo runs =
        threw srt trivial t env e k n args w w₁ q e₁ sh me eo runs
    turn k n w w₁ (inr ((r, args'), mem)) next q small e₁ sh me rv v₁ eo (w₂, e₂, r₂, k₂, v₂, s₂) =
        let few = peers.few n w.shared q (omega arith) in
        let q' = peers.quiet n w.shared q (omega arith) in
        let l = peers.later n w.shared q (omega arith) in
        let same : env n w₂.shared ≡ env n w.shared = ap (env n) (k₂.shared ∙ sh) in
        let q₂ : IsQuiet (env n w₂.shared) = subst IsQuiet (sym same) q' in
        let clock : ver (env n w₂.shared).clock ≡ ver (env n w.shared).clock =
          ap (λ (s : Shared V). ver s.clock) same in
        let room = small-HasRoom (env n w₂.shared) q₂.opened.clock (omega (arith, few, clock)) in
        let (w₃, e₃, tr) = try_commit-Tried srt (others env n w₂) r₂.log q₂.opened.free in
        elim (Bool-cases (
          decides w₂.manager.rv (next_version (others env n w₂)) (env n w₂.shared).locks
            (vec w₂))) [
              | inl sure ↦
                  committed srt trivial t env k n args args' w w₁ w₂ r q q' l (omega (arith, few))
                    e₁ sh me rv v₁ e₂ r₂ k₂ s₂ w₃ (e₃ ∙ ap (λ c. ok (c, w₃)) sure)
                    (subst (λ c. Tried c (others env n w₂) w₃) sure tr) sure
              | inr stale ↦ elim next [
                | inl still ↦
                    let sure = next_version-decides (others env n w₂) room (
                      k₂.rv
                      ∙ rv
                      ∙ ap (λ (s : Shared V). ver s.clock) (sym (same ∙ still w.shared))) in
                    let no : true ≡ false = sym sure ∙ stale in absurd (ground (arith, no))
                | inr go ↦
                    let (opened, tick) = tried-IsOpen (others env n w₂) w₃ _ q₂.opened room tr in
                    let (quiet, later) =
                      Tried-Later (others env n w₂) w₃ _ q₂ (omega (arith, few, clock)) tr in
                    let (s, ls, qs, took) =
                      go w₃ tr.backed quiet (omega (arith, tick, few, clock)) in
                    (
                      s,
                      Later-trans (Later-trans l (subst (λ x. Later x w₃.shared) same later)) ls,
                      qs,
                      Took-me (exec (t args) s.mem) s w w₃ (tr.me ∙ k₂.me ∙ me)
                          (retried srt trivial t env k n args args' w w₁ w₂ w₃ r e₁ e₂
                            (e₃ ∙ ap (λ c. ok (c, w₃)) stale)
                            (restore_args-same args args' (tame w.shared.mem r args' mem eo)))
                          took,
                    )
              ]
            ]

    serial :
        (k n j at : ℕ) (w : World m V)
        → j < k
        → at ≡ n + j
        → ((s : Shared V) → env at s ≡ s)
        → IsSound w
        → IsQuiet w.shared
        → ver w.shared.clock + k * suc d < 2 ^ 63
        → Serial srt trivial t env args w (handle (attempts srt trivial t env k n args args w))
    serial zero n j at w bound e still sound q small = absurd (omega (arith, bound))
    serial (suc k) n zero at w bound e still sound q small =
        let (w₁, e₁, r₁, sh₁, me₁, rv₁, v₁) = start-IsRunning w sound q.opened in
        turn k n w w₁ (exec (t args) w.shared.mem)
          (inl (subst (λ i. (s : Shared V) → env i s ≡ s) (omega (arith, e)) still)) q
          (omega (arith, small)) e₁ sh₁ me₁ rv₁ v₁ refl
          (run-exec trivial (t args) w₁ w.shared.mem r₁
            (λ b. v₁ w₁.shared.mem b ∙ ap (λ (s : Shared V). s.mem b) sh₁))
    serial (suc k) n (suc j) at w bound e still sound q small =
        let (w₁, e₁, r₁, sh₁, me₁, rv₁, v₁) = start-IsRunning w sound q.opened in
        turn k n w w₁ (exec (t args) w.shared.mem)
          (inr λ w₃ sound₃ q₃ small₃.
            serial k (suc n) j at w₃ (omega (arith, bound)) (omega (arith, e)) still sound₃ q₃
              small₃)
          q (omega (arith, small)) e₁ sh₁ me₁ rv₁ v₁ refl
          (run-exec trivial (t args) w₁ w.shared.mem r₁
            (λ b. v₁ w₁.shared.mem b ∙ ap (λ (s : Shared V). s.mem b) sh₁))

    -- Outside a transaction, let `k` attempts be allowed, let other threads do whole commits between
    -- a body and its commit, at most `d` of them each time, and none at the attempt `j`, which is
    -- one of those allowed; let the body keep the `TVar`s among its arguments, each entry of the log
    -- own a live object of its own, the shared state be quiet, and versions be left for all of this.
    -- Then `atomically` ends, and it ends as if its body had run at once on a shared state that is
    -- later than the first one and quiet: with the body's result, its writes in the data and the
    -- clock one version further, in a shared state that is quiet and later still, or with its
    -- exception, in that shared state. The log is then empty and the thread outside of a
    -- transaction, but after an exception that is no `std::exception`: that leaves the thread in its
    -- transaction, with its log.
    pub atomically-Serial :
        (k j : ℕ) (w : World m V)
        → j < k
        → ((s : Shared V) → env j s ≡ s)
        → in_transaction w.manager ≡ false
        → IsSound w
        → IsQuiet w.shared
        → ver w.shared.clock + k * suc d < 2 ^ 63
        → Serial srt trivial t env args w (atomically srt trivial t env k args w)
    unfolding atomically
    atomically-Serial k j w bound still out sound q small =
        rw (out, atomically) (serial k 0 j j w bound (omega arith) still sound q small)
