-- ===== src/Atomic/Attempt.antt =====
-- One attempt of `atomically` of tl2/stm.h among other threads: it throws, commits or is aborted.
use tl2_cpp.Common.{
  ℕ, suc, ◌+◌, ◌^◌, ◌<◌, ◌≤◌, ◌≡◌, refl, sym, ◌∙◌, ap, subst, fun_ext, Bool, true, false, inl, inr,
  List,
}
use tl2_cpp.Common.Res.{ok}
use tl2_cpp.Log
use tl2_cpp.LocationSet.Vendored.{AddrMap, Sorter}
use tl2_cpp.Manager.{
  Shared, World, Outcome, done, Exception, invalid_access, failure, foreign, zombie,
}
use tl2_cpp.TVar.Alone.{IsRunning, Kept, over, is_read}
use tl2_cpp.Tx.{Tx, Ending, exec, run}
use tl2_cpp.Tx.Runs.{Runs, Stands}
use tl2_cpp.Stm.{try_commit}
use tl2_cpp.Stm.Commit.{decides}
use tl2_cpp.Stm.TryCommit.{Tried, next_version, vec}
use tl2_cpp.Atomic.{Arg, restore_args, start, interfere, handle, attempts}
use tl2_cpp.Atomic.Alone.{IsOver, Threw, handle-Threw, finish-new, tried-IsOpen}
use tl2_cpp.Atomic.Others.{
  ver, IsQuiet, Later, Later-refl, small-HasRoom, Tried-Later, decides-same,
}

module _ {V : Type 0} where
  -- Other threads, as they are seen between the accesses of one: with at most `d` commits each time,
  -- while there are versions left, they keep the shared state quiet and give newer versions to what
  -- they change.
  pub record IsPeers (d : ℕ) (env : ℕ → Shared V → Shared V) : Type 0 where
    pub quiet : (n : ℕ) (s : Shared V) → IsQuiet s → ver s.clock + d < 2 ^ 63 → IsQuiet (env n s)
    pub later : (n : ℕ) (s : Shared V) → IsQuiet s → ver s.clock + d < 2 ^ 63 → Later s (env n s)
    pub few :
        (n : ℕ) (s : Shared V)
        → IsQuiet s
        → ver s.clock + d < 2 ^ 63
        → ver (env n s).clock ≤ ver s.clock + d

module _ {m : AddrMap} {V : Type 0} where
  moved :
      (s : Shared V) (w w₃ : World m V) {mem : ℕ → V} {n : ℕ} {w' : World m V}
      → IsOver mem n (record w₃ { shared = s }) w'
      → w₃.manager.me ≡ w.manager.me
      → IsOver mem n (record w { shared = s }) w'
  moved s w w₃ o me = record {
    contents = o.contents;
    clock = o.clock;
    opened = o.opened;
    me = o.me ∙ me;
    state = o.state;
    log = o.log;
  }

module _ {m : AddrMap} {V A B : Type 0} where
  -- How a call ends whose body does at once, on the shared state `s`, what the ending says: it
  -- returns the body's result and its writes are in the data, or it throws and leaves the state.
  abbrev pub Took :
      Ending V (A × List (Arg B))
      → Shared V
      → World m V
      → Outcome (World m V) (A × List (Arg B))
      → Type 0
  Took (inr (r, mem)) s w out =
      (w' : World m V) × (out ≡ done r w')
      × IsOver mem 1 (record w { shared = s }) w'
      × IsQuiet w'.shared
      × Later s w'.shared
  Took (inl e) s w out = Threw e s w out

  pub Took-me :
      (o : Ending V (A × List (Arg B))) (s : Shared V) (w w₃ : World m V)
      {out out₃ : Outcome (World m V) (A × List (Arg B))}
      → w₃.manager.me ≡ w.manager.me
      → out ≡ out₃
      → Took o s w₃ out₃
      → Took o s w out
  Took-me (inr (r, mem)) s w w₃ me e (w', e', o, q, l) = (w', e ∙ e', moved s w w₃ o me, q, l)
  Took-me (inl foreign) s w w₃ me e (w', e', same, me', r) = (w', e ∙ e', same, me' ∙ me, r)
  Took-me (inl failure) s w w₃ me e (w', e', same, o) = (w', e ∙ e', same, moved s w w₃ o me)
  Took-me (inl invalid_access) s w w₃ me e (w', e', same, o) = (w', e ∙ e', same, moved s w w₃ o me)

module _ {m : AddrMap} {V : Type 0} (env : ℕ → Shared V → Shared V) where
  -- The world when a body is over and others have moved.
  abbrev pub others : ℕ → World m V → World m V
  others n w = record w { shared = env n w.shared }

module _ {m : AddrMap} {V A : Type 0} where
  -- Over data `now` that a commit finds valid, the body at once does what its run through the log,
  -- which began over data `before`, has done.
  exec-valid :
      (t : Tx V A) (before now : Shared V) (w₁ w₂ : World m V) (r : A)
      → w₁.shared ≡ before
      → w₂.manager.rv ≡ ver before.clock
      → IsQuiet now
      → ver now.clock + 1 < 2 ^ 63
      → Later before now
      → ((mem : ℕ → V) (b : ℕ) → over w₁ mem b ≡ mem b)
      → Stands t w₁ w₂ r
      → decides w₂.manager.rv (next_version (record w₂ { shared = now })) now.locks (vec w₂) ≡ true
      → exec t now.mem ≡ inr (r, over w₂ now.mem)
  exec-valid t before now w₁ w₂ r sh rv q small l fresh st sure =
      let kept : (a : ℕ) → is_read w₂ a ≡ true → now.mem a ≡ before.mem a =
        decides-same (record w₂ { shared = now }) before rv q small l sure in
      ap (exec t) (sym (fun_ext (fresh now.mem)))
      ∙ st.again now.mem (λ b h. kept b h ∙ ap (λ (s : Shared V). s.mem b) (sym sh))

module _ {m : AddrMap} (srt : Sorter) {V A B : Type 0} (trivial : Bool)
    (t : List (Arg B) → Tx V (A × List (Arg B))) (env : ℕ → Shared V → Shared V) where
  -- The call ends as if its body had run at once at some moment of it.
  abbrev pub Serial : List (Arg B) → World m V → Outcome (World m V) (A × List (Arg B)) → Type 0
  Serial args w out =
      (s : Shared V) × Later w.shared s × IsQuiet s × Took (exec (t args) s.mem) s w out

  pub threw :
      (e : Exception) (k n : ℕ) (args : List (Arg B)) (w w₁ : World m V)
      → IsQuiet w.shared
      → start w ≡ done tt w₁
      → w₁.shared ≡ w.shared
      → w₁.manager.me ≡ w.manager.me
      → exec (t args) w.shared.mem ≡ inl e
      → Runs trivial (t args) w₁ (inl e)
      → Serial args w (handle (attempts srt trivial t env (suc k) n args args w))
  unfolding attempts
  threw e k n args w w₁ q e₁ sh me raised (w₂, e₂, r₂, k₂) = (
    w.shared,
    Later-refl w.shared,
    q,
    subst (λ o. Took o w.shared w (handle (attempts srt trivial t env (suc k) n args args w)))
        (sym raised)
        (handle-Threw e w w₂ (attempts srt trivial t env (suc k) n args args w) (rw (e₁, e₂) refl)
          (k₂.shared ∙ sh) (k₂.me ∙ me) q.opened r₂),
  )

  -- An attempt whose commit succeeds took place after the others have moved.
  pub committed :
      (k n : ℕ) (args args' : List (Arg B)) (w w₁ w₂ : World m V) (r : A)
      → IsQuiet w.shared
      → IsQuiet (env n w.shared)
      → Later w.shared (env n w.shared)
      → ver (env n w.shared).clock + 1 < 2 ^ 63
      → start w ≡ done tt w₁
      → w₁.shared ≡ w.shared
      → w₁.manager.me ≡ w.manager.me
      → w₁.manager.rv ≡ ver w.shared.clock
      → ((mem : ℕ → V) (b : ℕ) → over w₁ mem b ≡ mem b)
      → run trivial (t args) w₁ ≡ done (r, args') w₂
      → IsRunning w₂
      → Kept w₁ w₂
      → Stands (t args) w₁ w₂ (r, args')
      → (w₃ : World m V) → try_commit srt (others env n w₂) ≡ ok (true, w₃)
      → Tried true (others env n w₂) w₃
      → decides w₂.manager.rv (next_version (others env n w₂)) (env n w₂.shared).locks (vec w₂)
        ≡ true
      → Serial args w (handle (attempts srt trivial t env (suc k) n args args w))
  unfolding attempts handle interfere
  committed k n args args' w w₁ w₂ r q q' l small e₁ sh me rv v₁ e₂ r₂ k₂ s₂ w₃ e₃ tr sure =
      let same : w₂.shared ≡ w.shared = k₂.shared ∙ sh in
      let same' : env n w₂.shared ≡ env n w.shared = ap (env n) same in
      let q₂ : IsQuiet (env n w₂.shared) = subst IsQuiet (sym same') q' in
      let small₂ : ver (env n w₂.shared).clock + 1 < 2 ^ 63 =
        subst (λ (s : Shared V). ver s.clock + 1 < 2 ^ 63) (sym same') small in
      let l₂ : Later w.shared (env n w₂.shared) = subst (Later w.shared) (sym same') l in
      let at : exec (t args) (env n w₂.shared).mem
          ≡ inr ((r, args'), over w₂ (env n w₂.shared).mem) =
        exec-valid (t args) w.shared (env n w₂.shared) w₁ w₂ (r, args') sh (k₂.rv ∙ rv) q₂ small₂ l₂
          v₁ s₂ sure in
      let (quiet, later) = Tried-Later (others env n w₂) w₃ true q₂ small₂ tr in
      let (opened, tick) =
        tried-IsOpen (others env n w₂) w₃ true q₂.opened
          (small-HasRoom (env n w₂.shared) q₂.opened.clock small₂) tr in
      (
        env n w₂.shared,
        l₂,
        q₂,
        subst
            (λ o.
              Took o (env n w₂.shared) w
                (handle (attempts srt trivial t env (suc k) n args args w)))
            (sym at)
            (
              record w₃ {
                manager = record (w₃.manager) { state = zombie; rv = 0; log = Log.new m };
              },
              rw (e₁, e₂, e₃, finish-new w₃ tr.backed),
              record {
                contents = tr.contents;
                clock = tick;
                opened = opened;
                me = tr.me ∙ k₂.me ∙ me;
                state = refl;
                log = refl;
              },
              quiet,
              later,
            ),
      )

  -- After an attempt whose commit fails the next one starts with the same arguments.
  pub retried :
      (k n : ℕ) (args args' : List (Arg B)) (w w₁ w₂ w₃ : World m V) (r : A)
      → start w ≡ done tt w₁
      → run trivial (t args) w₁ ≡ done (r, args') w₂
      → try_commit srt (others env n w₂) ≡ ok (false, w₃)
      → restore_args args args' ≡ args
      → handle (attempts srt trivial t env (suc k) n args args w)
        ≡ handle (attempts srt trivial t env k (suc n) args args w₃)
  unfolding attempts interfere
  retried k n args args' w w₁ w₂ w₃ r e₁ e₂ e₃ back = rw (e₁, e₂, e₃, back)
