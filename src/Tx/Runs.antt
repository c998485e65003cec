-- ===== src/Tx/Runs.antt =====
-- The body of a transaction, run through tl2/t_var.h and tl2/log.h.
use tl2_cpp.Common.{
  ℕ, ◌≡◌, refl, sym, ap, fun_ext, ◌∙◌, ◌==◌, ◌||◌, Bool, true, inl, inr, update, arith,
}
use tl2_cpp.Manager.{Shared, World, done, thrown}
use tl2_cpp.LocationSet.Vendored.{AddrMap}
use tl2_cpp.TVar.Alone.{IsRunning, Kept, seen, over, view, is_read, load-view, store-view}
use tl2_cpp.Log.Values.{values}
use tl2_cpp.Tx.{Tx, ret, load, store, raise, Ending, exec, run}

module _ {m : AddrMap} {V : Type 0} where
  pub Kept-refl : (w : World m V) → Kept w w
  Kept-refl w = record { shared = refl; me = refl; rv = refl }

  pub Kept-trans : {w₁ w₂ w₃ : World m V} → Kept w₁ w₂ → Kept w₂ w₃ → Kept w₁ w₃
  Kept-trans p q = record { shared = q.shared ∙ p.shared; me = q.me ∙ p.me; rv = q.rv ∙ p.rv }

module _ {m : AddrMap} {V A : Type 0} where
  -- The run from `w` to `w'` stands for a run at once on any data that agrees with the shared data
  -- on what was read.
  pub record Stands (t : Tx V A) (w w' : World m V) (r : A) : Type 0 where
    pub grows : (b : ℕ) → is_read w b ≡ true → is_read w' b ≡ true
    pub again :
        (mem : ℕ → V)
        → ((b : ℕ) → is_read w' b ≡ true → mem b ≡ w.shared.mem b)
        → exec t (over w mem) ≡ inr (r, over w' mem)

  Stands-load :
      (a : ℕ) (f : V → Tx V A) (w w' w'' : World m V) {r : A} (x : V)
      → view w a ≡ x
      → Kept w w'
      → ((mem : ℕ → V) (b : ℕ) → over w' mem b ≡ over w mem b)
      → ((b : ℕ) → is_read w' b ≡ (a == b) || is_read w b)
      → Stands (f x) w' w'' r
      → Stands (load a f) w w'' r
  unfolding exec
  Stands-load a f w w' w'' {r} x e k same reads s =
      let noted : is_read w'' a ≡ true = s.grows a (reads a ∙ ground arith) in
      record {
        grows = λ b h. s.grows b (reads b ∙ ground (arith, h));
        again = λ mem agree.
            let got : over w mem a ≡ x =
              ap (λ y. seen (values m w.manager.log a) y) (agree a noted) ∙ e in
            let eq : over w' mem ≡ over w mem = fun_ext (same mem) in
            ap (λ y. exec (f y) (over w mem)) got
            ∙ ap (λ g. exec (f x) g) (sym eq)
            ∙ s.again mem (λ b h. agree b h ∙ ap (λ (sh : Shared V). sh.mem b) (sym k.shared));
      }

  Stands-store :
      (a : ℕ) (x : V) (t : Tx V A) (w w' w'' : World m V) {r : A}
      → Kept w w'
      → ((mem : ℕ → V) (b : ℕ) → over w' mem b ≡ update (over w mem) a x b)
      → ((b : ℕ) → is_read w' b ≡ is_read w b)
      → Stands t w' w'' r
      → Stands (store a x t) w w'' r
  unfolding exec
  Stands-store a x t w w' w'' k upd reads s = record {
    grows = λ b h. s.grows b (reads b ∙ h);
    again = λ mem agree.
        let eq : over w' mem ≡ update (over w mem) a x = fun_ext (upd mem) in
        ap (λ g. exec t g) (sym eq)
        ∙ s.again mem (λ b h. agree b h ∙ ap (λ (sh : Shared V). sh.mem b) (sym k.shared));
  }

module _ {m : AddrMap} {V A : Type 0} (trivial : Bool) where
  -- A run ends as `exec` says: with its result, and a log through which the transaction sees the
  -- data that `exec` leaves; or with the transaction's own exception. Shared state is untouched.
  abbrev pub Runs : Tx V A → World m V → Ending V A → Type 0
  Runs t w (inl e) = (w' : World m V) × (run trivial t w ≡ thrown e w') × IsRunning w' × Kept w w'
  Runs t w (inr (r, mem)) =
      (w' : World m V) × (run trivial t w ≡ done r w')
      × IsRunning w'
      × Kept w w'
      × ((b : ℕ) → view w' b ≡ mem b)
      × Stands t w w' r

  Runs-step :
      (t t' : Tx V A) (w w' : World m V) (o : Ending V A)
      → run trivial t w ≡ run trivial t' w'
      → Kept w w'
      → ((w'' : World m V) (r : A) → Stands t' w' w'' r → Stands t w w'' r)
      → Runs t' w' o
      → Runs t w o
  Runs-step t t' w w' (inl x) e k st (w₁, e₁, r, k₁) = (w₁, e ∙ e₁, r, Kept-trans k k₁)
  Runs-step t t' w w' (inr (x, mem)) e k st (w₁, e₁, r, k₁, v, s) =
      (w₁, e ∙ e₁, r, Kept-trans k k₁, v, st w₁ x s)

  -- Inside a transaction, with a well-formed log and no lock held, a body that runs through its log
  -- behaves as it does when it runs at once on what it sees at its start: it returns the same result
  -- or throws the same exception, sees the same values afterwards, and has not touched the data. If
  -- it returns, then at once on any other data that has the same values where it has read, it
  -- returns the same result and leaves that data with the same writes.
  pub run-exec :
      (t : Tx V A) (w : World m V) (mem : ℕ → V)
      → IsRunning w
      → ((b : ℕ) → view w b ≡ mem b)
      → Runs t w (exec t mem)
  unfolding run exec
  run-exec (ret r) w mem h v =
      (w, refl, h, Kept-refl w, v, record { grows = λ b h. h; again = λ mem agree. refl })
  run-exec (load a f) w mem h v =
      let (w', e, h', k, same, reads) = load-view trivial a w h in
      Runs-step (load a f) (f (mem a)) w w' (exec (f (mem a)) mem) (rw (e, v a)) k
        (λ w'' r s. Stands-load a f w w' w'' (mem a) (v a) k same reads s)
        (run-exec (f (mem a)) w' mem h'
          (λ b. ap (λ (sh : Shared V). over w' sh.mem b) k.shared ∙ same w.shared.mem b ∙ v b))
  run-exec (store a x t) w mem h v =
      let (w', e, h', k, upd, reads) = store-view a x w h in
      Runs-step (store a x t) t w w' (exec t (update mem a x)) (rw e) k
        (λ w'' r s. Stands-store a x t w w' w'' k upd reads s)
        (run-exec t w' (update mem a x) h' (λ b.
          ap (λ (sh : Shared V). over w' sh.mem b) k.shared
          ∙ upd w.shared.mem b
          ∙ ground (arith, v b)))
  run-exec (raise e) w mem h v = (w, refl, h, Kept-refl w)
