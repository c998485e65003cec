-- ===== src/Tests/Rival.antt =====
-- `atomically` against another thread that commits a write between a body and its commit.
use tl2_cpp.Common.{
  ℕ, zero, suc, update, ◌+◌, ◌^◌, ◌<◌, ◌≤◌, ◌≡◌, refl, ap, subst, false, Option, none, some, List,
  [], ◌∷◌, arith, inl, inr, Bool-cases, ◌==◌,
}
use tl2_cpp.VersionLock
use tl2_cpp.VersionLock.{pack, is_locked}
use tl2_cpp.LockTable.{index}
use tl2_cpp.Manager.{Shared, World, Outcome, done, zombie, in_transaction}
use tl2_cpp.Tx.{Tx, ret, load, store, Ending, exec}
use tl2_cpp.Atomic.{Arg, atomically}
use tl2_cpp.Atomic.Others.{ver, IsQuiet, Later}
use tl2_cpp.Atomic.Restored.{SameVars}
use tl2_cpp.Atomic.Attempt.{IsPeers, Serial}
use tl2_cpp.Atomic.Serial.{atomically-Serial}
use tl2_cpp.Tests.Concrete.{assoc, insertion}
use tl2_cpp.Tests.Core.{shared₀, world, open₀, empty-IsSound, program}

-- Variable 4 is set to 9.
abbrev set_nine : Shared ℕ → Shared ℕ
set_nine s = record {
  clock = s.clock + 2;
  locks = update s.locks 1 (pack (ver s.clock + 1) false);
  mem = update s.mem 4 9;
}

-- That is what others do at the first attempt; at the later ones they do nothing.
abbrev rival : ℕ → Shared ℕ → Shared ℕ
rival zero s = set_nine s
rival (suc n) s = s

-- The body raises variable 4, and its one argument, which is no `TVar`.
abbrev raise_both : List (Arg ℕ) → Tx ℕ (ℕ × List (Arg ℕ))
raise_both [] = load 4 λ v. store 4 (v + 1) (ret (v, []))
raise_both (a ∷ args) =
    load 4 λ v. store 4 (v + 1) (ret (v, record a { value = a.value + 1 } ∷ args))

abbrev three : List (Arg ℕ)
three = record { value = 3; is_t_var = false } ∷ []

quiet₀ : IsQuiet shared₀
unfolding VersionLock.unsafe_get_version VersionLock.unpack_version
quiet₀ = record { opened = open₀; bounded = λ i. omega arith }

ver-set : (s v : ℕ) → v < 2 ^ 63 → ver (pack v false) ≡ v
unfolding VersionLock.unsafe_get_version VersionLock.unpack_version pack
ver-set s v h = omega arith

is_locked-set : (v : ℕ) → is_locked (pack v false) ≡ false
unfolding pack
is_locked-set v = ground arith

ver-tick : (s : ℕ) → ver (s + 2) ≡ ver s + 1
unfolding VersionLock.unsafe_get_version VersionLock.unpack_version
ver-tick s = omega arith

set_nine-IsQuiet : (s : Shared ℕ) → IsQuiet s → ver s.clock + 1 < 2 ^ 63 → IsQuiet (set_nine s)
set_nine-IsQuiet s q h = record {
  opened = record {
    free = λ i. ground (arith, q.opened.free i, is_locked-set (ver s.clock + 1));
    clock = ground (arith, q.opened.clock);
  };
  bounded = λ i. ground (arith, q.bounded i, ver-set 0 (ver s.clock + 1) h, ver-tick s.clock);
}

set_nine-Later : (s : Shared ℕ) → IsQuiet s → ver s.clock + 1 < 2 ^ 63 → Later s (set_nine s)
unfolding index
set_nine-Later s q h = record {
  clock = omega (arith, ver-tick s.clock);
  locks = λ i. ground (arith, q.bounded i, ver-set 0 (ver s.clock + 1) h);
  moved = λ a. elim (Bool-cases (4 == a)) [
    | inl hit ↦ inr (ground (arith, ver-set 0 (ver s.clock + 1) h))
    | inr miss ↦ inl (rw miss refl)
  ];
}

rival-IsPeers : IsPeers 1 rival
rival-IsPeers = record { quiet = quiet; later = later; few = few }
  where
    quiet : (n : ℕ) (s : Shared ℕ) → IsQuiet s → ver s.clock + 1 < 2 ^ 63 → IsQuiet (rival n s)
    quiet zero s q h = set_nine-IsQuiet s q h
    quiet (suc n) s q h = q

    later : (n : ℕ) (s : Shared ℕ) → IsQuiet s → ver s.clock + 1 < 2 ^ 63 → Later s (rival n s)
    later zero s q h = set_nine-Later s q h
    later (suc n) s q h = record {
      clock = omega arith;
      locks = λ i. omega arith;
      moved = λ a. inl refl;
    }

    few :
        (n : ℕ) (s : Shared ℕ)
        → IsQuiet s
        → ver s.clock + 1 < 2 ^ 63
        → ver (rival n s).clock ≤ ver s.clock + 1
    few zero s q h = omega (arith, ver-tick s.clock)
    few (suc n) s q h = omega arith

keeps :
    (mem : ℕ → ℕ) (r : ℕ) (args' : List (Arg ℕ)) (mem' : ℕ → ℕ)
    → exec (raise_both three) mem ≡ inr ((r, args'), mem')
    → SameVars three args'
unfolding exec
keeps mem r args' mem' e =
    let same : record { value = 4; is_t_var = false } ∷ [] ≡ args' =
      ap (λ (o : Ending ℕ (ℕ × List (Arg ℕ))). elim o [ inl _ ↦ [] | inr x ↦ x.0.1 ]) e in
    subst (SameVars three) same (refl, (λ var. cc), tt)

atomically-Serial_example :
    Serial insertion false raise_both rival three
      (world zombie)
      (atomically insertion false raise_both rival 2 three (world zombie))
unfolding in_transaction VersionLock.unsafe_get_version VersionLock.unpack_version
atomically-Serial_example =
    atomically-Serial insertion false raise_both rival 1 rival-IsPeers three keeps 2 1
      (world zombie) (omega arith) (λ s. refl) refl (empty-IsSound zombie) quiet₀ (omega arith)

-- The result, the argument's value, variable 4, and the clock after a call.
abbrev outcome : Outcome (World assoc ℕ) (ℕ × List (Arg ℕ)) → Option (ℕ × ℕ × ℕ × ℕ)
outcome (done (r, a ∷ _) w) = some (r, a.value, w.shared.mem 4, w.shared.clock)
outcome _ = none

-- The first attempt reads 5 and is aborted; the second reads 9, with the argument at 3 again.
rival_run :
    outcome (atomically insertion false raise_both rival 2 three (world zombie))
    ≡ some (9, 4, 10, 12)
unfolding program
rival_run = refl
