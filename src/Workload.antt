-- ===== src/Workload.antt =====
-- graphs/ordered_ll/bench.cc: a workload on a list of its template parameter `List`, which is a record
-- of operations: how the list is filled, and the rounds of a thread that runs alone. What the thread
-- draws at random is an argument.
pub mod Keys
pub mod Ordered
use tl2_cpp.Common.{
  ℕ, zero, suc, ◌+◌, ◌-◌, ◌^◌, Bool, true, false, List, [], ◌∷◌, ltb, if◌then◌else◌,
}
use tl2_cpp.Common.Res.{Res, ok, ◌>>=◌}

pub record Workload : Type 0 where
  pub contains_pct : ℕ
  pub add_pct : ℕ
  pub remove_pct : ℕ

abbrev workload : ℕ → ℕ → ℕ → Workload
workload c a r = record { contains_pct = c; add_pct = a; remove_pct = r }

-- `kWorkloads`
abbrev pub workloads : List Workload
workloads = workload 90 5 5 ∷ workload 34 33 33 ∷ workload 20 40 40 ∷ []

-- `List`: the operations that the benchmark calls, on a state `S`.
pub record ListOps (S : Type 0) : Type 0 where
  pub contains : ℕ → S → Res (Bool × S)
  pub add : ℕ → S → Res (Bool × S)
  pub remove : ℕ → S → Res (Bool × S)

-- What `op_dist` and `key_dist` draw in one round; the key by its distance from INT_MIN.
pub record Draw : Type 0 where
  pub op : ℕ
  pub key : ℕ

module _ {S : Type 0} (ops : ListOps S) where
  -- `count` calls are left, the next adds `i`.
  unfoldable pub prefill : ℕ → ℕ → S → Res S
  prefill zero i s = ok s
  prefill (suc count) i s = do (_, s') ← ops.add (i + 2 ^ 31) s; prefill count (suc i) s'

  unfoldable pub round : Workload → Draw → S → Res (Bool × S)
  round w d s =
      if ltb d.op w.contains_pct
      then ops.contains d.key s
      else if ltb d.op (w.contains_pct + w.add_pct)
      then ops.add d.key s
      else ops.remove d.key s

  unfoldable pub rounds : Workload → List Draw → S → Res S
  rounds w [] s = ok s
  rounds w (d ∷ ds) s = do (_, s') ← round w d s; rounds w ds s'
