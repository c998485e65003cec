-- ===== src/Bank/Server.antt =====
-- `Server` of examples/bank/server.cc and the loop of main.cc, with the threads one after the other. What is drawn at random
-- is an argument.
use tl2_cpp.Common.{ℕ, Bool, ◌&&◌, List, [], ◌∷◌, ◌==◌, if◌then◌else◌}
use tl2_cpp.Common.Res.{Res, ok, ◌>>=◌}
use tl2_cpp.Bank.Account.{Account}
use tl2_cpp.Bank.Transaction.{Transaction, withdraw, add, transfer, Accounts, execute}
use tl2_cpp.Bank.Logger.{Logger, check, log_add, log_withdraw, log_transfer}

-- What a thread draws, and the addresses of the nodes that it may make.
pub record Draw (K : Type 0) : Type 0 where
  pub choice : ℕ
  pub name : K
  pub other_name : K
  pub amt : ℕ
  pub first_node : ℕ
  pub second_node : ℕ

module _ {K : Type 0} where
  abbrev pub construct_withdraw : Draw K → Transaction K
  construct_withdraw d = withdraw d.name d.amt

  abbrev pub construct_transfer : Draw K → Transaction K
  construct_transfer d = transfer d.name d.other_name d.amt

  abbrev pub construct_add : Draw K → Transaction K
  construct_add d = add d.name d.amt

module _ {K : Type 0} (eq : K → K → Bool) (hash : K → ℕ) (blank : Account K) where
  -- The function that `spin` gives a thread.
  unfoldable pub job : ℕ → Draw K → Logger K × Accounts K → Res (Logger K × Accounts K)
  job k d (ms, s) = do
    let run = (λ (t : Transaction K). execute eq hash blank k d.first_node d.second_node t s)
    let adds = (do ms' ← log_add eq d.name d.amt ms; s' ← run (construct_add d); ok (ms', s'))
    let withdraws = (do
      ms' ← log_withdraw eq d.name d.amt ms
      s' ← run (construct_withdraw d)
      ok (ms', s'))
    let transfers = (do
      ms' ← log_transfer eq d.name d.other_name d.amt ms
      s' ← run (construct_transfer d)
      ok (ms', s'))
    if d.choice == 0 then adds else if d.choice == 1 then withdraws else transfers

  -- The loop of `spin`.
  unfoldable pub spin : ℕ → List (Draw K) → Logger K × Accounts K → Res (Logger K × Accounts K)
  spin k [] s = ok s
  spin k (d ∷ ds) s = do s' ← job k d s; spin k ds s'

  -- The loop of `main`, with the draws of each call of `spin` and whether all checks were right.
  unfoldable pub main_loop :
      ℕ → List (List (Draw K)) → Bool → Logger K × Accounts K → Res (Bool × Logger K × Accounts K)
  main_loop k [] fine s = ok (fine, s.0, s.1)
  main_loop k (ds ∷ rest) fine s = do
    (ms, s') ← spin k ds s
    right ← check eq hash blank k ms s'
    main_loop k rest (fine && right) (ms, s')
