-- ===== src/Atomic/Restored.antt =====
-- `restore_args` of tl2/stm.h: what the next attempt starts with.
use tl2_cpp.Common.{◌≡◌, refl, ◌∙◌, ap, Bool, true, false, List, [], ◌∷◌, if◌then◌else◌}
use tl2_cpp.Atomic.{Arg, restore_arg, restore_args}

module _ {B : Type 0} where
  -- The arguments after a body has run: the `TVar`s among them are the same ones, the others may
  -- have other values.
  abbrev pub SameVars : List (Arg B) → List (Arg B) → Type 0
  SameVars [] [] = Unit
  SameVars (s ∷ saved) (a ∷ args) =
      (a.is_t_var ≡ s.is_t_var) × ((a.is_t_var ≡ true) → (a.value ≡ s.value)) × SameVars saved args
  SameVars [] (a ∷ args) = ⊥
  SameVars (s ∷ saved) [] = ⊥

  abbrev arg : B → Bool → Arg B
  arg v b = record { value = v; is_t_var = b }

  chosen :
      (s : Arg B) (v : B) (b : Bool)
      → b ≡ s.is_t_var
      → (b ≡ true → v ≡ s.value)
      → (if b then arg v b else arg s.value b) ≡ s
  chosen s v true e h = ap (λ x. arg x true) (h refl) ∙ ap (λ b. arg s.value b) e
  chosen s v false e h = ap (λ b. arg s.value b) e

  restore_arg-same :
      (s a : Arg B)
      → a.is_t_var ≡ s.is_t_var
      → (a.is_t_var ≡ true → a.value ≡ s.value)
      → restore_arg s a ≡ s
  unfolding restore_arg
  restore_arg-same s a e h = chosen s a.value a.is_t_var e h

  -- If an aborted body has kept the `TVar`s among its arguments, whatever it has done to the others,
  -- then what is restored are the arguments that were saved.
  pub restore_args-same :
      (saved args : List (Arg B)) → SameVars saved args → restore_args saved args ≡ saved
  unfolding restore_args
  restore_args-same [] [] h = refl
  restore_args-same [] (a ∷ args) h = elim h [ ]
  restore_args-same (s ∷ saved) [] h = elim h [ ]
  restore_args-same (s ∷ saved) (a ∷ args) h =
      rw (restore_arg-same s a h.0 h.1, restore_args-same saved args h.2) refl
