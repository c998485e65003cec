-- ===== src/LocationSet/Entries/Permuted.antt =====
-- What a permutation of the entries, as sorting makes one, keeps of them.
use mathlib.Core.List.{Permᴰ}
use mathlib.Core.Path.{subst, subst₂}
use tl2_cpp.Common.{ℕ, ◌≡◌, refl, ◌∙◌, none, List, ◌∷◌, arith, All}
use tl2_cpp.Location.{Location}
use tl2_cpp.LocationSet.Entries.{index_of, IsDistinct, staged_at}
use tl2_cpp.LocationSet.Entries.Owned.{owners}

pub All-perm {ℓ κ} :
    {A : Type ℓ} (P : A → Type κ) {xs ys : List A} → Permᴰ xs ys → All P xs → All P ys
All-perm P Permᴰ.nil h = h
All-perm P (Permᴰ.cons e d) h = (subst P e h.0, All-perm P d h.1)
All-perm P (Permᴰ.swap e f) h = (subst P f h.1.0, (subst P e h.0, h.1.1))
All-perm P (Permᴰ.trans d f) h = All-perm P f (All-perm P d h)

pub record Permuted (ls ls' : List Location) : Type 0 where
  pub absent : (a : ℕ) → index_of a ls ≡ none → index_of a ls' ≡ none
  pub owned : (p : ℕ) → owners p ls' ≡ owners p ls
  pub distinct : IsDistinct ls → IsDistinct ls'
  pub staged : IsDistinct ls → (a : ℕ) → staged_at a ls' ≡ staged_at a ls

Permuted-cons :
    (l : Location) (ls ls' : List Location) → Permuted ls ls' → Permuted (l ∷ ls) (l ∷ ls')
unfolding index_of owners staged_at
Permuted-cons l ls ls' p = record {
  absent = λ a h. ground (arith, p.absent a);
  owned = λ q. omega (arith, p.owned q);
  distinct = λ d. (p.absent l.addr d.0, p.distinct d.1);
  staged = λ d a. rw (p.staged d.1 a);
}

Permuted-swap : (k l : Location) (ls : List Location) → Permuted (k ∷ l ∷ ls) (l ∷ k ∷ ls)
unfolding index_of owners staged_at
Permuted-swap k l ls = record {
  absent = λ a h. ground arith;
  owned = λ q. omega arith;
  distinct = λ d. (ground arith, (ground arith, d.1.1));
  staged = λ d a. ground arith;
}

pub Permᴰ-Permuted : {ls ls' : List Location} → Permᴰ ls ls' → Permuted ls ls'
Permᴰ-Permuted Permᴰ.nil = record {
  absent = λ a h. h;
  owned = λ p. refl;
  distinct = λ d. d;
  staged = λ d a. refl;
}
Permᴰ-Permuted (Permᴰ.cons {a} {l₁} {l₂} e d) =
    subst (λ x. Permuted (a ∷ l₁) (x ∷ l₂)) e (Permuted-cons a l₁ l₂ (Permᴰ-Permuted d))
Permᴰ-Permuted (Permᴰ.swap {a} {b} {l} e f) =
    subst₂ (λ x y. Permuted (a ∷ b ∷ l) (x ∷ y ∷ l)) f e (Permuted-swap a b l)
Permᴰ-Permuted (Permᴰ.trans d f) =
    let p = Permᴰ-Permuted d in
    let q = Permᴰ-Permuted f in
    record {
      absent = λ a h. q.absent a (p.absent a h);
      owned = λ x. q.owned x ∙ p.owned x;
      distinct = λ h. q.distinct (p.distinct h);
      staged = λ h a. q.staged (p.distinct h) a ∙ p.staged h a;
    }
