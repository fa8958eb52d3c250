-- ===== src/Trans/Listed.antt =====
-- The entries of the map of channels (internal/trans/trans_handler.go) when channels are closed.
use less.Base.{
  true, ℕ, ◌≡◌, refl, sym, ◌∙◌, ◌⊎◌, inl, inr, subst, Bool, false, List, [], ◌∷◌, none, some, arith,
  ◌==◌, ==_iff, Bool-cases,
}
use less.Trans.{load, delete}
use less.Trans.Connect.{if_true, if_false}

same : (id : ℕ) → (id == id) ≡ true
same id = ground arith

pub first-load : (id : ℕ) (v : Bool) (rest : List (ℕ × Bool)) → load id ((id, v) ∷ rest) ≡ some v
unfolding load
first-load id v rest = rw (same id) refl

pub true-false : true ≡ false → ⊥
true-false h = ground arith

abbrev pub IsListed : ℕ → List (ℕ × Bool) → Type 0
IsListed id xs = (v : Bool) × (load id xs ≡ some v)

-- The entry at the head is the one, or it is among the others.
pub IsListed-rest :
    (id k : ℕ) (u : Bool) (rest : List (ℕ × Bool))
    → IsListed id ((k, u) ∷ rest)
    → (k ≡ id) ⊎ IsListed id rest
unfolding load
IsListed-rest id k u rest (v, l) = elim (Bool-cases (k == id)) [
  | inl q ↦ inl ((==_iff k id).0 q)
  | inr q ↦ inr (v, sym (if_false (k == id) (some u) (load id rest) q) ∙ l)
]

pub IsListed-more :
    (id k : ℕ) (u : Bool) (rest : List (ℕ × Bool)) → IsListed id rest → IsListed id ((k, u) ∷ rest)
unfolding load
IsListed-more id k u rest (v, l) = elim (Bool-cases (k == id)) [
  | inl q ↦ (u, rw q refl)
  | inr q ↦ (v, rw q l)
]

-- Deleting lists nothing.
pub delete_lists : (id k : ℕ) (xs : List (ℕ × Bool)) → IsListed id (delete k xs) → IsListed id xs
unfolding delete
delete_lists id k [] h = h
delete_lists id k ((j, u) ∷ rest) h = elim (Bool-cases (j == k)) [
  | inl q ↦ IsListed-more id j u rest (subst (IsListed id) (if_true (j == k) rest _ q) h)
  | inr q ↦
      elim (IsListed-rest id j u (delete k rest)
        (subst (IsListed id) (if_false (j == k) rest _ q) h)) [
          | inl e ↦ subst (λ x. IsListed x ((j, u) ∷ rest)) e (u, first-load j u rest)
          | inr h' ↦ IsListed-more id j u rest (delete_lists id k rest h')
        ]
]

-- Deleting another key keeps an entry.
pub delete_keeps :
    (id k : ℕ) (xs : List (ℕ × Bool))
    → (k == id) ≡ false
    → IsListed id xs
    → IsListed id (delete k xs)
unfolding delete
delete_keeps id k [] other h = h
delete_keeps id k ((j, u) ∷ rest) other h = elim (Bool-cases (j == k)) [
  | inl q ↦
      subst (IsListed id) (sym (if_true (j == k) rest _ q)) (elim (IsListed-rest id j u rest h) [
        | inl e ↦ absurd (true-false (sym ((==_iff k id).1 (sym ((==_iff j k).0 q) ∙ e)) ∙ other))
        | inr h' ↦ h'
      ])
  | inr q ↦
      subst (IsListed id) (sym (if_false (j == k) rest _ q)) (elim (IsListed-rest id j u rest h) [
        | inl e ↦
            subst (λ x. IsListed x ((j, u) ∷ delete k rest)) e (u, first-load j u (delete k rest))
        | inr h' ↦ IsListed-more id j u (delete k rest) (delete_keeps id k rest other h')
      ])
]

pub none-some : {v : Bool} → none ≡ some v → ⊥
none-some h = ground arith

pub nothing_listed : (xs : List (ℕ × Bool)) → ((id : ℕ) → IsListed id xs → ⊥) → xs ≡ []
nothing_listed [] h = refl
nothing_listed ((k, v) ∷ rest) h = absurd (h k (v, first-load k v rest))
