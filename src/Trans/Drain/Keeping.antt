-- ===== src/Trans/Drain/Keeping.antt =====
-- What a goroutine's next step keeps of the register (internal/trans/trans_handler.go, closeChannel and
-- Close).
use less.Base.{
  ℕ, ◌≡◌, refl, sym, ◌∙◌, ◌⊎◌, inl, inr, subst, Bool, true, false, List, [], ◌∷◌, Option, none,
  some, Error, Outcome, ok, err, panic, hang, arith, ◌==◌, ==_iff, if◌then◌else◌, Bool-cases,
}
use less.Channel.Closing.{Life, close}
use less.Trans.{TransHandler, load, close_life}
use less.Trans.Registry.{Distinct, delete-Distinct, load-delete}
use less.Trans.Connect.{closes_own}
use less.Trans.Listed.{true-false, IsListed, IsListed-rest, delete_lists, delete_keeps, none-some}
use less.Trans.Goroutines.{
  Task, activated, counted, stored, failed, removing, removed, counted_off, hooks, ranging, run,
  loaded, hooks_of,
}
use less.Trans.Drain.{connecting, all_connecting, Holds, Covers, Any}

at_key :
    (b : Bool) (k l : Life)
    → (b ≡ true → k.ch.state ≡ 0)
    → (b ≡ false → l.ch.state ≡ 0)
    → (if b then k else l).ch.state ≡ 0
at_key true k l p q = p refl
at_key false k l p q = q refl

-- A channel that is closed stays so.
pub closing_stays :
    (id k : ℕ) (e : Option Error) (th : TransHandler)
    → (th.lives id).ch.state ≡ 0
    → ((close_life k e th).lives id).ch.state ≡ 0
unfolding close_life
closing_stays id k e th h = at_key (id == k) _ _ (λ _. closes_own e (th.lives k)) (λ _. h)

closing_shuts :
    (id : ℕ) (e : Option Error) (th : TransHandler) → ((close_life id e th).lives id).ch.state ≡ 0
unfolding close_life
closing_shuts id e th =
    at_key (id == id) _ _ (λ _. closes_own e (th.lives id))
      (λ n. absurd (true-false (sym ((==_iff id id).1 refl) ∙ n)))

closing_lists :
    (id k : ℕ) (e : Option Error) (th : TransHandler)
    → IsListed id th.channels
    → IsListed id (close_life k e th).channels
unfolding close_life
closing_lists id k e th h = h

-- The channel is registered, or closed, or a goroutine holds it.
abbrev pub Kept : ℕ → TransHandler → List Task → Type 0
Kept id th ts = IsListed id th.channels ⊎ (((th.lives id).ch.state ≡ 0) ⊎ Any (Holds id) ts)

loaded-Kept :
    (id k : ℕ) (e : Option Error) (mine : Bool) (o : Option Bool) (th : TransHandler)
    → load k th.channels ≡ o
    → IsListed id th.channels
    → Kept id (loaded k e mine o th).1 (loaded k e mine o th).0
loaded-Kept id k e mine none th l h = inl h
loaded-Kept id k e mine (some v) th l h = elim (Bool-cases (k == id)) [
  | inl q ↦ inr (inr (inl ((==_iff k id).0 q)))
  | inr q ↦ inl (delete_keeps id k th.channels q h)
]

loaded-shut :
    (id k : ℕ) (e : Option Error) (mine : Bool) (o : Option Bool) (th : TransHandler)
    → (th.lives id).ch.state ≡ 0
    → ((loaded k e mine o th).1.lives id).ch.state ≡ 0
loaded-shut id k e mine none th h = h
loaded-shut id k e mine (some v) th h = h

pub run-Kept :
    (id : ℕ) (t : Task) (th : TransHandler)
    → connecting t ≡ 0
    → Kept id th (t ∷ [])
    → Kept id (run t th).1 (run t th).0
unfolding run
run-Kept id (activated k keeper) th c h = absurd (omega (arith, c))
run-Kept id (counted k keeper) th c h = absurd (omega (arith, c))
run-Kept id (stored k) th c h = absurd (omega (arith, c))
run-Kept id (failed k e) th c h = elim h [
  | inl l ↦ inl (closing_lists id k (some e) th l)
  | inr (inl z) ↦ inr (inl (closing_stays id k (some e) th z))
  | inr (inr (inl p)) ↦ absurd p
  | inr (inr (inr p)) ↦ absurd p
]
run-Kept id (removing k e mine) th c h = elim h [
  | inl l ↦ loaded-Kept id k e mine (load k th.channels) th refl l
  | inr (inl z) ↦ inr (inl (loaded-shut id k e mine (load k th.channels) th z))
  | inr (inr (inl p)) ↦ absurd p
  | inr (inr (inr p)) ↦ absurd p
]
run-Kept id (removed k e mine) th c h = h
run-Kept id (counted_off k e mine) th c h = elim h [
  | inl l ↦ inl (closing_lists id k e th l)
  | inr (inl z) ↦ inr (inl (closing_stays id k e th z))
  | inr (inr (inl p)) ↦ inr (
      inl
        (subst (λ x. ((close_life x e th).lives id).ch.state ≡ 0) (sym p) (closing_shuts id e th)))
  | inr (inr (inr p)) ↦ absurd p
]
run-Kept id (hooks k e) th c h = elim h [
  | inl l ↦ inl l
  | inr (inl z) ↦ inr (inl z)
  | inr (inr (inl p)) ↦ absurd p
  | inr (inr (inr p)) ↦ absurd p
]
run-Kept id (ranging e []) th c h = elim h [
  | inl l ↦ inl l
  | inr (inl z) ↦ inr (inl z)
  | inr (inr (inl p)) ↦ absurd p
  | inr (inr (inr p)) ↦ absurd p
]
run-Kept id (ranging e ((k, v) ∷ left)) th c h = elim h [
  | inl l ↦ inl l
  | inr (inl z) ↦ inr (inl z)
  | inr (inr (inl p)) ↦ absurd p
  | inr (inr (inr p)) ↦ absurd p
]

loaded-lists :
    (id k : ℕ) (e : Option Error) (mine : Bool) (o : Option Bool) (th : TransHandler)
    → IsListed id (loaded k e mine o th).1.channels
    → IsListed id th.channels
loaded-lists id k e mine none th h = h
loaded-lists id k e mine (some v) th h = delete_lists id k th.channels h

-- Nothing is registered anew.
pub run-lists :
    (id : ℕ) (t : Task) (th : TransHandler)
    → connecting t ≡ 0
    → IsListed id (run t th).1.channels
    → IsListed id th.channels
unfolding run close_life
run-lists id (activated k keeper) th c h = absurd (omega (arith, c))
run-lists id (counted k keeper) th c h = absurd (omega (arith, c))
run-lists id (stored k) th c h = absurd (omega (arith, c))
run-lists id (failed k e) th c h = h
run-lists id (removing k e mine) th c h = loaded-lists id k e mine (load k th.channels) th h
run-lists id (removed k e mine) th c h = h
run-lists id (counted_off k e mine) th c h = h
run-lists id (hooks k e) th c h = h
run-lists id (ranging e []) th c h = h
run-lists id (ranging e ((k, v) ∷ left)) th c h = h

loaded-gone :
    (k : ℕ) (e : Option Error) (mine : Bool) (o : Option Bool) (th : TransHandler)
    → Distinct th.channels
    → load k th.channels ≡ o
    → IsListed k (loaded k e mine o th).1.channels
    → ⊥
loaded-gone k e mine none th d l (v, h) = none-some (sym l ∙ h)
loaded-gone k e mine (some u) th d l (v, h) = none-some (sym (load-delete k th.channels d) ∙ h)

-- A channel that is still registered when the goroutine that covers it has gone on is covered again.
pub run-Covers :
    (id : ℕ) (t : Task) (th : TransHandler)
    → Distinct th.channels
    → Covers id t
    → IsListed id (run t th).1.channels
    → Any (Covers id) (run t th).0
unfolding run
run-Covers id (activated k keeper) th d p h = absurd p
run-Covers id (counted k keeper) th d p h = absurd p
run-Covers id (stored k) th d p h = absurd p
run-Covers id (failed k e) th d p h = absurd p
run-Covers id (removing k e true) th d p h = absurd (
    loaded-gone k e true (load k th.channels) th d refl
      (subst (λ x. IsListed x (loaded k e true (load k th.channels) th).1.channels) (sym p) h))
run-Covers id (removing k e false) th d p h = absurd p
run-Covers id (removed k e mine) th d p h = absurd p
run-Covers id (counted_off k e mine) th d p h = absurd p
run-Covers id (hooks k e) th d p h = absurd p
run-Covers id (ranging e []) th d (v, l) h = absurd (unfold load in none-some l)
run-Covers id (ranging e ((k, v) ∷ left)) th d p h = elim (IsListed-rest id k v left p) [
  | inl q ↦ inl q
  | inr l ↦ inr (inl l)
]

loaded-Distinct :
    (k : ℕ) (e : Option Error) (mine : Bool) (o : Option Bool) (th : TransHandler)
    → Distinct th.channels
    → Distinct (loaded k e mine o th).1.channels
loaded-Distinct k e mine none th d = d
loaded-Distinct k e mine (some v) th d = delete-Distinct k th.channels d

pub run-Distinct :
    (t : Task) (th : TransHandler)
    → connecting t ≡ 0
    → Distinct th.channels
    → Distinct (run t th).1.channels
unfolding run close_life
run-Distinct (activated k keeper) th c d = absurd (omega (arith, c))
run-Distinct (counted k keeper) th c d = absurd (omega (arith, c))
run-Distinct (stored k) th c d = absurd (omega (arith, c))
run-Distinct (failed k e) th c d = d
run-Distinct (removing k e mine) th c d = loaded-Distinct k e mine (load k th.channels) th d
run-Distinct (removed k e mine) th c d = d
run-Distinct (counted_off k e mine) th c d = d
run-Distinct (hooks k e) th c d = d
run-Distinct (ranging e []) th c d = d
run-Distinct (ranging e ((k, v) ∷ left)) th c d = d

pub closed_by-connecting :
    (id : ℕ) (e : Option Error) (o : Outcome (Unit {0})) → all_connecting (hooks_of id e o) ≡ 0
closed_by-connecting id e (ok a) = refl
closed_by-connecting id e (err x) = refl
closed_by-connecting id e panic = refl
closed_by-connecting id e hang = refl

loaded-connecting :
    (k : ℕ) (e : Option Error) (mine : Bool) (o : Option Bool) (th : TransHandler)
    → all_connecting (loaded k e mine o th).0 ≡ 0
loaded-connecting k e mine none th = refl
loaded-connecting k e mine (some v) th = refl

pub run-connecting :
    (t : Task) (th : TransHandler) → connecting t ≡ 0 → all_connecting (run t th).0 ≡ 0
unfolding run
run-connecting (activated k keeper) th c = absurd (omega (arith, c))
run-connecting (counted k keeper) th c = absurd (omega (arith, c))
run-connecting (stored k) th c = absurd (omega (arith, c))
run-connecting (failed k e) th c =
    closed_by-connecting k (some e) (close (th.lives k).ch.state (some e) (th.lives k)).0
run-connecting (removing k e mine) th c = loaded-connecting k e mine (load k th.channels) th
run-connecting (removed k e mine) th c = refl
run-connecting (counted_off k e mine) th c =
    closed_by-connecting k e (close (th.lives k).ch.state e (th.lives k)).0
run-connecting (hooks k e) th c = refl
run-connecting (ranging e []) th c = refl
run-connecting (ranging e ((k, v) ∷ left)) th c = refl
