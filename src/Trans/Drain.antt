-- ===== src/Trans/Drain.antt =====
-- The end of a transport (internal/trans/trans_handler.go, Close) while other goroutines close channels.
pub mod Keeping
pub mod Empty
pub mod Ends
use less.Base.{
  ℕ, ◌+◌, ◌≡◌, refl, sym, ap, ◌∙◌, ◌⊎◌, inl, inr, subst, Bool, true, false, List, [], ◌∷◌, ◌++◌,
  Option, none, some, Error, Outcome, ok, err, panic, hang, arith, length, ◌==◌, ==_iff,
  if◌then◌else◌, Bool-cases,
}
use less.Channel.{is_active}
use less.Channel.Closing.{Life, close}
use less.Trans.{TransHandler, closed, load, delete, close_life, take_off, update}
use less.Trans.Registry.{Distinct, delete-Distinct, load-delete}
use less.Trans.Connect.{closes_own, inactive}
use less.Trans.Listed.{
  IsListed, IsListed-rest, IsListed-more, delete_lists, delete_keeps, none-some, nothing_listed,
}
use less.Trans.Goroutines.{
  Task, activated, counted, stored, failed, removing, removed, counted_off, hooks, ranging, World,
  run, loaded, hooks_of, closed_by, Move, goes, finds, loses_conn, closes, begin_close,
}
use less.Trans.Serving.{all_between, all_between-append, IsCounted, Move-IsCounted}

pub data Reach (w : World) : World → Type 0 where
  here : Reach w w
  next : {w1 w2 : World} → Reach w w1 → Move w1 w2 → Reach w w2

-- `Close` waits for the goroutine that goes over the map and for those that this one submits.
abbrev pub awaited : Task → ℕ
awaited (ranging e left) = 1
awaited (removing id e true) = 1
awaited (removed id e true) = 1
awaited (counted_off id e true) = 1
awaited _ = 0

abbrev pub all_awaited : List Task → ℕ
all_awaited [] = 0
all_awaited (t ∷ ts) = awaited t + all_awaited ts

-- What `Close` may return; `context` is the error of its context, once that is done.
abbrev pub Answers : World → (context : Option Error) → Outcome (Unit {0}) → Type 0
Answers w context (ok a) = all_awaited w.tasks ≡ 0
Answers w context (err x) = context ≡ some x
Answers w context panic = ⊥
Answers w context hang = ⊥

-- Whether a connect may still store its channel.
abbrev pub connecting : Task → ℕ
connecting (activated id keeper) = 1
connecting (counted id keeper) = 1
connecting (stored id) = 1
connecting _ = 0

abbrev pub all_connecting : List Task → ℕ
all_connecting [] = 0
all_connecting (t ∷ ts) = connecting t + all_connecting ts

pub all_connecting-append :
    (ts us : List Task) → all_connecting (ts ++ us) ≡ all_connecting ts + all_connecting us
all_connecting-append [] us = omega arith
all_connecting-append (t ∷ ts) us = omega (arith, all_connecting-append ts us)

-- A goroutine that has taken the channel off the map and is on its way to its `ch.Close`.
abbrev pub Holds : ℕ → Task → Type 0
Holds id (removed k e mine) = k ≡ id
Holds id (counted_off k e mine) = k ≡ id
Holds id _ = ⊥

abbrev pub Covers : ℕ → Task → Type 0
Covers id (ranging e left) = IsListed id left
Covers id (removing k e true) = k ≡ id
Covers id _ = ⊥

abbrev pub Any : (Task → Type 0) → List Task → Type 0
Any P [] = ⊥
Any P (t ∷ ts) = P t ⊎ Any P ts

module _ (P : Task → Type 0) where
  Any-before : (new after : List Task) → Any P new → Any P (new ++ after)
  Any-before [] after h = absurd h
  Any-before (t ∷ new) after (inl p) = inl p
  Any-before (t ∷ new) after (inr h) = inr (Any-before new after h)

  pub Any-behind : (new after : List Task) → Any P after → Any P (new ++ after)
  Any-behind [] after h = h
  Any-behind (t ∷ new) after h = inr (Any-behind new after h)

  -- It is the goroutine that goes on, or another one.
  pub Any-goes :
      (before : List Task) (t : Task) (new after : List Task)
      → Any P (before ++ (t ∷ after))
      → P t ⊎ Any P (before ++ (new ++ after))
  Any-goes [] t new after (inl p) = inl p
  Any-goes [] t new after (inr h) = inr (Any-behind new after h)
  Any-goes (b ∷ before) t new after (inl p) = inr (inl p)
  Any-goes (b ∷ before) t new after (inr h) = elim (Any-goes before t new after h) [
    | inl p ↦ inl p
    | inr h' ↦ inr (inr h')
  ]

  pub Any-new : (before new after : List Task) → Any P new → Any P (before ++ (new ++ after))
  Any-new before new after h = Any-behind before (new ++ after) (Any-before new after h)
