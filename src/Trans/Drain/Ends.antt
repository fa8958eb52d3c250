-- ===== src/Trans/Drain/Ends.antt =====
-- The goroutines of the end of a transport come to an end (internal/trans/trans_handler.go, Close).
use less.Base.{
  ℕ, ◌+◌, ◌≡◌, refl, sym, ap, ◌∙◌, Bool, true, false, List, [], ◌∷◌, ◌++◌, Option, none, some,
  Error, Outcome, ok, err, panic, hang, arith, append_assoc, append-nil,
}
use less.Channel.Closing.{close}
use less.Trans.{TransHandler, load}
use less.Trans.Goroutines.{
  Task, activated, counted, stored, failed, removing, removed, counted_off, hooks, ranging, World,
  run, loaded, hooks_of, goes, begin_close,
}
use less.Trans.Drain.{Reach, here, next, awaited, all_awaited, Answers}

all_awaited-append : (ts us : List Task) → all_awaited (ts ++ us) ≡ all_awaited ts + all_awaited us
all_awaited-append [] us = omega arith
all_awaited-append (t ∷ ts) us = omega (arith, all_awaited-append ts us)

hooks-awaited :
    (id : ℕ) (e : Option Error) (o : Outcome (Unit {0})) → all_awaited (hooks_of id e o) ≡ 0
hooks-awaited id e (ok a) = refl
hooks-awaited id e (err x) = refl
hooks-awaited id e panic = refl
hooks-awaited id e hang = refl

-- Goroutines in front of `after` that `Close` does not wait for.
record Cleared (start : World) (after : List Task) : Type 0 where
  world : World
  reached : Reach start world
  front : List Task
  stands : world.tasks ≡ front ++ after
  free : all_awaited front ≡ 0

module _ {start : World} where
  closing-Cleared :
      (before : List Task) (id : ℕ) (e : Option Error) (after : List Task) (w : World)
      → Reach start w
      → w.tasks ≡ before ++ (counted_off id e true ∷ after)
      → all_awaited before ≡ 0
      → Cleared start after
  unfolding run
  closing-Cleared before id e after w r is free =
      let t = counted_off id e true in
      let o = (close (w.handler.lives id).ch.state e (w.handler.lives id)).0 in
      record {
        world = record {
          handler = (run t w.handler).1;
          tasks = before ++ ((run t w.handler).0 ++ after);
        };
        reached = next r (goes before t after is);
        front = before ++ hooks_of id e o;
        stands = sym (append_assoc before (hooks_of id e o) after);
        free =
            omega (arith, free, all_awaited-append before (hooks_of id e o), hooks-awaited id e o);
      }

  removed-Cleared :
      (before : List Task) (id : ℕ) (e : Option Error) (after : List Task) (w : World)
      → Reach start w
      → w.tasks ≡ before ++ (removed id e true ∷ after)
      → all_awaited before ≡ 0
      → Cleared start after
  unfolding run
  removed-Cleared before id e after w r is free =
      closing-Cleared before id e after _ (next r (goes before (removed id e true) after is)) refl
        free

  loaded-Cleared :
      (before : List Task) (id : ℕ) (e : Option Error) (after : List Task) (th : TransHandler)
      (o : Option Bool)
      → Reach start (record {
        handler = (loaded id e true o th).1;
        tasks = before ++ ((loaded id e true o th).0 ++ after);
      })
      → all_awaited before ≡ 0
      → Cleared start after
  loaded-Cleared before id e after th none r free = record {
    world = _;
    reached = r;
    front = before;
    stands = refl;
    free = free;
  }
  loaded-Cleared before id e after th (some v) r free =
      removed-Cleared before id e after _ r refl free

  removing-Cleared :
      (before : List Task) (id : ℕ) (e : Option Error) (after : List Task) (w : World)
      → Reach start w
      → w.tasks ≡ before ++ (removing id e true ∷ after)
      → all_awaited before ≡ 0
      → Cleared start after
  unfolding run
  removing-Cleared before id e after w r is free =
      loaded-Cleared before id e after w.handler (load id w.handler.channels)
        (next r (goes before (removing id e true) after is)) free

  ranging-Cleared :
      (left : List (ℕ × Bool)) (before : List Task) (e : Option Error) (after : List Task)
      (w : World)
      → Reach start w
      → w.tasks ≡ before ++ (ranging e left ∷ after)
      → all_awaited before ≡ 0
      → Cleared start after
  unfolding run
  ranging-Cleared [] before e after w r is free = record {
    world = _;
    reached = next r (goes before (ranging e []) after is);
    front = before;
    stands = refl;
    free = free;
  }
  ranging-Cleared ((id, v) ∷ left) before e after w r is free =
      let c =
        removing-Cleared before id e (ranging e left ∷ after) _
          (next r (goes before (ranging e ((id, v) ∷ left)) after is)) refl free in
      ranging-Cleared left c.front e after c.world c.reached c.stands c.free

  passed :
      (before : List Task) (t : Task) (after : List Task) (w : World)
      → Reach start w
      → w.tasks ≡ before ++ (t ∷ after)
      → all_awaited before ≡ 0
      → awaited t ≡ 0
      → Cleared start after
  passed before t after w r is free z = record {
    world = w;
    reached = r;
    front = before ++ (t ∷ []);
    stands = is ∙ sym (append_assoc before (t ∷ []) after);
    free = omega (arith, free, z, all_awaited-append before (t ∷ []));
  }

  task-Cleared :
      (t : Task) (before after : List Task) (w : World)
      → Reach start w
      → w.tasks ≡ before ++ (t ∷ after)
      → all_awaited before ≡ 0
      → Cleared start after
  task-Cleared (ranging e left) before after w r is f = ranging-Cleared left before e after w r is f
  task-Cleared (removing id e true) before after w r is f =
      removing-Cleared before id e after w r is f
  task-Cleared (removed id e true) before after w r is f =
      removed-Cleared before id e after w r is f
  task-Cleared (counted_off id e true) before after w r is f =
      closing-Cleared before id e after w r is f
  task-Cleared (removing id e false) before after w r is f = passed before _ after w r is f refl
  task-Cleared (removed id e false) before after w r is f = passed before _ after w r is f refl
  task-Cleared (counted_off id e false) before after w r is f = passed before _ after w r is f refl
  task-Cleared (activated id keeper) before after w r is f = passed before _ after w r is f refl
  task-Cleared (counted id keeper) before after w r is f = passed before _ after w r is f refl
  task-Cleared (stored id) before after w r is f = passed before _ after w r is f refl
  task-Cleared (failed id e) before after w r is f = passed before _ after w r is f refl
  task-Cleared (hooks id e) before after w r is f = passed before _ after w r is f refl

  all_cleared :
      (ts before : List Task) (w : World)
      → Reach start w
      → w.tasks ≡ before ++ ts
      → all_awaited before ≡ 0
      → (w' : World) × Reach start w' × (all_awaited w'.tasks ≡ 0)
  all_cleared [] before w r is f = (w, r, ap all_awaited (is ∙ append-nil before) ∙ f)
  all_cleared (t ∷ ts) before w r is f =
      let c = task-Cleared t before ts w r is f in
      all_cleared ts c.front c.world c.reached c.stands c.free

-- Whatever the goroutines of `Close` and others that close channels have done so far, they can go on
-- until `Close` returns without an error.
pub closing-ends :
    (e context : Option Error) (start w : World)
    → Reach (begin_close e start) w
    → (w' : World) × Reach w w' × Answers w' context (ok tt)
closing-ends e context start w r = all_cleared w.tasks [] w here refl refl
