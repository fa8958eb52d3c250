-- ===== src/Trans/Serving.antt =====
-- The count of channels while connects, closed connections and the end of the transport interleave
-- (internal/trans/trans_handler.go).
use less.Base.{
  ℕ, ◌+◌, ◌≡◌, refl, ap, ◌∙◌, Bool, true, false, List, [], ◌∷◌, ◌++◌, Option, none, some, Error,
  transport_closed, if◌then◌else◌, Outcome, ok, err, panic, hang, arith, length,
}
use less.Codec.{Message}
use less.Pipeline.{Context, Pipeline, fire_on_channel}
use less.Channel.{Channel, channel_ops, new_channel}
use less.Channel.Closing.{close}
use less.Trans.{TransHandler, load, close_life, place, is_serving}
use less.Trans.Registry.{length-delete}
use less.Trans.Goroutines.{
  Task, activated, counted, stored, failed, removing, removed, counted_off, hooks, ranging, World,
  run, loaded, hooks_of, Move, goes, finds, loses_conn, closes, begin_close,
}

-- What may happen next to a serving handler: a connect passes its tests, whenever it made them, and its
-- hooks succeed or fail; a message is decoded; the transport is closed; or a goroutine goes on.
pub data Step (w : World) : World → Type 0 where
  connects :
      (pl : Pipeline Channel) (ctx : Context) (side now : ℕ) (keeper : Bool) (ch : Channel)
      → fire_on_channel channel_ops pl ctx (new_channel side now) ≡ (none, ch)
      → Step w (record {
        handler = place true ch w.handler;
        tasks = activated w.handler.next_channel keeper ∷ w.tasks;
      })
  fails :
      (pl : Pipeline Channel) (ctx : Context) (side now : ℕ) (ch : Channel) (e : Error)
      → fire_on_channel channel_ops pl ctx (new_channel side now) ≡ (some e, ch)
      → Step w (record {
        handler = place false ch w.handler;
        tasks = failed w.handler.next_channel e ∷ w.tasks;
      })
  gets_message :
      (id : ℕ) (m : Message)
      → Step w
          (record w { handler = record (w.handler) { submitted = (id, m) ∷ w.handler.submitted } })
  ends : (e : Option Error) → Step w (begin_close e w)
  moves : {w' : World} → Move w w' → Step w w'

pub data Reach (w : World) : World → Type 0 where
  here : Reach w w
  next : {w1 w2 : World} → Reach w w1 → Step w1 w2 → Reach w w2

-- Whether a goroutine is between `Inc` and `Store`, or between `LoadAndDelete` and `Dec`.
abbrev pub between : Task → ℕ
between (counted id keeper) = 1
between (removed id e mine) = 1
between _ = 0

abbrev pub all_between : List Task → ℕ
all_between [] = 0
all_between (t ∷ ts) = between t + all_between ts

pub all_between-append :
    (ts us : List Task) → all_between (ts ++ us) ≡ all_between ts + all_between us
all_between-append [] us = omega arith
all_between-append (t ∷ ts) us = omega (arith, all_between-append ts us)

abbrev pub Counts : ℕ → TransHandler → Type 0
Counts k th = th.channel_count ≡ length th.channels + k

hooks-between :
    (id : ℕ) (e : Option Error) (o : Outcome (Unit {0})) → all_between (hooks_of id e o) ≡ 0
hooks-between id e (ok a) = refl
hooks-between id e (err x) = refl
hooks-between id e panic = refl
hooks-between id e hang = refl

serving-between :
    (b : Bool) (id : ℕ) (e : Error) → all_between (if b then [] else failed id e ∷ []) ≡ 0
serving-between true id e = refl
serving-between false id e = refl

loaded-Counts :
    (id : ℕ) (e : Option Error) (mine : Bool) (o : Option Bool) (k : ℕ) (th : TransHandler)
    → load id th.channels ≡ o
    → Counts k th
    → Counts (all_between (loaded id e mine o th).0 + k) (loaded id e mine o th).1
loaded-Counts id e mine none k th l h = omega (arith, h)
loaded-Counts id e mine (some v) k th l h = omega (arith, h, length-delete id v th.channels l)

run-Counts :
    (t : Task) (k : ℕ) (th : TransHandler)
    → Counts (between t + k) th
    → Counts (all_between (run t th).0 + k) (run t th).1
unfolding run close_life
run-Counts (activated id keeper) k th h = omega (arith, h)
run-Counts (counted id keeper) k th h = omega (arith, h)
run-Counts (stored id) k th h =
    omega (arith, h, serving-between (is_serving th.status) id transport_closed)
run-Counts (failed id e) k th h =
    omega
      (arith, h, hooks-between id (some e) (close (th.lives id).ch.state (some e) (th.lives id)).0)
run-Counts (removing id e mine) k th h =
    let same : th.channel_count ≡ length th.channels + k = omega (arith, h) in
    loaded-Counts id e mine (load id th.channels) k th refl same
run-Counts (removed id e mine) k th h = omega (arith, h)
run-Counts (counted_off id e mine) k th h =
    omega (arith, h, hooks-between id e (close (th.lives id).ch.state e (th.lives id)).0)
run-Counts (hooks id e) k th h = omega (arith, h)
run-Counts (ranging e []) k th h = omega (arith, h)
run-Counts (ranging e ((id, v) ∷ left)) k th h = omega (arith, h)

abbrev pub IsCounted : World → Type 0
IsCounted w = Counts (all_between w.tasks) w.handler

pub Move-IsCounted : {w w' : World} → Move w w' → IsCounted w → IsCounted w'
Move-IsCounted {w} (goes before t after is) h =
    let old = ap all_between is ∙ all_between-append before (t ∷ after) in
    let r = run t w.handler in
    let now = all_between-append before (r.0 ++ after) in
    let mid = all_between-append r.0 after in
    let balance =
      run-Counts t (all_between before + all_between after) w.handler (omega (arith, h, old)) in
    omega (arith, now, mid, balance)
Move-IsCounted {w} (finds before e left after id v is) h = omega (
  arith,
  h,
  ap all_between is,
  all_between-append before (ranging e left ∷ after),
  all_between-append before (ranging e ((id, v) ∷ left) ∷ after),
)
Move-IsCounted (loses_conn id e) h = omega (arith, h)
Move-IsCounted {w} (closes id e) h =
    let o = (close (w.handler.lives id).ch.state e (w.handler.lives id)).0 in
    unfold close_life in
    omega (arith, h, hooks-between id e o, all_between-append (hooks_of id e o) w.tasks)

begin-IsCounted :
    (b : Bool) (e : Option Error) (w : World)
    → is_serving w.handler.status ≡ b
    → IsCounted w
    → IsCounted (begin_close e w)
unfolding begin_close
begin-IsCounted true e w is h = rw is (omega (arith, h))
begin-IsCounted false e w is h = rw is h

Step-IsCounted : {w w' : World} → Step w w' → IsCounted w → IsCounted w'
Step-IsCounted (connects pl ctx side now keeper ch e) h = omega (arith, h)
Step-IsCounted (fails pl ctx side now ch e f) h = omega (arith, h)
Step-IsCounted (gets_message id m) h = h
Step-IsCounted {w} (ends e) h = begin-IsCounted (is_serving w.handler.status) e w refl h
Step-IsCounted (moves m) h = Move-IsCounted m h

-- However the parts of connects, of closing channels and of the end of the transport interleave, from a
-- handler without channels and goroutines on, where no one closes one side of a channel: the count that
-- the limit is compared with is the number of registered channels, with those added that a connect has
-- counted and not yet stored and those that are taken off the map and not yet counted down.
pub Reach-counted :
    {w w' : World}
    → w.handler.channels ≡ []
    → w.handler.channel_count ≡ 0
    → w.tasks ≡ []
    → Reach w w'
    → w'.handler.channel_count ≡ length w'.handler.channels + all_between w'.tasks
Reach-counted {w} none_listed zero_counted idle r = go r
  where
    go : {w' : World} → Reach w w' → IsCounted w'
    go here = omega (arith, ap length none_listed, zero_counted, ap all_between idle)
    go (next r s) = Step-IsCounted s (go r)
