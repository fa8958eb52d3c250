-- ===== src/Trans/Goroutines.antt =====
-- The goroutines of a transport handler between whose steps others run (internal/trans/trans_handler.go,
-- OnConnect, closeChannel, Close; NewTransHandler, the hook that calls closeChannel).
use less.Base.{
  ℕ, ◌≡◌, Bool, true, false, List, [], ◌∷◌, ◌++◌, Option, none, some, Error, transport_closed,
  Outcome, ok, err, panic, hang, if◌then◌else◌, zero, suc, ◌+◌, length, refl, sym, subst,
  append_assoc,
}
use less.Channel.Closing.{close}
use less.Trans.{
  TransHandler, closed, is_serving, load, close_life, take_off, count_down, count_up, store,
}

-- What a goroutine does next. `mine` says whether `Close` waits for it.
pub data Task : Type 0 where
  -- `OnConnect`: the channel is activated, or counted, or stored, or to be closed.
  activated counted : (id : ℕ) (keeper : Bool) → Task
  stored : (id : ℕ) → Task
  failed : (id : ℕ) (e : Error) → Task
  -- `closeChannel`: at its head, behind LoadAndDelete, behind Dec.
  removing removed counted_off : (id : ℕ) (e : Option Error) (mine : Bool) → Task
  -- The goroutine of `ch.Close`, before the first hook, which is `closeChannel`.
  hooks : (id : ℕ) (e : Option Error) → Task
  -- The goroutine of `Close` that goes over the map.
  ranging : (e : Option Error) (left : List (ℕ × Bool)) → Task

pub record World : Type 0 where
  pub handler : TransHandler
  pub tasks : List Task

-- What `ch.Close` starts if it is accepted.
abbrev pub hooks_of : ℕ → Option Error → Outcome (Unit {0}) → List Task
hooks_of id e (ok a) = hooks id e ∷ []
hooks_of id e (err x) = []
hooks_of id e panic = []
hooks_of id e hang = []

abbrev pub closed_by : ℕ → Option Error → TransHandler → List Task
closed_by id e th = hooks_of id e (close (th.lives id).ch.state e (th.lives id)).0

-- Behind `LoadAndDelete`.
abbrev pub loaded : ℕ → Option Error → Bool → Option Bool → TransHandler → List Task × TransHandler
loaded id e mine none th = ([], th)
loaded id e mine (some keeper) th = (removed id e mine ∷ [], take_off id keeper th)

-- The next step of a goroutine: what it and the ones it starts do then.
unfoldable pub run : Task → TransHandler → List Task × TransHandler
run (activated id keeper) th = (counted id keeper ∷ [], count_up th)
run (counted id keeper) th = (stored id ∷ [], store id keeper th)
run (stored id) th = (if is_serving th.status then [] else failed id transport_closed ∷ [], th)
run (failed id e) th = (closed_by id (some e) th, close_life id (some e) th)
run (removing id e mine) th = loaded id e mine (load id th.channels) th
run (removed id e mine) th = (counted_off id e mine ∷ [], count_down th)
run (counted_off id e mine) th = (closed_by id e th, close_life id e th)
run (hooks id e) th = (removing id e false ∷ [], th)
run (ranging e []) th = ([], th)
run (ranging e ((id, v) ∷ left)) th = (removing id e true ∷ ranging e left ∷ [], th)

-- What may happen next where no connect is under way: a goroutine goes on, Range comes to a key that was
-- stored meanwhile, someone calls closeChannel or a channel's Close. No one closes one side of a channel.
pub data Move (w : World) : World → Type 0 where
  goes :
      (before : List Task) (t : Task) (after : List Task)
      → w.tasks ≡ before ++ (t ∷ after)
      → Move w (record {
        handler = (run t w.handler).1;
        tasks = before ++ ((run t w.handler).0 ++ after);
      })
  finds :
      (before : List Task) (e : Option Error) (left : List (ℕ × Bool)) (after : List Task) (id : ℕ)
      (v : Bool)
      → w.tasks ≡ before ++ (ranging e left ∷ after)
      → Move w (record w { tasks = before ++ (ranging e ((id, v) ∷ left) ∷ after) })
  loses_conn :
      (id : ℕ) (e : Option Error) → Move w (record w { tasks = removing id e false ∷ w.tasks })
  closes :
      (id : ℕ) (e : Option Error)
      → Move w (record {
        handler = close_life id e w.handler;
        tasks = closed_by id e w.handler ++ w.tasks;
      })

-- `Close`: the exchange of the state, and the goroutine that goes over the map.
unfoldable pub begin_close : Option Error → World → World
begin_close e w =
    if is_serving w.handler.status
    then record {
      handler = record (w.handler) { status = closed };
      tasks = ranging e w.handler.channels ∷ w.tasks;
    }
    else w

-- How many functions the pool is given in a step.
abbrev submits : Task → TransHandler → ℕ
submits (failed id e) th = length (closed_by id (some e) th)
submits (counted_off id e mine) th = length (closed_by id e th)
submits (ranging e (entry ∷ left)) th = 1
submits _ th = 0

-- The goroutine at the place `n` goes on.
run_at : ℕ → List Task → TransHandler → World
run_at n [] th = record { handler = th; tasks = [] }
run_at zero (t ∷ ts) th = let r = run t th in record { handler = r.1; tasks = r.0 ++ ts }
run_at (suc n) (t ∷ ts) th =
    let w = run_at n ts th in record { handler = w.handler; tasks = t ∷ w.tasks }

submits_at : ℕ → List Task → TransHandler → ℕ
submits_at n [] th = 0
submits_at zero (t ∷ ts) th = submits t th
submits_at (suc n) (t ∷ ts) th = submits_at n ts th

-- The goroutines go on in the order of a schedule; what comes of them, and how many functions the pool
-- was given.
unfoldable pub run_schedule : List ℕ → World → World × ℕ
unfolding run_at submits_at
run_schedule [] w = (w, 0)
run_schedule (n ∷ ns) w =
    let r = run_schedule ns (run_at n w.tasks w.handler) in
    (r.0, submits_at n w.tasks w.handler + r.1)

-- `Close` when no other goroutine is at work, with the schedule of those that it starts.
unfoldable pub trans_close : List ℕ → Option Error → TransHandler → World × ℕ
trans_close picks e th =
    let r = run_schedule picks (begin_close e (record { handler = th; tasks = [] })) in
    (r.0, (if is_serving th.status then 1 else 0) + r.1)

run_at-keeps :
    (P : World → Type 0)
    → ((w w' : World) → Move w w' → P w → P w')
    → (n : ℕ) (before ts : List Task) (th : TransHandler)
    → P (record { handler = th; tasks = before ++ ts })
    → let w = run_at n ts th in P (record { handler = w.handler; tasks = before ++ w.tasks })
unfolding run_at
run_at-keeps P keeps n before [] th r = r
run_at-keeps P keeps zero before (t ∷ ts) th r = keeps _ _ (goes before t ts refl) r
run_at-keeps P keeps (suc n) before (t ∷ ts) th r =
    let w = run_at n ts th in
    subst (λ us. P (record { handler = w.handler; tasks = us }))
      (append_assoc before (t ∷ []) w.tasks)
      (run_at-keeps P keeps n (before ++ (t ∷ [])) ts th (
        subst (λ us. P (record { handler = th; tasks = us }))
          (sym (append_assoc before (t ∷ []) ts)) r))

-- What the steps of the goroutines keep, a schedule keeps.
pub run_schedule-keeps :
    (P : World → Type 0)
    → ((w w' : World) → Move w w' → P w → P w')
    → (ns : List ℕ) (w : World) → P w
    → P (run_schedule ns w).0
unfolding run_schedule
run_schedule-keeps P keeps [] w r = r
run_schedule-keeps P keeps (n ∷ ns) w r =
    run_schedule-keeps P keeps ns (run_at n w.tasks w.handler)
      (run_at-keeps P keeps n [] w.tasks w.handler r)
