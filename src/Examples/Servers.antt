-- ===== src/Examples/Servers.antt =====
-- Transport handlers at concrete inputs (internal/trans).
use less.Base.{
  ◌+◌, ◌≢◌, ◌⊎◌, ℕ, suc, ◌≤◌, ◌≡◌, refl, Bool, true, false, List, [], ◌∷◌, none, some,
  transport_closed, custom, ok, err, arith, length,
}
use less.Pipeline.{OnChannel, Pipeline, fire_on_channel, keep}
use less.Channel.{Channel, new_channel, channel_ops, active, is_active, set_context}
use less.Channel.Closing.{Life, new_life, not_closed, wait_reads, close}
use less.Trans.{
  TransHandler, serving, closed, load, delete, close_channel, close_life, connect, on_connect,
  own_closed_hook, place, count_up,
}
use less.Trans.Registry.{Distinct, IsRegistry, close_channel-once}
use less.Trans.Goroutines.{
  Task, activated, counted, removed, ranging, World, run, goes, begin_close, run_schedule,
  run_schedule-keeps,
}
use less.Trans.Serving
use less.Trans.Serving.{connects, moves, all_between, Reach-counted}
use less.Trans.Drain.{Reach, here, next, all_awaited, Holds, Any}
use less.Trans.Drain.Empty.{closing-drains}
use less.Trans.Drain.Ends.{closing-ends}
use less.Trans.Connect.{
  on_connect-bounded, on_connect-one_more, on_connect-leaks, on_connect-overtaken,
}

abbrev pub channel : ℕ → Channel
channel state = record {
  ctx = some 0;
  conn_active = true;
  state = state;
  tasks = record { read_task = 0; write_task = 0; all_task = 0 };
  side = 2;
  last_read = 100;
  last_write = 0;
  idle = none;
}

abbrev pub life : ℕ → Life
life state = record {
  ch = channel state;
  activated = true;
  phase = not_closed;
  hooks_fired = 0;
  done_closed = 0;
  released = 0;
}

abbrev pub accepting : OnChannel Channel
accepting ctx ch = ((ctx, none), ch)

abbrev refusing : OnChannel Channel
refusing ctx ch = ((ctx, some (custom 7)), ch)

abbrev pub pipeline : OnChannel Channel → Pipeline Channel
pipeline hook = record {
  on_channel_chain = hook ∷ [];
  on_channel_closed_chain = [];
  inbound = [];
  outbound = [];
  router = none;
  outbound_handler = none;
  bound = true;
  chocc = [];
  ch_in = [];
  ch_out = [];
}

-- A handler with `max` channels at most, and the channels that are given.
abbrev pub handler : ℕ → List (ℕ × Bool) → TransHandler
handler max channels = record {
  status = serving;
  max_channel_size = max;
  max_receive_message_size = 1024;
  channels = channels;
  channel_count = length channels;
  lives = λ id. life 3;
  keeper_done = λ id. false;
  next_channel = 5;
  submitted = [];
}

abbrev pub two : List (ℕ × Bool)
two = (4, true) ∷ (2, false) ∷ []

pub two-IsRegistry : IsRegistry (handler 2 two)
unfolding load
two-IsRegistry = record { counted = refl; distinct = (refl, (refl, tt)) }

close_channel-once_example :
    (2 ≡ suc (close_channel 4 none (handler 2 two)).channel_count)
    × (load 4 (close_channel 4 none (handler 2 two)).channels ≡ none)
    × (close_channel 4 (some (custom 1)) (close_channel 4 none (handler 2 two))
        ≡ close_channel 4 none (handler 2 two))
unfolding load
close_channel-once_example =
    close_channel-once 4 none (some (custom 1)) true (handler 2 two) two-IsRegistry refl

on_connect-bounded_example :
    (on_connect (pipeline accepting) none 2 100 true (λ t. t) (handler 2 two)).1.channel_count ≤ 3
on_connect-bounded_example =
    on_connect-bounded (pipeline accepting) none 2 100 true (handler 2 two) (omega arith)
      (omega arith)

abbrev accepted : Channel
accepted = active (keep channel_ops (some 1) (set_context (some 1) (new_channel 2 100)))

on_connect-one_more_example :
    let r = on_connect (pipeline accepting) (some 1) 2 100 true (λ t. t) (handler 2 two) in
    (r.0 ≡ ok 5) × (r.1.channel_count ≡ 3)
unfolding fire_on_channel keep set_context new_channel active
on_connect-one_more_example =
    on_connect-one_more (pipeline accepting) (some 1) 2 100 true (handler 2 two) accepted refl refl
      refl

on_connect-leaks_example :
    let r = on_connect (pipeline refusing) (some 1) 2 100 true (λ t. t) (handler 2 []) in
    (r.0 ≡ err (custom 7))
    × (r.1.channels ≡ [])
    × (r.1.channel_count ≡ 0)
    × (r.1.lives 5 ≡ new_life (set_context (some 1) (new_channel 2 100)))
unfolding fire_on_channel keep set_context new_channel
on_connect-leaks_example =
    on_connect-leaks (pipeline refusing) (some 1) 2 100 true (handler 2 [])
      (set_context (some 1) (new_channel 2 100)) (custom 7) refl (omega arith) refl refl

abbrev shut : TransHandler → TransHandler
shut th = record th { status = closed }

abbrev left : TransHandler
left = shut (connect (pipeline accepting) (some 1) 2 100 true (handler 2 [])).1

left-Distinct : Distinct left.channels
unfolding load connect fire_on_channel keep set_context new_channel active
left-Distinct = (refl, tt)

left_state : (left.lives 5).ch.state ≡ 3
unfolding connect fire_on_channel keep set_context new_channel active new_life
left_state = refl

left_open : (left.lives 5).ch.state ≢ 0
left_open h = omega (arith, h, left_state)

on_connect-overtaken_example :
    let r = on_connect (pipeline accepting) (some 1) 2 100 true shut (handler 2 []) in
    (r.0 ≡ err transport_closed)
    × (is_active (r.1.lives 5).ch ≡ false)
    × ((r.1.lives 5).phase ≡ wait_reads (some transport_closed))
    × (load 5 (own_closed_hook 5 (some transport_closed) r.1).channels ≡ none)
unfolding fire_on_channel keep set_context new_channel active connect
on_connect-overtaken_example =
    on_connect-overtaken (pipeline accepting) (some 1) 2 100 true shut (handler 2 []) accepted refl
      (omega arith) refl refl left_open left-Distinct

-- A connect that has counted its channel and not yet stored it.
abbrev idle : World
idle = record { handler = handler 2 []; tasks = [] }

abbrev counting : World
counting = record {
  handler = count_up (place true accepted (handler 2 []));
  tasks = counted 5 true ∷ [];
}

accepts :
    fire_on_channel channel_ops (pipeline accepting) (some 1) (new_channel 2 100) ≡ (none, accepted)
unfolding fire_on_channel keep set_context new_channel active
accepts = refl

counting_Reach : Serving.Reach idle counting
unfolding run
counting_Reach =
    Serving.next
      (Serving.next Serving.here
        (connects (pipeline accepting) (some 1) 2 100 true accepted accepts))
      (moves (goes [] (activated 5 true) [] refl))

Reach-counted_example :
    counting.handler.channel_count ≡ length counting.handler.channels + all_between counting.tasks
Reach-counted_example = Reach-counted {w = idle} {w' = counting} refl refl refl counting_Reach

-- `Close` of a handler with two channels, while another goroutine has taken a third one off the map.
abbrev three : TransHandler
three = record (handler 2 two) { channel_count = 3 }

abbrev others : List Task
others = removed 3 none false ∷ []

abbrev begun : World
begun = record { handler = record three { status = closed }; tasks = ranging none two ∷ others }

abbrev ended : World
ended = (run_schedule (0 ∷ 0 ∷ 0 ∷ 0 ∷ 1 ∷ 1 ∷ 1 ∷ 1 ∷ 2 ∷ []) begun).0

ended_Reach : Reach begun ended
ended_Reach =
    run_schedule-keeps (Reach begun) (λ w w' m r. next r m) (0 ∷ 0 ∷ 0 ∷ 0 ∷ 1 ∷ 1 ∷ 1 ∷ 1 ∷ 2 ∷ [])
      begun here

closing-drains_example :
    (ended.handler.channels ≡ [])
    × (ended.handler.channel_count ≡ all_between ended.tasks)
    × ((id : ℕ) (v : Bool)
        → load id two ≡ some v
        → (is_active (ended.handler.lives id).ch ≡ false) ⊎ Any (Holds id) ended.tasks)
unfolding run_schedule run load close_life close delete
closing-drains_example =
    closing-drains none none three others ended two-IsRegistry.distinct refl refl ended_Reach refl

closing-ends_example :
    (w' : World) × Reach (begin_close none (record { handler = three; tasks = others })) w'
    × (all_awaited w'.tasks ≡ 0)
closing-ends_example =
    closing-ends none none (record { handler = three; tasks = others })
      (begin_close none (record { handler = three; tasks = others })) here
