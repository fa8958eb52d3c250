-- ===== src/Examples/Channels.antt =====
-- Channels and pipelines at concrete inputs (internal/channel).
use less.Base.{
  ℕ, ◌≤◌, ◌≡◌, ◌≢◌, refl, true, false, List, [], ◌∷◌, Option, Error, none, some, channel_closed,
  channel_reader_closed, channel_writer_closed, custom, ok, err, arith,
}
use less.Codec.{Message, text}
use less.Pipeline.{
  Handler, Middleware, OnChannel, Pipeline, ChannelOps, fire_on_channel, keep, fire_inbound,
  release, take_pipeline, new_pipeline_factory, put_back, add_inbound, empty_handler,
}
use less.Pipeline.Order.{nest, fire_inbound-order}
use less.Pipeline.Reuse.{taken, inbound, release-Used}
use less.Pipeline.Activation.{nil, cons, fire_on_channel-fails}
use less.Channel.{Channel, read_event, wait_group_done, WaitGroup, active, is_active, writer}
use less.Channel.{reader}
use less.Channel.Api.{write, write-refused}
use less.Channel.Closing.{
  Life, new_life, close, activate, not_closed, Reach, here, next, activates, closes, with_channel,
  tear_down, fire_hooks, ends, reads_done, returns,
}
use less.Channel.Closing.Lifetime.{closing_once, close-once}

abbrev tasks : WaitGroup
tasks = record { read_task = 1; write_task = 2; all_task = 3 }

abbrev channel : ℕ → Channel
channel state = record {
  ctx = some 0;
  conn_active = true;
  state = state;
  tasks = tasks;
  side = 2;
  last_read = 0;
  last_write = 0;
  idle = none;
}

abbrev closed_life : Life
closed_life = (close 3 none (activate (new_life (channel 0)))).1

closed_Reach : Reach (new_life (channel 0)) closed_life
unfolding new_life
closed_Reach =
    next (next here (activates (new_life (channel 0)) refl))
      (closes (activate (new_life (channel 0))) 3 none)

closing_once_example :
    (closed_life.hooks_fired ≤ 1)
    × (closed_life.done_closed ≤ 1)
    × (closed_life.released ≡ closed_life.done_closed)
    × (closed_life.ch.conn_active ≡ false
        → (closed_life.hooks_fired ≡ 1) × (closed_life.done_closed ≡ 1))
closing_once_example = closing_once (channel 0) (refl, refl) closed_Reach

is_closed : closed_life.phase ≢ not_closed
unfolding close activate new_life active
is_closed h = ground arith

close-once_example :
    (close 3 none closed_life ≡ (err channel_closed, closed_life))
    × (is_active closed_life.ch ≡ false)
close-once_example = close-once (channel 0) 3 none (refl, refl) closed_Reach is_closed

-- A channel with a reading and two writing tasks is closed with an error.
abbrev cause : Option Error
cause = some (custom 7)

abbrev opened : Life
opened = activate (new_life (channel 0))

abbrev shut : Life
shut = (close 3 cause opened).1

abbrev no_reader : Life
no_reader =
    with_channel shut
      (record (shut.ch) { tasks = record { read_task = 0; write_task = 2; all_task = 2 } })

abbrev torn : Life
torn = tear_down (fire_hooks cause no_reader)

torn_Reach : Reach (new_life (channel 0)) torn
unfolding new_life activate active close fire_hooks wait_group_done
torn_Reach =
    next
      (next
        (next (next (next here (activates (new_life (channel 0)) refl)) (closes opened 3 cause))
          (ends shut read_event (record { read_task = 0; write_task = 2; all_task = 2 }) refl))
        (reads_done no_reader cause refl refl))
      (returns (fire_hooks cause no_reader) refl)

abbrev hi : Message
hi = text (104 ∷ 105 ∷ [])

-- Middlewares that leave their names, and a handler that leaves 9.
abbrev World : Type 0
World = List ℕ

abbrev marks : ℕ → Middleware World
marks k handler ctx m w = handler ctx m (k ∷ w)

abbrev last : Handler World
last ctx m w = (ok tt, 9 ∷ w)

abbrev world_ops : ChannelOps World
world_ops = record { context = λ w. none; set_context = λ c w. w; active = λ w. 100 ∷ w }

abbrev passing : OnChannel World
passing ctx w = ((some 1, none), 1 ∷ w)

abbrev failing : OnChannel World
failing ctx w = ((none, some (custom 7)), 2 ∷ w)

abbrev pipeline : List (OnChannel World) → Pipeline World
pipeline hooks = record {
  on_channel_chain = hooks;
  on_channel_closed_chain = [];
  inbound = marks 1 ∷ marks 2 ∷ [];
  outbound = marks 3 ∷ [];
  router = none;
  outbound_handler = some last;
  bound = false;
  chocc = [];
  ch_in = [];
  ch_out = [];
}

fire_inbound-order_example :
    fire_inbound world_ops (pipeline []) hi []
    ≡ nest (marks 1 ∷ marks 2 ∷ []) empty_handler none hi []
fire_inbound-order_example = fire_inbound-order world_ops (pipeline []) hi []

release-Used_example :
    (release (add_inbound (marks 4 ∷ []) (record (pipeline []) { bound = true })) ≡ pipeline [])
    × (take_pipeline (some 0) (
          new_pipeline_factory (pipeline (passing ∷ [])) (
            put_back
              (add_inbound (marks 4 ∷ []) (record (pipeline []) { bound = true }))
              (record { fresh = pipeline []; released = [] })))
        ≡ (
          record (pipeline []) { bound = true },
          new_pipeline_factory
              (pipeline (passing ∷ []))
              (record { fresh = pipeline []; released = [] }),
        ))
    × ((take_pipeline none (
          new_pipeline_factory (pipeline (passing ∷ [])) (
            put_back
              (add_inbound (marks 4 ∷ []) (record (pipeline []) { bound = true }))
              (record { fresh = pipeline []; released = [] })))).0
        ≡ record (pipeline (passing ∷ [])) { bound = true })
release-Used_example =
    release-Used (pipeline []) (pipeline (passing ∷ []))
      (add_inbound (marks 4 ∷ []) (record (pipeline []) { bound = true }))
      (record { fresh = pipeline []; released = [] })
      (record { unbound = refl; no_hooks = refl; no_inbound = refl; no_outbound = refl })
      (inbound (marks 4 ∷ []) taken)

fire_on_channel-fails_example :
    fire_on_channel world_ops (pipeline (passing ∷ failing ∷ passing ∷ [])) none []
    ≡ (some (custom 7), 2 ∷ 1 ∷ [])
unfolding keep
fire_on_channel-fails_example =
    fire_on_channel-fails world_ops (pipeline (passing ∷ failing ∷ passing ∷ [])) none (some 1) none
      [] (1 ∷ []) (2 ∷ 1 ∷ []) (passing ∷ []) (passing ∷ []) failing (custom 7) refl (cons refl nil)
      refl

abbrev bare : Pipeline Channel
bare = record {
  on_channel_chain = [];
  on_channel_closed_chain = [];
  inbound = [];
  outbound = [];
  router = none;
  outbound_handler = none;
  bound = true;
  chocc = [];
  ch_in = [];
  ch_out = [];
}

write-refused_example :
    (write bare (text []) closed_life.ch ≡ (err channel_writer_closed, closed_life.ch))
    × (reader closed_life.ch ≡ err channel_reader_closed)
    × (writer closed_life.ch ≡ err channel_writer_closed)
write-refused_example = write-refused bare (text []) (channel 0) (refl, refl) closed_Reach is_closed
