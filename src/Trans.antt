-- ===== src/Trans.antt =====
-- The transport handler, which accepts connections, reads and writes their messages and closes them
-- (internal/trans/trans_handler.go, internal/atomic/int64.go), and its options
-- (internal/trans/options.go).
pub mod Options
pub mod Registry
pub mod Serving
pub mod Connect
pub mod Drain
pub mod Goroutines
pub mod Listed
pub mod Passing
use less.Base.{
  ℕ, zero, suc, ◌+◌, ◌-◌, ◌≡◌, Bool, true, false, not, ◌&&◌, ◌||◌, List, [], ◌∷◌, Option, none,
  some, Error, connect_refused, out_of_limit, request_refused, transport_closed,
  channel_reader_closed, custom, Outcome, ok, err, panic, hang, Method, ltb, ◌==◌, if◌then◌else◌,
  ◌%◌, ◌^◌,
}
use less.Io.Reader.{Reader}
use less.Io.Limit.{u32}
use less.Codec.{Message}
use less.Pipeline.{Context, Pipeline, Handler, fire_on_channel, fire_inbound}
use less.Channel.{Channel, channel_ops, new_channel, reader, writer}
use less.Channel.Closing.{Life, new_life, close}

-- `serving` and `closed`.
pub data Status : Type 0 where
  serving closed : Status

abbrev pub is_serving : Status → Bool
is_serving serving = true
is_serving closed = false

-- A channel is named by a number, as a Go pointer names it. `channels` is the sync.Map, whose values
-- are a keeper or nothing; `keeper_done` tells of each channel's keeper whether it was closed.
-- `submitted` are the messages that the goroutine pool was given, the last one first.
pub record TransHandler : Type 0 where
  pub status : Status
  pub max_channel_size : ℕ
  pub max_receive_message_size : ℕ
  pub channels : List (ℕ × Bool)
  pub channel_count : ℕ
  pub lives : ℕ → Life
  pub keeper_done : ℕ → Bool
  pub next_channel : ℕ
  pub submitted : List (ℕ × Message)

-- `sync.Map`: a key's value, and the map without the key.
unfoldable pub load : ℕ → List (ℕ × Bool) → Option Bool
load k [] = none
load k ((j, v) ∷ rest) = let later = load k rest in if j == k then some v else later

unfoldable pub delete : ℕ → List (ℕ × Bool) → List (ℕ × Bool)
delete k [] = []
delete k ((j, v) ∷ rest) = let later = delete k rest in if j == k then rest else (j, v) ∷ later

abbrev pub update : {A : Type 0} → (ℕ → A) → ℕ → A → ℕ → A
update f k a j = if j == k then a else f j

-- `ch.Close(ctx, err)` of the channel `id`, whose error is dropped.
unfoldable pub close_life : ℕ → Option Error → TransHandler → TransHandler
close_life id e th = record th {
  lives = update th.lives id (close (th.lives id).ch.state e (th.lives id)).1;
}

-- The parts of `closeChannel`, between which other goroutines run: `LoadAndDelete` with the keeper's
-- `Close`, and `Dec`; `ch.Close` is the last one.
abbrev pub take_off : ℕ → (keeper : Bool) → TransHandler → TransHandler
take_off id keeper th = record th {
  channels = delete id th.channels;
  keeper_done = if keeper then update th.keeper_done id true else th.keeper_done;
}

abbrev pub count_down : TransHandler → TransHandler
count_down th = record th { channel_count = th.channel_count - 1 }

-- `closeChannel`, behind `LoadAndDelete`, where no other goroutine runs in between.
close_loaded : ℕ → Option Error → Option Bool → TransHandler → TransHandler
close_loaded id e none th = th
close_loaded id e (some keeper) th = close_life id e (count_down (take_off id keeper th))

unfoldable pub close_channel : ℕ → Option Error → TransHandler → TransHandler
unfolding close_loaded
close_channel id e th = close_loaded id e (load id th.channels) th

-- What the deferred function of `OnConnect` does when it is reached with an error or without one;
-- `created` is the channel, if there is one. The goroutine that `ch.Close` starts calls
-- `own_closed_hook` later.
close_created : Option ℕ → Error → TransHandler → TransHandler
close_created none e th = th
close_created (some id) e th = close_life id (some e) th

unfoldable pub connect_deferred : Option ℕ → Outcome ℕ → TransHandler → Outcome ℕ × TransHandler
unfolding close_created
connect_deferred created (ok id) th =
    if is_serving th.status
    then (ok id, th)
    else (err transport_closed, close_created created transport_closed th)
connect_deferred created (err e) th =
    if is_serving th.status
    then (err e, close_created created e th)
    else (err transport_closed, close_created created transport_closed th)
connect_deferred created panic th =
    if is_serving th.status then (panic, th) else (panic, close_created created transport_closed th)
connect_deferred created hang th = (hang, th)

-- `prepareKeepalive` answers with a keeper if one of the durations is set.
abbrev pub prepare_keepalive : (idle age time : ℕ) → Bool
prepare_keepalive idle age time = ltb 0 idle || ltb 0 age || ltb 0 time

-- A channel `ch`, named by the next number, behind `ch.Activate(ctx)`, which has failed or not.
abbrev pub place : Bool → Channel → TransHandler → TransHandler
place activated ch th = record th {
  lives = update th.lives th.next_channel (record (new_life ch) { activated = activated });
  next_channel = th.next_channel + 1;
}

-- `Inc` and `Store`, between which other goroutines run. The key is a new one.
abbrev pub count_up : TransHandler → TransHandler
count_up th = record th { channel_count = th.channel_count + 1 }

abbrev pub store : ℕ → Bool → TransHandler → TransHandler
store id keeper th = record th { channels = (id, keeper) ∷ th.channels }

-- Behind `ch.Activate(ctx)`: the channel is counted and stored.
enrol : ℕ → Bool → Option Error × Channel → TransHandler → Outcome ℕ × TransHandler
enrol id keeper (some e, ch) th = (err e, place false ch th)
enrol id keeper (none, ch) th = (ok id, store id keeper (count_up (place true ch th)))

module _ (pl : Pipeline Channel) (ctx : Context) (side now : ℕ) (keeper : Bool) where
  -- The part of `OnConnect` in front of its deferred function. `pl` is the pipeline that the factory
  -- hands out, `keeper` what `prepareKeepalive` answers.
  unfoldable pub connect : TransHandler → (Option ℕ × Outcome ℕ) × TransHandler
  unfolding enrol
  connect th =
      if ltb 0 th.max_channel_size && ltb th.max_channel_size th.channel_count
      then ((none, err out_of_limit), th)
      else let id = th.next_channel in
        let r = enrol id keeper (fire_on_channel channel_ops pl ctx (new_channel side now)) th in
        ((some id, r.0), r.1)

  -- `OnConnect`. `others` is what the other goroutines do to the handler before the deferred function
  -- runs.
  unfoldable pub on_connect : (others : TransHandler → TransHandler) → Method TransHandler ℕ
  on_connect others th =
      if not (is_serving th.status)
      then (err connect_refused, th)
      else let r = connect th in connect_deferred r.0.0 r.0.1 (others r.1)

module _ {S : Type 0} (api : Reader S) (decode : Method S Message) where
  -- Behind the call of `Decode` in `OnRead`: a panic is recovered from, and closes the channel too.
  unfoldable pub decoded :
      ℕ → Outcome Message × S → TransHandler → Outcome (Unit {0}) × TransHandler
  decoded id (ok m, s) th =
      if ltb 0 th.max_receive_message_size
        && ltb th.max_receive_message_size (u32 (api.length_of s))
      then (ok tt, th)
      else (ok tt, record th { submitted = (id, m) ∷ th.submitted })
  decoded id (err e, s) th = (err e, close_channel id (some e) th)
  decoded id (panic, s) th = (ok tt, close_channel id (some (custom 0)) th)
  decoded id (hang, s) th = (hang, th)

  unfoldable pub on_read : ℕ → S → TransHandler → Outcome (Unit {0}) × TransHandler
  on_read id s th =
      if not (is_serving th.status) then (err transport_closed, th) else decoded id (decode s) th

  -- `OnMessage`, with the reader that the connection makes.
  read_with : ℕ → S → Outcome (Unit {0}) → TransHandler → Outcome (Unit {0}) × TransHandler
  read_with id s (ok a) th = on_read id s th
  read_with id s (err e) th = (ok tt, th)
  read_with id s panic th = (panic, th)
  read_with id s hang th = (hang, th)

  unfoldable pub on_message : ℕ → S → TransHandler → Outcome (Unit {0}) × TransHandler
  unfolding read_with
  on_message id s th =
      if not (is_serving th.status)
      then (err request_refused, th)
      else read_with id s (reader (th.lives id).ch) th

-- The first of the OnChannelClosed hooks that `NewTransHandler` gives its pipelines: the goroutine of
-- `ch.Close` calls `closeChannel`. The others, which change channels only, stand in the pipeline.
unfoldable pub own_closed_hook : ℕ → Option Error → TransHandler → TransHandler
own_closed_hook = close_channel

unfoldable pub on_conn_closed : ℕ → Option Error → TransHandler → TransHandler
on_conn_closed = close_channel

module _ {W : Type 0} (encode : Message → Method W (Unit {0})) where
  encoded : ℕ → Outcome (Unit {0}) × W → TransHandler → (Outcome (Unit {0}) × W) × TransHandler
  encoded id (ok a, w) th = ((ok a, w), th)
  encoded id (err e, w) th = ((err e, w), th)
  encoded id (panic, w) th = ((ok tt, w), close_channel id (some (custom 0)) th)
  encoded id (hang, w) th = ((hang, w), th)

  unfoldable pub on_write : ℕ → Message → W → TransHandler → (Outcome (Unit {0}) × W) × TransHandler
  unfolding encoded
  on_write id m w th =
      if not (is_serving th.status)
      then ((err transport_closed, w), th)
      else encoded id (encode m w) th

  write_with :
      ℕ → Message → W → Outcome (Unit {0}) → TransHandler → (Outcome (Unit {0}) × W) × TransHandler
  write_with id m w (ok a) th = on_write id m w th
  write_with id m w (err e) th = ((err e, w), th)
  write_with id m w panic th = ((panic, w), th)
  write_with id m w hang th = ((hang, w), th)

  -- `outboundHandler`; the writer is released behind it.
  unfoldable pub outbound_handler :
      ℕ → Message → W → TransHandler → (Outcome (Unit {0}) × W) × TransHandler
  unfolding write_with
  outbound_handler id m w th = write_with id m w (writer (th.lives id).ch) th
