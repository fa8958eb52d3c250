-- ===== src/Server.antt =====
-- The server and its options (server/server.go). `P` is the type of packet codecs, `A` the state of the
-- goroutine pool's library.
pub mod Address
pub mod Sharing
pub mod Ending
use less.Base.{
  replicate, ℕ, Bool, true, false, List, [], ◌∷◌, ◌++◌, Option, none, some, Bytes, Error, Outcome,
  ok, err, panic, hang, Method, ltb, length, if◌then◌else◌,
}
use less.Pipeline.{Middleware, OnChannel, OnChannelClosed}
use less.Channel.{Channel}
use less.Channel.Closing.{Life}
use less.Keepalive.{ServerParameters}
use less.Trans.Goroutines.{trans_close}
use less.Trans.{TransHandler}
use less.Trans.Options
use less.Trans.Options.{TransOptions, TransOption, Router, handler_options, new_trans_handler}
use less.Pool
use less.Pool.{Ants, GoPool}

-- `transport` names a transport.
pub record ServerOptions (P : Type 0) : Type 0 where
  pub addr : Bytes
  pub port : Bytes
  pub transport : ℕ
  pub trans_options : List (TransOption P)
  pub disable_g_pool : Bool

-- What the servers of a process share: `defaultServerOptions` and `defaultTransOptions`, to which
-- every server keeps a pointer, and the goroutine pool; `cancelled` are the transports that were closed,
-- and `exited` says that the process has ended.
pub record Process (P A : Type 0) : Type 0 where
  pub options : ServerOptions P
  pub trans_defaults : TransOptions P
  pub pool : GoPool A
  pub cancelled : List ℕ
  pub exited : Bool

pub record Server : Type 0 where
  pub addr : Bytes
  pub handler : Option TransHandler

-- "127.0.0.1" and "8888".
unfoldable pub default_server_options : {P : Type 0} → (tcp : ℕ) → ServerOptions P
default_server_options tcp = record {
  addr = 49 ∷ 50 ∷ 55 ∷ 46 ∷ 48 ∷ 46 ∷ 48 ∷ 46 ∷ 49 ∷ [];
  port = 56 ∷ 56 ∷ 56 ∷ 56 ∷ [];
  transport = tcp;
  trans_options = [];
  disable_g_pool = false;
}

abbrev pub ServerOption : Type 0 → Type 0 → Type 0
ServerOption P A = Process P A → Process P A

module _ {P A : Type 0} where
  -- `ops.transOptions = append(ops.transOptions, o)`.
  append_option : TransOption P → ServerOption P A
  append_option o w = record w {
    options = record (w.options) { trans_options = w.options.trans_options ++ (o ∷ []) };
  }

  -- With arguments, if there are some.
  append_some : {X : Type 0} → List X → TransOption P → ServerOption P A
  unfolding append_option
  append_some xs o w = if ltb 0 (length xs) then append_option o w else w

  unfoldable pub with_transport : ℕ → ServerOption P A
  with_transport transport w = record w { options = record (w.options) { transport = transport } }

  unfoldable pub with_on_channel : List (OnChannel Channel) → ServerOption P A
  unfolding append_some append_option
  with_on_channel hooks = append_some hooks (Options.add_on_channel hooks)

  unfoldable pub with_on_channel_closed : List (OnChannelClosed Channel) → ServerOption P A
  unfolding append_some append_option
  with_on_channel_closed hooks = append_some hooks (Options.add_on_channel_closed hooks)

  unfoldable pub with_router : Router → ServerOption P A
  unfolding append_option
  with_router router = append_option (Options.with_router router)

  unfoldable pub keepalive_params : ServerParameters → ServerOption P A
  unfolding append_option
  keepalive_params kp = append_option (Options.keepalive kp)

  unfoldable pub with_inbound_middleware : List (Middleware Channel) → ServerOption P A
  unfolding append_some append_option
  with_inbound_middleware mws = append_some mws (Options.add_inbound_middleware mws)

  unfoldable pub with_outbound_middleware : List (Middleware Channel) → ServerOption P A
  unfolding append_some append_option
  with_outbound_middleware mws = append_some mws (Options.add_outbound_middleware mws)

  unfoldable pub max_channel_size : ℕ → ServerOption P A
  unfolding append_option
  max_channel_size size = append_option (Options.with_max_channel_size size)

  unfoldable pub max_send_message_size : ℕ → ServerOption P A
  unfolding append_option
  max_send_message_size size = append_option (Options.with_max_send_message_size size)

  unfoldable pub max_receive_message_size : ℕ → ServerOption P A
  unfolding append_option
  max_receive_message_size size = append_option (Options.with_max_receive_message_size size)

  unfoldable pub disable_go_pool : ServerOption P A
  disable_go_pool w = record w { options = record (w.options) { disable_g_pool = true } }

  unfoldable pub max_go_pool_capacity : ℕ → ServerOption P A
  max_go_pool_capacity size w = record w { pool = record (w.pool) { default_size = size } }

  unfoldable pub apply : List (ServerOption P A) → ServerOption P A
  apply [] w = w
  apply (o ∷ os) w = apply os (o w)

  -- The server's options are the shared ones.
  unfoldable pub new_server : Bytes → List (ServerOption P A) → Process P A → Server × Process P A
  new_server addr op w = (record { addr = addr; handler = none }, apply op w)

-- `split` is net.SplitHostPort; its error is dropped.
abbrev pub Split : Type 0
Split = Bytes → (Bytes × Bytes) × Option Error

abbrev pub or_default : Bytes → Bytes → Bytes
or_default [] default = default
or_default (b ∷ bs) default = b ∷ bs

-- `fmt.Sprintf("%s:%s", addr, port)`.
abbrev pub join : Bytes → Bytes → Bytes
join addr port = addr ++ (58 ∷ port)

module _ {P : Type 0} (split : Split) where
  unfoldable pub parse_addr : Server → ServerOptions P → Bytes
  parse_addr srv ops =
      let s = split srv.addr in join (or_default s.0.0 ops.addr) (or_default s.0.1 ops.port)

  module _ {A : Type 0} (ants : Ants A) (random : ℕ → ℕ) (no_channel : Life) where
    -- What `Run` does before the goroutine that listens. A panic of `NewTransHandler` goes on to the
    -- caller.
    started : Server → Outcome (TransOptions P) → Process P A → Outcome Server × Process P A
    started srv (ok opts) w = (
      ok (record { addr = srv.addr; handler = some (new_trans_handler opts no_channel) }),
      record w {
        trans_defaults = opts;
        pool = if w.options.disable_g_pool then w.pool else Pool.init ants w.pool;
      },
    )
    started srv (err e) w = (err e, w)
    started srv panic w = (panic, w)
    started srv hang w = (hang, w)

    unfoldable pub run : Server → Process P A → Outcome Server × Process P A
    unfolding started
    run srv w =
        started (record srv { addr = parse_addr srv w.options })
          (handler_options random w.options.trans_options w.trans_defaults) w

module _ {P A : Type 0} (ants : Ants A) where
  -- Without a handler the call of its method panics. `picks` is the schedule of the goroutines that the
  -- handler's `Close` starts, whose functions the pool is given, all of them under the name 0.
  shut_down : List ℕ → Option TransHandler → Server → Process P A → Outcome Server × Process P A
  shut_down picks none srv w = (panic, w)
  shut_down picks (some th) srv w =
      let c = trans_close picks none th in
      (
        ok (record srv { handler = some c.0.handler }),
        record w {
          cancelled = w.options.transport ∷ w.cancelled;
          pool = Pool.release ants (Pool.submit_all ants (replicate c.1 0) w.pool);
        },
      )

  unfoldable pub shutdown : List ℕ → Server → Process P A → Outcome Server × Process P A
  unfolding shut_down
  shutdown picks srv w = shut_down picks srv.handler srv w

  -- The goroutine of `Run`, once `Listen` has returned an error: log.Fatalf ends the process.
  exits : Outcome Server × Process P A → Outcome Server × Process P A
  exits (ok srv, w) = (ok srv, record w { exited = true })
  exits (err e, w) = (err e, w)
  exits (panic, w) = (panic, w)
  exits (hang, w) = (hang, w)

  unfoldable pub listen_ended :
      List ℕ → Option Error → Server → Process P A → Outcome Server × Process P A
  unfolding exits
  listen_ended picks none srv w = (ok srv, w)
  listen_ended picks (some e) srv w = exits (shutdown picks srv w)
