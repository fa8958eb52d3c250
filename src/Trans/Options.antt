-- ===== src/Trans/Options.antt =====
-- The options of a transport handler, and the handler that is made of them (internal/trans/options.go;
-- internal/trans/trans_handler.go, NewTransHandler and newRouter). `P` is the type of packet codecs.
pub mod Shared
use less.Base.{
  ℕ, zero, suc, ◌+◌, ◌*◌, ◌-◌, ◌^◌, ◌||◌, Bool, true, false, List, [], ◌∷◌, ◌++◌, Option, none,
  some, Outcome, ok, err, panic, hang, Method, ltb, if◌then◌else◌, Error,
}
use less.Codec.{Message, PayloadCodec}
use less.Codec.Text.{text_codec}
use less.Codec.LessCodec.{less_codec}
use less.Pipeline.{Context, Handler, Middleware, OnChannel, OnChannelClosed, Pipeline, new_pipeline}
use less.Channel.{Channel, recorder, read_event, write_event}
use less.Keepalive.{
  Notice, ping_marker, go_away_marker, message, HealthParams, GoAwayParams, ServerParameters,
  KeeperOps, keepalive_middleware, consummate_keepalive_params,
}
use less.Trans.{TransHandler, serving}
use less.Channel.Closing.{Life, new_life}

abbrev pub Router : Type 0
Router = Context → Message → Channel → (Outcome (Handler Channel) × Channel)

pub record TransOptions (P : Type 0) : Type 0 where
  pub max_channel_size : ℕ
  pub max_send_message_size : ℕ
  pub max_receive_message_size : ℕ
  pub packet_codec : P
  pub payload_codec : PayloadCodec
  pub on_channel : List (OnChannel Channel)
  pub on_channel_closed : List (OnChannelClosed Channel)
  pub router : Option Router
  pub inbound : List (Middleware Channel)
  pub outbound : List (Middleware Channel)
  pub kp : ServerParameters
  pub use_less_msg_codec : Bool

-- `defaultTransOptions`, with `packet.NewVariableLengthCodec()` as the packet codec.
unfoldable pub default_trans_options : {P : Type 0} → P → TransOptions P
default_trans_options variable_length = record {
  max_channel_size = 2 ^ 32 - 1;
  max_send_message_size = 1024 * 1024 * 4;
  max_receive_message_size = 1024 * 1024 * 4;
  packet_codec = variable_length;
  payload_codec = text_codec;
  on_channel = [];
  on_channel_closed = [];
  router = none;
  inbound = [];
  outbound = [];
  kp = record {
    max_channel_idle_time = 0;
    max_channel_age = 0;
    close_grace = 0;
    health_params = some (record {
      time = 0;
      timeout = 0;
      ping = none;
      ping_recognizer = none;
      pong = none;
      pong_recognizer = none;
    });
    go_away_params = some (record { go_away = none; go_away_recognizer = none });
  };
  use_less_msg_codec = false;
}

asks_ping : Option HealthParams → Bool
asks_ping none = false
asks_ping (some h) = elim h.ping [ some ping_marker ↦ true | _ ↦ false ]

asks_go_away : Option GoAwayParams → Bool
asks_go_away none = false
asks_go_away (some g) = elim g.go_away [ some go_away_marker ↦ true | _ ↦ false ]

abbrev pub TransOption : Type 0 → Type 0
TransOption P = TransOptions P → TransOptions P

checks_health : Option HealthParams → Bool
checks_health none = false
checks_health (some h) = ltb 0 h.time

module _ {P : Type 0} where
  unfoldable pub with_max_channel_size : ℕ → TransOption P
  with_max_channel_size size ops = record ops { max_channel_size = size }

  unfoldable pub with_max_send_message_size : ℕ → TransOption P
  with_max_send_message_size size ops = record ops { max_send_message_size = size }

  unfoldable pub with_max_receive_message_size : ℕ → TransOption P
  with_max_receive_message_size size ops = record ops { max_receive_message_size = size }

  unfoldable pub with_packet_codec : P → TransOption P
  with_packet_codec codec ops = record ops { packet_codec = codec }

  unfoldable pub with_payload_codec : PayloadCodec → TransOption P
  with_payload_codec codec ops = record ops { payload_codec = codec }

  unfoldable pub add_on_channel : List (OnChannel Channel) → TransOption P
  add_on_channel hooks ops = record ops { on_channel = ops.on_channel ++ hooks }

  unfoldable pub add_on_channel_closed : List (OnChannelClosed Channel) → TransOption P
  add_on_channel_closed hooks ops = record ops {
    on_channel_closed = ops.on_channel_closed ++ hooks;
  }

  unfoldable pub add_inbound_middleware : List (Middleware Channel) → TransOption P
  add_inbound_middleware mws ops = record ops { inbound = ops.inbound ++ mws }

  unfoldable pub add_outbound_middleware : List (Middleware Channel) → TransOption P
  add_outbound_middleware mws ops = record ops { outbound = ops.outbound ++ mws }

  unfoldable pub with_router : Router → TransOption P
  with_router router ops = record ops { router = some router }

  unfoldable pub keepalive : ServerParameters → TransOption P
  unfolding asks_ping asks_go_away
  keepalive kp ops = record ops {
    kp = kp;
    use_less_msg_codec =
        if asks_ping kp.health_params
        then true
        else if ops.use_less_msg_codec
        then true
        else asks_go_away kp.go_away_params;
  }

  unfoldable pub apply : List (TransOption P) → TransOption P
  apply [] ops = ops
  apply (op ∷ rest) ops = apply rest (op ops)

  with_kp : TransOptions P → Outcome ServerParameters → Outcome (TransOptions P)
  with_kp ops (ok kp) = ok (record ops {
    kp = kp;
    payload_codec =
        if ops.use_less_msg_codec then less_codec ops.payload_codec else ops.payload_codec;
  })
  with_kp ops (err e) = err e
  with_kp ops panic = panic
  with_kp ops hang = hang

  -- What `NewTransHandler(ops...)` makes of the options that its pointer leads to: those of the new
  -- handler, and, the pointer being `defaultTransOptions`, those that the next call starts from.
  unfoldable pub handler_options :
      (random : ℕ → ℕ) → List (TransOption P) → TransOptions P → Outcome (TransOptions P)
  unfolding with_kp
  handler_options random ops shared =
      let opts = apply ops shared in with_kp opts (consummate_keepalive_params random opts.kp)

  module _ (keepers : KeeperOps Channel) (now : ℕ) where
    -- The middlewares of a handler's pipelines: its own in front of the user's.
    unfoldable pub inbound_of : TransOptions P → List (Middleware Channel)
    unfolding checks_health
    inbound_of opts =
        if checks_health opts.kp.health_params
        then keepalive_middleware keepers ∷ recorder read_event now ∷ opts.inbound
        else recorder read_event now ∷ opts.inbound

    unfoldable pub outbound_of : TransOptions P → List (Middleware Channel)
    outbound_of opts = recorder write_event now ∷ opts.outbound

-- `newRouter`: the handler that the router chooses takes the place of the next one.
routed : Context → Message → Outcome (Handler Channel) × Channel → Outcome (Unit {0}) × Channel
routed ctx m (ok h, ch) = h ctx m ch
routed ctx m (err e, ch) = (err e, ch)
routed ctx m (panic, ch) = (panic, ch)
routed ctx m (hang, ch) = (hang, ch)

unfoldable pub new_router : Router → Middleware Channel
unfolding routed
new_router router handler ctx m ch = routed ctx m (router ctx m ch)

-- The handler's state, behind its options.
unfoldable pub new_trans_handler :
    {P : Type 0} → TransOptions P → (no_channel : Life) → TransHandler
new_trans_handler opts no_channel = record {
  status = serving;
  max_channel_size = opts.max_channel_size;
  max_receive_message_size = opts.max_receive_message_size;
  channels = [];
  channel_count = 0;
  lives = λ id. no_channel;
  keeper_done = λ id. false;
  next_channel = 0;
  submitted = [];
}
