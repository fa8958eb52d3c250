-- ===== src/Tcp/Driver.antt =====
-- The transport handler as the driver of the TCP transport (transport/transport.go, EventDriver;
-- internal/trans/trans_handler.go, OnConnect and OnMessage).
use less.Base.{
  ℕ, Bool, not, Option, none, some, request_refused, Outcome, ok, err, panic, hang, Method,
  if◌then◌else◌,
}
use less.Io.Reader.{Reader}
use less.Codec.{Message}
use less.Pipeline.{Pipeline}
use less.Channel.{Channel}
use less.Trans.{TransHandler, is_serving, on_connect, on_message}
use less.Tcp.Listen.{Connected, EventDriver}

-- The context that `OnConnect` returns names the channel, if there is no error.
connected : Outcome ℕ × TransHandler → Outcome Connected × TransHandler
connected (ok id, th) = (ok (record { context = some id; error = none }), th)
connected (err e, th) = (ok (record { context = none; error = some e }), th)
connected (panic, th) = (panic, th)
connected (hang, th) = (hang, th)

module _ {S : Type 0} (api : Reader S) (decode : Method S Message) where
  -- The channel in the context; without one the type assertion panics.
  message_on : Option ℕ → S → TransHandler → Outcome (Unit {0}) × TransHandler
  message_on none s th =
      if not (is_serving th.status) then (err request_refused, th) else (panic, th)
  message_on (some id) s th = on_message api decode id s th

  unfoldable pub trans_driver :
      (pl : Pipeline Channel) (side now : ℕ) (keeper : Bool) → EventDriver TransHandler S
  unfolding connected message_on
  trans_driver pl side now keeper = record {
    on_connect = λ con th. connected (on_connect pl (some 0) side now keeper (λ t. t) th);
    on_message = message_on;
  }
