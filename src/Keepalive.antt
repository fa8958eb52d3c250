-- ===== src/Keepalive.antt =====
-- Keepalive parameters (keepalive/keepalive.go) and the middleware that handles keepalive messages
-- (internal/keepalive/keepliave.go). Durations are nanoseconds; a negative one stands on the same side
-- of every test as 0, so they are natural numbers.
pub mod Recognize
pub mod Keeper
use less.Base.{
  ℕ, zero, suc, ◌+◌, ◌-◌, ◌*◌, ◌/◌, ◌&&◌, Bool, true, false, List, [], ◌∷◌, Option, none, some,
  Bytes, Outcome, ok, err, panic, hang, Method, ltb, ◌==◌, if◌then◌else◌,
}
use less.Codec.{LessMessage, Message, text, raw, own, other}
use less.Codec.LessCodec.{call, reply, oneway, new_message}
use less.Codec.Delimiter.{bytes_eq}
use less.Pipeline.{Context, Handler, Middleware}

-- The texts "Ping", "Pong" and "Go Away".
abbrev pub ping_text : Bytes
ping_text = 80 ∷ 105 ∷ 110 ∷ 103 ∷ []

abbrev pub pong_text : Bytes
pong_text = 80 ∷ 111 ∷ 110 ∷ 103 ∷ []

abbrev pub go_away_text : Bytes
go_away_text = 71 ∷ 111 ∷ 32 ∷ 65 ∷ 119 ∷ 97 ∷ 121 ∷ []

-- A recognizer's test of a message: `*msg.LessMessage`, of a kind, with a text.
recognizes : ℕ → Bytes → Message → Bool
recognizes msg_type body (own m) = m.msg_type == msg_type && bytes_eq m.body body
recognizes msg_type body (text s) = false
recognizes msg_type body (raw bs) = false
recognizes msg_type body (other k) = false

unfoldable pub default_ping_recognizer : Message → Bool
unfolding recognizes
default_ping_recognizer = recognizes call ping_text

unfoldable pub default_pong_recognizer : Message → Bool
unfolding recognizes
default_pong_recognizer = recognizes reply pong_text

unfoldable pub default_go_away_recognizer : Message → Bool
unfolding recognizes
default_go_away_recognizer = recognizes oneway go_away_text

-- What a user may set as Ping, Pong or GoAway: the marker types `*keepalive.Ping` and
-- `*keepalive.GoAway`, or a message.
pub data Notice : Type 0 where
  ping_marker : Notice
  go_away_marker : Notice
  message : Message → Notice

pub record HealthParams : Type 0 where
  pub time : ℕ
  pub timeout : ℕ
  pub ping : Option Notice
  pub ping_recognizer : Option (Message → Bool)
  pub pong : Option Notice
  pub pong_recognizer : Option (Message → Bool)

pub record GoAwayParams : Type 0 where
  pub go_away : Option Notice
  pub go_away_recognizer : Option (Message → Bool)

pub record ServerParameters : Type 0 where
  pub max_channel_idle_time : ℕ
  pub max_channel_age : ℕ
  pub close_grace : ℕ
  pub health_params : Option HealthParams
  pub go_away_params : Option GoAwayParams

abbrev pub second : ℕ
second = 1000000000

abbrev pub default_close_grace : ℕ
default_close_grace = 5 * second

abbrev pub default_timeout : ℕ
default_timeout = 10 * second

less_health : HealthParams → HealthParams
less_health h = record h {
  ping = some (message (own (new_message call ping_text)));
  pong = some (message (own (new_message reply pong_text)));
  ping_recognizer = some default_ping_recognizer;
  pong_recognizer = some default_pong_recognizer;
}

-- The marker is replaced by less's own messages; the other cases only write warnings to the log.
complete_ping : Option Notice → HealthParams → HealthParams
complete_ping (some ping_marker) h = less_health h
complete_ping (some go_away_marker) h = h
complete_ping (some (message m)) h = h
complete_ping none h = h

unfoldable pub consummate_health : HealthParams → HealthParams
unfolding complete_ping less_health
consummate_health h =
    if ltb 0 h.time
    then complete_ping h.ping (record h {
      time = if ltb h.time second then second else h.time;
      timeout = if h.timeout == 0 then default_timeout else h.timeout;
    })
    else h

complete_go_away : Option Notice → GoAwayParams → GoAwayParams
complete_go_away (some go_away_marker) g = record g {
  go_away = some (message (own (new_message oneway go_away_text)));
  go_away_recognizer = some default_go_away_recognizer;
}
complete_go_away (some ping_marker) g = g
complete_go_away (some (message m)) g = g
complete_go_away none g = g

unfoldable pub consummate_go_away : GoAwayParams → GoAwayParams
unfolding complete_go_away
consummate_go_away g = complete_go_away g.go_away g

-- `getJitter`, of which `random n` is the answer of `Int63n(n)`; it panics at 0.
unfoldable pub add_jitter : (random : ℕ → ℕ) → ℕ → Outcome ℕ
add_jitter random age = let r = age / 10 in if r == 0 then panic else ok (age + random (2 * r) - r)

on_some : {A : Type 0} → (A → A) → Option A → Option A
on_some f none = none
on_some f (some a) = some (f a)

complete : ServerParameters → ServerParameters
unfolding on_some
complete kp = record kp {
  close_grace = if kp.close_grace == 0 then default_close_grace else kp.close_grace;
  health_params = on_some consummate_health kp.health_params;
  go_away_params = on_some consummate_go_away kp.go_away_params;
}

with_age : ServerParameters → Outcome ℕ → Outcome ServerParameters
with_age kp (ok age) = ok (complete (record kp { max_channel_age = age }))
with_age kp (err e) = err e
with_age kp panic = panic
with_age kp hang = hang

unfoldable pub consummate_keepalive_params :
    (random : ℕ → ℕ) → ServerParameters → Outcome ServerParameters
unfolding with_age complete
consummate_keepalive_params random kp =
    if ltb 0 kp.max_channel_age
    then with_age kp (add_jitter random kp.max_channel_age)
    else ok (complete kp)

-- What the middleware does to the channel and its keeper.
pub record KeeperOps (W : Type 0) : Type 0 where
  pub params : W → Option ServerParameters  -- of the channel's keeper, if it has one
  pub write : Option Notice → Method W (Unit {0})
  pub store_last_pong : W → W
  pub close : W → W

asks : Option (Message → Bool) → Message → Bool
asks none m = false
asks (some f) m = f m

module _ {W : Type 0} (ops : KeeperOps W) where
  on_go_away : Option GoAwayParams → Middleware W
  unfolding asks
  on_go_away none handler ctx m w = handler ctx m w
  on_go_away (some g) handler ctx m w =
      if asks g.go_away_recognizer m then (ok tt, ops.close w) else handler ctx m w

  on_health : Option HealthParams → Middleware W → Middleware W
  unfolding asks
  on_health none rest handler ctx m w = rest handler ctx m w
  on_health (some h) rest handler ctx m w =
      if asks h.ping_recognizer m
      then ops.write h.pong w
      else if asks h.pong_recognizer m
      then (ok tt, ops.store_last_pong w)
      else rest handler ctx m w

  with_keeper : Option ServerParameters → Middleware W
  unfolding on_health on_go_away
  with_keeper none handler ctx m w = handler ctx m w
  with_keeper (some kp) handler ctx m w =
      on_health kp.health_params (on_go_away kp.go_away_params) handler ctx m w

  unfoldable pub keepalive_middleware : Middleware W
  unfolding with_keeper
  keepalive_middleware handler ctx m w = with_keeper (ops.params w) handler ctx m w
