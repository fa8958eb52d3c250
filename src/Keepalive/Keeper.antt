-- ===== src/Keepalive/Keeper.antt =====
-- The timers of a channel's keeper (internal/keepalive/keepliave.go): what each callback does when its
-- timer fires. The timer wheel itself is not part of this: a callback answers when it is to be called
-- again.
pub mod Timers
use less.Base.{
  ℕ, zero, suc, ◌+◌, ◌-◌, ◌≡◌, Bool, true, false, not, ◌&&◌, ◌||◌, Option, none, some, Error,
  custom, Outcome, ok, err, panic, hang, Method, ltb, ◌==◌, if◌then◌else◌,
}
use less.Channel.{is_active, readable}
use less.Channel.Closing.{Life, close}
use less.Keepalive.{Notice, HealthParams, GoAwayParams, ServerParameters}

-- A keeper, and the channel that it watches. `goes_away` is what the timer that `goAwayChannel` starts
-- waits for: the callback will close the channel.
pub record Keeper : Type 0 where
  pub life : Life
  pub done : Bool
  pub last_ping : ℕ
  pub last_pong : ℕ
  pub goes_away : Option ℕ

unfoldable pub new_keeper : Life → Keeper
new_keeper life = record {
  life = life;
  done = false;
  last_ping = 0;
  last_pong = 0;
  goes_away = none;
}

-- A callback gives its timer up, or starts it again for a duration.
pub data Timer : Type 0 where
  given_up : Timer
  again : ℕ → Timer

-- channel.Server; a Go `time.Time` that is zero is none.
abbrev pub server : ℕ
server = 2

abbrev pub idle_error : Error
idle_error = custom 1

abbrev pub age_error : Error
age_error = custom 2

abbrev pub ping_timeout_error : Error
ping_timeout_error = custom 3

abbrev pub ping_failed_error : Error
ping_failed_error = custom 4

-- `Close`.
unfoldable pub keeper_close : Keeper → Keeper
keeper_close k = record k { done = true }

-- `ch.Close(ctx, err)`, of which the keeper drops the error.
close_channel : Error → Keeper → Keeper
close_channel e k = record k { life = (close k.life.ch.state (some e) k.life).1 }

unfoldable pub stop_channel : Error → Keeper → Keeper
unfolding close_channel
stop_channel e k = if k.done then k else close_channel e (record k { done = true })

-- `ch.WriteDirectly` is the pipeline's outbound handler, on the channel.
module _ (write_directly : Notice → Method Life (Unit {0})) where
  sent : Keeper → Outcome (Unit {0}) × Life → Outcome (Unit {0}) × Keeper
  sent k (result, life) = (result, record k { life = life })

  write_notice : Notice → Keeper → Outcome (Unit {0}) × Keeper
  unfolding sent
  write_notice n k = sent k (write_directly n k.life)

  -- Behind a GoAway that could not be written the channel is stopped, and the timer is started too.
  after_go_away : ℕ → Error → Outcome (Unit {0}) × Keeper → Outcome (Unit {0}) × Keeper
  after_go_away grace e (ok a, k) = (ok tt, record k { goes_away = some grace })
  after_go_away grace e (err x, k) = (ok tt, record (stop_channel e k) { goes_away = some grace })
  after_go_away grace e (panic, k) = (panic, k)
  after_go_away grace e (hang, k) = (hang, k)

  tell_peer : ℕ → Error → Option Notice → Keeper → Outcome (Unit {0}) × Keeper
  unfolding write_notice after_go_away
  tell_peer grace e none k = (ok tt, stop_channel e k)
  tell_peer grace e (some n) k = after_go_away grace e (write_notice n k)

  go_away_of : Option GoAwayParams → Option Notice
  go_away_of none = none
  go_away_of (some g) = g.go_away

  unfoldable pub go_away_channel : ServerParameters → Error → Keeper → Outcome (Unit {0}) × Keeper
  unfolding tell_peer go_away_of
  go_away_channel kp e k =
      if k.life.ch.side == server
      then tell_peer kp.close_grace e (go_away_of kp.go_away_params) k
      else (ok tt, stop_channel e k)

  -- The callback of the timer that `goAwayChannel` starts.
  unfoldable pub grace_over : Error → Keeper → Keeper
  unfolding close_channel
  grace_over e k =
      let k' = record k { goes_away = none } in
      if is_active k'.life.ch then close_channel e k' else k'

  given : Outcome (Unit {0}) × Keeper → Outcome Timer × Keeper
  given (ok a, k) = (ok given_up, k)
  given (err x, k) = (err x, k)
  given (panic, k) = (panic, k)
  given (hang, k) = (hang, k)

  idle_for : ServerParameters → ℕ → Option ℕ → Keeper → Outcome Timer × Keeper
  unfolding given
  idle_for kp now none k = (ok (again kp.max_channel_idle_time), k)
  idle_for kp now (some since) k =
      let interval = kp.max_channel_idle_time - (now - since) in
      if interval == 0 then given (go_away_channel kp idle_error k) else (ok (again interval), k)

  -- The callback for `MaxChannelIdleTime`, at the time `now`.
  unfoldable pub idle_check : ServerParameters → ℕ → Keeper → Outcome Timer × Keeper
  unfolding idle_for
  idle_check kp now k = if k.done then (ok given_up, k) else idle_for kp now k.life.ch.idle k

  -- The callback for `MaxChannelAge`.
  unfoldable pub age_check : ServerParameters → Keeper → Outcome Timer × Keeper
  unfolding given
  age_check kp k = if k.done then (ok given_up, k) else given (go_away_channel kp age_error k)

  pinged : Outcome (Unit {0}) × Keeper → Outcome Bool × Keeper
  pinged (ok a, k) = (ok true, k)
  pinged (err x, k) = (ok false, k)
  pinged (panic, k) = (panic, k)
  pinged (hang, k) = (hang, k)

  is_set : {A : Type 0} → Option A → Bool
  is_set none = false
  is_set (some a) = true

  ping_with : Option Notice → Keeper → Outcome Bool × Keeper
  unfolding pinged write_notice
  ping_with none k = (ok false, k)
  ping_with (some n) k = pinged (write_notice n k)

  unfoldable pub send_ping : HealthParams → Keeper → Outcome Bool × Keeper
  unfolding is_set ping_with
  send_ping h k =
      if is_set h.ping && is_set h.pong && is_set h.ping_recognizer && is_set h.pong_recognizer
      then ping_with h.ping k
      else (ok false, k)

  after_ping : HealthParams → ℕ → Outcome Bool × Keeper → Outcome Timer × Keeper
  after_ping h now (ok true, k) = (ok (again h.timeout), record k { last_ping = now })
  after_ping h now (ok false, k) = (ok given_up, stop_channel ping_failed_error k)
  after_ping h now (err x, k) = (err x, k)
  after_ping h now (panic, k) = (panic, k)
  after_ping h now (hang, k) = (hang, k)

  -- Nothing was read for `Time`: a ping is out and unanswered, or one is sent.
  unread : HealthParams → ℕ → Keeper → Outcome Timer × Keeper
  unfolding after_ping
  unread h now k =
      if ltb k.last_pong k.last_ping
      then if ltb (now - k.last_ping) h.timeout
        then (ok (again (h.timeout - (now - k.last_ping))), k)
        else (ok given_up, stop_channel ping_timeout_error k)
      else after_ping h now (send_ping h k)

  -- The callback for `HealthParams.Time`, at the time `now` (the time is read once more behind a ping,
  -- which takes none here).
  unfoldable pub health_check : HealthParams → ℕ → Keeper → Outcome Timer × Keeper
  unfolding unread
  health_check h now k =
      if k.done || not (readable k.life.ch)
      then (ok given_up, k)
      else if ltb (now - k.life.ch.last_read) h.time
      then (ok (again (h.time - (now - k.life.ch.last_read))), k)
      else unread h now k
