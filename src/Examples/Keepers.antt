-- ===== src/Examples/Keepers.antt =====
-- Keepers and keepalive messages at concrete inputs (internal/keepalive).
use less.Base.{ℕ, ◌*◌, ◌≡◌, refl, true, false, List, [], ◌∷◌, none, some, ok, arith, Method}
use less.Codec.{Message, text, own}
use less.Codec.LessCodec.{call, reply, oneway, new_message}
use less.Pipeline.{Handler}
use less.Channel.{Channel, is_active}
use less.Channel.Closing.{Life, not_closed, wait_reads}
use less.Keepalive.{
  Notice, ping_marker, go_away_marker, message, HealthParams, GoAwayParams, ServerParameters,
  KeeperOps, ping_text, pong_text, go_away_text, consummate_health, consummate_go_away,
  consummate_keepalive_params, keepalive_middleware, second,
}
use less.Keepalive.Recognize.{middleware-intercepts}
use less.Keepalive.Keeper.{Keeper, given_up, again, health_check, send_ping, ping_timeout_error}
use less.Keepalive.Keeper.Timers.{health_check-silent_peer}

abbrev channel : ℕ → Channel
channel state = record {
  ctx = some 0;
  conn_active = true;
  state = state;
  tasks = record { read_task = 0; write_task = 0; all_task = 0 };
  side = 2;
  last_read = 100;
  last_write = 0;
  idle = none;
}

abbrev life : ℕ → Life
life state = record {
  ch = channel state;
  activated = true;
  phase = not_closed;
  hooks_fired = 0;
  done_closed = 0;
  released = 0;
}

-- A message of the user's, and parameters that leave the messages to less.
abbrev hi : Message
hi = text (104 ∷ 105 ∷ [])

abbrev health : HealthParams
health = record {
  time = 20;
  timeout = 30;
  ping = some ping_marker;
  ping_recognizer = none;
  pong = none;
  pong_recognizer = none;
}

abbrev go_away : GoAwayParams
go_away = record { go_away = some go_away_marker; go_away_recognizer = none }

abbrev params : ServerParameters
params = record {
  max_channel_idle_time = 0;
  max_channel_age = 0;
  close_grace = 0;
  health_params = some health;
  go_away_params = some go_away;
}

abbrev completed : ServerParameters
completed = record params {
  close_grace = 5 * second;
  health_params = some (consummate_health health);
  go_away_params = some (consummate_go_away go_away);
}

abbrev keeper_ops : KeeperOps (List ℕ)
keeper_ops = record {
  params = λ w. some completed;
  write = λ n w. (ok tt, 1 ∷ w);
  store_last_pong = λ w. 2 ∷ w;
  close = λ w. 3 ∷ w;
}

abbrev user_handler : Handler (List ℕ)
user_handler ctx m w = (ok tt, 4 ∷ w)

middleware-intercepts_example :
    (keepalive_middleware keeper_ops user_handler none (own (new_message call ping_text)) []
      ≡ (ok tt, 1 ∷ []))
    × (keepalive_middleware keeper_ops user_handler none (own (new_message reply pong_text)) []
        ≡ (ok tt, 2 ∷ []))
    × (keepalive_middleware keeper_ops user_handler none (own (new_message oneway go_away_text)) []
        ≡ (ok tt, 3 ∷ []))
unfolding consummate_keepalive_params
middleware-intercepts_example =
    middleware-intercepts (λ n. 0) params completed health go_away refl (omega arith) refl refl refl
      refl keeper_ops user_handler none [] refl

-- A keeper whose pings are written, and one that cannot ping.
abbrev writes : Notice → Method Life (Unit {0})
writes n l = (ok tt, l)

abbrev keeper : Keeper
keeper = record { life = life 3; done = false; last_ping = 0; last_pong = 0; goes_away = none }

abbrev pinging : HealthParams
pinging = record {
  time = 20;
  timeout = 30;
  ping = some (message hi);
  ping_recognizer = some (λ m. false);
  pong = some (message hi);
  pong_recognizer = some (λ m. false);
}

health_check-silent_peer_example :
    let pinged = health_check writes pinging 120 keeper in
    let expired = health_check writes pinging 150 pinged.1 in
    (pinged.0 ≡ ok (again 30))
    × (expired.0 ≡ ok given_up)
    × (expired.1.done ≡ true)
    × (expired.1.life.phase ≡ wait_reads (some ping_timeout_error))
    × (is_active expired.1.life.ch ≡ false)
unfolding send_ping
health_check-silent_peer_example =
    health_check-silent_peer writes pinging 120 keeper refl refl (omega arith) (omega arith)
      (omega arith) refl
