-- ===== src/Keepalive/Keeper/Timers.antt =====
-- When the keeper's callbacks ping, wait and close (internal/keepalive/keepliave.go).
use less.Base.{
  ℕ, ◌+◌, ◌-◌, ◌≤◌, ◌<◌, ◌≡◌, ◌≢◌, refl, ◌∙◌, ◌⊎◌, Bool, true, false, Option, none, some, Error,
  Outcome, ok, err, panic, hang, Method, arith, lt→ltb, ge→ltb,
}
use less.Channel.{is_active, readable, cal_state, close_bits}
use less.Channel.Closing.{Life, close, not_closed, wait_reads}
use less.Keepalive.{Notice, HealthParams, ServerParameters}
use less.Keepalive.Keeper.{
  Keeper, given_up, again, keeper_close, stop_channel, idle_check, age_check, send_ping,
  health_check, close_channel, unread, after_ping, ping_with, pinged, write_notice, sent,
  ping_timeout_error,
}

module _ (write_directly : Notice → Method Life (Unit {0})) where
  stops : (e : Error) (k : Keeper) → (stop_channel e k).done ≡ true
  unfolding stop_channel close_channel
  stops e k = ground arith

  rests :
      (kp : ServerParameters) (h : HealthParams) (e : Error) (now : ℕ) (k : Keeper)
      → k.done ≡ true
      → (health_check write_directly h now k ≡ (ok given_up, k))
        × (idle_check write_directly kp now k ≡ (ok given_up, k))
        × (age_check write_directly kp k ≡ (ok given_up, k))
        × (stop_channel e k ≡ k)
  unfolding health_check idle_check age_check stop_channel
  rests kp h e now k d = (ground arith, ground arith, ground arith, ground arith)

  -- Once a keeper is closed, or has stopped its channel, its callbacks give their timers up and change
  -- nothing more, and its channel is not closed a second time.
  pub done_keeper-rests :
      (kp : ServerParameters) (h : HealthParams) (e e' : Error) (now : ℕ) (k : Keeper)
      → (health_check write_directly h now (keeper_close k) ≡ (ok given_up, keeper_close k))
        × (idle_check write_directly kp now (keeper_close k) ≡ (ok given_up, keeper_close k))
        × (age_check write_directly kp (keeper_close k) ≡ (ok given_up, keeper_close k))
        × (stop_channel e (keeper_close k) ≡ keeper_close k)
        × (health_check write_directly h now (stop_channel e' k) ≡ (ok given_up, stop_channel e' k))
        × (idle_check write_directly kp now (stop_channel e' k) ≡ (ok given_up, stop_channel e' k))
        × (age_check write_directly kp (stop_channel e' k) ≡ (ok given_up, stop_channel e' k))
        × (stop_channel e (stop_channel e' k) ≡ stop_channel e' k)
  unfolding keeper_close
  done_keeper-rests kp h e e' now k =
      let closed = rests kp h e now (keeper_close k) refl in
      let stopped = rests kp h e now (stop_channel e' k) (stops e' k) in
      (closed.0, closed.1, closed.2, closed.3, stopped.0, stopped.1, stopped.2, stopped.3)

  rearms_after :
      (h : HealthParams) (now : ℕ) (r : Outcome Bool × Keeper) (d : ℕ)
      → (after_ping write_directly h now r).0 ≡ ok (again d)
      → d ≡ h.timeout
  unfolding after_ping
  rearms_after h now (ok true, k) d e = ground arith
  rearms_after h now (ok false, k) d e = ground arith
  rearms_after h now (err x, k) d e = ground arith
  rearms_after h now (panic, k) d e = ground arith
  rearms_after h now (hang, k) d e = ground arith

  -- With a positive `Time` and `Timeout`, when the health check starts its timer again, it is for a
  -- positive duration that is at most `Time` or at most `Timeout`.
  pub health_check-rearms :
      (h : HealthParams) (now : ℕ) (k : Keeper) (d : ℕ)
      → 0 < h.time
      → 0 < h.timeout
      → (health_check write_directly h now k).0 ≡ ok (again d)
      → (0 < d) × ((d ≤ h.time) ⊎ (d ≤ h.timeout))
  unfolding health_check unread
  health_check-rearms h now k d t u e =
      let r = rearms_after h now (send_ping write_directly h k) d in ground arith

  outcome_phase :
      (r : Outcome (Unit {0}) × Keeper) → (pinged write_directly r).1.life.phase ≡ r.1.life.phase
  unfolding pinged
  outcome_phase (ok a, k) = refl
  outcome_phase (err x, k) = refl
  outcome_phase (panic, k) = refl
  outcome_phase (hang, k) = refl

  sent-phase :
      (n : Notice) (k : Keeper)
      → ((n : Notice) (l : Life) → (write_directly n l).1.phase ≡ l.phase)
      → (write_notice write_directly n k).1.life.phase ≡ k.life.phase
  unfolding write_notice sent
  sent-phase n k keeps = keeps n k.life

  pinged-phase :
      (n : Option Notice) (k : Keeper)
      → ((n : Notice) (l : Life) → (write_directly n l).1.phase ≡ l.phase)
      → (ping_with write_directly n k).1.life.phase ≡ k.life.phase
  unfolding ping_with
  pinged-phase none k keeps = refl
  pinged-phase (some n) k keeps =
      outcome_phase (write_notice write_directly n k) ∙ sent-phase n k keeps

  send_ping-phase :
      (h : HealthParams) (k : Keeper)
      → ((n : Notice) (l : Life) → (write_directly n l).1.phase ≡ l.phase)
      → (send_ping write_directly h k).1.life.phase ≡ k.life.phase
  unfolding send_ping
  send_ping-phase h k keeps = let r = pinged-phase h.ping k keeps in ground arith

  closes_after :
      (h : HealthParams) (now : ℕ) (r : Outcome Bool × Keeper)
      → r.1.life.phase ≡ not_closed
      → (after_ping write_directly h now r).1.life.phase ≢ not_closed
      → r.0 ≡ ok false
  unfolding after_ping
  closes_after h now (ok true, k) p c = absurd (c p)
  closes_after h now (ok false, k) p c = refl
  closes_after h now (err x, k) p c = absurd (c p)
  closes_after h now (panic, k) p c = absurd (c p)
  closes_after h now (hang, k) p c = absurd (c p)

  -- If writing a notice does not itself close channels, the health check closes an open channel only
  -- if nothing was read for `Time`, and either a ping is unanswered for `Timeout`, or the ping is
  -- not sent.
  pub health_check-closes :
      (h : HealthParams) (now : ℕ) (k : Keeper)
      → ((n : Notice) (l : Life) → (write_directly n l).1.phase ≡ l.phase)
      → k.life.phase ≡ not_closed
      → (health_check write_directly h now k).1.life.phase ≢ not_closed
      → (h.time ≤ now - k.life.ch.last_read)
        × (((k.last_pong < k.last_ping) × (h.timeout ≤ now - k.last_ping))
            ⊎ ((send_ping write_directly h k).0 ≡ ok false))
  unfolding health_check unread
  health_check-closes h now k keeps p c =
      let ping =
        closes_after h now (send_ping write_directly h k) (send_ping-phase h k keeps ∙ p) in
      ground arith

  quiet :
      (h : HealthParams) (now : ℕ) (k : Keeper)
      → k.done ≡ false
      → k.life.ch.state ≡ 3
      → h.time ≤ now - k.life.ch.last_read
      → health_check write_directly h now k ≡ unread write_directly h now k
  unfolding health_check readable cal_state
  quiet h now k d s q = rw (d, s, ge→ltb (now - k.life.ch.last_read) h.time q) refl

  pings :
      (h : HealthParams) (now : ℕ) (k : Keeper)
      → k.last_ping ≤ k.last_pong
      → send_ping write_directly h k ≡ (ok true, k)
      → unread write_directly h now k ≡ (ok (again h.timeout), record k { last_ping = now })
  unfolding unread after_ping
  pings h now k g e = rw (ge→ltb k.last_pong k.last_ping g, e) refl

  expires :
      (h : HealthParams) (now : ℕ) (k : Keeper)
      → k.last_pong < k.last_ping
      → h.timeout ≤ now - k.last_ping
      → unread write_directly h now k ≡ (ok given_up, stop_channel ping_timeout_error k)
  unfolding unread
  expires h now k g e =
      rw (lt→ltb k.last_pong k.last_ping g, ge→ltb (now - k.last_ping) h.timeout e) refl

  stopped :
      (e : Error) (k : Keeper)
      → k.done ≡ false
      → k.life.ch.state ≡ 3
      → ((stop_channel e k).done ≡ true)
        × ((stop_channel e k).life.phase ≡ wait_reads (some e))
        × (is_active (stop_channel e k).life.ch ≡ false)
  unfolding stop_channel close_channel close close_bits is_active
  stopped e k d s = rw (d, s) (refl, refl, refl)

  -- A peer that has fallen silent: with an open channel, when nothing was read for `Time`, no ping is out
  -- and one can be sent, the check sends it and comes back after `Timeout`; if the channel is by then as
  -- the check left it, with nothing read or answered, it is closed, and inactive.
  pub health_check-silent_peer :
      (h : HealthParams) (now : ℕ) (k : Keeper)
      → k.done ≡ false
      → k.life.ch.state ≡ 3
      → h.time ≤ now - k.life.ch.last_read
      → k.last_ping ≤ k.last_pong
      → k.last_pong < now
      → send_ping write_directly h k ≡ (ok true, k)
      → let pinged = health_check write_directly h now k in
        let expired = health_check write_directly h (now + h.timeout) pinged.1 in
        (pinged.0 ≡ ok (again h.timeout))
        × (expired.0 ≡ ok given_up)
        × (expired.1.done ≡ true)
        × (expired.1.life.phase ≡ wait_reads (some ping_timeout_error))
        × (is_active expired.1.life.ch ≡ false)
  health_check-silent_peer h now k d s q f g e =
      let k' : Keeper = record k { last_ping = now } in
      let first = quiet h now k d s q ∙ pings h now k f e in
      let second =
        quiet h (now + h.timeout) k' d s (omega arith)
        ∙ expires h (now + h.timeout) k' g (omega arith) in
      let closed = stopped ping_timeout_error k' d s in
      rw first (rw second (refl, refl, closed.0, closed.1, closed.2))
