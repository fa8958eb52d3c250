-- ===== src/Keepalive/Recognize.antt =====
-- Which messages the keepalive middleware keeps for itself (internal/keepalive/keepliave.go).
use less.Base.{
  ℕ, ◌≡◌, ◌<◌, refl, Bool, true, false, ◌&&◌, Option, none, some, Outcome, ok, err, panic, hang,
  arith, ltb, lt→ltb, if◌then◌else◌, ◌∙◌,
}
use less.Codec.{Message, text, raw, own, other}
use less.Codec.LessCodec.{call, reply, oneway, new_message}
use less.Pipeline.{Context, Handler}
use less.Keepalive.{
  Notice, ping_marker, go_away_marker, message, HealthParams, GoAwayParams, ServerParameters,
  KeeperOps, ping_text, pong_text, go_away_text, default_ping_recognizer, default_pong_recognizer,
  default_go_away_recognizer, consummate_health, consummate_go_away, consummate_keepalive_params,
  keepalive_middleware, add_jitter, recognizes, with_age, complete, less_health, complete_ping,
  complete_go_away, on_some, with_keeper, on_health, on_go_away, asks,
}

-- No message is recognised twice: at most one of the three recognizers answers true.
pub recognizers_disjoint :
    (m : Message)
    → ((default_ping_recognizer m && default_pong_recognizer m) ≡ false)
      × ((default_ping_recognizer m && default_go_away_recognizer m) ≡ false)
      × ((default_pong_recognizer m && default_go_away_recognizer m) ≡ false)
unfolding default_ping_recognizer default_pong_recognizer default_go_away_recognizer recognizes
recognizers_disjoint (own m) = ground arith
recognizers_disjoint (text s) = (refl, refl, refl)
recognizers_disjoint (raw bs) = (refl, refl, refl)
recognizers_disjoint (other k) = (refl, refl, refl)

twice_health :
    (t d : ℕ) (p : Option Notice) (pr : Option (Message → Bool)) (q : Option Notice)
    (qr : Option (Message → Bool))
    → let h : HealthParams = record {
      time = t;
      timeout = d;
      ping = p;
      ping_recognizer = pr;
      pong = q;
      pong_recognizer = qr;
    } in
      consummate_health (consummate_health h) ≡ consummate_health h
unfolding consummate_health complete_ping less_health
twice_health t d none pr q qr = ground arith
twice_health t d (some ping_marker) pr q qr = ground arith
twice_health t d (some go_away_marker) pr q qr = ground arith
twice_health t d (some (message m)) pr q qr = ground arith

twice_go_away :
    (n : Option Notice) (r : Option (Message → Bool))
    → let g : GoAwayParams = record { go_away = n; go_away_recognizer = r } in
      consummate_go_away (consummate_go_away g) ≡ consummate_go_away g
unfolding consummate_go_away complete_go_away
twice_go_away none r = refl
twice_go_away (some ping_marker) r = refl
twice_go_away (some go_away_marker) r = refl
twice_go_away (some (message m)) r = refl

-- Completing health parameters or go-away parameters a second time changes nothing.
pub consummate-twice :
    (h : HealthParams) (g : GoAwayParams)
    → (consummate_health (consummate_health h) ≡ consummate_health h)
      × (consummate_go_away (consummate_go_away g) ≡ consummate_go_away g)
consummate-twice h g = (
  twice_health h.time h.timeout h.ping h.ping_recognizer h.pong h.pong_recognizer,
  twice_go_away g.go_away g.go_away_recognizer,
)

aged_params :
    (kp kp' : ServerParameters) (age : Outcome ℕ)
    → with_age kp age ≡ ok kp'
    → (kp'.health_params ≡ on_some consummate_health kp.health_params)
      × (kp'.go_away_params ≡ on_some consummate_go_away kp.go_away_params)
unfolding with_age complete
aged_params kp kp' (ok age) c = ground arith
aged_params kp kp' (err e) c = ground arith
aged_params kp kp' panic c = ground arith
aged_params kp kp' hang c = ground arith

checked_params :
    (kp kp' : ServerParameters) (age : Outcome ℕ) (b : Bool)
    → (if b then with_age kp age else ok (complete kp)) ≡ ok kp'
    → (kp'.health_params ≡ on_some consummate_health kp.health_params)
      × (kp'.go_away_params ≡ on_some consummate_go_away kp.go_away_params)
unfolding complete
checked_params kp kp' age true c = aged_params kp kp' age c
checked_params kp kp' age false c = ground arith

completed_params :
    (random : ℕ → ℕ) (kp kp' : ServerParameters)
    → consummate_keepalive_params random kp ≡ ok kp'
    → (kp'.health_params ≡ on_some consummate_health kp.health_params)
      × (kp'.go_away_params ≡ on_some consummate_go_away kp.go_away_params)
unfolding consummate_keepalive_params
completed_params random kp kp' c =
    checked_params kp kp' (add_jitter random kp.max_channel_age) (ltb 0 kp.max_channel_age) c

less_params :
    (h : HealthParams)
    → 0 < h.time
    → h.ping ≡ some ping_marker
    → ((consummate_health h).ping_recognizer ≡ some default_ping_recognizer)
      × ((consummate_health h).pong_recognizer ≡ some default_pong_recognizer)
      × ((consummate_health h).pong ≡ some (message (own (new_message reply pong_text))))
unfolding consummate_health complete_ping less_health
less_params h t e = rw (lt→ltb 0 h.time t, e) (refl, refl, refl)

less_go_away :
    (g : GoAwayParams)
    → g.go_away ≡ some go_away_marker
    → (consummate_go_away g).go_away_recognizer ≡ some default_go_away_recognizer
unfolding consummate_go_away complete_go_away
less_go_away g e = rw e refl

module _ (random : ℕ → ℕ) (kp kp' : ServerParameters) (h : HealthParams) (g : GoAwayParams)
    (has_health : kp.health_params ≡ some h) (checks : 0 < h.time)
    (uses_ping : h.ping ≡ some ping_marker) (has_go_away : kp.go_away_params ≡ some g)
    (uses_go_away : g.go_away ≡ some go_away_marker)
    (completed : consummate_keepalive_params random kp ≡ ok kp') where
  module _ {W : Type 0} (ops : KeeperOps W) (handler : Handler W) (ctx : Context) (w : W)
      (kept : ops.params w ≡ some kp') where
    by_less :
        (m : Message)
        → keepalive_middleware ops handler ctx m w ≡ (
            if default_ping_recognizer m
            then ops.write (some (message (own (new_message reply pong_text)))) w
            else if default_pong_recognizer m
            then (ok tt, ops.store_last_pong w)
            else if default_go_away_recognizer m
            then (ok tt, ops.close w)
            else handler ctx m w)
    unfolding keepalive_middleware with_keeper on_health on_go_away asks on_some
    by_less m =
        let c = completed_params random kp kp' completed in
        let p = less_params h checks uses_ping in
        rw (kept, c.0, c.1, has_health, has_go_away)
          (rw (p.0, p.1, p.2, less_go_away g uses_go_away) refl)

    -- With a health check whose Ping, and a GoAway, that are left to less, on a channel whose keeper
    -- has the completed parameters, the middleware answers a ping with less's pong, notes a pong,
    -- and closes the channel, of whichever side, on a go-away message; the handler sees none of these.
    pub middleware-intercepts :
        (keepalive_middleware ops handler ctx (own (new_message call ping_text)) w
          ≡ ops.write (some (message (own (new_message reply pong_text)))) w)
        × (keepalive_middleware ops handler ctx (own (new_message reply pong_text)) w
            ≡ (ok tt, ops.store_last_pong w))
        × (keepalive_middleware ops handler ctx (own (new_message oneway go_away_text)) w
            ≡ (ok tt, ops.close w))
    unfolding default_ping_recognizer new_message default_pong_recognizer default_go_away_recognizer
    middleware-intercepts = (
      by_less (own (new_message call ping_text)),
      by_less (own (new_message reply pong_text)),
      by_less (own (new_message oneway go_away_text)),
    )

    -- With a health check whose Ping, and a GoAway, that are left to less, on a channel whose keeper
    -- has the completed parameters, every message that none of the three recognizers accepts goes to
    -- the handler as it is.
    pub middleware-passes :
        (m : Message)
        → default_ping_recognizer m ≡ false
        → default_pong_recognizer m ≡ false
        → default_go_away_recognizer m ≡ false
        → keepalive_middleware ops handler ctx m w ≡ handler ctx m w
    middleware-passes m a b d = by_less m ∙ rw (a, b, d) refl
