-- ===== src/Tcp/Listen.antt =====
-- Accepting and dialling connections (transport/tcp/trans_std.go; transport/transport.go). What the
-- net package does is an argument: the connections it accepts and the settings they refuse.
use less.Base.{
  ℕ, ◌≡◌, refl, Bool, true, List, [], ◌∷◌, ◌++◌, Option, none, some, Error, ◌⊎◌, inl, inr, Outcome,
  ok, err, panic, hang, Method, ◌>>◌, ltb, if◌then◌else◌, map, IsReturned, Option-cases,
}
use less.Tcp.Options.{TcpOptions, ℤ}

-- The settings of a net.TCPConn.
pub data Setting : Type 0 where
  keep_alive : Bool → Setting
  keep_alive_period : ℕ → Setting
  linger : ℤ → Setting
  no_delay : Bool → Setting

-- A connection of the net package: the error that it answers a setting with, if any, and the settings
-- that were made.
pub record TcpConn : Type 0 where
  pub number : ℕ
  pub refuses : Setting → Option Error
  pub made : List Setting

set_answered : Setting → Option Error → TcpConn → Option Error × TcpConn
set_answered s (some e) con = (some e, con)
set_answered s none con = (none, record con { made = con.made ++ (s ∷ []) })

-- `if err := con.SetX(...); nil != err { return err }`.
then_set : Setting → Option Error × TcpConn → Option Error × TcpConn
then_set s (some e, con) = (some e, con)
then_set s (none, con) = set_answered s (con.refuses s) con

unfoldable pub apply_options : TcpOptions → TcpConn → Option Error × TcpConn
unfolding then_set set_answered
apply_options ops con = then_set (no_delay ops.no_delay) (
    then_set (linger ops.linger) (
      then_set (keep_alive_period ops.keep_alive_period)
        (then_set (keep_alive ops.keepalive) (none, con))))

-- What `OnConnect` returns: a context, which may name a channel, and an error.
pub record Connected : Type 0 where
  pub context : Option ℕ
  pub error : Option Error

-- transport.EventDriver, with state `D`; `S` is what a message is read from.
pub record EventDriver (D S : Type 0) : Type 0 where
  pub on_connect : TcpConn → Method D Connected
  pub on_message : Option ℕ → S → Method D (Unit {0})

-- `loops` are the contexts of the goroutines that read, the last one started first; `closed` are the
-- connections that the transport closed.
pub record World (D : Type 0) : Type 0 where
  pub driver : D
  pub loops : List (Option ℕ)
  pub closed : List ℕ

-- An error of the net package, which says whether it is temporary.
pub record NetError : Type 0 where
  pub temporary : Bool
  pub error : Error

-- What `listener.Accept()` returns: a connection, which may be nil, and an error.
pub record Accepted : Type 0 where
  pub con : Option TcpConn
  pub error : Option NetError

abbrev pub accepted : TcpConn → Accepted
accepted con = record { con = some con; error = none }

-- `con.(*net.TCPConn)`.
as_tcp : Option TcpConn → Outcome TcpConn
as_tcp none = panic
as_tcp (some con) = ok con

module _ {D S : Type 0} (api : EventDriver D S) (ops : TcpOptions) where
  started : Option Error → Option ℕ → D → World D → Outcome (Unit {0}) × World D
  started none context d w = (ok tt, record w { driver = d; loops = context ∷ w.loops })
  started (some e) context d w = (ok tt, record w { driver = d })

  answered : Outcome Connected × D → World D → Outcome (Unit {0}) × World D
  answered (ok r, d) w = started r.error r.context d w
  answered (err e, d) w = (ok tt, record w { driver = d })
  answered (panic, d) w = (panic, record w { driver = d })
  answered (hang, d) w = (hang, record w { driver = d })

  configured : Option Error × TcpConn → World D → Outcome (Unit {0}) × World D
  unfolding answered
  configured (some e, con) w = (ok tt, record w { closed = con.number ∷ w.closed })
  configured (none, con) w = answered (api.on_connect con w.driver) w

  -- A round behind the test of the error: the type assertion, the settings and the driver.
  asserted : Outcome TcpConn → World D → Outcome (Unit {0}) × World D
  unfolding configured
  asserted (ok con) w = configured (apply_options ops con) w
  asserted (err e) w = (err e, w)
  asserted panic w = (panic, w)
  asserted hang w = (hang, w)

  -- An error that is not temporary is returned; behind a temporary one the round goes on, once it has
  -- slept.
  checked : Option TcpConn → Option NetError → World D → Outcome (Unit {0}) × World D
  unfolding asserted as_tcp
  checked con none w = asserted (as_tcp con) w
  checked con (some e) w = if e.temporary then asserted (as_tcp con) w else (err e.error, w)

  -- The loop of `Listen`, over what Accept returns; then Accept blocks.
  pub accept_loop : List Accepted → Method (World D) (Unit {0})
  unfolding checked
  accept_loop [] w = (hang, w)
  accept_loop (a ∷ rest) w = ((λ w. checked a.con a.error w) >> accept_loop rest) w

  -- `Listen`, once the address was resolved, or not, and the listener made, or not.
  unfoldable pub listen :
      (resolved listener : Option Error) → List Accepted → Method (World D) (Unit {0})
  listen (some e) listener events w = (err e, w)
  listen none (some e) events w = (err e, w)
  listen none none events w = accept_loop events w

  -- `OnConnect`'s error closes the connection; the goroutine that reads is started all the same.
  dial_answered : ℕ → Outcome Connected × D → World D → Outcome (Unit {0}) × World D
  dial_answered number (ok r, d) w = (
    ok tt,
    record w {
      driver = d;
      loops = r.context ∷ w.loops;
      closed = elim r.error [ none ↦ w.closed | some e ↦ number ∷ w.closed ];
    },
  )
  dial_answered number (err e, d) w =
      (ok tt, record w { driver = d; loops = none ∷ w.loops; closed = number ∷ w.closed })
  dial_answered number (panic, d) w = (panic, record w { driver = d })
  dial_answered number (hang, d) w = (hang, record w { driver = d })

  dial_configured : Option Error × TcpConn → World D → Outcome (Unit {0}) × World D
  dial_configured (some e, con) w = (err e, record w { closed = con.number ∷ w.closed })
  dial_configured (none, con) w = dial_answered con.number (api.on_connect con w.driver) w

  dialled : Error ⊎ TcpConn → World D → Outcome (Unit {0}) × World D
  dialled (inl e) w = (err e, w)
  dialled (inr con) w = dial_configured (apply_options ops con) w

  -- `dial_timeout` and `dial_plain` are net.DialTimeout and net.Dial.
  unfoldable pub dial :
      Option Error
      → (dial_timeout : ℕ → Error ⊎ TcpConn) → (dial_plain : Error ⊎ TcpConn)
      → Method (World D) (Unit {0})
  unfolding dialled dial_configured dial_answered
  dial (some e) dial_timeout dial_plain w = (err e, w)
  dial none dial_timeout dial_plain w =
      dialled (if ltb 0 ops.timeout then dial_timeout ops.timeout else dial_plain) w

  answered-goes_on :
      (r : Outcome Connected × D) (w : World D) → IsReturned r.0 → (answered r w).0 ≡ ok tt
  unfolding answered started
  answered-goes_on (ok r, d) w h = elim (Option-cases r.error) [
    | inl fine ↦ rw fine
    | inr (e, failed) ↦ rw failed
  ]
  answered-goes_on (err e, d) w h = refl
  answered-goes_on (panic, d) w h = absurd h
  answered-goes_on (hang, d) w h = absurd h

  -- A connection that the driver neither panics nor hangs on lets the loop go on.
  configured-goes_on :
      ((con : TcpConn) (d : D) → IsReturned (api.on_connect con d).0)
      → (r : Option Error × TcpConn) (w : World D) → (configured r w).0 ≡ ok tt
  unfolding configured
  configured-goes_on returns (some e, con) w = refl
  configured-goes_on returns (none, con) w =
      answered-goes_on (api.on_connect con w.driver) w (returns con w.driver)

  loop_panics :
      ((con : TcpConn) (d : D) → IsReturned (api.on_connect con d).0)
      → (cons : List TcpConn) (a : Accepted) (e : NetError) (rest : List Accepted) (w : World D)
      → a.con ≡ none
      → a.error ≡ some e
      → e.temporary ≡ true
      → (accept_loop (map (λ c. accepted c) cons ++ (a ∷ rest)) w).0 ≡ panic
  unfolding accept_loop checked asserted as_tcp
  loop_panics returns [] a e rest w nil failed temporary = rw (nil, failed, temporary) refl
  loop_panics returns (con ∷ cons) a e rest w nil failed temporary =
      let on = configured-goes_on returns (apply_options ops con) w in
      rw on (
        loop_panics returns cons a e rest (configured (apply_options ops con) w).1 nil failed
          temporary)

  -- If the driver neither panics nor hangs on a connection, and Accept gives no connection beside a
  -- temporary error: listening, behind any connections that were accepted, panics in the round of that
  -- error, whatever Accept would return next.
  pub listen-temporary :
      ((con : TcpConn) (d : D) → IsReturned (api.on_connect con d).0)
      → (cons : List TcpConn) (a : Accepted) (e : NetError) (rest : List Accepted) (w : World D)
      → a.con ≡ none
      → a.error ≡ some e
      → e.temporary ≡ true
      → (listen none none (map (λ c. accepted c) cons ++ (a ∷ rest)) w).0 ≡ panic
  unfolding listen
  listen-temporary returns cons a e rest w nil failed temporary =
      loop_panics returns cons a e rest w nil failed temporary
