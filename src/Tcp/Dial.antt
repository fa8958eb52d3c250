-- ===== src/Tcp/Dial.antt =====
-- Dialling with the transport handler as the driver (transport/tcp/trans_std.go, Dial and readLoop).
use less.Base.{
  ℕ, ◌<◌, ◌≡◌, refl, Bool, true, false, List, ◌∷◌, none, some, Error, ◌⊎◌, inr, ok, Method, ltb,
  if◌then◌else◌, out_of_limit,
}
use less.Io.Reader.{Reader}
use less.Codec.{Message}
use less.Pipeline.{Pipeline}
use less.Channel.{Channel}
use less.Trans.{TransHandler, serving}
use less.Trans.Connect.{on_connect-refused}
use less.Tcp.Options.{TcpOptions}
use less.Tcp.Listen.{World, TcpConn, EventDriver, dial, apply_options}
use less.Tcp.Driver.{trans_driver}
use less.Tcp.Poll.{Round, polls, crashed, read_loop}

module _ {S : Type 0} (api : Reader S) (decode : Method S Message) (pl : Pipeline Channel)
    (side now : ℕ) (keeper : Bool) where
  abbrev driver : EventDriver TransHandler S
  driver = trans_driver api decode pl side now keeper

  refused :
      (con : TcpConn) (th : TransHandler)
      → th.status ≡ serving
      → 0 < th.max_channel_size
      → th.max_channel_size < th.channel_count
      → driver.on_connect con th ≡ (ok (record { context = none; error = some out_of_limit }), th)
  unfolding trans_driver
  refused con th up pos over =
      rw (on_connect-refused pl (some 0) side now keeper th up pos over) refl

  nothing_to_read :
      (listening : Bool) (s : S) (rest : List (Round S)) (th : TransHandler)
      → th.status ≡ serving
      → (read_loop driver listening none (polls s ∷ rest) th).0 ≡ crashed
  unfolding read_loop trans_driver
  nothing_to_read false s rest th up = refl
  nothing_to_read true s rest th up = rw up refl

  -- When a connection was dialled and configured but the serving handler counts more channels than
  -- its limit, `Dial` closes the connection but returns no error, and the goroutine that it starts
  -- to read panics in its first round.
  pub dial-refused_crashes :
      (ops : TcpOptions) (con con' : TcpConn) (dial_timeout : ℕ → Error ⊎ TcpConn)
      (dial_plain : Error ⊎ TcpConn) (w : World TransHandler)
      → (if ltb 0 ops.timeout then dial_timeout ops.timeout else dial_plain) ≡ inr con
      → apply_options ops con ≡ (none, con')
      → w.driver.status ≡ serving
      → 0 < w.driver.max_channel_size
      → w.driver.max_channel_size < w.driver.channel_count
      → let r = dial driver ops none dial_timeout dial_plain w in
        (r.0 ≡ ok tt)
        × (r.1.closed ≡ con'.number ∷ w.closed)
        × (r.1.loops ≡ none ∷ w.loops)
        × ((listening : Bool) (s : S) (rest : List (Round S))
            → (read_loop driver listening none (polls s ∷ rest) r.1.driver).0 ≡ crashed)
  unfolding dial
  dial-refused_crashes ops con con' dial_timeout dial_plain w got set up pos over =
      rw (got, set, refused con' w.driver up pos over)
        (refl, refl, refl, λ listening s rest. nothing_to_read listening s rest w.driver up)
