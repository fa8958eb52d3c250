-- ===== src/Server/Sharing.antt =====
-- What the servers of a process share (server/server.go, defaultServerOptions; internal/trans/options.go,
-- defaultTransOptions).
use less.Base.{
  ℕ, ◌≡◌, refl, sym, ap, ◌∙◌, List, [], ◌∷◌, ◌++◌, Option, none, some, Bytes, Outcome, ok, err,
  panic, hang, lt→ltb, length, ◌<◌, arith,
}
use less.Pipeline.{Middleware}
use less.Channel.{Channel}
use less.Channel.Closing.{Life}
use less.Trans.{TransHandler}
use less.Trans.Options
use less.Trans.Options.{TransOptions, TransOption, handler_options, new_trans_handler}
use less.Trans.Options.Shared.{handler_options-made, apply-append}
use less.Pool.{Ants}
use less.Server.{
  Process, Server, Split, parse_addr, started, run, new_server, apply, max_channel_size,
  with_inbound_middleware,
}

limit : Option TransHandler → ℕ
limit none = 0
limit (some th) = th.max_channel_size

module _ {P A : Type 0} (split : Split) (ants : Ants A) (random : ℕ → ℕ) (no_channel : Life) where
  started-ok :
      (srv srv' : Server) (r : Outcome (TransOptions P)) (w w' : Process P A)
      → started split ants random no_channel srv r w ≡ (ok srv', w')
      → (r ≡ ok w'.trans_defaults)
        × (srv'.handler ≡ some (new_trans_handler w'.trans_defaults no_channel))
        × (w'.options ≡ w.options)
  unfolding started
  started-ok srv srv' (ok opts) w w' e = ground arith
  started-ok srv srv' (err x) w w' e = ground arith
  started-ok srv srv' panic w w' e = ground arith
  started-ok srv srv' hang w w' e = ground arith

  run-ok :
      (srv srv' : Server) (w w' : Process P A)
      → run split ants random no_channel srv w ≡ (ok srv', w')
      → (handler_options random w.options.trans_options w.trans_defaults ≡ ok w'.trans_defaults)
        × (srv'.handler ≡ some (new_trans_handler w'.trans_defaults no_channel))
        × (w'.options ≡ w.options)
  unfolding run
  run-ok srv srv' w w' e =
      started-ok (record srv { addr = parse_addr split srv w.options }) srv' _ w w' e

  -- The servers of a process share their options: a server that was given a limit on channels and is
  -- run after another one was made with a limit has the other one's limit.
  pub new_server-shared :
      (a1 a2 : Bytes) (m1 m2 : ℕ) (w w' : Process P A) (srv : Server) (th : TransHandler)
      → let first = new_server a1 (max_channel_size m1 ∷ []) w in
        let second = new_server a2 (max_channel_size m2 ∷ []) first.1 in
        run split ants random no_channel first.0 second.1 ≡ (ok srv, w')
        → srv.handler ≡ some th
        → th.max_channel_size ≡ m2
  unfolding new_server apply max_channel_size new_trans_handler Options.apply
      Options.with_max_channel_size limit
  new_server-shared a1 a2 m1 m2 w w' srv th e is =
      let (made, handler, _) = run-ok _ srv _ w' e in
      let m = handler_options-made random _ w.trans_defaults w'.trans_defaults made in
      ap limit (sym is ∙ handler)
      ∙ m.1
      ∙ ap (λ o. o.max_channel_size)
          (apply-append (w.options.trans_options ++ (Options.with_max_channel_size m1 ∷ []))
            (Options.with_max_channel_size m2 ∷ []) w.trans_defaults)

  given :
      (mws : List (Middleware Channel)) (w : Process P A)
      → 0 < length mws
      → w.options.trans_options ≡ []
      → let v = with_inbound_middleware mws w in
        (v.options.trans_options ≡ Options.add_inbound_middleware mws ∷ [])
        × (v.trans_defaults ≡ w.trans_defaults)
  unfolding with_inbound_middleware
  given mws w pos clean =
      rw (lt→ltb 0 (length mws) pos)
        (ap (λ t. t ++ (Options.add_inbound_middleware mws ∷ [])) clean, refl)

  made_inbound :
      (mws : List (Middleware Channel)) (os : List (TransOption P)) (defaults opts : TransOptions P)
      → handler_options random os defaults ≡ ok opts
      → os ≡ Options.add_inbound_middleware mws ∷ []
      → opts.inbound ≡ defaults.inbound ++ mws
  unfolding Options.apply Options.add_inbound_middleware
  made_inbound mws os defaults opts made is =
      (handler_options-made random os defaults opts made).0
      ∙ ap (λ o. (Options.apply o defaults).inbound) is

  -- A server that was made with inbound middlewares and run leaves them to the next server, which is made
  -- without options but has them twice.
  pub run-duplicates :
      (a1 a2 : Bytes) (mws : List (Middleware Channel)) (w w1 w2 : Process P A) (s1 s2 : Server)
      → 0 < length mws
      → w.options.trans_options ≡ []
      → let first = new_server a1 (with_inbound_middleware mws ∷ []) w in
        let second = new_server a2 [] first.1 in
        run split ants random no_channel first.0 second.1 ≡ (ok s1, w1)
        → run split ants random no_channel second.0 w1 ≡ (ok s2, w2)
        → w2.trans_defaults.inbound ≡ (w.trans_defaults.inbound ++ mws) ++ mws
  unfolding new_server apply
  run-duplicates a1 a2 mws w w1 w2 s1 s2 pos clean e1 e2 =
      let (opts, defaults) = given mws w pos clean in
      let (made1, _, same) = run-ok _ s1 _ w1 e1 in
      let (made2, _, _) = run-ok _ s2 w1 w2 e2 in
      made_inbound mws _ w1.trans_defaults w2.trans_defaults made2
        (ap (λ o. o.trans_options) same ∙ opts)
      ∙ ap (λ t. t ++ mws)
          (made_inbound mws _ _ w1.trans_defaults made1 opts ∙ ap (λ d. d.inbound ++ mws) defaults)
