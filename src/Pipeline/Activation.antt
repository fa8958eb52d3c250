-- ===== src/Pipeline/Activation.antt =====
-- The OnChannel hooks (internal/channel/pipeline.go, FireOnChannel).
use less.Base.{◌≡◌, refl, List, [], ◌∷◌, ◌++◌, none, some, Error}
use less.Pipeline.{Context, OnChannel, Pipeline, ChannelOps, fire_on_channel, on_channel_loop, keep}

module _ {W : Type 0} (ops : ChannelOps W) where
  -- Hooks that succeed one after the other, each with the context that the one before returned; the
  -- channel takes over every context that is not nil.
  pub data Passes : List (OnChannel W) → Context → W → Context → W → Type 0 where
    nil : {c : Context} {w : W} → Passes [] c w c w
    cons :
        {hook : OnChannel W} {hooks : List (OnChannel W)} {c c1 c2 : Context} {w w1 w2 : W}
        → hook c w ≡ ((c1, none), w1)
        → Passes hooks c1 (keep ops c1 w1) c2 w2
        → Passes (hook ∷ hooks) c w c2 w2

  loop_all :
      {hooks : List (OnChannel W)} {c c2 : Context} {w w2 : W}
      → Passes hooks c w c2 w2
      → on_channel_loop ops hooks c w ≡ (none, ops.active w2)
  unfolding on_channel_loop
  loop_all nil = refl
  loop_all (cons e rest) = rw e (loop_all rest)

  loop_fails :
      {hooks : List (OnChannel W)} {c c2 : Context} {w w2 : W} (bad : OnChannel W)
      (later : List (OnChannel W)) (c3 : Context) (x : Error) (w3 : W)
      → Passes hooks c w c2 w2
      → bad c2 w2 ≡ ((c3, some x), w3)
      → on_channel_loop ops (hooks ++ (bad ∷ later)) c w ≡ (some x, w3)
  unfolding on_channel_loop
  loop_fails bad later c3 x w3 nil fails = rw fails
  loop_fails bad later c3 x w3 (cons e rest) fails = rw e (loop_fails bad later c3 x w3 rest fails)

  -- When all OnChannel hooks succeed, one after the other, the channel becomes active behind the
  -- last of them.
  pub fire_on_channel-active :
      (pl : Pipeline W) (ctx c2 : Context) (w w2 : W)
      → Passes pl.on_channel_chain ctx (ops.set_context ctx w) c2 w2
      → fire_on_channel ops pl ctx w ≡ (none, ops.active w2)
  unfolding fire_on_channel
  fire_on_channel-active pl ctx c2 w w2 p = loop_all p

  -- The first hook that fails ends the activation with its error: no later hook runs, and the channel
  -- is left as that hook left it, not activated.
  pub fire_on_channel-fails :
      (pl : Pipeline W) (ctx c2 c3 : Context) (w w2 w3 : W) (before later : List (OnChannel W))
      (bad : OnChannel W) (x : Error)
      → pl.on_channel_chain ≡ before ++ (bad ∷ later)
      → Passes before ctx (ops.set_context ctx w) c2 w2
      → bad c2 w2 ≡ ((c3, some x), w3)
      → fire_on_channel ops pl ctx w ≡ (some x, w3)
  unfolding fire_on_channel
  fire_on_channel-fails pl ctx c2 c3 w w2 w3 before later bad x e p fails =
      rw e (loop_fails bad later c3 x w3 p fails)
