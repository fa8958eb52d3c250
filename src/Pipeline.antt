-- ===== src/Pipeline.antt =====
-- Middleware (func.go) and the pipeline of a channel (internal/channel/pipeline.go). The channel that
-- a pipeline works on is the world `W`, which hooks and handlers may change.
pub mod Order
pub mod Reuse
pub mod Activation
use less.Base.{
  ℕ, zero, suc, Bool, true, false, List, [], ◌∷◌, ◌++◌, Option, none, some, Error, Outcome, ok, err,
  panic, hang, Method, length, ltb, if◌then◌else◌, get_elem?,
}
use less.Codec.{Message}

-- A context.Context; `none` is nil.
abbrev pub Context : Type 0
Context = Option ℕ

abbrev pub Handler : Type 0 → Type 0
Handler W = Context → Message → Method W (Unit {0})

abbrev pub Middleware : Type 0 → Type 0
Middleware W = Handler W → Handler W

-- An OnChannel hook returns a context and perhaps an error; an OnChannelClosed hook returns nothing.
abbrev pub OnChannel : Type 0 → Type 0
OnChannel W = Context → W → (Context × Option Error) × W

abbrev pub OnChannelClosed : Type 0 → Type 0
OnChannelClosed W = Context → Option Error → W → W

module _ {W : Type 0} where
  -- `ms[i](next)`; the loop below stays inside the slice.
  wrap : Option (Middleware W) → Handler W → Handler W
  wrap none next = next
  wrap (some m) next = m next

  -- `for i := len(ms) - 1; i >= 0; i-- { next = ms[i](next) }`, with `i + 1` rounds to go.
  chain_loop : ℕ → List (Middleware W) → Handler W → Handler W
  chain_loop zero ms next = next
  chain_loop (suc i) ms next = chain_loop i ms (wrap (get_elem? ms i) next)

  pub chain : List (Middleware W) → Middleware W
  unfolding chain_loop wrap
  chain ms next = chain_loop (length ms) ms next

  unfoldable pub empty_handler : Handler W
  empty_handler ctx message w = (ok tt, w)

pub record Pipeline (W : Type 0) : Type 0 where
  pub on_channel_chain : List (OnChannel W)
  pub on_channel_closed_chain : List (OnChannelClosed W)
  pub inbound : List (Middleware W)
  pub outbound : List (Middleware W)
  pub router : Option (Middleware W)
  pub outbound_handler : Option (Handler W)
  pub bound : Bool  -- `ch` is not nil
  pub chocc : List (OnChannelClosed W)
  pub ch_in : List (Middleware W)
  pub ch_out : List (Middleware W)

-- `pool`, which the factories of a process share: what its `New` makes, and what was put back.
pub record PipelinePool (W : Type 0) : Type 0 where
  pub fresh : Pipeline W
  pub released : List (Pipeline W)

module _ {W : Type 0} where
  pub add_on_channel_closed : List (OnChannelClosed W) → Pipeline W → Pipeline W
  add_on_channel_closed hooks pl =
      if ltb 0 (length hooks) then record pl { chocc = pl.chocc ++ hooks } else pl

  pub add_inbound : List (Middleware W) → Pipeline W → Pipeline W
  add_inbound inbound pl =
      if ltb 0 (length inbound) then record pl { ch_in = pl.ch_in ++ inbound } else pl

  pub add_outbound : List (Middleware W) → Pipeline W → Pipeline W
  add_outbound outbound pl =
      if ltb 0 (length outbound) then record pl { ch_out = pl.ch_out ++ outbound } else pl

  -- `Release`, before the pipeline goes back to the pool.
  pub release : Pipeline W → Pipeline W
  release pl = record pl { bound = false; chocc = []; ch_in = []; ch_out = [] }

  -- The pool's `New`.
  pub new_pipeline :
      List (OnChannel W)
      → List (OnChannelClosed W)
      → List (Middleware W)
      → List (Middleware W)
      → Option (Middleware W)
      → Option (Handler W)
      → Pipeline W
  new_pipeline on_channel on_channel_closed inbound outbound router outbound_handler = record {
    on_channel_chain = on_channel;
    on_channel_closed_chain = on_channel_closed;
    inbound = inbound;
    outbound = outbound;
    router = router;
    outbound_handler = outbound_handler;
    bound = false;
    chocc = [];
    ch_in = [];
    ch_out = [];
  }

  -- `NewPipelineFactory`: the pool's `New` is replaced by one that makes `fresh`.
  pub new_pipeline_factory : Pipeline W → PipelinePool W → PipelinePool W
  new_pipeline_factory fresh pool = record pool { fresh = fresh }

  -- `Release`: the pipeline goes back to the pool.
  pub put_back : Pipeline W → PipelinePool W → PipelinePool W
  put_back pl pool = record pool { released = release pl ∷ pool.released }

  -- What stands at a place of the pool, with the others.
  picked : ℕ → List (Pipeline W) → Option (Pipeline W × List (Pipeline W))
  picked n [] = none
  picked zero (pl ∷ rest) = some (pl, rest)
  picked (suc n) (pl ∷ rest) = elim (picked n rest) [
    | none ↦ none
    | some (found, others) ↦ some (found, pl ∷ others)
  ]

  taken_from :
      Option (Pipeline W × List (Pipeline W)) → PipelinePool W → Pipeline W × PipelinePool W
  taken_from none pool = (record (pool.fresh) { bound = true }, pool)
  taken_from (some (pl, others)) pool =
      (record pl { bound = true }, record pool { released = others })

  -- A factory: `pool.Get()`, then `pl.ch = ch`. `Get` answers with any pipeline that was put back,
  -- `choice` says which, or calls `New`, as it does when there is none.
  pub take_pipeline : (choice : Option ℕ) → PipelinePool W → Pipeline W × PipelinePool W
  unfolding taken_from
  take_pipeline none pool = taken_from none pool
  take_pipeline (some n) pool = taken_from (picked n pool.released) pool

  with_router : Option (Middleware W) → Middleware W → Middleware W
  with_router none mws = mws
  with_router (some r) mws = chain (mws ∷ r ∷ [])

  pub inbound_chain : Pipeline W → Middleware W
  unfolding with_router
  inbound_chain pl = with_router pl.router (chain (chain pl.inbound ∷ chain pl.ch_in ∷ []))

  or_empty : Option (Handler W) → Handler W
  or_empty none = empty_handler
  or_empty (some h) = h

  -- The loop goes on behind a hook that returned no error.
  after_hook : (Context × Option Error) × W → (Context → W → Option Error × W) → Option Error × W
  after_hook ((ctx, none), w) go_on = go_on ctx w
  after_hook ((ctx, some x), w) go_on = (some x, w)

-- What the pipeline uses of its channel.
pub record ChannelOps (W : Type 0) : Type 0 where
  pub context : W → Context
  pub set_context : Context → W → W
  pub active : W → W

module _ {W : Type 0} (ops : ChannelOps W) where
  unfoldable pub keep : Context → W → W
  keep none w = w
  keep (some c) w = ops.set_context (some c) w

  -- The loop of `FireOnChannel`: a hook's context goes to the next hook, and to the channel unless it
  -- is nil.
  unfoldable pub on_channel_loop : List (OnChannel W) → Context → W → Option Error × W
  unfolding after_hook
  on_channel_loop [] ctx w = (none, ops.active w)
  on_channel_loop (hook ∷ hooks) ctx w =
      after_hook (hook ctx w) (λ ctx' w'. on_channel_loop hooks ctx' (keep ctx' w'))

  unfoldable pub fire_on_channel : Pipeline W → Context → W → Option Error × W
  unfolding on_channel_loop
  fire_on_channel pl ctx w = on_channel_loop pl.on_channel_chain ctx (ops.set_context ctx w)

  closed_loop : List (OnChannelClosed W) → Option Error → W → W
  closed_loop [] e w = w
  closed_loop (hook ∷ hooks) e w = closed_loop hooks e (hook (ops.context w) e w)

  pub fire_on_channel_closed : Pipeline W → Option Error → W → W
  unfolding closed_loop
  fire_on_channel_closed pl e w = closed_loop (pl.on_channel_closed_chain ++ pl.chocc) e w

  pub fire_inbound : Pipeline W → Message → Method W (Unit {0})
  fire_inbound pl message w = inbound_chain pl empty_handler (ops.context w) message w

  pub fire_outbound : Pipeline W → Message → Method W (Unit {0})
  unfolding or_empty
  fire_outbound pl message w =
      chain (chain pl.ch_out ∷ chain pl.outbound ∷ []) (or_empty pl.outbound_handler)
        (ops.context w) message w

  -- `Outbound` calls the handler with no middleware; a nil handler panics.
  pub outbound : Pipeline W → Message → Method W (Unit {0})
  outbound pl message w = elim pl.outbound_handler [
    | none ↦ (panic, w)
    | some h ↦ h (ops.context w) message w
  ]
