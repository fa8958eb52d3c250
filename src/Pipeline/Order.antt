-- ===== src/Pipeline/Order.antt =====
-- The order in which middleware runs (func.go, internal/channel/pipeline.go).
use less.Base.{
  ℕ, zero, suc, ◌≡◌, ◌≤◌, refl, sym, ap, ◌∙◌, List, [], ◌∷◌, ◌++◌, Option, none, some, arith,
  length, get_elem?, append-nil, append_assoc, take, take_all,
}
use less.Codec.{Message}
use less.Pipeline.{
  Handler, Middleware, chain, chain_loop, wrap, Pipeline, ChannelOps, inbound_chain, with_router,
  fire_inbound, fire_outbound, empty_handler, or_empty,
}

module _ {W : Type 0} where
  -- The first middleware outermost.
  pub nest : List (Middleware W) → Middleware W
  nest [] next = next
  nest (m ∷ ms) next = m (nest ms next)

  nest-append :
      (ms ns : List (Middleware W)) (next : Handler W)
      → nest (ms ++ ns) next ≡ nest ms (nest ns next)
  unfolding nest
  nest-append [] ns next = refl
  nest-append (m ∷ ms) ns next = ap m (nest-append ms ns next)

  -- One round of the loop puts the last middleware not yet taken around `next`.
  take-suc :
      (i : ℕ) (ms : List (Middleware W)) (next : Handler W)
      → suc i ≤ length ms
      → nest (take i ms) (wrap (get_elem? ms i) next) ≡ nest (take (suc i) ms) next
  unfolding nest wrap
  take-suc zero [] next h = absurd (omega arith)
  take-suc zero (m ∷ ms) next h = refl
  take-suc (suc i) [] next h = absurd (omega arith)
  take-suc (suc i) (m ∷ ms) next h = ap m (take-suc i ms next (omega arith))

  chain_loop-nest :
      (i : ℕ) (ms : List (Middleware W)) (next : Handler W)
      → i ≤ length ms
      → chain_loop i ms next ≡ nest (take i ms) next
  unfolding nest chain_loop
  chain_loop-nest zero ms next h = refl
  chain_loop-nest (suc i) ms next h =
      chain_loop-nest i ms (wrap (get_elem? ms i) next) (omega arith) ∙ take-suc i ms next h

  -- `Chain` nests its middleware, the first outermost.
  pub chain-nest : (ms : List (Middleware W)) (next : Handler W) → chain ms next ≡ nest ms next
  unfolding chain
  chain-nest ms next =
      chain_loop-nest (length ms) ms next (omega arith)
      ∙ ap (λ l. nest l next) (take_all (length ms) ms (omega arith))

  chain-chains :
      (ms ns : List (Middleware W)) (next : Handler W)
      → chain (chain ms ∷ chain ns ∷ []) next ≡ nest (ms ++ ns) next
  unfolding nest
  chain-chains ms ns next =
      chain-nest (chain ms ∷ chain ns ∷ []) next
      ∙ chain-nest ms (chain ns next)
      ∙ ap (nest ms) (chain-nest ns next)
      ∙ sym (nest-append ms ns next)

  abbrev pub router_list : Option (Middleware W) → List (Middleware W)
  router_list none = []
  router_list (some r) = r ∷ []

  with_router-nest :
      (o : Option (Middleware W)) (ms ns : List (Middleware W)) (next : Handler W)
      → with_router o (chain (chain ms ∷ chain ns ∷ [])) next
        ≡ nest (ms ++ (ns ++ router_list o)) next
  unfolding with_router
  with_router-nest none ms ns next =
      chain-chains ms ns next ∙ ap (λ l. nest (ms ++ l) next) (sym (append-nil ns))
  with_router-nest (some r) ms ns next =
      chain-nest (chain (chain ms ∷ chain ns ∷ []) ∷ r ∷ []) next
      ∙ unfold nest in
        chain-chains ms ns (r next)
        ∙ sym (nest-append (ms ++ ns) (r ∷ []) next)
        ∙ ap (λ l. nest l next) (append_assoc ms ns (r ∷ []))

module _ {W : Type 0} (ops : ChannelOps W) (pl : Pipeline W) (message : Message) (w : W) where
  -- An inbound message goes through the common middleware, then the channel's own, then the router,
  -- each in the order in which they were added.
  pub fire_inbound-order :
      fire_inbound ops pl message w
      ≡ nest
          (pl.inbound ++ (pl.ch_in ++ router_list pl.router))
          empty_handler
          (ops.context w)
          message
          w
  unfolding fire_inbound inbound_chain
  fire_inbound-order =
      ap (λ h. h (ops.context w) message w)
        (with_router-nest pl.router pl.inbound pl.ch_in empty_handler)

  -- With an outbound handler, an outbound message goes through the channel's own middleware, then
  -- the common one, then the handler.
  pub fire_outbound-order :
      (h : Handler W)
      → pl.outbound_handler ≡ some h
      → fire_outbound ops pl message w ≡ nest (pl.ch_out ++ pl.outbound) h (ops.context w) message w
  unfolding fire_outbound or_empty
  fire_outbound-order h e =
      rw e (ap (λ g. g (ops.context w) message w) (chain-chains pl.ch_out pl.outbound h))
