-- ===== src/Trans/Options/Shared.antt =====
-- The options that the handlers of a process share (internal/trans/options.go, defaultTransOptions;
-- internal/trans/trans_handler.go, NewTransHandler).
use less.Base.{
  ℕ, ◌≡◌, refl, ◌∙◌, Bool, true, false, List, [], ◌∷◌, ◌++◌, Outcome, ok, err, panic, hang,
  if◌then◌else◌, arith,
}
use less.Codec.{PayloadCodec}
use less.Codec.LessCodec.{less_codec}
use less.Pipeline.{Middleware}
use less.Channel.{Channel}
use less.Keepalive.{ServerParameters}
use less.Trans.Options.{
  TransOptions, TransOption, apply, handler_options, with_kp, add_inbound_middleware,
  with_max_channel_size,
}

wrapped_twice :
    (u : Bool) (c : PayloadCodec)
    → let once = if u then less_codec c else c in
      (if u then less_codec once else once) ≡ (if u then less_codec (less_codec c) else c)
wrapped_twice true c = refl
wrapped_twice false c = refl

pub apply-append :
    {P : Type 0} (os qs : List (TransOption P)) (opts : TransOptions P)
    → apply (os ++ qs) opts ≡ apply qs (apply os opts)
unfolding apply
apply-append [] qs opts = refl
apply-append (o ∷ os) qs opts = apply-append os qs (o opts)

module _ {P : Type 0} (random : ℕ → ℕ) where
  made :
      (opts opts' : TransOptions P) (r : Outcome ServerParameters)
      → with_kp opts r ≡ ok opts'
      → (opts'.inbound ≡ opts.inbound)
        × (opts'.max_channel_size ≡ opts.max_channel_size)
        × (opts'.payload_codec ≡ (
            if opts.use_less_msg_codec then less_codec opts.payload_codec else opts.payload_codec))
        × (opts'.use_less_msg_codec ≡ opts.use_less_msg_codec)
  unfolding with_kp
  made opts opts' (ok kp) e = ground arith
  made opts opts' (err x) e = ground arith
  made opts opts' panic e = ground arith
  made opts opts' hang e = ground arith

  -- What a handler has of its options is what applying them to the shared ones gives.
  pub handler_options-made :
      (os : List (TransOption P)) (shared opts : TransOptions P)
      → handler_options random os shared ≡ ok opts
      → (opts.inbound ≡ (apply os shared).inbound)
        × (opts.max_channel_size ≡ (apply os shared).max_channel_size)
  unfolding handler_options
  handler_options-made os shared opts e = let m = made (apply os shared) opts _ e in (m.0, m.1)

  -- A handler that is made without options, right behind one that was made with a limit and
  -- middlewares, has that limit and those middlewares; and with less's message codec in use, the
  -- payload codec is wrapped twice.
  pub handler_options-shared :
      (mws : List (Middleware Channel)) (max : ℕ) (shared first second : TransOptions P)
      → handler_options random (with_max_channel_size max ∷ add_inbound_middleware mws ∷ []) shared
        ≡ ok first
      → handler_options random [] first ≡ ok second
      → (second.max_channel_size ≡ max)
        × (second.inbound ≡ shared.inbound ++ mws)
        × (second.payload_codec ≡ (
            if shared.use_less_msg_codec
            then less_codec (less_codec shared.payload_codec)
            else shared.payload_codec))
  unfolding handler_options apply with_max_channel_size add_inbound_middleware
  handler_options-shared mws max shared first second e1 e2 =
      let a =
        made (apply (with_max_channel_size max ∷ add_inbound_middleware mws ∷ []) shared) first _
          e1 in
      let b = made first second _ e2 in
      (
        b.1 ∙ a.1,
        b.0 ∙ a.0,
        b.2 ∙ rw (a.3, a.2) (wrapped_twice shared.use_less_msg_codec shared.payload_codec),
      )
