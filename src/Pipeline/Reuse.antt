-- ===== src/Pipeline/Reuse.antt =====
-- A released pipeline goes back to the pool, which all factories share (internal/channel/pipeline.go).
use less.Base.{
  refl, some, none, ◌≡◌, sym, ap, ◌∙◌, true, false, List, [], ltb, Bool-cases, inl, inr, length,
}
use less.Pipeline.{
  Middleware, OnChannelClosed, Pipeline, add_on_channel_closed, add_inbound, add_outbound, release,
  PipelinePool, new_pipeline_factory, put_back, take_pipeline, picked, taken_from,
}

module _ {W : Type 0} where
  -- The pool's new pipelines: bound to no channel, with nothing of a channel's own.
  pub record IsFresh (pl : Pipeline W) : Type 0 where
    pub unbound : pl.bound ≡ false
    pub no_hooks : pl.chocc ≡ []
    pub no_inbound : pl.ch_in ≡ []
    pub no_outbound : pl.ch_out ≡ []

  -- What a channel's life makes of a pipeline that it took from the pool as `fresh`.
  pub data Used (fresh : Pipeline W) : Pipeline W → Type 0 where
    taken : Used fresh (record fresh { bound = true })
    hooks :
        {pl : Pipeline W} (l : List (OnChannelClosed W))
        → Used fresh pl
        → Used fresh (add_on_channel_closed l pl)
    inbound :
        {pl : Pipeline W} (l : List (Middleware W)) → Used fresh pl → Used fresh (add_inbound l pl)
    outbound :
        {pl : Pipeline W} (l : List (Middleware W)) → Used fresh pl → Used fresh (add_outbound l pl)

  release-add_on_channel_closed :
      (l : List (OnChannelClosed W)) (pl : Pipeline W)
      → release (add_on_channel_closed l pl) ≡ release pl
  unfolding release add_on_channel_closed
  release-add_on_channel_closed l pl = elim (Bool-cases (ltb 0 (length l))) [
    | inl some_hooks ↦ rw some_hooks
    | inr no_hooks ↦ rw no_hooks
  ]

  release-add_inbound :
      (l : List (Middleware W)) (pl : Pipeline W) → release (add_inbound l pl) ≡ release pl
  unfolding release add_inbound
  release-add_inbound l pl = elim (Bool-cases (ltb 0 (length l))) [
    | inl some_added ↦ rw some_added
    | inr none_added ↦ rw none_added
  ]

  release-add_outbound :
      (l : List (Middleware W)) (pl : Pipeline W) → release (add_outbound l pl) ≡ release pl
  unfolding release add_outbound
  release-add_outbound l pl = elim (Bool-cases (ltb 0 (length l))) [
    | inl some_added ↦ rw some_added
    | inr none_added ↦ rw none_added
  ]

  release-taken :
      (fresh : Pipeline W) → IsFresh fresh → release (record fresh { bound = true }) ≡ fresh
  unfolding release
  release-taken fresh f = λ i. record fresh {
    bound = sym f.unbound i;
    chocc = sym f.no_hooks i;
    ch_in = sym f.no_inbound i;
    ch_out = sym f.no_outbound i;
  }

  -- Whatever hooks and middlewares a channel added, before it was released, to a pipeline that its
  -- factory took as `fresh`: releasing it makes it `fresh` again. When `Get` then answers with this one,
  -- a channel gets `fresh`, even one of a factory made since for other hooks and middlewares; where
  -- `Get` calls `New`, a channel gets what the factory made last makes.
  pub release-Used :
      (fresh other pl : Pipeline W) (pool : PipelinePool W)
      → IsFresh fresh
      → Used fresh pl
      → (release pl ≡ fresh)
        × (take_pipeline (some 0) (new_pipeline_factory other (put_back pl pool))
            ≡ (record fresh { bound = true }, new_pipeline_factory other pool))
        × ((take_pipeline none (new_pipeline_factory other (put_back pl pool))).0
            ≡ record other { bound = true })
  unfolding take_pipeline taken_from picked put_back new_pipeline_factory
  release-Used fresh other pl pool f u =
      let back = go u in
      (back, ap (λ p. (record p { bound = true }, record pool { fresh = other })) back, refl)
    where
      go : {pl : Pipeline W} → Used fresh pl → release pl ≡ fresh
      go taken = release-taken fresh f
      go (hooks {pl = q} l u) = release-add_on_channel_closed l q ∙ go u
      go (inbound {pl = q} l u) = release-add_inbound l q ∙ go u
      go (outbound {pl = q} l u) = release-add_outbound l q ∙ go u
