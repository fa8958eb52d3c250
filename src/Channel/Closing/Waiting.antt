-- ===== src/Channel/Closing/Waiting.antt =====
-- What the goroutine that `Close` starts waits for (internal/channel/channel.go, Close).
use less.Base.{ℕ, ◌≡◌, Option, Error, ◌⊎◌}
use less.Channel.{Channel}
use less.Channel.Closing.{
  Phase, wait_reads, wait_writes, deferred, Life, fire_hooks, tear_down, Reach, context_done, here,
  next,
}

-- So far no wait was ended by the context.
unfoldable pub WaitsOut : {l l' : Life} → Reach l l' → Type 0
WaitsOut here = Unit
WaitsOut (next r (context_done l p)) = ⊥
WaitsOut (next r s) = WaitsOut r

-- The hooks are fired in the state `l1`, which was reached before `l`.
pub record FiredIn (start l l1 : Life) (e : Option Error) : Type 0 where
  pub before : Reach start l1
  pub waiting : l1.phase ≡ wait_reads e
  pub no_reads : l1.ch.tasks.read_task ≡ 0
  pub after : Reach (fire_hooks e l1) l

-- The channel is torn down in the state `l1`.
pub record TornIn (start l l1 : Life) : Type 0 where
  pub before : Reach start l1
  pub waited : WaitsOut before
  pub finished : (l1.phase ≡ deferred) ⊎ ((l1.phase ≡ wait_writes) × (l1.ch.tasks.write_task ≡ 0))
  pub after : Reach (tear_down l1) l

-- A test that tells `deferred` from the other phases.
abbrev waits_not : Phase → ℕ
waits_not deferred = 1
waits_not _ = 0
