-- ===== src/Channel/Closing.antt =====
-- Closing a channel (internal/channel/channel.go, Close): the caller's part, and the goroutine that
-- tears the channel down.
pub mod Ending
pub mod Lifetime
pub mod Waiting
use less.Base.{
  ℕ, zero, suc, ◌+◌, ◌≡◌, not, ◌||◌, Bool, true, false, Option, none, some, Error, channel_closed,
  Outcome, ok, err, ◌==◌, if◌then◌else◌, ◌⊎◌, ◌<◌, ◌≢◌,
}
use less.Channel.{
  Channel, inactive, active, close_bits, WaitGroup, wait_group_add, wait_group_done, readable_bit,
  writeable_bit,
}

-- How far the goroutine has come.
pub data Phase : Type 0 where
  not_closed : Phase
  wait_reads : Option Error → Phase
  wait_writes : Phase
  deferred : Phase
  torn_down : Phase

-- A channel with what closing it does: how often its OnChannelClosed hooks were fired, how often
-- `done` was closed, how often the pipeline was released.
pub record Life : Type 0 where
  pub ch : Channel
  pub activated : Bool
  pub phase : Phase
  pub hooks_fired : ℕ
  pub done_closed : ℕ
  pub released : ℕ

unfoldable pub new_life : Channel → Life
new_life ch = record {
  ch = ch;
  activated = false;
  phase = not_closed;
  hooks_fired = 0;
  done_closed = 0;
  released = 0;
}

abbrev pub with_channel : Life → Channel → Life
with_channel l ch = record l { ch = ch }

-- `Close(ctx, err)`, where `old` is the state that it loaded at first; other goroutines may have
-- changed the state since.
unfoldable pub close : ℕ → Option Error → Life → Outcome (Unit {0}) × Life
unfolding close_bits
close old e l = if old == inactive || not (l.ch.state == old) then (err channel_closed, l) else (
  ok tt,
  record l { ch = close_bits inactive (record (l.ch) { state = inactive }); phase = wait_reads e },
)

-- `FireOnChannel` at its end, once in a channel's life.
unfoldable pub activate : Life → Life
activate l = record l { ch = active l.ch; activated = true }

-- The hooks are fired; with an error the goroutine does not wait for the outbound tasks.
unfoldable pub fire_hooks : Option Error → Life → Life
fire_hooks none l = record l { phase = wait_writes; hooks_fired = l.hooks_fired + 1 }
fire_hooks (some e) l = record l { phase = deferred; hooks_fired = l.hooks_fired + 1 }

-- The deferred function: `done` is closed, the pipeline released and the connection closed.
unfoldable pub tear_down : Life → Life
tear_down l = record l {
  ch = record (l.ch) { conn_active = false };
  phase = torn_down;
  done_closed = l.done_closed + 1;
  released = l.released + 1;
}

-- What the goroutines that share a channel may do next. Tasks may begin and end at any time.
pub data Step : Life → Life → Type 0 where
  activates : (l : Life) → l.activated ≡ false → Step l (activate l)
  closes_side :
      (l : Life) (side : ℕ)
      → (side ≡ readable_bit) ⊎ (side ≡ writeable_bit)
      → Step l (with_channel l (close_bits side l.ch))
  closes : (l : Life) (old : ℕ) (e : Option Error) → Step l (close old e l).1
  begins :
      (l : Life) (event : ℕ)
      → Step l (with_channel l (record (l.ch) { tasks = wait_group_add event l.ch.tasks }))
  ends :
      (l : Life) (event : ℕ) (wg : WaitGroup)
      → wait_group_done event l.ch.tasks ≡ ok wg
      → Step l (with_channel l (record (l.ch) { tasks = wg }))
  reads_done :
      (l : Life) (e : Option Error)
      → l.phase ≡ wait_reads e
      → l.ch.tasks.read_task ≡ 0
      → Step l (fire_hooks e l)
  writes_done :
      (l : Life) → l.phase ≡ wait_writes → l.ch.tasks.write_task ≡ 0 → Step l (tear_down l)
  context_done : (l : Life) → l.phase ≡ wait_writes → Step l (tear_down l)
  returns : (l : Life) → l.phase ≡ deferred → Step l (tear_down l)

pub data Reach (l : Life) : Life → Type 0 where
  here : Reach l l
  next : {l1 l2 : Life} → Reach l l1 → Step l1 l2 → Reach l l2
