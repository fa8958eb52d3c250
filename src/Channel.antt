-- ===== src/Channel.antt =====
-- A channel (internal/channel/channel.go, internal/channel/waitgroup.go).
pub mod Flags
pub mod Recorder
pub mod Closing
pub mod Api
use less.Base.{
  ℕ, zero, suc, ◌+◌, ◌-◌, ◌≡◌, ◌&&◌, not, Bool, true, false, List, [], ◌∷◌, Option, none, some,
  Error, channel_closed, channel_reader_closed, channel_writer_closed, Outcome, ok, err, panic,
  hang, Method, ◌==◌, if◌then◌else◌,
}
use Prim.Native.Nat.{bit_and, bit_xor}
use less.Codec.{Message}
use less.Pipeline.{Context, Handler, Middleware, ChannelOps}

-- The states, as bits.
abbrev pub inactive : ℕ
inactive = 0

abbrev pub readable_bit : ℕ
readable_bit = 1

abbrev pub writeable_bit : ℕ
writeable_bit = 2

abbrev pub read_write_mode : ℕ
read_write_mode = 3

abbrev pub read_event : ℕ
read_event = 0

abbrev pub write_event : ℕ
write_event = 1

-- The counters of three sync.WaitGroups.
pub record WaitGroup : Type 0 where
  pub read_task : ℕ
  pub write_task : ℕ
  pub all_task : ℕ

unfoldable pub new_wait_group : WaitGroup
new_wait_group = record { read_task = 0; write_task = 0; all_task = 0 }

unfoldable pub wait_group_add : ℕ → WaitGroup → WaitGroup
wait_group_add event wg =
    if event == read_event
    then record wg { read_task = wg.read_task + 1; all_task = wg.all_task + 1 }
    else if event == write_event
    then record wg { write_task = wg.write_task + 1; all_task = wg.all_task + 1 }
    else wg

-- sync.WaitGroup's `Done`: a negative counter panics.
done_one : ℕ → Option ℕ
done_one zero = none
done_one (suc n) = some n

with_read : Option ℕ → Option ℕ → WaitGroup → Outcome WaitGroup
with_read none all wg = panic
with_read (some r) none wg = panic
with_read (some r) (some a) wg = ok (record wg { read_task = r; all_task = a })

with_write : Option ℕ → Option ℕ → WaitGroup → Outcome WaitGroup
with_write none all wg = panic
with_write (some r) none wg = panic
with_write (some r) (some a) wg = ok (record wg { write_task = r; all_task = a })

unfoldable pub wait_group_done : ℕ → WaitGroup → Outcome WaitGroup
unfolding done_one with_read with_write
wait_group_done event wg =
    if event == read_event
    then with_read (done_one wg.read_task) (done_one wg.all_task) wg
    else if event == write_event
    then with_write (done_one wg.write_task) (done_one wg.all_task) wg
    else ok wg

-- `conn_active` is what the connection answers to IsActive; `idle` is none while the channel is busy
-- (the zero time). Times are in nanoseconds.
pub record Channel : Type 0 where
  pub ctx : Context
  pub conn_active : Bool
  pub state : ℕ
  pub tasks : WaitGroup
  pub side : ℕ
  pub last_read : ℕ
  pub last_write : ℕ
  pub idle : Option ℕ

-- `context.Background()` is context 0; `now` is the clock.
unfoldable pub new_channel : (side now : ℕ) → Channel
unfolding new_wait_group
new_channel side now = record {
  ctx = some 0;
  conn_active = true;
  state = inactive;
  tasks = new_wait_group;
  side = side;
  last_read = 0;
  last_write = 0;
  idle = some now;
}

-- `calState`.
unfoldable pub cal_state : ℕ → Channel → Bool
cal_state state ch = bit_and ch.state state == state

unfoldable pub active : Channel → Channel
active ch = record ch { state = read_write_mode }

unfoldable pub is_active : Channel → Bool
is_active ch = not (bit_and ch.state read_write_mode == 0) && ch.conn_active

unfoldable pub readable : Channel → Bool
unfolding cal_state
readable = cal_state readable_bit

unfoldable pub writeable : Channel → Bool
unfolding cal_state
writeable = cal_state writeable_bit

-- `close(state)`: the loop ends as soon as the bits are cleared or found cleared.
abbrev pub cleared : ℕ → ℕ → ℕ
cleared state old = if bit_and old state == state then bit_xor old state else old

unfoldable pub close_bits : ℕ → Channel → Channel
close_bits state ch = record ch { state = cleared state ch.state }

unfoldable pub close_reader : Channel → Channel
unfolding close_bits
close_reader = close_bits readable_bit

unfoldable pub close_writer : Channel → Channel
unfolding close_bits
close_writer = close_bits writeable_bit

-- `Reader` and `Writer`: whether the connection's reader or writer is handed out.
unfoldable pub reader : Channel → Outcome (Unit {0})
unfolding cal_state
reader ch = if not (cal_state readable_bit ch) then err channel_reader_closed else ok tt

unfoldable pub writer : Channel → Outcome (Unit {0})
unfolding cal_state
writer ch = if not (cal_state readable_bit ch) then err channel_writer_closed else ok tt

unfoldable pub set_context : Context → Channel → Channel
set_context ctx ch = record ch { ctx = ctx }

abbrev pub channel_ops : ChannelOps Channel
channel_ops = record { context = λ ch. ch.ctx; set_context = set_context; active = active }

-- `addTask`, at the time `now`: a channel that was idle becomes busy.
unfoldable pub add_task : ℕ → ℕ → Channel → Channel
unfolding wait_group_add
add_task event now ch =
    let ch' = record ch { tasks = wait_group_add event ch.tasks } in
    let stamped =
      if event == read_event
      then record ch' { last_read = now }
      else if event == write_event
      then record ch' { last_write = now }
      else ch' in
    record stamped { idle = none }

-- The goroutine that `addTask` starts ends by marking the channel idle, once all tasks are done.
unfoldable pub mark_idle : ℕ → Channel → Channel
mark_idle now ch = record ch { idle = some now }

finish_task : ℕ → Channel → Outcome WaitGroup → Outcome (Unit {0}) → Outcome (Unit {0}) × Channel
finish_task event ch (ok tasks) result = (result, record ch { tasks = tasks })
finish_task event ch (err e) result = (err e, ch)
finish_task event ch panic result = (panic, ch)
finish_task event ch hang result = (hang, ch)

-- `ch.tasks.Done(event)` runs behind a handler that returned; a panic skips it.
after_handler : ℕ → Outcome (Unit {0}) × Channel → Outcome (Unit {0}) × Channel
unfolding finish_task
after_handler event (ok a, ch) = finish_task event ch (wait_group_done event ch.tasks) (ok a)
after_handler event (err e, ch) = finish_task event ch (wait_group_done event ch.tasks) (err e)
after_handler event (panic, ch) = (panic, ch)
after_handler event (hang, ch) = (hang, ch)

-- The middleware that counts a channel's tasks, with the clock at `now`.
unfoldable pub recorder : ℕ → ℕ → Middleware Channel
unfolding after_handler
recorder event now handler ctx message ch =
    after_handler event (handler ctx message (add_task event now ch))
