-- ===== src/Channel/Api.antt =====
-- What a channel does with its pipeline, and what it tells of itself (internal/channel/channel.go,
-- internal/channel/sider.go).
use less.Base.{
  ℕ, ◌≡◌, ◌≢◌, refl, true, false, List, Option, Error, channel_reader_closed, channel_writer_closed,
  err, Method, if◌then◌else◌,
}
use less.Codec.{Message}
use less.Pipeline as Hooks
use less.Pipeline.{
  Context, Middleware, OnChannelClosed, Pipeline, fire_on_channel, fire_inbound, fire_outbound,
  outbound, add_inbound, add_outbound,
}
use less.Channel.{Channel, channel_ops, cal_state, writeable_bit, inactive, reader, writer}
use less.Channel.Closing.{Life, new_life, Reach, not_closed}
use less.Channel.Closing.Lifetime.{Reach-Inv, new-Inv, not_open}

abbrev pub server_side : ℕ
server_side = 2

abbrev pub client_side : ℕ
client_side = 1

unfoldable pub context : Channel → Context
context ch = ch.ctx

unfoldable pub side : Channel → ℕ
side ch = ch.side

unfoldable pub idle_time : Channel → Option ℕ
idle_time ch = ch.idle

unfoldable pub last_read : Channel → ℕ
last_read ch = ch.last_read

unfoldable pub last_write : Channel → ℕ
last_write ch = ch.last_write

-- `pl` is the channel's pipeline.
module _ (pl : Pipeline Channel) where
  unfoldable pub write : Message → Method Channel (Unit {0})
  write message ch =
      if cal_state writeable_bit ch
      then fire_outbound channel_ops pl message ch
      else (err channel_writer_closed, ch)

  unfoldable pub write_directly : Message → Method Channel (Unit {0})
  write_directly = outbound channel_ops pl

  unfoldable pub trigger_inbound : Message → Method Channel (Unit {0})
  trigger_inbound = fire_inbound channel_ops pl

  unfoldable pub activate : Context → Channel → Option Error × Channel
  activate = fire_on_channel channel_ops pl

-- The pipeline with more hooks and middlewares for this channel only.
unfoldable pub add_on_channel_closed :
    List (OnChannelClosed Channel) → Pipeline Channel → Pipeline Channel
add_on_channel_closed = Hooks.add_on_channel_closed

unfoldable pub add_inbound_middleware :
    List (Middleware Channel) → Pipeline Channel → Pipeline Channel
add_inbound_middleware = add_inbound

unfoldable pub add_outbound_middleware :
    List (Middleware Channel) → Pipeline Channel → Pipeline Channel
add_outbound_middleware = add_outbound

shut : (ch : Channel) → ch.state ≡ inactive → cal_state writeable_bit ch ≡ false
unfolding cal_state
shut ch s = rw s refl

write-shut :
    (pl : Pipeline Channel) (message : Message) (ch : Channel)
    → ch.state ≡ inactive
    → write pl message ch ≡ (err channel_writer_closed, ch)
unfolding write
write-shut pl message ch s = rw (shut ch s) refl

shut_sides :
    (ch : Channel)
    → ch.state ≡ inactive
    → (reader ch ≡ err channel_reader_closed) × (writer ch ≡ err channel_writer_closed)
unfolding reader writer cal_state
shut_sides ch s = rw s (refl, refl)

-- Through the life of a new, inactive channel, in any interleaving of its goroutines, once a `Close` was
-- accepted (the phase is no longer the first) `Write` is refused without running any middleware, and
-- neither a reader nor a writer of the connection is handed out.
pub write-refused :
    (pl : Pipeline Channel) (message : Message) (ch : Channel) {l : Life}
    → (ch.state ≡ inactive) × (ch.conn_active ≡ true)
    → Reach (new_life ch) l
    → l.phase ≢ not_closed
    → (write pl message l.ch ≡ (err channel_writer_closed, l.ch))
      × (reader l.ch ≡ err channel_reader_closed)
      × (writer l.ch ≡ err channel_writer_closed)
write-refused pl message ch {l} h r c =
    let s = (Reach-Inv (new-Inv ch h) r).closed_state (not_open l.phase c) in
    let (a, b) = shut_sides l.ch s in (write-shut pl message l.ch s, a, b)
