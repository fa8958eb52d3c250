-- ===== src/Channel/Flags.antt =====
-- The state bits of a channel (internal/channel/channel.go).
use less.Base.{ℕ, zero, suc, ◌≤◌, ◌≡◌, refl, true, false, ok, err, channel_writer_closed, arith}
use less.Channel.{
  Channel, active, is_active, readable, writeable, close_reader, close_writer, writer,
}

-- The states of the source: no other bit is ever set.
abbrev pub IsState : Channel → Type 0
IsState ch = ch.state ≤ 3

-- A statement about the four states.
pub each_state : (P : ℕ → Type 0) → P 0 → P 1 → P 2 → P 3 → (s : ℕ) → s ≤ 3 → P s
each_state P a b c d zero h = a
each_state P a b c d (suc zero) h = b
each_state P a b c d (suc (suc zero)) h = c
each_state P a b c d (suc (suc (suc zero))) h = d
each_state P a b c d (suc (suc (suc (suc n)))) h = absurd (omega arith)

-- On a channel in one of the four states, `CloseReader` and `CloseWriter` each close their own side
-- and leave the other as it is, do nothing more the second time, and commute; once both are closed
-- the channel is inactive.
pub close_sides :
    (ch : Channel)
    → IsState ch
    → (readable (close_reader ch) ≡ false)
      × (writeable (close_reader ch) ≡ writeable ch)
      × (writeable (close_writer ch) ≡ false)
      × (readable (close_writer ch) ≡ readable ch)
      × (close_reader (close_reader ch) ≡ close_reader ch)
      × (close_writer (close_writer ch) ≡ close_writer ch)
      × (close_writer (close_reader ch) ≡ close_reader (close_writer ch))
      × (is_active (close_writer (close_reader ch)) ≡ false)
unfolding readable writeable is_active close_reader close_writer
close_sides ch h =
    each_state
      (λ s.
        let ch' = record ch { state = s } in
        (readable (close_reader ch') ≡ false)
        × (writeable (close_reader ch') ≡ writeable ch')
        × (writeable (close_writer ch') ≡ false)
        × (readable (close_writer ch') ≡ readable ch')
        × (close_reader (close_reader ch') ≡ close_reader ch')
        × (close_writer (close_writer ch') ≡ close_writer ch')
        × (close_writer (close_reader ch') ≡ close_reader (close_writer ch'))
        × (is_active (close_writer (close_reader ch')) ≡ false))
      (refl, refl, refl, refl, refl, refl, refl, refl)
      (refl, refl, refl, refl, refl, refl, refl, refl)
      (refl, refl, refl, refl, refl, refl, refl, refl)
      (refl, refl, refl, refl, refl, refl, refl, refl) ch.state h

-- `Writer` looks at the reader's bit: on an active channel it refuses the writer once the reader is
-- closed, although the channel is writeable, and hands it out when only the writer is closed.
pub writer-follows_reader :
    (ch : Channel)
    → (writeable (close_reader (active ch)) ≡ true)
      × (writer (close_reader (active ch)) ≡ err channel_writer_closed)
      × (writeable (close_writer (active ch)) ≡ false)
      × (writer (close_writer (active ch)) ≡ ok tt)
unfolding active close_reader close_writer writeable writer
writer-follows_reader ch = (refl, refl, refl, refl)
