-- ===== src/Examples/Transports.antt =====
-- The TCP transport at concrete inputs (transport/tcp).
use less.Base.{
  ap, Bytes, append-nil, ℕ, ◌+◌, ◌≡◌, refl, true, false, Bool, List, [], ◌∷◌, none, some, inr, eof,
  custom, ok, err, panic, Method, arith, map, ◌++◌,
}
use less.Io.Source.{source}
use less.Io.Buffer.{BufferReader, new_buffer_reader, buffer_reader}
use less.Io.Writer.{be32}
use less.Codec.{Message}
use less.Codec.Text.{text_codec}
use less.Codec.Packet.{variable_length_decode}
use less.Codec.Packet.RoundTrip.{decode_frame}
use less.Trans.Passing.{ends_with}
use less.Channel.{reader}
use less.Trans.{TransHandler, close_channel, load}
use less.Tcp.Options.{
  default_options, Memory, with_timeout, with_no_delay, new_transport, timeout, no_delay,
  new_transport-ignores,
}
use less.Tcp.Listen.{
  TcpConn, EventDriver, World, Accepted, accepted, apply_options, listen, dial, listen-temporary,
}
use less.Tcp.Driver.{trans_driver}
use less.Tcp.Poll.{
  Round, polls, goes_on, returned, crashed, Transport, close, selected, read_loop, read_loop-ends,
  read_loop-spins,
}
use less.Tcp.Dial.{dial-refused_crashes}
use less.Examples.Servers.{handler, pipeline, accepting, two}

-- A driver that counts the messages.
abbrev counting : EventDriver ℕ ℕ
counting = record {
  on_connect = λ con n. (ok (record { context = some con.number; error = none }), n);
  on_message = λ context s n. (ok tt, n + 1);
}

abbrev con : ℕ → TcpConn
con number = record { number = number; refuses = λ s. none; made = [] }

abbrev world : World ℕ
world = record { driver = 0; loops = []; closed = [] }

-- Accept has failed for a while.
abbrev too_many : Accepted
too_many = record { con = none; error = some (record { temporary = true; error = custom 4 }) }

listen-temporary_example :
    (listen counting default_options none none
      (accepted (con 1) ∷ accepted (con 2) ∷ too_many ∷ accepted (con 3) ∷ [])
      world).0
    ≡ panic
listen-temporary_example =
    listen-temporary counting default_options (λ c d. tt) (con 1 ∷ con 2 ∷ []) too_many
      (record { temporary = true; error = custom 4 }) (accepted (con 3) ∷ []) world refl refl refl

abbrev transport : Transport
transport = record { listening = true; cancelled = false }

-- Readers of a connection on which the frame of `hi` has arrived.
abbrev hi : Bytes
hi = 104 ∷ 105 ∷ []

abbrev frame : List Bytes
frame = ((be32 2 ++ (0 ∷ hi)) ++ []) ∷ []

abbrev framed : BufferReader
framed = new_buffer_reader (source frame)

abbrev decode_text : Method BufferReader Message
decode_text = variable_length_decode buffer_reader text_codec

framed_decodes : ends_with (decode_text framed).0 ≡ true
framed_decodes = ap ends_with (decode_frame hi [] frame (omega arith) (append-nil _)).0

read_loop-ends_example :
    let d = trans_driver buffer_reader decode_text (pipeline accepting) 2 100 true in
    (read_loop d true
      (some 4)
      (map (selected transport) (framed ∷ framed ∷ [])
        ++ map (selected (close transport)) (framed ∷ framed ∷ []))
      (handler 2 two)).0
    ≡ returned
read_loop-ends_example =
    read_loop-ends buffer_reader decode_text (pipeline accepting) 2 100 true transport 4
      (framed ∷ framed ∷ []) (framed ∷ []) framed (handler 2 two) refl
      (framed_decodes, (framed_decodes, tt))

-- A peer that has gone.
abbrev gone : Method BufferReader Message
gone s = (err eof, s)

abbrev nothing : BufferReader
nothing = new_buffer_reader (source [])

abbrev driver : EventDriver TransHandler BufferReader
driver = trans_driver buffer_reader gone (pipeline accepting) 2 100 true

read_loop-spins_example :
    read_loop driver true
      (some 4)
      (polls nothing ∷ polls nothing ∷ polls nothing ∷ [])
      (handler 2 two)
    ≡ (goes_on, close_channel 4 (some eof) (handler 2 two))
unfolding load reader
read_loop-spins_example =
    read_loop-spins buffer_reader gone (pipeline accepting) 2 100 true 4 nothing nothing eof
      (handler 2 two) true refl refl refl refl (nothing ∷ nothing ∷ [])

abbrev dialling : World TransHandler
dialling = record { driver = handler 1 two; loops = []; closed = [] }

abbrev configured : TcpConn
configured = (apply_options default_options (con 9)).1

is_configured : apply_options default_options (con 9) ≡ (none, configured)
unfolding apply_options
is_configured = refl

dial-refused_crashes_example :
    let r = dial driver default_options none (λ t. inr (con 9)) (inr (con 9)) dialling in
    (r.0 ≡ ok tt)
    × (r.1.closed ≡ configured.number ∷ [])
    × (r.1.loops ≡ none ∷ [])
    × ((listening : Bool) (s : BufferReader) (rest : List (Round BufferReader))
        → (read_loop driver listening none (polls s ∷ rest) r.1.driver).0 ≡ crashed)
unfolding default_options
dial-refused_crashes_example =
    dial-refused_crashes buffer_reader gone (pipeline accepting) 2 100 true default_options (con 9)
      configured (λ t. inr (con 9)) (inr (con 9)) dialling refl is_configured refl (omega arith)
      (omega arith)

abbrev memory : Memory
memory = record { cell = λ k. default_options; fresh = 1 }

new_transport-ignores_example :
    let r =
      new_transport 0
        ((λ ops. with_timeout ops 7) ∷ (λ ops. with_no_delay ops false) ∷ [])
        memory in
    r.1.cell r.0 ≡ default_options
new_transport-ignores_example =
    new_transport-ignores 0 ((λ ops. with_timeout ops 7) ∷ (λ ops. with_no_delay ops false) ∷ [])
      memory (omega arith) (timeout 7, (no_delay false, tt))
