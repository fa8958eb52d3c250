-- ===== src/Io/Buffer/Api.antt =====
-- The buffered reader (pkg/io/reader/buffer.go) as an implementation of pkg/io.Reader.
use less.Base.{ℕ, ◌+◌, ◌≤◌, ◌≡◌, ap, arith, take, length-take, drop_all, ◌++◌}
use less.Io.Source.{pending}
use less.Io.Reader.{Stream}
use less.Io.Buffer.{BufferReader, buffer_reader}
use less.Io.Buffer.Unread.{unread}
use less.Io.Buffer.Stream.{IsReady, peek-IsReady, next-IsReady, skip-IsReady}
use less.Io.Buffer.Read.{read-IsReady}

abbrev pub buffer_stream : Stream buffer_reader
unfolding buffer_reader
buffer_stream = record {
  view = unread;
  IsReady = IsReady;
  enough = λ k r h. h.enough;
  peek_law = λ k n r h le.
      let (r2, e, same, ready, _, _) = peek-IsReady k n r h le in (r2, e, same, ready);
  next_law = λ k n r h le. let (r2, e, t) = next-IsReady k n r h le in (r2, e, t.rest, t.ready);
  skip_law = λ k n r h le. let (r2, e, t) = skip-IsReady k n r h le in (r2, e, t.rest, t.ready);
  read_law =
      λ k n r h le. let (g, r2, e, t) = read-IsReady k n r h le in (g, r2, e, t.front, t.ready);
}

-- A reader that is ready for `k` bytes, up to the position `top`, and has asked for no more of the
-- connection.
pub record IsExact (top k : ℕ) (r : BufferReader) : Type 0 where
  pub ready : IsReady k r
  pub ahead : r.write_index ≤ r.read_index + k
  pub place : r.read_index + k ≤ top

abbrev pub exact_stream : ℕ → Stream buffer_reader
unfolding buffer_reader
exact_stream top = record {
  view = unread;
  IsReady = IsExact top;
  enough = λ k r h. h.ready.enough;
  peek_law = λ k n r h le.
      let (r2, e, same, ready, ahead, at) = peek-IsReady k n r h.ready le in
      (
        r2,
        e,
        same,
        record { ready = ready; ahead = ahead h.ahead; place = omega (arith, h.place, at) },
      );
  next_law = λ k n r h le.
      let (r2, e, t) = next-IsReady k n r h.ready le in
      (
        r2,
        e,
        t.rest,
        record { ready = t.ready; ahead = t.ahead h.ahead; place = omega (arith, h.place, t.at) },
      );
  skip_law = λ k n r h le.
      let (r2, e, t) = skip-IsReady k n r h.ready le in
      (
        r2,
        e,
        t.rest,
        record { ready = t.ready; ahead = t.ahead h.ahead; place = omega (arith, h.place, t.at) },
      );
  read_law = λ k n r h le.
      let (g, r2, e, t) = read-IsReady k n r h.ready le in
      (
        g,
        r2,
        e,
        t.front,
        record {
          ready = t.ready;
          ahead = t.ahead h.ahead;
          place = omega (arith, h.place, t.at, t.front.small);
        },
      );
}

-- Once it is ready for nothing more, it holds nothing: what is unread is what the connection delivers.
pub exact-pending : (top : ℕ) (r : BufferReader) → IsExact top 0 r → unread r ≡ pending r.decorator
exact-pending top r h =
    ap (λ t. t ++ pending r.decorator)
      (drop_all r.read_index (take r.write_index r.mem)
        (omega (arith, h.ahead, length-take {0} r.write_index r.mem)))
