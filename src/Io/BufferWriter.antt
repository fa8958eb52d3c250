-- ===== src/Io/BufferWriter.antt =====
-- The buffered writer (pkg/io/writer/buffer.go). The constructor fixes `writeDirectly`, so the two
-- modes are two records: `BufferWriter` keeps a buffer, `DirectWriter` passes each call on.
pub mod Holds
pub mod Sending
pub mod Exhausted
use less.Base.{
  ℕ, suc, ◌+◌, ◌-◌, ◌≤◌, Bool, true, false, not, ◌||◌, Option, none, some, Bytes, Error,
  writer_buffer_not_enough, Outcome, ok, err, panic, hang, Method, ◌>>=◌, ◌>>◌, pure, throw, leb,
  ◌==◌, if◌then◌else◌, length, take, drop, replicate, overwrite, overwrite_at, [], ◌&&◌,
}
use less.Io.Buffer.{grown}
use less.Io.Writer.{Sink, sink_write, Region, Writer}

abbrev pub default_buffer_size : ℕ
default_buffer_size = 256

-- `buff` is the part of the array `mem` from `base` on, up to `len`; it reaches to the array's end
-- at most. `array` numbers the arrays that the writer has used.
pub record BufferWriter : Type 0 where
  pub decorator : Option Sink
  pub array : ℕ
  pub mem : Bytes
  pub base : ℕ
  pub len : ℕ
  pub pre_write_index : ℕ
  pub write_index : ℕ
  pub growable : Bool

unfoldable pub new_buffer_writer : Sink → BufferWriter
new_buffer_writer decorator = record {
  decorator = some decorator;
  array = 0;
  mem = replicate default_buffer_size 0;
  base = 0;
  len = default_buffer_size;
  pre_write_index = 0;
  write_index = 0;
  growable = true;
}

unfoldable pub new_buffer_writer_with_buff : Bytes → BufferWriter
new_buffer_writer_with_buff buf = record {
  decorator = none;
  array = 0;
  mem = buf;
  base = 0;
  len = length buf;
  pre_write_index = 0;
  write_index = 0;
  growable = false;
}

abbrev cap : BufferWriter → ℕ
cap w = length w.mem - w.base

-- A new array of the capacity found, with what the buffer held; `none` is the doubling loop that
-- never ends, at capacity 0.
regrow : Option ℕ → BufferWriter → Outcome Bool × BufferWriter
regrow none w = (hang, w)
regrow (some capacity) w = (
  ok true,
  record w {
    array = w.array + 1;
    mem = overwrite (replicate capacity 0) (take w.len (drop w.base w.mem));
    base = 0;
    len = capacity;
  },
)

pub check_writeable : ℕ → Method BufferWriter Bool
check_writeable n w =
    if leb (w.write_index + n) w.len
    then (ok true, w)
    else if not w.growable
    then (ok false, w)
    else if leb n (cap w - w.len)
    then (ok true, record w { len = w.len + n })
    else let min = w.write_index + n in regrow (grown (suc min) (cap w) min) w

-- The next `n` bytes of the buffer, and the index moved behind them.
pub reserve : ℕ → Bool → Method BufferWriter Region
reserve n false w = (err writer_buffer_not_enough, w)
reserve n true w =
    if leb (w.write_index + n) (cap w)
    then (
      ok (record {
        array = w.array;
        at = w.base + w.write_index;
        contents = take n (drop (w.base + w.write_index) w.mem);
      }),
      record w { write_index = w.write_index + n },
    )
    else (panic, w)

pub malloc : ℕ → Method BufferWriter Region
malloc n = check_writeable n >>= reserve n

-- A write through a slice reaches the buffer while the slice lies in its array.
pub store : Region → Bytes → BufferWriter → BufferWriter
store r bs w = if r.array == w.array then record w { mem = overwrite_at r.at w.mem bs } else w

-- `copy(w.buff[w.writeIndex:w.writeIndex+need], buf)`.
pub write : Bytes → Method BufferWriter ℕ
write buf = do r ← malloc (length buf); λ w. (ok (length buf), store r buf w)

pub malloc_length : BufferWriter → ℕ
malloc_length w = w.write_index

flushed : BufferWriter → Outcome ℕ × Sink → Outcome (Unit {0}) × BufferWriter
flushed w (ok _, c) =
    if leb w.write_index w.len
    then (
      ok tt,
      record w {
        decorator = some c;
        base = w.base + w.write_index;
        len = w.len - w.write_index;
        pre_write_index = w.write_index;
      },
    )
    else (panic, record w { decorator = some c })
flushed w (err e, c) = (err e, record w { decorator = some c })
flushed w (panic, c) = (panic, record w { decorator = some c })
flushed w (hang, c) = (hang, record w { decorator = some c })

-- `w.buff[w.preWriteIndex:w.writeIndex]`.
unsent : BufferWriter → Bytes
unsent w = take (w.write_index - w.pre_write_index) (drop (w.base + w.pre_write_index) w.mem)

send : Option Sink → Method BufferWriter (Unit {0})
send none w = (panic, w)
send (some c) w =
    if leb w.pre_write_index w.write_index && leb w.write_index (cap w)
    then flushed w (sink_write (unsent w) c)
    else (panic, w)

pub flush : Method BufferWriter (Unit {0})
flush w =
    if not w.growable
    then (ok tt, w)
    else if w.write_index == 0 || w.pre_write_index == w.write_index
    then (ok tt, w)
    else send w.decorator w

-- The connection lives on beside the released writer.
pub release : BufferWriter → BufferWriter
release w = record w { mem = []; base = 0; len = 0; pre_write_index = 0; write_index = 0 }

unfoldable pub buffer_writer : Writer BufferWriter
buffer_writer = record {
  write = write;
  malloc = malloc;
  malloc_length = malloc_length;
  flush = flush;
  release = release;
  store = store;
}

pub record DirectWriter (W : Type 0) : Type 0 where
  pub decorator : W
  pub pre_write_index : ℕ
  pub write_index : ℕ

module _ {W : Type 0} where
  unfoldable pub wrap_buffer_writer : W → DirectWriter W
  wrap_buffer_writer decorator = record {
    decorator = decorator;
    pre_write_index = 0;
    write_index = 0;
  }

  -- A result of the decorator, which moves the index by `n` if it is no error.
  counted : DirectWriter W → Outcome ℕ × W → Outcome ℕ × DirectWriter W
  counted w (ok n, d) = (ok n, record w { decorator = d; write_index = w.write_index + n })
  counted w (err e, d) = (err e, record w { decorator = d })
  counted w (panic, d) = (panic, record w { decorator = d })
  counted w (hang, d) = (hang, record w { decorator = d })

module _ {W : Type 0} (api : Writer W) where
  unfoldable pub direct_write : Bytes → Method (DirectWriter W) ℕ
  unfolding counted
  direct_write buf w = counted w (api.write buf w.decorator)

  -- The index moves before the decorator is asked.
  unfoldable pub direct_malloc : ℕ → Method (DirectWriter W) Region
  direct_malloc n w =
      let r = api.malloc n w.decorator in
      (r.0, record w { decorator = r.1; write_index = w.write_index + n })

  pub direct_flush : Method (DirectWriter W) (Unit {0})
  direct_flush w =
      let r = api.flush w.decorator in
      (r.0, record w { decorator = r.1; pre_write_index = w.write_index })

  pub direct_release : DirectWriter W → DirectWriter W
  direct_release w = record w { pre_write_index = 0; write_index = 0 }

  unfoldable pub direct_writer : Writer (DirectWriter W)
  direct_writer = record {
    write = direct_write;
    malloc = direct_malloc;
    malloc_length = λ w. w.write_index;
    flush = direct_flush;
    release = direct_release;
    store = λ r bs w. record w { decorator = api.store r bs w.decorator };
  }
