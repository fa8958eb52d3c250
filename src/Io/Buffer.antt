-- ===== src/Io/Buffer.antt =====
-- The buffered reader (pkg/io/reader/buffer.go).
pub mod Unread
pub mod Stream
pub mod Read
pub mod Growth
pub mod Until
pub mod Api
use less.Base.{
  ℕ, zero, suc, ◌+◌, ◌-◌, ◌*◌, ◌&&◌, Bool, true, false, not, Option, none, some, Bytes, Error,
  buffer_not_enough, Outcome, ok, err, panic, hang, Method, ◌>>=◌, ◌>>◌, pure, throw, ltb, leb,
  ◌==◌, if◌then◌else◌, length, take, replicate, overwrite, overwrite_at, ◌++◌, [],
}
use less.Io.Source.{Source, Got, got_ok, read, read_full}
use less.Io.Reader.{Reader, slice}

-- `buff` is the array `mem` up to `len`; its capacity is the length of `mem`.
pub record BufferReader : Type 0 where
  pub decorator : Source
  pub mem : Bytes
  pub len : ℕ
  pub growable : Bool
  pub read_index : ℕ
  pub write_index : ℕ

abbrev pub buffer_size : ℕ
buffer_size = 256

unfoldable pub new_buffer_reader : Source → BufferReader
new_buffer_reader decorator = record {
  decorator = decorator;
  mem = replicate buffer_size 0;
  len = buffer_size;
  growable = true;
  read_index = 0;
  write_index = 0;
}

unfoldable pub new_buffer_reader_with_buf : Source → Bytes → BufferReader
new_buffer_reader_with_buf decorator buf = record {
  decorator = decorator;
  mem = buf;
  len = length buf;
  growable = false;
  read_index = 0;
  write_index = 0;
}

-- `for capacity < min { capacity <<= 1 }`; `none` means that the rounds ran out.
unfoldable pub grown : ℕ → ℕ → ℕ → Option ℕ
grown zero capacity min = none
grown (suc rounds) capacity min =
    let rest = grown rounds (capacity * 2) min in if ltb capacity min then rest else some capacity

-- The reslice at the head of `growth`.
reslice : ℕ → BufferReader → BufferReader
reslice want r = if leb want (length r.mem - r.len) then record r { len = r.len + want } else r

reallocate : Option ℕ → BufferReader → Outcome (Unit {0}) × BufferReader
reallocate none r = (hang, r)
reallocate (some capacity) r =
    (ok tt, record r { mem = overwrite (replicate capacity 0) (take r.len r.mem); len = capacity })

-- From a capacity above 0 the rounds suffice; at capacity 0 the loop of the source never ends.
pub growth : ℕ → Method BufferReader (Unit {0})
unfolding reslice reallocate
growth want r =
    let r' = reslice want r in
    let min = r'.write_index + want in reallocate (grown (suc min) (length r'.mem) min) r'

received : ℕ → Got → BufferReader → Outcome Bytes × BufferReader
received want g r = elim g.error [
  | none ↦ (ok g.got, record r { write_index = r.write_index + want })
  | some e ↦ (err e, r)
]

-- `io.ReadFull(r.decorator, buff[readable:])`, behind the copy of what was buffered.
fill_given : ℕ → Bytes → Method BufferReader Bytes
unfolding received
fill_given want buffered r =
    let (g, decorator) = read_full want r.decorator in
    let (o, r') = received want g (record r { decorator = decorator }) in
    (elim o [ ok bs ↦ ok (buffered ++ bs) | err e ↦ err e | panic ↦ panic | hang ↦ hang ], r')

-- `io.ReadFull(r.decorator, r.buff[r.writeIndex : r.writeIndex+want])`.
fill_own : ℕ → Bytes → Method BufferReader Bytes
unfolding received
fill_own want _ r =
    let (g, decorator) = read_full want r.decorator in
    let mem = overwrite_at r.write_index r.mem g.got in
    let (o, r') = received want g (record r { decorator = decorator; mem = mem }) in
    (elim o [ ok bs ↦ ok [] | err e ↦ err e | panic ↦ panic | hang ↦ hang ], r')

sliced : ℕ → ℕ → Method BufferReader Bytes
sliced lo hi r = (slice r.mem lo hi, r)

-- `given` says whether the caller handed a buffer of `n` bytes over, which then holds the result.
already : Bool → ℕ → Method BufferReader Bytes
unfolding sliced
already true n r = sliced r.read_index (r.read_index + n) r
already false n r = pure [] r

fill : Bool → ℕ → ℕ → Method BufferReader Bytes
unfolding sliced fill_given fill_own
fill true readable want r =
    ((if ltb 0 readable then sliced r.read_index (r.read_index + readable) else pure [])
        >>= fill_given want)
      r
fill false readable want r = (sliced r.write_index (r.write_index + want) >>= fill_own want) r

pub make_room : ℕ → Method BufferReader (Unit {0})
make_room want r =
    if ltb r.len (r.write_index + want) then growth (want + r.write_index - r.len) r else pure tt r

pub ensure_readable : ℕ → Bool → Method BufferReader Bytes
ensure_readable n given r =
    let readable = r.write_index - r.read_index in
    let want = n - readable in
    if leb n readable
    then already given n r
    else if not r.growable && ltb r.len (r.write_index + want)
    then throw buffer_not_enough r
    else (make_room want >> fill given readable want) r

pub peek : ℕ → Method BufferReader Bytes
unfolding sliced
peek n r =
    if n == 0
    then pure [] r
    else (ensure_readable n false >> λ r'. sliced r'.read_index (r'.read_index + n) r') r

advance : ℕ → Method BufferReader (Unit {0})
advance n r = (ok tt, record r { read_index = r.read_index + n })

pub next : ℕ → Method BufferReader Bytes
next n = do buf ← peek n; advance n; pure buf

pub skip : ℕ → Method BufferReader (Unit {0})
skip n = do buf ← peek n; advance n

-- `Read`: with nothing buffered the bytes go from the connection to the caller.
pub direct : ℕ → Method BufferReader Got
direct n r =
    let (g, decorator) = read n r.decorator in
    let r' = record r { decorator = decorator } in
    elim g.error [
      | none ↦ (
        ok g,
        record r' {
          read_index = r.read_index + length g.got;
          write_index = r.write_index + length g.got;
        },
      )
      | some e ↦ (ok g, r')
    ]

-- An error comes with no bytes here.
pub as_got : Outcome Bytes × BufferReader → Outcome Got × BufferReader
as_got (ok bs, r) = (ok (got_ok bs), r)
as_got (err e, r) = (ok (record { got = []; error = some e }), r)
as_got (panic, r) = (panic, r)
as_got (hang, r) = (hang, r)

pub read_buffered : ℕ → Method BufferReader Got
read_buffered n r =
    if r.read_index == r.write_index
    then direct n r
    else as_got ((do bs ← ensure_readable n true; advance n; pure bs) r)

unfoldable pub length_of : BufferReader → ℕ
length_of r = r.write_index

-- The connection itself lives on; a released reader has no buffer and is at its start.
pub release : Method BufferReader (Unit {0})
release r = (ok tt, record r { mem = []; len = 0; read_index = 0; write_index = 0 })

unfoldable pub buffer_reader : Reader BufferReader
buffer_reader = record {
  read = read_buffered;
  next = next;
  peek = peek;
  skip = skip;
  length_of = length_of;
  release = release;
}
