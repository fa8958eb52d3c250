-- ===== src/Io/Writer.antt =====
-- The interface pkg/io.Writer, the connection behind a writer, and the slices that `Malloc` hands
-- out.
use less.Base.{
  ℕ, ◌/◌, ◌%◌, ◌^◌, Bool, Bytes, ok, err, panic, use_of_closed_conn, Method, if◌then◌else◌, [], ◌∷◌,
  ◌++◌, length, ltb,
}

-- What a net.Conn has taken. A closed connection takes nothing more.
pub record Sink : Type 0 where
  pub sent : Bytes
  pub open_ : Bool

abbrev pub sink_write : Bytes → Method Sink ℕ
sink_write bs c =
    if c.open_
    then (ok (length bs), record c { sent = c.sent ++ bs })
    else (err use_of_closed_conn, c)

-- A slice of a buffer: the array that it lies in, its place there, and what it held when it was
-- handed out. A buffer that grows moves to another array, and a slice of the old one no longer
-- reaches it.
pub record Region : Type 0 where
  pub array : ℕ
  pub at : ℕ
  pub contents : Bytes

-- `store r bs` writes `bs` at the front of the slice `r`, which is at least as long.
pub record Writer (W : Type 0) : Type 0 where
  pub write : Bytes → Method W ℕ
  pub malloc : ℕ → Method W Region
  pub malloc_length : W → ℕ
  pub flush : Method W (Unit {0})
  pub release : W → W
  pub store : Region → Bytes → W → W

-- encoding/binary's BigEndian.
abbrev pub be32 : ℕ → Bytes
be32 v = (v / 2 ^ 24 % 256) ∷ (v / 2 ^ 16 % 256) ∷ (v / 2 ^ 8 % 256) ∷ (v % 256) ∷ []

abbrev pub be16 : ℕ → Bytes
be16 v = (v / 2 ^ 8 % 256) ∷ (v % 256) ∷ []

-- `PutUint32(r, v)` and `PutUint16(r, v)` panic on a slice that is too short.
module _ {W : Type 0} (api : Writer W) where
  unfoldable pub put_uint32 : Region → ℕ → Method W (Unit {0})
  put_uint32 r v w =
      if ltb (length r.contents) 4 then (panic, w) else (ok tt, api.store r (be32 v) w)

  unfoldable pub put_uint16 : Region → ℕ → Method W (Unit {0})
  put_uint16 r v w =
      if ltb (length r.contents) 2 then (panic, w) else (ok tt, api.store r (be16 v) w)
