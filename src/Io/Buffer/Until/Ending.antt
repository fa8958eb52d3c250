-- ===== src/Io/Buffer/Until/Ending.antt =====
-- Until of the buffered reader (pkg/io/reader/buffer.go) at the end of the connection.
use less.Base.{
  ℕ, zero, suc, ◌+◌, ◌-◌, ◌≤◌, ◌<◌, ◌≡◌, refl, ap, ◌∙◌, false, [], ◌∷◌, Bytes, Error, some, ok, err,
  arith, leb, gt→leb, length, take, drop, length-append, overwrite_at,
}
use less.Io.Source.{Got, pending, read_full, read_full-short}
use less.Io.Buffer.{BufferReader, next, peek, ensure_readable, fill, fill_own, received, sliced}
use less.Io.Buffer.Unread.{unread, want_of, slice-ok, length-buffered, buffered}
use less.Io.Buffer.Until.{IsLive, Free, prepared, next-Stepped, until, until_from, looked}

received-fails :
    (want : ℕ) (g : Got) (e : Error) (r : BufferReader)
    → g.error ≡ some e
    → received want g r ≡ (err e, r)
unfolding received
received-fails want g e r fails = rw fails refl

-- `fill` fails when the connection has fewer bytes than are wanted.
fill-short :
    (want : ℕ) (r : BufferReader)
    → r.write_index + want ≤ length r.mem
    → length (pending r.decorator) < want
    → (k : ℕ) → (e : Error) × (r2 : BufferReader) × (fill false k want r ≡ (err e, r2))
unfolding fill sliced fill_own
fill-short want r room short k =
    let (e, fails) = read_full-short want r.decorator short in
    let inside = slice-ok r.mem r.write_index (r.write_index + want) (omega arith) room in
    let g = read_full want r.decorator in
    let r2 = record r { decorator = g.1; mem = overwrite_at r.write_index r.mem g.0.got } in
    (e, r2, rw inside (rw (received-fails want g.0 e r2 fails) refl))

-- At the end of the connection `Next(1)` fails.
next-empty :
    (r : BufferReader)
    → IsLive r
    → unread r ≡ []
    → (e : Error) × (r2 : BufferReader) × (next 1 r ≡ (err e, r2))
unfolding next peek ensure_readable
next-empty r l none_left =
    let all = length-append {0} (buffered r) (pending r.decorator) in
    let stored = length-buffered r l.is_valid in
    let size = ap length none_left in
    let (r', p, _) = prepared r l in
    let m = p.roomed in
    let same = ap (λ s. length (pending s)) m.decorator in
    let more : leb 1 (r.write_index - r.read_index) ≡ false = gt→leb _ _ (omega arith) in
    let (e, r2, f) =
      fill-short (want_of 1 r) r' (omega (arith, m.within, m.room, m.write_same)) (omega arith)
        (r.write_index - r.read_index) in
    (e, r2, rw (more, p.allowed, p.made) (rw f refl))

from_empty :
    (delim : ℕ) (line : Bytes) (rounds start cnt : ℕ) (r : BufferReader)
    → IsLive r
    → Free delim line
    → unread r ≡ line
    → length line < rounds
    → (e : Error) × ((until_from rounds delim start cnt r).0 ≡ err e)
unfolding until_from looked
from_empty delim line zero start cnt r l free is many = absurd (omega arith)
from_empty delim [] (suc rounds) start cnt r l free is many =
    let (e, r2, f) = next-empty r l is in (e, rw f refl)
from_empty delim (b ∷ line) (suc rounds) start cnt r l (other, free) is many =
    let (r2, f, s) = next-Stepped r l (omega (arith, ap length is)) in
    let (e, g) =
      from_empty delim line rounds start (suc cnt) r2 s.live free (s.rest ∙ ap (drop 1) is)
        (omega arith) in
    (e, rw (f ∙ ap (λ t. (ok (take 1 t), r2)) is) (rw other g))

-- A line that the connection ends before `delim` is refused with an error.
pub until-no_line :
    (delim : ℕ) (r : BufferReader)
    → IsLive r
    → Free delim (unread r)
    → (e : Error) × ((until delim r).0 ≡ err e)
unfolding until
until-no_line delim r l free =
    from_empty delim (unread r) (suc (length r.mem + length (pending r.decorator))) r.read_index 1 r
      l free refl
      (omega (
        arith,
        length-append {0} (buffered r) (pending r.decorator),
        length-buffered r l.is_valid,
        l.inside,
        l.is_valid.within,
      ))
