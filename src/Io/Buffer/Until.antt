-- ===== src/Io/Buffer/Until.antt =====
-- Until of the buffered reader (pkg/io/reader/buffer.go), which reads up to a byte, one byte after the
-- other; the interface pkg/io.Reader does not have it.
pub mod Ending
use less.Base.{
  ℕ, zero, suc, ◌+◌, ◌-◌, ◌≤◌, ◌<◌, ◌≡◌, refl, sym, ap, ◌∙◌, ◌⊎◌, inl, inr, Bool, true, false, [],
  ◌∷◌, ◌++◌, Bytes, Outcome, Error, ok, err, panic, hang, Method, arith, leb, leb→le, leb→gt,
  gt→leb, ◌==◌, ==_iff, if◌then◌else◌, Bool-cases, length, take, drop, overwrite_at, length-take,
  length-append, take-take, take-drop, take-append-drop, append-nil, drop-append_le, drop_all,
  append_assoc,
}
use less.Io.Source.{pending, read_full, read_full-short}
use less.Io.Buffer.{
  BufferReader, next, advance, sliced, peek, ensure_readable, fill, fill_own, received,
}
use less.Io.Buffer.Unread.{
  unread, IsValid, Ready, Ready-window, IsPrepared, want_of, slice-ok, fits-IsPrepared,
  length-buffered, buffered,
}
use less.Io.Buffer.Stream.{peek-Peeked, Ready-moved-unread, Ready-moved-IsValid}
use less.Io.Buffer.Growth.{full-IsPrepared}

-- A round, behind `Next(1)`: the loop ends at an error and at `delim`. `cnt` is the number of bytes
-- from `start` on.
pub looked :
    ℕ
    → (start cnt : ℕ) → Outcome Bytes × BufferReader
    → Method BufferReader Bytes
    → Outcome Bytes × BufferReader
unfolding sliced
looked delim start cnt (ok [], r) go_on = (panic, r)
looked delim start cnt (ok (b ∷ bs), r) go_on =
    let later = go_on r in if b == delim then sliced start (start + cnt) r else later
looked delim start cnt (err e, r) go_on = (err e, r)
looked delim start cnt (panic, r) go_on = (panic, r)
looked delim start cnt (hang, r) go_on = (hang, r)

pub until_from : (rounds delim start cnt : ℕ) → Method BufferReader Bytes
unfolding looked
until_from zero delim start cnt r = (hang, r)
until_from (suc rounds) delim start cnt r =
    looked delim start cnt (next 1 r) (until_from rounds delim start (suc cnt))

-- Each round takes a byte off, so the bytes that there are bound the rounds.
pub until : ℕ → Method BufferReader Bytes
unfolding until_from
until delim r =
    until_from (suc (length r.mem + length (pending r.decorator))) delim r.read_index 1 r

-- A reader that may grow, and whose write index is inside its buffer.
pub record IsLive (r : BufferReader) : Type 0 where
  pub is_valid : IsValid r
  pub growable : r.growable ≡ true
  pub some_room : 0 < r.len
  pub inside : r.write_index ≤ r.len

abbrev pub handed : BufferReader → Bytes
handed r = take r.read_index r.mem

pub record Stepped (r r2 : BufferReader) : Type 0 where
  pub rest : unread r2 ≡ drop 1 (unread r)
  pub live : IsLive r2
  pub at : r2.read_index ≡ r.read_index + 1
  pub front : handed r2 ≡ handed r ++ take 1 (unread r)

module _ (r : BufferReader) (l : IsLive r) where
  -- There is room for one byte, or the buffer is full and grows.
  pub prepared : (r' : BufferReader) × IsPrepared (want_of 1 r) r r' × (0 < r'.len)
  prepared = elim (Bool-cases (leb (r.read_index + 1) r.len)) [
    | inl fits ↦ (
      r,
      fits-IsPrepared (want_of 1 r) r l.is_valid
          (omega (arith, l.inside, leb→le _ _ fits, l.is_valid.ordered)),
      l.some_room,
    )
    | inr beyond ↦
        let over = leb→gt _ _ beyond in
        let (r', p, size) =
          full-IsPrepared r 1 l.is_valid l.growable l.inside l.some_room over
            (omega (arith, l.inside, l.is_valid.ordered)) in
        (r', p, omega arith)
  ]

module _ (r : BufferReader) (l : IsLive r) (enough : 1 ≤ length (unread r)) where
  -- What was handed out, and the byte that is handed out now.
  Ready-front :
      {r2 : BufferReader}
      → Ready 1 r r2
      → take (r2.read_index + 1) r2.mem ≡ handed r ++ take 1 (unread r)
  Ready-front {r2} y =
      let lo = r2.read_index in
      let upto = take (lo + 1) r2.mem in
      let before : take lo upto ≡ handed r =
        take-take lo (lo + 1) r2.mem (omega arith)
        ∙ ap (λ i. take i r2.mem) y.read_same
        ∙ y.front in
      let at : drop lo upto ≡ take 1 (unread r) =
        sym (take-drop lo 1 (lo + 1) r2.mem refl) ∙ Ready-window 1 r l.is_valid y enough in
      sym (take-append-drop lo upto)
      ∙ ap (λ t. t ++ drop lo upto) before
      ∙ ap (λ t. handed r ++ t) at

  pub next-Stepped : (r2 : BufferReader) × (next 1 r ≡ (ok (take 1 (unread r)), r2)) × Stepped r r2
  unfolding next advance
  next-Stepped =
      let (r', p, size') = prepared r l in
      let (r2, y, size) = peek-Peeked 1 r l.is_valid r' (omega arith) enough p in
      (
        record r2 { read_index = r2.read_index + 1 },
        rw y.result,
        record {
          rest = Ready-moved-unread 1 r y.ready;
          live = record {
            is_valid = Ready-moved-IsValid 1 r y.ready;
            growable = y.ready.growable ∙ l.growable;
            some_room = omega (arith, size', size, l.some_room);
            inside = y.ready.stored;
          };
          at = omega (arith, y.ready.read_same);
          front = Ready-front y.ready;
        },
      )

-- The bytes without `delim`.
abbrev pub Free : ℕ → Bytes → Type 0
Free delim [] = Unit
Free delim (b ∷ bs) = ((b == delim) ≡ false) × Free delim bs

-- The bytes handed out from `start` on.
abbrev window : ℕ → BufferReader → Bytes
window start r = drop start (handed r)

length-handed : (r : BufferReader) → IsLive r → length (handed r) ≡ r.read_index
length-handed r l =
    omega
      (arith, length-take {0} r.read_index r.mem, l.is_valid.ordered, l.inside, l.is_valid.within)

Stepped-window :
    (start : ℕ) (r r2 : BufferReader)
    → IsLive r
    → start ≤ r.read_index
    → Stepped r r2
    → window start r2 ≡ window start r ++ take 1 (unread r)
Stepped-window start r r2 l h s =
    ap (λ t. drop start t) s.front
    ∙ drop-append_le start (handed r) (take 1 (unread r)) (omega (arith, length-handed r l))

module _ (delim : ℕ) (rest : Bytes) where
  -- Behind the bytes `seen` from `start` on, `until` has still to read `line` and `delim`.
  from_line :
      (line : Bytes) (rounds start cnt : ℕ) (r : BufferReader)
      → IsLive r
      → Free delim line
      → unread r ≡ line ++ (delim ∷ rest)
      → length line < rounds
      → start + cnt ≡ r.read_index + 1
      → start ≤ r.read_index
      → (r2 : BufferReader) × (until_from rounds delim start cnt r
          ≡ (ok (window start r ++ (line ++ (delim ∷ []))), r2))
        × (unread r2 ≡ rest)
        × IsLive r2
  unfolding until_from looked sliced
  from_line line zero start cnt r l free is many at from = absurd (omega arith)
  from_line [] (suc rounds) start cnt r l free is many at from =
      let (r2, e, s) = next-Stepped r l (omega (arith, ap length is)) in
      let here : (delim == delim) ≡ true = (==_iff _ _).1 refl in
      let bytes : take (start + cnt - start) (drop start r2.mem) ≡ window start r ++ (delim ∷ []) =
        take-drop start (start + cnt - start) r2.read_index r2.mem (omega (arith, s.at))
        ∙ Stepped-window start r r2 l from s
        ∙ ap (λ t. window start r ++ take 1 t) is in
      (
        r2,
        rw (e ∙ ap (λ t. (ok (take 1 t), r2)) is) (
            rw here (
              ap (λ o. (o, r2))
                (slice-ok r2.mem start (start + cnt) (omega arith) (
                    omega
                      (arith, s.at, s.live.is_valid.ordered, s.live.inside, s.live.is_valid.within))
                  ∙ ap ok bytes))),
        s.rest ∙ ap (drop 1) is,
        s.live,
      )
  from_line (b ∷ line) (suc rounds) start cnt r l (other, free) is many at from =
      let (r2, e, s) = next-Stepped r l (omega (arith, ap length is)) in
      let (r3, f, left, live) =
        from_line line rounds start (suc cnt) r2 s.live free (s.rest ∙ ap (drop 1) is) (omega arith)
          (omega (arith, s.at)) (omega (arith, s.at)) in
      (
        r3,
        rw (e ∙ ap (λ t. (ok (take 1 t), r2)) is) (
            rw other (
              f
              ∙ ap (λ t. (ok (t ++ (line ++ (delim ∷ []))), r3))
                  (Stepped-window start r r2 l from s ∙ ap (λ t. window start r ++ take 1 t) is)
              ∙ ap (λ t. (ok t, r3))
                  (append_assoc (window start r) (b ∷ []) (line ++ (delim ∷ []))))),
        left,
        live,
      )

  -- A reader that may grow, with its write index inside its buffer, whose unread bytes are a line of
  -- any length without `delim`, then `delim` and others: `Until` returns the line with `delim`, leaves
  -- the others unread, and the reader may grow and has its write index inside its buffer again.
  pub until-line :
      (line : Bytes) (r : BufferReader)
      → IsLive r
      → Free delim line
      → unread r ≡ line ++ (delim ∷ rest)
      → (r2 : BufferReader) × (until delim r ≡ (ok (line ++ (delim ∷ [])), r2))
        × (unread r2 ≡ rest)
        × IsLive r2
  unfolding until
  until-line line r l free is =
      let v = l.is_valid in
      let many : length line < suc (length r.mem + length (pending r.decorator)) = omega (
        arith,
        ap length is,
        length-append {0} line (delim ∷ rest),
        length-append {0} (buffered r) (pending r.decorator),
        length-buffered r v,
        l.inside,
        v.within,
      ) in
      let (r2, e, left, live) =
        from_line line _ r.read_index 1 r l free is many refl (omega arith) in
      let none_yet : window r.read_index r ≡ [] =
        drop_all r.read_index (handed r) (omega (arith, length-handed r l)) in
      (r2, e ∙ ap (λ t. (ok (t ++ (line ++ (delim ∷ []))), r2)) none_yet, left, live)
