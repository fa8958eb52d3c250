-- ===== src/Io/Buffer/Unread.antt =====
-- The buffered reader (pkg/io/reader/buffer.go) as a stream: what is unread, and what each call
-- does to it.
use less.Base.{
  ℕ, ◌+◌, ◌-◌, ◌≤◌, ◌<◌, ◌≡◌, refl, sym, ap, ◌∙◌, ◌⊎◌, inl, inr, ◌&&◌, true, false, not, [], ◌++◌,
  Bytes, ok, arith, ltb, leb, leb→le, leb→gt, ge→ltb, le→leb, Bool-cases, length, take, drop,
  overwrite_at, take-drop, take-take, take-overwrite_at, length-take, length-drop,
  length-overwrite_at, length-append, take-append_le, drop-append_le, take-append-drop,
  append_assoc,
}
use less.Io.Source.{pending, read_full, read_full-got, read_full-error, read_full-pending}
use less.Io.Reader.{slice}
use less.Io.Buffer.{BufferReader, make_room, fill, received, ensure_readable, already}

abbrev pub buffered : BufferReader → Bytes
buffered r = drop r.read_index (take r.write_index r.mem)

-- The bytes that the next calls return, in order: those in the buffer, then the connection's.
abbrev pub unread : BufferReader → Bytes
unread r = buffered r ++ pending r.decorator

pub record IsValid (r : BufferReader) : Type 0 where
  pub ordered : r.read_index ≤ r.write_index
  pub within : r.len ≤ length r.mem
  pub tight : r.growable ≡ true → r.len ≡ length r.mem
  pub kept : (r.write_index ≤ r.len) ⊎ (r.read_index ≡ r.write_index)

-- What `make_room want` has done when it returns.
pub record Roomed (want : ℕ) (r r' : BufferReader) : Type 0 where
  pub decorator : r'.decorator ≡ r.decorator
  pub read_same : r'.read_index ≡ r.read_index
  pub write_same : r'.write_index ≡ r.write_index
  pub growable : r'.growable ≡ r.growable
  pub within : r'.len ≤ length r'.mem
  pub tight : r'.growable ≡ true → r'.len ≡ length r'.mem
  pub room : r.write_index + want ≤ r'.len
  pub bytes : buffered r' ≡ buffered r
  pub front : take r.read_index r'.mem ≡ take r.read_index r.mem

pub slice-ok :
    (mem : Bytes) (lo hi : ℕ)
    → lo ≤ hi
    → hi ≤ length mem
    → slice mem lo hi ≡ ok (take (hi - lo) (drop lo mem))
slice-ok mem lo hi a b = rw (le→leb lo hi a, le→leb hi (length mem) b)

-- What a request for `n` bytes still wants from the connection.
abbrev pub want_of : ℕ → BufferReader → ℕ
want_of n r = n - (r.write_index - r.read_index)

-- `want` more bytes fit, at once or once the buffer has grown to `r'`.
pub record IsPrepared (want : ℕ) (r r' : BufferReader) : Type 0 where
  pub allowed : (not r.growable && ltb r.len (r.write_index + want)) ≡ false
  pub made : make_room want r ≡ (ok tt, r')
  pub roomed : Roomed want r r'

pub Roomed-IsValid : (want : ℕ) (r r' : BufferReader) → IsValid r → Roomed want r r' → IsValid r'
Roomed-IsValid want r r' v m = record {
  ordered = omega (arith, v.ordered, m.read_same, m.write_same);
  within = m.within;
  tight = m.tight;
  kept = inl (omega (arith, m.room, m.write_same));
}

-- A request that the buffer has room for leaves it alone.
pub fits-IsPrepared :
    (want : ℕ) (r : BufferReader) → IsValid r → r.write_index + want ≤ r.len → IsPrepared want r r
unfolding make_room
fits-IsPrepared want r v h = record {
  allowed = ground arith;
  made = rw (ge→ltb _ _ h);
  roomed = record {
    decorator = refl;
    read_same = refl;
    write_same = refl;
    growable = refl;
    within = v.within;
    tight = v.tight;
    room = h;
    bytes = refl;
    front = refl;
  };
}

-- The reader that `fill false` leaves.
filled : ℕ → BufferReader → BufferReader
filled want r = record r {
  decorator = (read_full want r.decorator).1;
  mem = overwrite_at r.write_index r.mem (read_full want r.decorator).0.got;
  write_index = r.write_index + want;
}

module _ (want : ℕ) (r : BufferReader) (v : IsValid r) (room : r.write_index + want ≤ r.len)
    (enough : want ≤ length (pending r.decorator)) where
  fill-filled : (k : ℕ) → fill false k want r ≡ (ok [], filled want r)
  unfolding fill filled
  fill-filled k = rw (
    slice-ok r.mem r.write_index (r.write_index + want) (omega arith) (omega (arith, v.within)),
    read_full-error want r.decorator enough,
    received,
  )

  -- The unread bytes of the buffer are followed by those just read.
  filled-buffered : buffered (filled want r) ≡ buffered r ++ take want (pending r.decorator)
  unfolding filled
  filled-buffered =
      let got = read_full-got want r.decorator enough in
      let size : length (read_full want r.decorator).0.got ≡ want =
        ap length got ∙ omega (arith, length-take {0} want (pending r.decorator)) in
      let w = r.write_index in
      let wide : length (take w r.mem) ≡ w = omega (arith, length-take {0} w r.mem, v.within) in
      rw
        (take-overwrite_at w (w + want) r.mem (read_full want r.decorator).0.got
          (omega (arith, size)) (omega (arith, v.within)))
        (drop-append_le r.read_index (take w r.mem) _ (omega (arith, wide, v.ordered))
          ∙ ap (λ t. buffered r ++ t) got)

  filled-front : take r.read_index (filled want r).mem ≡ take r.read_index r.mem
  unfolding filled
  filled-front =
      let got = (read_full want r.decorator).0.got in
      let size : length got ≡ want =
        ap length (read_full-got want r.decorator enough)
        ∙ omega (arith, length-take {0} want (pending r.decorator)) in
      let w = r.write_index in
      let wide : length (take w r.mem) ≡ w = omega (arith, length-take {0} w r.mem, v.within) in
      sym (take-take r.read_index (w + want) (overwrite_at w r.mem got) (omega (arith, v.ordered)))
      ∙ ap (take r.read_index)
          (take-overwrite_at w (w + want) r.mem got (omega (arith, size)) (omega (arith, v.within)))
      ∙ take-append_le r.read_index (take w r.mem) got (omega (arith, wide, v.ordered))
      ∙ take-take r.read_index w r.mem v.ordered

  filled-unread : unread (filled want r) ≡ unread r
  unfolding filled
  filled-unread =
      ap (λ t. t ++ pending (filled want r).decorator) filled-buffered
      ∙ append_assoc (buffered r) (take want (pending r.decorator)) _
      ∙ ap (λ t. buffered r ++ t)
          (ap (λ t. take want (pending r.decorator) ++ t)
              (read_full-pending want r.decorator enough)
            ∙ take-append-drop want (pending r.decorator))

  filled-IsValid : IsValid (filled want r)
  unfolding filled
  filled-IsValid = record {
    ordered = omega (arith, v.ordered);
    within = rw (length-overwrite_at r.write_index r.mem _) v.within;
    tight = λ g. rw (length-overwrite_at r.write_index r.mem _) (v.tight g);
    kept = inl room;
  }

pub length-buffered :
    (r : BufferReader) → IsValid r → length (buffered r) ≡ r.write_index - r.read_index
length-buffered r v = elim v.kept [
  | inl h ↦ omega (
    arith,
    v.within,
    length-drop {0} r.read_index (take r.write_index r.mem),
    length-take {0} r.write_index r.mem,
  )
  | inr e ↦ omega (
    arith,
    length-drop {0} r.read_index (take r.write_index r.mem),
    length-take {0} r.write_index r.mem,
  )
]

-- What holds of the reader `r'` that has made sure of `n` readable bytes of `r`.
pub record Ready (n : ℕ) (r r' : BufferReader) : Type 0 where
  pub is_valid : IsValid r'
  pub same : unread r' ≡ unread r
  pub read_same : r'.read_index ≡ r.read_index
  pub readable : r'.read_index + n ≤ r'.write_index
  pub stored : r'.write_index ≤ r'.len
  -- No more was asked of the connection than `n` bytes take.
  pub pulled :
      (k : ℕ) → n ≤ k → r.write_index ≤ r.read_index + k → r'.write_index ≤ r.read_index + k
  -- What was handed out before still stands in the buffer.
  pub front : take r.read_index r'.mem ≡ take r.read_index r.mem
  pub growable : r'.growable ≡ r.growable

module _ (n : ℕ) (r : BufferReader) (v : IsValid r) where
  -- The next bytes stand at the read index.
  pub Ready-window :
      {r' : BufferReader}
      → Ready n r r'
      → n ≤ length (unread r)
      → take n (drop r'.read_index r'.mem) ≡ take n (unread r)
  Ready-window {r'} y enough =
      let lo = r'.read_index in
      take-drop lo n (lo + n) r'.mem refl
      ∙ ap (λ t. drop lo t) (sym (take-take (lo + n) r'.write_index r'.mem y.readable))
      ∙ sym (take-drop lo n (lo + n) (take r'.write_index r'.mem) refl)
      ∙ sym (
          take-append_le n (buffered r') (pending r'.decorator)
            (omega (arith, length-buffered r' y.is_valid, y.readable)))
      ∙ ap (λ t. take n t) y.same

  -- The window that `peek` returns.
  pub Ready-slice :
      {r' : BufferReader}
      → Ready n r r'
      → n ≤ length (unread r)
      → slice r'.mem r'.read_index (r'.read_index + n) ≡ ok (take n (unread r))
  Ready-slice {r'} y enough =
      let lo = r'.read_index in
      let e : lo + n - lo ≡ n = omega arith in
      slice-ok r'.mem lo (lo + n) (omega arith)
        (omega (arith, y.readable, y.stored, y.is_valid.within))
      ∙ ap ok (ap (λ t. take t (drop lo r'.mem)) e ∙ Ready-window y enough)

  pub prepared-Ready :
      (r' : BufferReader)
      → 0 < n
      → n ≤ length (unread r)
      → IsPrepared (want_of n r) r r'
      → (r2 : BufferReader) × (ensure_readable n false r ≡ (ok [], r2))
        × Ready n r r2
        × ((r2.len ≡ r.len) ⊎ (r2.len ≡ r'.len))
  unfolding ensure_readable already
  prepared-Ready r' pos enough p = elim (Bool-cases (leb n (r.write_index - r.read_index))) [
    | inl have ↦ (
      r,
      rw have,
      record {
        is_valid = v;
        same = refl;
        read_same = refl;
        readable = omega (arith, leb→le _ _ have, v.ordered);
        stored = elim v.kept [ inl h ↦ h | inr e ↦ absurd (omega (arith, leb→le _ _ have)) ];
        pulled = λ k le ahead. ahead;
        front = refl;
        growable = refl;
      },
      inl refl,
    )
    | inr more ↦
        let v' = Roomed-IsValid (want_of n r) r r' v p.roomed in
        let m = p.roomed in
        let room : r'.write_index + want_of n r ≤ r'.len = omega (arith, m.room, m.write_same) in
        let e : unread r' ≡ unread r =
          ap (λ t. t ++ pending r'.decorator) m.bytes
          ∙ ap (λ s. buffered r ++ pending s) m.decorator in
        let same : length (pending r'.decorator) ≡ length (pending r.decorator) =
          ap (λ s. length (pending s)) m.decorator in
        let enough' : want_of n r ≤ length (pending r'.decorator) = omega (
          arith,
          same,
          length-append {0} (buffered r) (pending r.decorator),
          length-buffered r v,
          leb→gt _ _ more,
        ) in
        (
          filled (want_of n r) r',
          rw (more, p.allowed, p.made) (fill-filled (want_of n r) r' v' room enough' _),
          record {
            is_valid = filled-IsValid (want_of n r) r' v' room enough';
            same = filled-unread (want_of n r) r' v' room enough' ∙ e;
            read_same = unfold filled in m.read_same;
            readable =
                unfold filled in
                omega (arith, m.read_same, m.write_same, leb→gt _ _ more, v.ordered);
            stored = unfold filled in room;
            pulled =
                unfold filled in
                (λ k le ahead. omega (arith, m.write_same, leb→gt _ _ more, v.ordered));
            front =
                ap (λ i. take i (filled (want_of n r) r').mem) (sym m.read_same)
                ∙ filled-front (want_of n r) r' v' room enough'
                ∙ ap (λ i. take i r'.mem) m.read_same
                ∙ m.front;
            growable = unfold filled in m.growable;
          },
          inr (unfold filled in refl),
        )
  ]
