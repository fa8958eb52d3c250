-- ===== src/Io/Limit/Laws.antt =====
-- The limited reader (pkg/io/reader/limit.go) over a stream keeps inside its limit.
use less.Base.{
  ℕ, ◌+◌, ◌-◌, ◌^◌, ◌≤◌, ◌<◌, ◌≡◌, refl, ap, ◌∙◌, inl, inr, false, Option-cases, Bytes, Outcome, ok,
  arith, ltb, ltb→ge, ge→ltb, ◌==◌, ==_iff, Bool-cases, length, take, drop, drop-drop, IsReturned,
  subst,
}
use less.Io.Reader.{Reader, Stream}
use less.Io.Limit.{
  LimitReader, sub32, taking, taking_got, limit_read, limit_next, limit_peek, limit_skip,
  limit_release, after_skip,
}

sub32-exact : (a n : ℕ) → a < 2 ^ 32 → n ≤ a → sub32 a n ≡ a - n
sub32-exact a n h le = omega arith

module _ {S : Type 0} {api : Reader S} (stream : Stream api) where
  open stream use {view, IsReady, peek_law, next_law, skip_law, read_law}

  -- Of a frame of `limit` bytes at the head of `bytes`, `remain` are left, and the stream stands
  -- behind the others.
  pub record InFrame (limit : ℕ) (bytes : Bytes) (l : LimitReader S) : Type 0 where
    pub bound : limit < 2 ^ 32
    pub le : l.remain ≤ limit
    pub ready : IsReady l.remain l.decorator
    pub at : view l.decorator ≡ drop (limit - l.remain) bytes

  -- The call returned, and the reader is still inside its frame.
  pub record Settles {A : Type 0} (limit : ℕ) (bytes : Bytes) (o : Outcome A × LimitReader S)
      : Type 0 where
    pub returned : IsReturned o.0
    pub inside : InFrame limit bytes o.1

module _ {S : Type 0} {api : Reader S} (stream : Stream api) (limit : ℕ) (bytes : Bytes) where
  open stream use {view, IsReady, peek_law, next_law, skip_law, read_law}

  abbrev In : LimitReader S → Type 0
  In l = InFrame stream limit bytes l

  abbrev Ends : {A : Type 0} → Outcome A × LimitReader S → Type 0
  Ends o = Settles stream limit bytes o

  -- A call that took `n` bytes off.
  InFrame-take :
      (l : LimitReader S) (n : ℕ) (s : S)
      → In l
      → n ≤ l.remain
      → view s ≡ drop n (view l.decorator)
      → IsReady (l.remain - n) s
      → In (record l { remain = sub32 l.remain n; decorator = s })
  InFrame-take l n s i le e ready =
      let exact = sub32-exact l.remain n (omega (arith, i.bound, i.le)) le in
      let moved : limit - l.remain + n ≡ limit - sub32 l.remain n = omega (arith, exact, i.le) in
      record {
        bound = i.bound;
        le = omega (arith, exact, i.le);
        ready = rw exact ready;
        at =
            e
            ∙ ap (drop n) i.at
            ∙ drop-drop n (limit - l.remain) bytes
            ∙ ap (λ m. drop m bytes) moved;
      }

  -- Within the limit `Next` returns the next bytes of the stream.
  pub limit_next-ok :
      (n : ℕ) (l : LimitReader S)
      → In l
      → n ≤ l.remain
      → (l' : LimitReader S) × (limit_next api n l ≡ (ok (take n (view l.decorator)), l'))
        × In l'
        × (l'.remain ≡ l.remain - n)
        × (l'.total ≡ l.total)
  unfolding limit_next taking
  limit_next-ok n l i le =
      let (s, e, v, r) = next_law l.remain n l.decorator i.ready le in
      let fits : ltb l.remain n ≡ false = ge→ltb _ _ le in
      (
        record l { remain = sub32 l.remain n; decorator = s },
        rw (fits, e),
        InFrame-take l n s i le v r,
        sub32-exact l.remain n (omega (arith, i.bound, i.le)) le,
        refl,
      )

  pub limit_skip-ok :
      (n : ℕ) (l : LimitReader S)
      → In l
      → n ≤ l.remain
      → (l' : LimitReader S) × (limit_skip api n l ≡ (ok tt, l'))
        × In l'
        × (l'.remain ≡ l.remain - n)
        × (l'.total ≡ l.total)
  unfolding limit_skip taking
  limit_skip-ok n l i le =
      let (s, e, v, r) = skip_law l.remain n l.decorator i.ready le in
      (
        record l { remain = sub32 l.remain n; decorator = s },
        rw (ge→ltb _ _ le, e) refl,
        InFrame-take l n s i le v r,
        sub32-exact l.remain n (omega (arith, i.bound, i.le)) le,
        refl,
      )

  pub limit_peek-ok :
      (n : ℕ) (l : LimitReader S)
      → In l
      → n ≤ l.remain
      → (l' : LimitReader S) × (limit_peek api n l ≡ (ok (take n (view l.decorator)), l'))
        × In l'
        × (l'.remain ≡ l.remain)
        × (l'.total ≡ l.total)
  unfolding limit_peek
  limit_peek-ok n l i le =
      let (s, e, v, r) = peek_law l.remain n l.decorator i.ready le in
      (
        record l { decorator = s },
        rw (ge→ltb _ _ le, e) refl,
        record { bound = i.bound; le = i.le; ready = r; at = v ∙ i.at },
        refl,
        refl,
      )

  pub limit_next-Settles : (n : ℕ) (l : LimitReader S) → In l → Ends (limit_next api n l)
  limit_next-Settles n l i = elim (Bool-cases (ltb l.remain n)) [
    | inl over ↦ unfold limit_next in rw over (record { returned = tt; inside = i })
    | inr fits ↦
        let (l', e, i', r, t) = limit_next-ok n l i (ltb→ge _ _ fits) in
        rw e (record { returned = tt; inside = i' })
  ]

  pub limit_skip-Settles : (n : ℕ) (l : LimitReader S) → In l → Ends (limit_skip api n l)
  unfolding limit_skip taking
  limit_skip-Settles n l i = elim (Bool-cases (ltb l.remain n)) [
    | inl over ↦ rw over (record { returned = tt; inside = i })
    | inr fits ↦
        let le = ltb→ge _ _ fits in
        let (s, e, v, r) = skip_law l.remain n l.decorator i.ready le in
        rw (fits, e) (record { returned = tt; inside = InFrame-take l n s i le v r })
  ]

  pub limit_peek-Settles : (n : ℕ) (l : LimitReader S) → In l → Ends (limit_peek api n l)
  unfolding limit_peek
  limit_peek-Settles n l i = elim (Bool-cases (ltb l.remain n)) [
    | inl over ↦ rw over (record { returned = tt; inside = i })
    | inr fits ↦
        let (s, e, v, r) = peek_law l.remain n l.decorator i.ready (ltb→ge _ _ fits) in
        rw (fits, e)
          (record {
            returned = tt;
            inside = record { bound = i.bound; le = i.le; ready = r; at = v ∙ i.at };
          })
  ]

  pub limit_read-Settles : (n : ℕ) (l : LimitReader S) → In l → Ends (limit_read api n l)
  unfolding limit_read taking_got
  limit_read-Settles n l i = elim (Bool-cases (ltb l.remain n)) [
    | inl over ↦ rw over (record { returned = tt; inside = i })
    | inr fits ↦
        let le = ltb→ge _ _ fits in
        let (g, s, e, f, r) = read_law l.remain n l.decorator i.ready le in
        elim (Option-cases g.error) [
          | inl fine ↦
              rw (fits, e)
                (rw fine (record {
                  returned = tt;
                  inside = InFrame-take l (length g.got) s i (omega (arith, f.small)) f.rest r;
                }))
          | inr (x, bad) ↦
              let nothing = f.clean bad in
              let all : l.remain - length g.got ≡ l.remain = omega (arith, nothing) in
              rw (fits, e)
                (rw bad (record {
                  returned = tt;
                  inside = record {
                    bound = i.bound;
                    le = i.le;
                    ready = rw all at r;
                    at = f.rest ∙ ap (λ m. drop m (view l.decorator)) nothing ∙ i.at;
                  };
                }))
        ]
  ]

  -- Releasing a limited reader skips what is left of its frame.
  pub limit_release-InFrame :
      (l : LimitReader S)
      → In l
      → (l' : LimitReader S) × (limit_release api l ≡ (ok tt, l')) × In l' × (l'.remain ≡ 0)
  unfolding limit_release after_skip
  limit_release-InFrame l i = elim (Bool-cases (l.remain == 0)) [
    | inl empty ↦ (l, rw empty, i, (==_iff _ _).0 empty)
    | inr left ↦
        let (s, e, v, r) = skip_law l.remain l.remain l.decorator i.ready (omega arith) in
        let none_left : l.remain - l.remain ≡ 0 = omega arith in
        let all : limit - l.remain + l.remain ≡ limit - 0 = omega (arith, i.le) in
        (
          record l { remain = 0; decorator = s },
          rw (left, e),
          record {
            bound = i.bound;
            le = omega arith;
            ready = rw none_left at r;
            at =
                v
                ∙ ap (drop l.remain) i.at
                ∙ drop-drop l.remain (limit - l.remain) bytes
                ∙ ap (λ m. drop m bytes) all;
          },
          refl,
        )
  ]

  pub limit_release-spent :
      (l : LimitReader S)
      → In l
      → (l' : LimitReader S) × (limit_release api l ≡ (ok tt, l'))
        × (view l'.decorator ≡ drop limit bytes)
        × IsReady 0 l'.decorator
  limit_release-spent l i =
      let (l', e, i', left) = limit_release-InFrame l i in
      let all : limit - l'.remain ≡ limit = omega (arith, left) in
      (l', e, i'.at ∙ ap (λ m. drop m bytes) all, subst (λ k. IsReady k l'.decorator) left i'.ready)

  -- Releasing a limited reader that is inside its frame returns and leaves the stream at the end of the
  -- frame.
  pub limit_release-end :
      (l : LimitReader S)
      → In l
      → (l' : LimitReader S) × (limit_release api l ≡ (ok tt, l'))
        × (view l'.decorator ≡ drop limit bytes)
  limit_release-end l i = let (l', e, v, _) = limit_release-spent l i in (l', e, v)
