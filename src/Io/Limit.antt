-- ===== src/Io/Limit.antt =====
-- The reader that bounds what is read of another (pkg/io/reader/limit.go).
pub mod Laws
use less.Base.{
  ℕ, ◌+◌, ◌-◌, ◌%◌, ◌^◌, none, some, Bytes, Error, limit_not_enough, Outcome, ok, err, panic, hang,
  Method, ltb, ◌==◌, if◌then◌else◌, length, [],
}
use less.Io.Source.{Got}
use less.Io.Reader.{Reader}

-- `decorator` is the state of the reader that is limited; `remain` is a uint32.
pub record LimitReader (S : Type 0) : Type 0 where
  pub remain : ℕ
  pub total : ℕ
  pub decorator : S

abbrev pub u32 : ℕ → ℕ
u32 n = n % 2 ^ 32

-- `lr.remain -= uint32(n)`.
abbrev pub sub32 : ℕ → ℕ → ℕ
sub32 a n = (a + 2 ^ 32 - u32 n) % 2 ^ 32

module _ {S : Type 0} where
  -- `limit` is a uint32, as the caller converts it.
  unfoldable pub new_limit_reader : S → ℕ → LimitReader S
  new_limit_reader decorator limit = record { remain = limit; total = limit; decorator = decorator }

  -- A call of the decorator that takes `n` bytes off the limit if it returns no error.
  taking : {A : Type 0} → ℕ → LimitReader S → Outcome A × S → Outcome A × LimitReader S
  taking n l (ok a, s) = (ok a, record l { remain = sub32 l.remain n; decorator = s })
  taking n l (err e, s) = (err e, record l { decorator = s })
  taking n l (panic, s) = (panic, record l { decorator = s })
  taking n l (hang, s) = (hang, record l { decorator = s })

  -- `Read` comes back with an error of its own beside the bytes.
  taking_got : LimitReader S → Outcome Got × S → Outcome Got × LimitReader S
  taking_got l (ok g, s) = (
    ok g,
    record l {
      remain = elim g.error [ none ↦ sub32 l.remain (length g.got) | some e ↦ l.remain ];
      decorator = s;
    },
  )
  taking_got l (err e, s) = (err e, record l { decorator = s })
  taking_got l (panic, s) = (panic, record l { decorator = s })
  taking_got l (hang, s) = (hang, record l { decorator = s })

module _ {S : Type 0} (api : Reader S) where
  pub limit_read : ℕ → Method (LimitReader S) Got
  limit_read n l =
      if ltb l.remain n
      then (ok (record { got = []; error = some limit_not_enough }), l)
      else taking_got l (api.read n l.decorator)

  pub limit_next : ℕ → Method (LimitReader S) Bytes
  limit_next n l =
      if ltb l.remain n then (err limit_not_enough, l) else taking n l (api.next n l.decorator)

  pub limit_peek : ℕ → Method (LimitReader S) Bytes
  limit_peek n l =
      if ltb l.remain n
      then (err limit_not_enough, l)
      else let r = api.peek n l.decorator in (r.0, record l { decorator = r.1 })

  pub limit_skip : ℕ → Method (LimitReader S) (Unit {0})
  limit_skip n l =
      if ltb l.remain n then (err limit_not_enough, l) else taking n l (api.skip n l.decorator)

  unfoldable pub limit_length : LimitReader S → ℕ
  limit_length l = l.total

  -- What is left of the limit is skipped; an error of `Skip` is dropped, a panic is not.
  after_skip : LimitReader S → Outcome (Unit {0}) × S → Outcome (Unit {0}) × LimitReader S
  after_skip l (ok _, s) = (ok tt, record l { remain = 0; decorator = s })
  after_skip l (err _, s) = (ok tt, record l { remain = 0; decorator = s })
  after_skip l (panic, s) = (panic, record l { decorator = s })
  after_skip l (hang, s) = (hang, record l { decorator = s })

  pub limit_release : Method (LimitReader S) (Unit {0})
  limit_release l =
      if l.remain == 0 then (ok tt, l) else after_skip l (api.skip l.remain l.decorator)

  unfoldable pub limit_reader : Reader (LimitReader S)
  limit_reader = record {
    read = limit_read;
    next = limit_next;
    peek = limit_peek;
    skip = limit_skip;
    length_of = limit_length;
    release = limit_release;
  }
