-- ===== src/Base/Results.antt =====
-- What a Go call does to its receiver and what it returns: a value, an error, a panic, or nothing
-- at all because a loop never ends. The receiver's state survives every one of these.
use Prim.Native.Nat.{ℕ}
use mathlib.Core.List.{List}

abbrev pub Bytes : Type 0
Bytes = List ℕ

-- The error values that the repository returns or passes on, without their message texts.
pub data Error : Type 0 where
  eof unexpected_eof : Error
  buffer_not_enough limit_not_enough writer_buffer_not_enough : Error
  msg_size_greater_than_max_length : Error
  message_not_string : Error
  use_of_closed_conn : Error
  channel_closed channel_reader_closed channel_writer_closed : Error
  request_refused connect_refused out_of_limit transport_closed : Error
  custom : ℕ → Error

pub data Outcome (A : Type 0) : Type 0 where
  ok : A → Outcome A
  err : Error → Outcome A
  panic : Outcome A
  hang : Outcome A

-- A method on a receiver of type `S`.
abbrev pub Method : Type 0 → Type 0 → Type 0
Method S A = S → Outcome A × S

module _ {S A B : Type 0} where
  abbrev pub and_then : Outcome A → S → (A → Method S B) → Outcome B × S
  and_then (ok a) s f = f a s
  and_then (err e) s f = (err e, s)
  and_then panic s f = (panic, s)
  and_then hang s f = (hang, s)

  infixl 5 ◌>>=◌ ◌>>◌
  abbrev pub ◌>>=◌ : Method S A → (A → Method S B) → Method S B
  ◌>>=◌ m f s = let r = m s in and_then r.0 r.1 f

  abbrev pub ◌>>◌ : Method S A → Method S B → Method S B
  m >> n = m >>= λ _. n

module _ {S A : Type 0} where
  abbrev pub pure : A → Method S A
  pure a s = (ok a, s)

  abbrev pub throw : Error → Method S A
  throw e s = (err e, s)

  abbrev pub abort : Method S A
  abort s = (panic, s)

-- A call came back with a value or an error.
abbrev pub IsReturned : {A : Type 0} → Outcome A → Type 0
IsReturned (ok a) = Unit
IsReturned (err e) = Unit
IsReturned panic = ⊥
IsReturned hang = ⊥
