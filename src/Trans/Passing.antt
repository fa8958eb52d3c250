-- ===== src/Trans/Passing.antt =====
-- A message that passes through the transport handler (internal/trans/trans_handler.go, OnMessage,
-- OnRead, outboundHandler and OnWrite).
use less.Base.{
  Bool, if◌then◌else◌, true, IsReturned, channel_reader_closed, ℕ, ◌≤◌, ◌≡◌, refl, ap, ◌∙◌, ◌⊎◌,
  false, not, ◌&&◌, ◌∷◌, Outcome, ok, err, panic, hang, Method, ltb, arith,
}
use less.Io.Reader.{Reader}
use less.Io.Limit.{u32}
use less.Codec.{Message}
use less.Channel.{reader, writer, cal_state, readable_bit}
use less.Trans.{
  TransHandler, serving, read_with, is_serving, decoded, on_read, on_message, on_write,
  outbound_handler,
}
use less.Trans.Connect.{if_false}

-- The handler works on the channel's messages.
pub record Works (id : ℕ) (th : TransHandler) : Type 0 where
  pub up : th.status ≡ serving
  pub readable : reader (th.lives id).ch ≡ ok tt
  pub writeable : writer (th.lives id).ch ≡ ok tt

-- The handler with one more message given to the goroutine pool.
abbrev pub with_submitted : ℕ → Message → TransHandler → TransHandler
with_submitted id m th = record th { submitted = (id, m) ∷ th.submitted }

serves : (th : TransHandler) → th.status ≡ serving → not (is_serving th.status) ≡ false
serves th up = ap (λ t. not (is_serving t)) up

abbrev got : Message → Outcome Message → Message
got default (ok m) = m
got default _ = default

module _ {S : Type 0} (api : Reader S) (decode : Method S Message) where
  decoded-submits :
      (id : ℕ) (r : Outcome Message × S) (m : Message) (th : TransHandler)
      → r.0 ≡ ok m
      → (th.max_receive_message_size ≡ 0) ⊎ (api.length_of r.1 ≤ th.max_receive_message_size)
      → decoded api decode id r th ≡ (ok tt, with_submitted id m th)
  unfolding decoded
  decoded-submits id (ok m', s) m th is fits =
      let passes : (ltb 0 th.max_receive_message_size
            && ltb th.max_receive_message_size (u32 (api.length_of s)))
          ≡ false =
        ground arith in
      rw passes (ap (λ o. (ok tt, with_submitted id (got m o) th)) is)
  decoded-submits id (err e, s) m th is fits = ground arith
  decoded-submits id (panic, s) m th is fits = ground arith
  decoded-submits id (hang, s) m th is fits = ground arith

  -- A message that is decoded, of which the reader's length is within the limit, goes to the pool.
  pub on_message-submits :
      (id : ℕ) (s : S) (m : Message) (th : TransHandler)
      → Works id th
      → (decode s).0 ≡ ok m
      → (th.max_receive_message_size ≡ 0)
        ⊎ (api.length_of (decode s).1 ≤ th.max_receive_message_size)
      → on_message api decode id s th ≡ (ok tt, with_submitted id m th)
  unfolding on_message on_read
  on_message-submits id s m th w is fits =
      if_false _ _ _ (serves th w.up)
      ∙ rw (w.readable)
          (if_false _ _ _ (serves th w.up) ∙ decoded-submits id (decode s) m th is fits)

abbrev pub ends_with : Outcome Message → Bool
ends_with hang = false
ends_with _ = true

module _ {S : Type 0} (api : Reader S) (decode : Method S Message) where
  returns_if :
      {A B : Type 0} (b : Bool) (x y : Outcome A × B)
      → IsReturned x.0
      → IsReturned y.0
      → IsReturned (if b then x else y).0
  returns_if true x y p q = p
  returns_if false x y p q = q

  decoded-returns :
      (id : ℕ) (r : Outcome Message × S) (th : TransHandler)
      → ends_with r.0 ≡ true
      → IsReturned (decoded api decode id r th).0
  unfolding decoded
  decoded-returns id (ok m, s) th h =
      returns_if
        (ltb 0 th.max_receive_message_size
          && ltb th.max_receive_message_size (u32 (api.length_of s)))
        _ _ tt tt
  decoded-returns id (err e, s) th h = tt
  decoded-returns id (panic, s) th h = tt
  decoded-returns id (hang, s) th h = ground arith

  reading-returns :
      (id : ℕ) (s : S) (th : TransHandler)
      → ends_with (decode s).0 ≡ true
      → (b : Bool) (r : Outcome (Unit {0})) → r ≡ (if b then err channel_reader_closed else ok tt)
      → IsReturned (read_with api decode id s r th).0
  unfolding read_with on_read
  reading-returns id s th h false r is =
      rw is (returns_if (not (is_serving th.status)) _ _ tt (decoded-returns id (decode s) th h))
  reading-returns id s th h true r is = rw is tt

  -- The handler's `OnMessage` returns where decoding does not hang.
  pub message-returns :
      (id : ℕ) (s : S) (th : TransHandler)
      → ends_with (decode s).0 ≡ true
      → IsReturned (on_message api decode id s th).0
  unfolding on_message reader
  message-returns id s th h =
      returns_if (not (is_serving th.status)) _ _ tt
        (reading-returns id s th h (not (cal_state readable_bit (th.lives id).ch)) _ refl)

module _ {W : Type 0} (encode : Message → Method W (Unit {0})) where
  -- A message that is encoded without an error leaves the handler as it is.
  pub outbound_handler-sends :
      (id : ℕ) (m : Message) (w w' : W) (th : TransHandler)
      → Works id th
      → encode m w ≡ (ok tt, w')
      → outbound_handler encode id m w th ≡ ((ok tt, w'), th)
  unfolding outbound_handler on_write
  outbound_handler-sends id m w w' th k is =
      rw (k.writeable) (if_false _ _ _ (serves th k.up) ∙ rw is refl)
