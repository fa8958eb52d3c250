-- ===== src/Tcp/Poll.antt =====
-- The goroutine that reads a connection (transport/tcp/trans_std.go, readLoop).
use less.Base.{
  ℕ, ◌≡◌, refl, ap, ◌∙◌, Bool-cases, inl, inr, Bool, true, false, not, List, [], ◌∷◌, ◌++◌, Option,
  some, Error, Outcome, ok, err, panic, hang, Method, map, IsReturned, channel_reader_closed,
  if◌then◌else◌,
}
use less.Io.Reader.{Reader}
use less.Codec.{Message}
use less.Pipeline.{Pipeline}
use less.Channel.{Channel, reader, cal_state}
use less.Trans.{
  TransHandler, serving, is_serving, on_message, on_read, decoded, load, close_channel,
}
use less.Trans.Passing.{ends_with, message-returns}
use less.Trans.Connect.{if_false, close_channel-shuts}
use less.Tcp.Listen.{EventDriver}
use less.Tcp.Driver.{trans_driver}

-- The transport: whether `Listen` has made its context, and whether that is cancelled.
pub record Transport : Type 0 where
  pub listening : Bool
  pub cancelled : Bool

-- `Close`; `t.cancel` is nil until the transport listens.
unfoldable pub close : Transport → Transport
close t = if t.listening then record t { cancelled = true } else t

-- What a round of the loop meets: the transport's context is done, or there is a message to read.
pub data Round (S : Type 0) : Type 0 where
  done : Round S
  polls : S → Round S

-- What has become of the goroutine behind some rounds: it is at the next one, or has returned, or has
-- panicked, or is in an `OnMessage` that does not return.
pub data Polling : Type 0 where
  goes_on returned crashed blocked : Polling

-- `select` takes the context's end if it is there, and the default, a message, otherwise.
unfoldable pub selected : {S : Type 0} → Transport → S → Round S
selected t s = if t.cancelled then done else polls s

close-selected :
    {S : Type 0} (t : Transport) (s : S) → t.listening ≡ true → selected (close t) s ≡ done
unfolding close selected
close-selected t s listens = rw listens refl

module _ {D S : Type 0} (api : EventDriver D S) where
  -- An error of `OnMessage` is dropped; a panic is not, since `recovery.Recover` is not deferred and
  -- has returned.
  polled : Outcome (Unit {0}) × D → (D → Polling × D) → Polling × D
  polled (ok a, d) go_on = go_on d
  polled (err e, d) go_on = go_on d
  polled (panic, d) go_on = (crashed, d)
  polled (hang, d) go_on = (blocked, d)

  rounds_from : Option ℕ → List (Round S) → D → Polling × D
  rounds_from context [] d = (goes_on, d)
  rounds_from context (done ∷ rest) d = (returned, d)
  rounds_from context (polls s ∷ rest) d =
      polled (api.on_message context s d) (rounds_from context rest)

  -- `readLoop`, as far as these rounds. `t.ctx` is nil until the transport listens.
  unfoldable pub read_loop : (listening : Bool) → Option ℕ → List (Round S) → D → Polling × D
  unfolding rounds_from polled
  read_loop false context rounds d = (crashed, d)
  read_loop true context rounds d = rounds_from context rounds d

module _ {S : Type 0} (api : Reader S) (decode : Method S Message) (pl : Pipeline Channel)
    (side now : ℕ) (keeper : Bool) where
  abbrev driver : EventDriver TransHandler S
  driver = trans_driver api decode pl side now keeper

  idle_poll :
      (id : ℕ) (s : S) (th : TransHandler) (e : Error)
      → th.status ≡ serving
      → reader (th.lives id).ch ≡ err e
      → on_message api decode id s th ≡ (ok tt, th)
  unfolding on_message
  idle_poll id s th e up shut = if_false _ _ _ (ap (λ t. not (is_serving t)) up) ∙ rw shut refl

  spins_from :
      (id : ℕ) (polled_with : List S) (th : TransHandler) (e : Error)
      → th.status ≡ serving
      → reader (th.lives id).ch ≡ err e
      → rounds_from driver (some id) (map (λ s. polls s) polled_with) th ≡ (goes_on, th)
  unfolding rounds_from polled trans_driver
  spins_from id [] th e up shut = refl
  spins_from id (s ∷ more) th e up shut =
      rw (idle_poll id s th e up shut) (spins_from id more th e up shut)

  shut_reader : (ch : Channel) → ch.state ≡ 0 → reader ch ≡ err channel_reader_closed
  unfolding reader cal_state
  shut_reader ch z = rw z refl

  failed_poll :
      (id : ℕ) (s s' : S) (e : Error) (th : TransHandler)
      → th.status ≡ serving
      → reader (th.lives id).ch ≡ ok tt
      → decode s ≡ (err e, s')
      → on_message api decode id s th ≡ (err e, close_channel id (some e) th)
  unfolding on_message on_read decoded
  failed_poll id s s' e th up readable fails =
      if_false _ _ _ (ap (λ t. not (is_serving t)) up)
      ∙ rw (readable, fails) (if_false _ _ _ (ap (λ t. not (is_serving t)) up))

  -- On a transport that listens, with a serving handler: when decoding a message of a registered channel
  -- that is read fails, the channel is closed, but the goroutine that reads it is at the next round
  -- behind any number of further ones, none of which blocks or does anything.
  pub read_loop-spins :
      (id : ℕ) (s s' : S) (e : Error) (th : TransHandler) (v : Bool)
      → th.status ≡ serving
      → load id th.channels ≡ some v
      → reader (th.lives id).ch ≡ ok tt
      → decode s ≡ (err e, s')
      → (more : List S)
      → read_loop driver true (some id) (polls s ∷ map (λ s. polls s) more) th
        ≡ (goes_on, close_channel id (some e) th)
  unfolding read_loop rounds_from polled trans_driver
  read_loop-spins id s s' e th v up found readable fails more =
      let (state, status) = close_channel-shuts id (some e) th v found in
      rw (failed_poll id s s' e th up readable fails) (
        spins_from id more (close_channel id (some e) th) channel_reader_closed (status ∙ up)
          (shut_reader _ state))

  -- Decoding from the readers does not hang.
  abbrev pub Decodes : List S → Type 0
  Decodes [] = Unit
  Decodes (s ∷ rest) = (ends_with (decode s).0 ≡ true) × Decodes rest

  polled-returned :
      (r : Outcome (Unit {0}) × TransHandler) (m : TransHandler → Polling × TransHandler)
      → IsReturned r.0
      → ((th : TransHandler) → (m th).0 ≡ returned)
      → (polled driver r m).0 ≡ returned
  unfolding polled
  polled-returned (ok a, d) m h f = f d
  polled-returned (err e, d) m h f = f d
  polled-returned (panic, d) m h f = absurd h
  polled-returned (hang, d) m h f = absurd h

  ends-after :
      (t : Transport) (id : ℕ) (before : List S) (rest : List (Round S)) (th : TransHandler)
      → Decodes before
      → (rounds_from driver (some id) (map (selected t) before ++ (done ∷ rest)) th).0 ≡ returned
  unfolding rounds_from trans_driver selected
  ends-after t id [] rest th h = refl
  ends-after t id (s ∷ before) rest th (fine, others) = elim (Bool-cases t.cancelled) [
    | inl c ↦ rw c refl
    | inr c ↦ rw c (
        polled-returned (on_message api decode id s th)
          (rounds_from driver (some id) (map (selected t) before ++ (done ∷ rest)))
          (message-returns api decode id s th fine) (λ th'. ends-after t id before rest th' others))
  ]

  -- With the transport handler as the driver and a context that names a channel, on a transport that
  -- listens: where decoding from the readers of the rounds before does not hang, the goroutine that
  -- reads returns in the first round behind the call of `Close`.
  pub read_loop-ends :
      (t : Transport) (id : ℕ) (before after : List S) (s : S) (th : TransHandler)
      → t.listening ≡ true
      → Decodes before
      → (read_loop driver t.listening
          (some id)
          (map (selected t) before ++ map (selected (close t)) (s ∷ after))
          th).0
        ≡ returned
  unfolding read_loop
  read_loop-ends t id before after s th listens fine =
      let more = map (selected (close t)) after in
      ap
        (λ l.
          (read_loop driver l (some id)
            (map (selected t) before ++ map (selected (close t)) (s ∷ after)) th).0)
        listens
      ∙ ap
          (λ (r : Round S).
            (rounds_from driver (some id) (map (selected t) before ++ (r ∷ more)) th).0)
          (close-selected t s listens)
      ∙ ends-after t id before more th fine
