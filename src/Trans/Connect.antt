-- ===== src/Trans/Connect.antt =====
-- The branches of a connect, and the limit on channels (internal/trans/trans_handler.go, OnConnect).
use less.Base.{
  ℕ, ◌+◌, ◌≤◌, ◌<◌, ◌≡◌, refl, sym, ap, ◌∙◌, Bool, true, false, not, ◌&&◌, ◌||◌, ◌==◌, ◌≢◌, Option,
  none, some, Error, Outcome, ok, err, panic, hang, arith, ltb, if◌then◌else◌, transport_closed,
  out_of_limit,
}
use less.Pipeline.{Context, Pipeline, fire_on_channel}
use less.Channel.{Channel, channel_ops, new_channel, is_active, close_bits}
use less.Channel.Closing.{Life, new_life, close, wait_reads}
use less.Trans.Registry.{Distinct, close_channel-gone}
use less.Trans.{
  own_closed_hook, TransHandler, serving, closed, is_serving, update, close_life, close_created,
  connect_deferred, enrol, connect, on_connect, load, close_loaded, close_channel,
}

pub own : {A : Type 0} (f : ℕ → A) (id : ℕ) (a : A) → update f id a id ≡ a
own f id a = ground arith

pub closes_own : (e : Option Error) (l : Life) → (close l.ch.state e l).1.ch.state ≡ 0
unfolding close close_bits
closes_own e l = ground arith

-- A registered channel that is closed has no state left, and the handler serves as before.
close_loaded-shuts :
    (id : ℕ) (e : Option Error) (th : TransHandler) (v : Bool)
    → ((close_loaded id e (some v) th).lives id).ch.state ≡ 0
unfolding close_loaded close_life
close_loaded-shuts id e th v =
    ap (λ l. l.ch.state) (own th.lives id (close (th.lives id).ch.state e (th.lives id)).1)
    ∙ closes_own e (th.lives id)

loaded-status :
    (id : ℕ) (e : Option Error) (th : TransHandler) (v : Bool)
    → (close_loaded id e (some v) th).status ≡ th.status
unfolding close_loaded close_life
loaded-status id e th v = refl

pub close_channel-shuts :
    (id : ℕ) (e : Option Error) (th : TransHandler) (v : Bool)
    → load id th.channels ≡ some v
    → (((close_channel id e th).lives id).ch.state ≡ 0)
      × ((close_channel id e th).status ≡ th.status)
unfolding close_channel
close_channel-shuts id e th v found =
    rw found (close_loaded-shuts id e th v, loaded-status id e th v)

inactive_stays : (e : Option Error) (l : Life) → l.ch.state ≡ 0 → (close l.ch.state e l).1 ≡ l
unfolding close
inactive_stays e l s = ground arith

own_stays :
    (f : ℕ → Life) (id : ℕ) (e : Option Error) (l : Life)
    → l.ch.state ≡ 0
    → (close (update f id l id).ch.state e (update f id l id)).1 ≡ l
own_stays f id e l s = ap (λ x. (close x.ch.state e x).1) (own f id l) ∙ inactive_stays e l s

pub inactive : (ch : Channel) → ch.state ≡ 0 → is_active ch ≡ false
unfolding is_active
inactive ch s = rw s refl

own_closed :
    (f : ℕ → Life) (id : ℕ) (e : Option Error)
    → is_active (update f id (close (f id).ch.state e (f id)).1 id).ch ≡ false
own_closed f id e =
    inactive _
      (ap (λ l. l.ch.state) (own f id (close (f id).ch.state e (f id)).1) ∙ closes_own e (f id))

no_limit : (max count : ℕ) → count ≤ max → (ltb 0 max && ltb max count) ≡ false
no_limit max count h = ground arith

pub if_false : {A : Type 0} (b : Bool) (x y : A) → b ≡ false → (if b then x else y) ≡ y
if_false b x y e = rw e refl

pub if_true : {A : Type 0} (b : Bool) (x y : A) → b ≡ true → (if b then x else y) ≡ x
if_true b x y e = rw e refl

-- The deferred function, on a handler that still serves and on one that does not.
deferred_ok :
    (created : Option ℕ) (id : ℕ) (th : TransHandler)
    → th.status ≡ serving
    → connect_deferred created (ok id) th ≡ (ok id, th)
unfolding connect_deferred
deferred_ok created id th s = if_true _ _ _ (ap is_serving s)

deferred_err :
    (created : Option ℕ) (e : Error) (th : TransHandler)
    → th.status ≡ serving
    → connect_deferred created (err e) th ≡ (err e, close_created created e th)
unfolding connect_deferred
deferred_err created e th s = if_true _ _ _ (ap is_serving s)

deferred_closed :
    (created : Option ℕ) (id : ℕ) (th : TransHandler)
    → th.status ≡ closed
    → connect_deferred created (ok id) th
      ≡ (err transport_closed, close_created created transport_closed th)
unfolding connect_deferred
deferred_closed created id th s = if_false _ _ _ (ap is_serving s)

-- A channel that is open is closed by a goroutine that waits for its readers first.
waits_own :
    (id : ℕ) (e : Option Error) (th : TransHandler)
    → (th.lives id).ch.state ≢ 0
    → ((close_life id e th).lives id).phase ≡ wait_reads e
unfolding close_life close
waits_own id e th up =
    let accepted : ((th.lives id).ch.state == 0
          || not ((th.lives id).ch.state == (th.lives id).ch.state))
        ≡ false =
      ground (arith, up) in
    ap (λ l. l.phase) (own th.lives id (close (th.lives id).ch.state e (th.lives id)).1)
    ∙ rw accepted refl

module _ (pl : Pipeline Channel) (ctx : Context) (side now : ℕ) (keeper : Bool) where
  enrolled_count :
      (r : Option Error × Channel) (th : TransHandler)
      → (enrol th.next_channel keeper r th).1.channel_count ≤ th.channel_count + 1
  unfolding enrol
  enrolled_count (some e, ch) th = omega arith
  enrolled_count (none, ch) th = omega arith

  connected_count :
      (th : TransHandler)
      → 0 < th.max_channel_size
      → th.channel_count ≤ th.max_channel_size + 1
      → (connect pl ctx side now keeper th).1.channel_count ≤ th.max_channel_size + 1
  unfolding connect
  connected_count th p b =
      let r = enrolled_count (fire_on_channel channel_ops pl ctx (new_channel side now)) th in
      ground arith

  created-count :
      (o : Option ℕ) (e : Error) (th : TransHandler)
      → (close_created o e th).channel_count ≡ th.channel_count
  unfolding close_created close_life
  created-count none e th = refl
  created-count (some id) e th = refl

  deferred-count :
      (o : Option ℕ) (r : Outcome ℕ) (th : TransHandler)
      → (connect_deferred o r th).1.channel_count ≡ th.channel_count
  unfolding connect_deferred
  deferred-count o (ok id) th = let c = created-count o transport_closed th in ground arith
  deferred-count o (err e) th =
      let c = created-count o transport_closed th in let d = created-count o e th in ground arith
  deferred-count o panic th = let c = created-count o transport_closed th in ground arith
  deferred-count o hang th = refl

  admitted :
      (th : TransHandler)
      → th.channel_count ≤ th.max_channel_size
      → let r =
          enrol th.next_channel keeper
            (fire_on_channel channel_ops pl ctx (new_channel side now))
            th in
        connect pl ctx side now keeper th ≡ ((some th.next_channel, r.0), r.1)
  unfolding connect
  admitted th c = rw (no_limit th.max_channel_size th.channel_count c) refl

  serves :
      (others : TransHandler → TransHandler) (th : TransHandler) (fired : Option Error × Channel)
      → th.status ≡ serving
      → th.channel_count ≤ th.max_channel_size
      → fire_on_channel channel_ops pl ctx (new_channel side now) ≡ fired
      → let r = enrol th.next_channel keeper fired th in
        on_connect pl ctx side now keeper others th
        ≡ connect_deferred (some th.next_channel) r.0 (others r.1)
  unfolding on_connect
  serves others th fired s c f =
      if_false _ _ _ (ap (λ t. not (is_serving t)) s) ∙ rw (admitted th c, f) refl

  -- Above a positive limit a connect is refused, and changes nothing.
  pub on_connect-refused :
      (th : TransHandler)
      → th.status ≡ serving
      → 0 < th.max_channel_size
      → th.max_channel_size < th.channel_count
      → on_connect pl ctx side now keeper (λ t. t) th ≡ (err out_of_limit, th)
  unfolding on_connect connect
  on_connect-refused th s p over =
      let a : (ltb 0 th.max_channel_size && ltb th.max_channel_size th.channel_count) ≡ true =
        ground arith in
      if_false _ _ _ (ap (λ t. not (is_serving t)) s)
      ∙ rw a (deferred_err none out_of_limit th s ∙ unfold close_created in refl)

  -- With a positive limit `max` and at most `max + 1` channels counted, a connect that no other
  -- goroutine overtakes leaves at most `max + 1` counted.
  pub on_connect-bounded :
      (th : TransHandler)
      → 0 < th.max_channel_size
      → th.channel_count ≤ th.max_channel_size + 1
      → (on_connect pl ctx side now keeper (λ t. t) th).1.channel_count ≤ th.max_channel_size + 1
  unfolding on_connect
  on_connect-bounded th p b =
      let c = connected_count th p b in
      let r = connect pl ctx side now keeper th in
      let d = deferred-count r.0.0 r.0.1 r.1 in ground arith

  -- On a serving handler that counts exactly `max` channels, a connect whose hooks succeed,
  -- overtaken by no other goroutine, is accepted, and `max + 1` channels are counted: the test is
  -- `>`.
  pub on_connect-one_more :
      (th : TransHandler) (ch : Channel)
      → th.status ≡ serving
      → th.channel_count ≡ th.max_channel_size
      → fire_on_channel channel_ops pl ctx (new_channel side now) ≡ (none, ch)
      → let r = on_connect pl ctx side now keeper (λ t. t) th in
        (r.0 ≡ ok th.next_channel) × (r.1.channel_count ≡ th.max_channel_size + 1)
  unfolding enrol
  on_connect-one_more th ch s c f =
      let e = serves (λ t. t) th (none, ch) s (omega (arith, c)) f ∙ deferred_ok _ _ _ s in
      rw e (refl, ap (λ n. n + 1) c)

  -- On a serving handler with room, when an OnChannel hook fails and the channel is still inactive,
  -- the connect fails with the hook's error and registers nothing, and the channel with its
  -- connection stays as the hook left it: it is not closed.
  pub on_connect-leaks :
      (th : TransHandler) (ch : Channel) (e : Error)
      → th.status ≡ serving
      → th.channel_count ≤ th.max_channel_size
      → fire_on_channel channel_ops pl ctx (new_channel side now) ≡ (some e, ch)
      → ch.state ≡ 0
      → let r = on_connect pl ctx side now keeper (λ t. t) th in
        (r.0 ≡ err e)
        × (r.1.channels ≡ th.channels)
        × (r.1.channel_count ≡ th.channel_count)
        × (r.1.lives th.next_channel ≡ new_life ch)
  unfolding enrol close_created close_life new_life
  on_connect-leaks th ch e s c f z =
      let r = serves (λ t. t) th (some e, ch) s c f ∙ deferred_err _ _ _ s in
      rw r (
        refl,
        refl,
        refl,
        own (enrol th.next_channel keeper (some e, ch) th).1.lives th.next_channel _
            ∙ own_stays th.lives th.next_channel (some e) (new_life ch) z,
      )

  -- When the transport is closed while a connect with room for its channel and successful hooks runs,
  -- its channel is not inactive by then, and no key is twice in the register: the connect fails, its
  -- channel is not active, and the goroutine that closes it will fire its hooks with the error; the
  -- first of them takes the channel off the register, if it is there.
  pub on_connect-overtaken :
      (others : TransHandler → TransHandler) (th : TransHandler) (ch : Channel)
      → th.status ≡ serving
      → th.channel_count ≤ th.max_channel_size
      → fire_on_channel channel_ops pl ctx (new_channel side now) ≡ (none, ch)
      → let left = others (connect pl ctx side now keeper th).1 in
        left.status ≡ closed
        → (left.lives th.next_channel).ch.state ≢ 0
        → Distinct left.channels
        → let r = on_connect pl ctx side now keeper others th in
          (r.0 ≡ err transport_closed)
          × (is_active (r.1.lives th.next_channel).ch ≡ false)
          × ((r.1.lives th.next_channel).phase ≡ wait_reads (some transport_closed))
          × (load th.next_channel
                (own_closed_hook th.next_channel (some transport_closed) r.1).channels
              ≡ none)
  unfolding close_created enrol own_closed_hook
  on_connect-overtaken others th ch s c f z open_ distinct =
      let id = th.next_channel in
      let e = some transport_closed in
      let connected : (connect pl ctx side now keeper th).1 ≡ (enrol id keeper (none, ch) th).1 =
        ap (λ r. r.1) (admitted th c) ∙ rw f refl in
      let left = others (connect pl ctx side now keeper th).1 in
      let same : others (enrol id keeper (none, ch) th).1 ≡ left = sym (ap others connected) in
      let r =
        serves others th (none, ch) s c f
        ∙ ap (λ t. connect_deferred (some id) (ok id) t) same
        ∙ deferred_closed (some id) id left z in
      rw r (
        refl,
        unfold close_life in own_closed left.lives id e,
        waits_own id e left open_,
        close_channel-gone id e (close_life id e left) (unfold close_life in distinct),
      )
