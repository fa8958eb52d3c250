-- ===== src/Channel/Closing/Lifetime.antt =====
-- What holds through a channel's life, whatever its goroutines do (internal/channel/channel.go).
use less.Base.{
  ℕ, ◌≤◌, ◌≡◌, ◌≢◌, refl, sym, ap, ◌∙◌, ◌⊎◌, inl, inr, Bool, true, false, Option, none, some, Error,
  channel_closed, err, arith,
}
use less.Channel.{
  Channel, active, inactive, cleared, close_bits, readable_bit, writeable_bit, is_active,
  close_reader,
}
use less.Channel.Flags.{each_state}
use less.Channel.Closing.{
  Phase, not_closed, wait_reads, wait_writes, deferred, torn_down, Life, new_life, close, activate,
  fire_hooks, tear_down, with_channel, Step, Reach, activates, closes_side, closes, begins, ends,
  reads_done, writes_done, context_done, returns, here, next,
}

-- How often the hooks were fired, and how often the goroutine's end was reached.
abbrev pub fired : Phase → ℕ
fired not_closed = 0
fired (wait_reads e) = 0
fired wait_writes = 1
fired deferred = 1
fired torn_down = 1

abbrev pub ended : Phase → ℕ
ended torn_down = 1
ended _ = 0

abbrev pub is_open : Phase → Bool
is_open not_closed = true
is_open _ = false

pub record Inv (l : Life) : Type 0 where
  pub state : l.ch.state ≤ 3
  pub dormant : l.activated ≡ false → (l.ch.state ≡ 0) × (l.phase ≡ not_closed)
  pub closed_state : is_open l.phase ≡ false → l.ch.state ≡ 0
  pub hooks : l.hooks_fired ≡ fired l.phase
  pub done : l.done_closed ≡ ended l.phase
  pub released : l.released ≡ ended l.phase
  pub conn : (l.ch.conn_active ≡ false) → l.phase ≡ torn_down

abbrev Small : ℕ → ℕ → Type 0
Small side s = (cleared side s ≤ 3) × (s ≡ 0 → cleared side s ≡ 0)

cleared_bits :
    (side : ℕ) → (side ≡ readable_bit) ⊎ (side ≡ writeable_bit) → (s : ℕ) → s ≤ 3 → Small side s
cleared_bits side (inl e) s h = rw e (
    each_state (Small readable_bit) (omega arith, λ h. refl) (omega arith, λ h. refl)
      (omega arith, λ h. absurd (omega arith)) (omega arith, λ h. absurd (omega arith)) s h)
cleared_bits side (inr e) s h = rw e (
    each_state (Small writeable_bit) (omega arith, λ h. refl)
      (omega arith, λ h. absurd (omega arith)) (omega arith, λ h. refl)
      (omega arith, λ h. absurd (omega arith)) s h)

Step-Inv : {l l' : Life} → Step l l' → Inv l → Inv l'
unfolding activate active close_bits close fire_hooks tear_down
Step-Inv (activates l a) i = ground arith
Step-Inv (closes_side l side h) i =
    let small = cleared_bits side h l.ch.state i.state in
    record {
      state = small.0;
      dormant = λ a. (small.1 (i.dormant a).0, (i.dormant a).1);
      closed_state = λ c. small.1 (i.closed_state c);
      hooks = i.hooks;
      done = i.done;
      released = i.released;
      conn = i.conn;
    }
Step-Inv (closes l old e) i = ground arith
Step-Inv (begins l event) i = ground arith
Step-Inv (ends l event wg e) i = ground arith
Step-Inv (reads_done l none p r) i = ground arith
Step-Inv (reads_done l (some x) p r) i = ground arith
Step-Inv (writes_done l p w) i = ground arith
Step-Inv (context_done l p) i = ground arith
Step-Inv (returns l p) i = ground arith

abbrev pub IsNew : Channel → Type 0
IsNew ch = (ch.state ≡ inactive) × (ch.conn_active ≡ true)

pub new-Inv : (ch : Channel) → IsNew ch → Inv (new_life ch)
unfolding new_life
new-Inv ch h = ground arith

pub Reach-Inv : {l l' : Life} → Inv l → Reach l l' → Inv l'
Reach-Inv i here = i
Reach-Inv i (next r s) = Step-Inv s (Reach-Inv i r)

at_most_once : (p : Phase) → (fired p ≤ 1) × (ended p ≤ 1)
at_most_once not_closed = (omega arith, omega arith)
at_most_once (wait_reads e) = (omega arith, omega arith)
at_most_once wait_writes = (omega arith, omega arith)
at_most_once deferred = (omega arith, omega arith)
at_most_once torn_down = (omega arith, omega arith)

pub not_open : (p : Phase) → p ≢ not_closed → is_open p ≡ false
not_open not_closed n = absurd (n refl)
not_open (wait_reads e) n = refl
not_open wait_writes n = refl
not_open deferred n = refl
not_open torn_down n = refl

-- Through the life of a new, inactive channel with an open connection, in any interleaving of its
-- goroutines, the OnChannelClosed hooks are fired at most once, `done` is closed at most once (so
-- closing it never panics) and the pipeline is released as often; once the connection is closed, the
-- hooks were fired and `done` was closed.
pub closing_once :
    (ch : Channel) {l : Life}
    → (ch.state ≡ inactive) × (ch.conn_active ≡ true)
    → Reach (new_life ch) l
    → (l.hooks_fired ≤ 1)
      × (l.done_closed ≤ 1)
      × (l.released ≡ l.done_closed)
      × (l.ch.conn_active ≡ false → (l.hooks_fired ≡ 1) × (l.done_closed ≡ 1))
closing_once ch {l} h r =
    let i = Reach-Inv (new-Inv ch h) r in
    (
      rw i.hooks (at_most_once l.phase).0,
      rw i.done (at_most_once l.phase).1,
      i.released ∙ sym i.done,
      λ c. (i.hooks ∙ ap fired (i.conn c), i.done ∙ ap ended (i.conn c)),
    )

refused :
    (old : ℕ) (e : Option Error) (l : Life)
    → l.ch.state ≡ 0
    → close old e l ≡ (err channel_closed, l)
unfolding close
refused old e l s = ground arith

still_inactive : (ch : Channel) → ch.state ≡ 0 → is_active ch ≡ false
unfolding is_active
still_inactive ch s = rw s refl

-- Through the life of a new, inactive channel, once a `Close` was accepted (the phase is no longer
-- the first), no later `Close` is, whatever state it loaded: it answers that the channel is closed
-- and changes nothing, and the channel is inactive.
pub close-once :
    (ch : Channel) {l : Life} (old : ℕ) (e : Option Error)
    → (ch.state ≡ inactive) × (ch.conn_active ≡ true)
    → Reach (new_life ch) l
    → l.phase ≢ not_closed
    → (close old e l ≡ (err channel_closed, l)) × (is_active l.ch ≡ false)
unfolding close is_active
close-once ch {l} old e h r c =
    let s = (Reach-Inv (new-Inv ch h) r).closed_state (not_open l.phase c) in
    (refused old e l s, still_inactive l.ch s)

-- `Close` can fail on an open channel: on a channel in the state 3 with an open connection, when
-- another goroutine closes the reader between the load of the state and the exchange, it answers
-- that the channel was closed, changes nothing, and the channel is still active.
pub close-lost_race :
    (l : Life) (e : Option Error)
    → l.ch.state ≡ 3
    → l.ch.conn_active ≡ true
    → let l' = with_channel l (close_reader l.ch) in
      (close l.ch.state e l' ≡ (err channel_closed, l')) × (is_active l'.ch ≡ true)
unfolding close is_active close_reader
close-lost_race l e s c = rw (s, c) (refl, refl)
