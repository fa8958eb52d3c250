-- ===== src/Codec/Delimiter/Slack.antt =====
-- A stream with bytes held back behind a frame, and a limited reader's release in front of them
-- (codec/packet/delimiter.go, the deferred function of Decode).
use less.Base.{
  ℕ, ◌+◌, ◌-◌, ◌≤◌, ◌≡◌, refl, ap, ◌∙◌, Outcome, ok, err, panic, hang, Method, subst, arith, length,
  drop, drop-drop,
}
use less.Io.Reader.{Reader, Stream}
use less.Io.Limit.{LimitReader, limit_release}
use less.Io.Limit.Laws.{InFrame, Settles, limit_release-InFrame}
use less.Codec.Packet.{deferred}
use less.Codec.Packet.Decode.{Consumed}

module _ {S : Type 0} {api : Reader S} (stream : Stream api) (slack : ℕ) where
  open stream use {view, IsReady, enough, peek_law, next_law, skip_law, read_law}

  pub moved : (k n : ℕ) {s : S} → n ≤ k → IsReady (k + slack - n) s → IsReady (k - n + slack) s
  moved k n {s = s} h r =
      let e : k + slack - n ≡ k - n + slack = omega arith in subst (λ m. IsReady m s) e r

  -- The stream is ready for `slack` bytes more than it is asked for.
  abbrev pub with_slack : Stream api
  with_slack = record {
    view = view;
    IsReady = λ k s. IsReady (k + slack) s;
    enough = λ k s r. omega (arith, enough (k + slack) s r);
    peek_law = λ k n s r le. peek_law (k + slack) n s r (omega arith);
    next_law = λ k n s r le.
        let (s', e, v, r') = next_law (k + slack) n s r (omega arith) in
        (s', e, v, moved k n le r');
    skip_law = λ k n s r le.
        let (s', e, v, r') = skip_law (k + slack) n s r (omega arith) in
        (s', e, v, moved k n le r');
    read_law = λ k n s r le.
        let (g, s', e, f, r') = read_law (k + slack) n s r (omega arith) in
        (g, s', e, f, moved k (length g.got) (omega (arith, f.small)) r');
  }

  module _ (rest : Method S (Unit {0}))
      (rest_law : (s : S)
        → IsReady slack s
        → (s' : S) × (rest s ≡ (ok tt, s')) × (view s' ≡ drop slack (view s)) × IsReady 0 s') where
    abbrev Left : (limit : ℕ) (s : S) → LimitReader S → Type 0
    Left limit s l =
        (l' : LimitReader S) × (s' : S) × (limit_release api l ≡ (ok tt, l'))
        × (rest l'.decorator ≡ (ok tt, s'))
        × (view s' ≡ drop (limit + slack) (view s))
        × IsReady 0 s'

    release_then :
        (limit : ℕ) (s : S) (l : LimitReader S)
        → InFrame with_slack limit (view s) l
        → Left limit s l
    release_then limit s l i =
        let (l', e, i', left) = limit_release-InFrame with_slack limit (view s) l i in
        let none_left : l'.remain + slack ≡ slack = omega (arith, left) in
        let all : limit - l'.remain ≡ limit = omega (arith, left) in
        let (s', f, v, spent) =
          rest_law l'.decorator (subst (λ m. IsReady m l'.decorator) none_left i'.ready) in
        (
          l',
          s',
          e,
          f,
          v
              ∙ ap (drop slack) (i'.at ∙ ap (λ m. drop m (view s)) all)
              ∙ drop-drop slack limit (view s),
          spent,
        )

    -- The deferred call goes on behind the frame with `rest`, which takes the slack.
    pub deferred-Behind :
        {A : Type 0} (limit : ℕ) (s : S) (o : Outcome A × LimitReader S)
        → Settles with_slack limit (view s) o
        → Consumed stream (limit + slack) s (deferred api rest o) × ((deferred api rest o).0 ≡ o.0)
    unfolding deferred
    deferred-Behind limit s (ok a, l) h =
        let (l', s', e, f, v, r) = release_then limit s l h.inside in
        rw e (rw f (record { returned = tt; rest = v; spent = r }, refl))
    deferred-Behind limit s (err e, l) h =
        let (l', s', e', f, v, r) = release_then limit s l h.inside in
        rw e' (rw f (record { returned = tt; rest = v; spent = r }, refl))
    deferred-Behind limit s (panic, l) h = absurd h.returned
    deferred-Behind limit s (hang, l) h = absurd h.returned
