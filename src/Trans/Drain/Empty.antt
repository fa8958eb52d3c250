-- ===== src/Trans/Drain/Empty.antt =====
-- The register when `Close` returns (internal/trans/trans_handler.go, Close).
use less.Base.{
  ℕ, ◌+◌, ◌≡◌, ap, ◌∙◌, ◌⊎◌, inl, inr, subst, Bool, true, false, List, [], ◌∷◌, ◌++◌, Option, some,
  Error, ok, arith, length,
}
use less.Channel.{is_active}
use less.Channel.Closing.{close}
use less.Trans.{TransHandler, closed, load, close_life}
use less.Trans.Registry.{Distinct}
use less.Trans.Connect.{inactive}
use less.Trans.Listed.{IsListed, IsListed-more, nothing_listed}
use less.Trans.Goroutines.{
  Task, removing, removed, counted_off, ranging, activated, counted, stored, failed, hooks, World,
  run, hooks_of, Move, goes, finds, loses_conn, closes,
}
use less.Trans.Serving.{all_between, IsCounted, Move-IsCounted}
use less.Trans.Drain.{
  Reach, here, next, awaited, all_awaited, Answers, connecting, all_connecting,
  all_connecting-append, Holds, Covers, Any, Any-behind, Any-goes, Any-new,
}
use less.Trans.Drain.Keeping.{
  Kept, closing_stays, run-Kept, run-lists, run-Covers, run-Distinct, run-connecting,
  closed_by-connecting,
}

-- What holds from the start of closing `th` on, as long as no connect is under way.
record Inv (th : TransHandler) (w : World) : Type 0 where
  calm : all_connecting w.tasks ≡ 0
  distinct : Distinct w.handler.channels
  counts : IsCounted w
  covered : (id : ℕ) → IsListed id w.handler.channels → Any (Covers id) w.tasks
  kept : (id : ℕ) → IsListed id th.channels → Kept id w.handler w.tasks

goes-Kept :
    (id : ℕ) (w : World) (before : List Task) (t : Task) (after : List Task)
    → w.tasks ≡ before ++ (t ∷ after)
    → connecting t ≡ 0
    → Kept id w.handler w.tasks
    → Kept id (run t w.handler).1 (before ++ ((run t w.handler).0 ++ after))
goes-Kept id w before t after is c h = elim h [
  | inl l ↦ placed (run-Kept id t w.handler c (inl l))
  | inr (inl z) ↦ placed (run-Kept id t w.handler c (inr (inl z)))
  | inr (inr a) ↦
      elim (Any-goes (Holds id) before t (run t w.handler).0 after (subst (Any (Holds id)) is a)) [
        | inl p ↦ placed (run-Kept id t w.handler c (inr (inr (inl p))))
        | inr others ↦ inr (inr others)
      ]
]
  where
    placed :
        Kept id (run t w.handler).1 (run t w.handler).0
        → Kept id (run t w.handler).1 (before ++ ((run t w.handler).0 ++ after))
    placed (inl l) = inl l
    placed (inr (inl z)) = inr (inl z)
    placed (inr (inr a)) = inr (inr (Any-new (Holds id) before (run t w.handler).0 after a))

-- Range comes to another key: it covers what it covered.
more-Covers :
    (id : ℕ) (before : List Task) (e : Option Error) (left : List (ℕ × Bool)) (after : List Task)
    (k : ℕ) (v : Bool)
    → Any (Covers id) (before ++ (ranging e left ∷ after))
    → Any (Covers id) (before ++ (ranging e ((k, v) ∷ left) ∷ after))
more-Covers id [] e left after k v (inl l) = inl (IsListed-more id k v left l)
more-Covers id [] e left after k v (inr h) = inr h
more-Covers id (t ∷ before) e left after k v (inl p) = inl p
more-Covers id (t ∷ before) e left after k v (inr h) =
    inr (more-Covers id before e left after k v h)

more-Holds :
    (id : ℕ) (before : List Task) (e : Option Error) (left : List (ℕ × Bool)) (after : List Task)
    (k : ℕ) (v : Bool)
    → Any (Holds id) (before ++ (ranging e left ∷ after))
    → Any (Holds id) (before ++ (ranging e ((k, v) ∷ left) ∷ after))
more-Holds id [] e left after k v (inl p) = absurd p
more-Holds id [] e left after k v (inr h) = inr h
more-Holds id (t ∷ before) e left after k v (inl p) = inl p
more-Holds id (t ∷ before) e left after k v (inr h) = inr (more-Holds id before e left after k v h)

module _ (th : TransHandler) where
  Move-Inv : {w w' : World} → Move w w' → Inv th w → Inv th w'
  unfolding close_life
  Move-Inv {w} (goes before t after is) i =
      let r = run t w.handler in
      let split = ap all_connecting is ∙ all_connecting-append before (t ∷ after) in
      let c : connecting t ≡ 0 = omega (arith, i.calm, split) in
      record {
        calm = omega (
          arith,
          i.calm,
          split,
          run-connecting t w.handler c,
          all_connecting-append before (r.0 ++ after),
          all_connecting-append r.0 after,
        );
        distinct = run-Distinct t w.handler c i.distinct;
        counts = Move-IsCounted {w = w} (goes before t after is) i.counts;
        covered = λ id h.
            elim (Any-goes (Covers id) before t r.0 after
              (subst (Any (Covers id)) is (i.covered id (run-lists id t w.handler c h)))) [
                | inl p ↦
                    Any-new (Covers id) before r.0 after (run-Covers id t w.handler i.distinct p h)
                | inr others ↦ others
              ];
        kept = λ id h. goes-Kept id w before t after is c (i.kept id h);
      }
  Move-Inv {w} (finds before e left after id v is) i = record {
    calm = omega (
      arith,
      i.calm,
      ap all_connecting is,
      all_connecting-append before (ranging e left ∷ after),
      all_connecting-append before (ranging e ((id, v) ∷ left) ∷ after),
    );
    distinct = i.distinct;
    counts = Move-IsCounted {w = w} (finds before e left after id v is) i.counts;
    covered =
        λ k h. more-Covers k before e left after id v (subst (Any (Covers k)) is (i.covered k h));
    kept = λ k h. elim (i.kept k h) [
      | inl l ↦ inl l
      | inr (inl z) ↦ inr (inl z)
      | inr (inr a) ↦ inr (inr (more-Holds k before e left after id v (subst (Any (Holds k)) is a)))
    ];
  }
  Move-Inv {w} (loses_conn id e) i = record {
    calm = omega (arith, i.calm);
    distinct = i.distinct;
    counts = Move-IsCounted {w = w} (loses_conn id e) i.counts;
    covered = λ k h. inr (i.covered k h);
    kept = λ k h. elim (i.kept k h) [
      | inl l ↦ inl l
      | inr (inl z) ↦ inr (inl z)
      | inr (inr a) ↦ inr (inr (inr a))
    ];
  }
  Move-Inv {w} (closes id e) i =
      let o = (close (w.handler.lives id).ch.state e (w.handler.lives id)).0 in
      record {
        calm = omega (
          arith,
          i.calm,
          closed_by-connecting id e o,
          all_connecting-append (hooks_of id e o) w.tasks,
        );
        distinct = i.distinct;
        counts = Move-IsCounted {w = w} (closes id e) i.counts;
        covered = λ k h. Any-behind (Covers k) (hooks_of id e o) w.tasks (i.covered k h);
        kept = λ k h. elim (i.kept k h) [
          | inl l ↦ inl l
          | inr (inl z) ↦ inr (inl (closing_stays k id e w.handler z))
          | inr (inr a) ↦ inr (inr (Any-behind (Holds k) (hooks_of id e o) w.tasks a))
        ];
      }

  Reach-Inv : {w w' : World} → Inv th w → Reach w w' → Inv th w'
  Reach-Inv i here = i
  Reach-Inv i (next r m) = Move-Inv m (Reach-Inv i r)

one_awaited : (id : ℕ) (t : Task) → awaited t ≡ 0 → Covers id t → ⊥
one_awaited id (ranging e left) z p = omega (arith, z)
one_awaited id (removing k e true) z p = omega (arith, z)
one_awaited id (removing k e false) z p = p
one_awaited id (activated k keeper) z p = p
one_awaited id (counted k keeper) z p = p
one_awaited id (stored k) z p = p
one_awaited id (failed k e) z p = p
one_awaited id (removed k e mine) z p = p
one_awaited id (counted_off k e mine) z p = p
one_awaited id (hooks k e) z p = p

none_awaited : (id : ℕ) (ts : List Task) → all_awaited ts ≡ 0 → Any (Covers id) ts → ⊥
none_awaited id [] z h = h
none_awaited id (t ∷ ts) z (inl p) = one_awaited id t (omega (arith, z)) p
none_awaited id (t ∷ ts) z (inr h) = none_awaited id ts (omega (arith, z)) h

-- `Close` of a handler in whose map no key is twice is called, while no connect is under way, and while the
-- other goroutines `others` may be anywhere in closing channels, the count being off by those between
-- LoadAndDelete and Dec. However they all interleave, as long as no one closes one side of a channel:
-- once `Close` returns without an error, no channel is registered, the count is the number of the
-- goroutines between LoadAndDelete and Dec, and each channel that was registered is not active, or in
-- the hands of a goroutine on the way to its `ch.Close`.
pub closing-drains :
    (e context : Option Error) (th : TransHandler) (others : List Task) (w : World)
    → Distinct th.channels
    → th.channel_count ≡ length th.channels + all_between others
    → all_connecting others ≡ 0
    → Reach
        (record { handler = record th { status = closed }; tasks = ranging e th.channels ∷ others })
        w
    → Answers w context (ok tt)
    → (w.handler.channels ≡ [])
      × (w.handler.channel_count ≡ all_between w.tasks)
      × ((id : ℕ) (v : Bool)
          → load id th.channels ≡ some v
          → (is_active (w.handler.lives id).ch ≡ false) ⊎ Any (Holds id) w.tasks)
closing-drains e context th others w distinct counts calm r answers =
    let i =
      Reach-Inv th
        (record {
          calm = omega (arith, calm);
          distinct = distinct;
          counts = omega (arith, counts);
          covered = λ id h. inl h;
          kept = λ id h. inl h;
        })
        r in
    let free : (id : ℕ) → IsListed id w.handler.channels → ⊥ =
      λ id h. none_awaited id w.tasks answers (i.covered id h) in
    let empty = nothing_listed w.handler.channels free in
    (
      empty,
      omega (arith, i.counts, ap length empty),
      λ id v found. elim (i.kept id (v, found)) [
        | inl h ↦ absurd (free id h)
        | inr (inl z) ↦ inl (inactive (w.handler.lives id).ch z)
        | inr (inr a) ↦ inr a
      ],
    )
