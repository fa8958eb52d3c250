-- ===== src/Channel/Closing/Ending.antt =====
-- The goroutine that `Close` starts comes to its end once the tasks do
-- (internal/channel/channel.go, Close; internal/channel/waitgroup.go).
use less.Base.{
  ℕ, zero, suc, ◌+◌, ◌≡◌, ◌≢◌, refl, subst, false, Option, none, some, Error, ok, arith, ◌==◌, not,
  ◌||◌,
}
use less.Channel.{
  inactive, close_bits, read_event, write_event, wait_group_done, done_one, with_read, with_write,
}
use less.Channel.Closing.{
  wait_reads, torn_down, Life, close, fire_hooks, tear_down, with_channel, Reach, ends, reads_done,
  writes_done, returns, here, next,
}

abbrev with_tasks : (read write all : ℕ) → Life → Life
with_tasks read write all l =
    with_channel l
      (record (l.ch) { tasks = record { read_task = read; write_task = write; all_task = all } })

module _ {start : Life} where
  reads_end :
      (read write all : ℕ) (l : Life)
      → all ≡ read + write
      → Reach start (with_tasks read write all l)
      → Reach start (with_tasks 0 write write l)
  unfolding wait_group_done done_one with_read
  reads_end zero write all l balanced r =
      let same : all ≡ write = omega arith in
      subst (λ a. Reach start (with_tasks 0 write a l)) same r
  reads_end (suc read) write zero l balanced r = absurd (omega arith)
  reads_end (suc read) write (suc all) l balanced r = reads_end read write all l (omega arith) (
      next r (
        ends (with_tasks (suc read) write (suc all) l) read_event
          (record { read_task = read; write_task = write; all_task = all }) refl))

  writes_end :
      (write : ℕ) (l : Life)
      → Reach start (with_tasks 0 write write l)
      → Reach start (with_tasks 0 0 0 l)
  unfolding wait_group_done done_one with_write
  writes_end zero l r = r
  writes_end (suc write) l r = writes_end write l (
      next r (
        ends (with_tasks 0 (suc write) (suc write) l) write_event
          (record { read_task = 0; write_task = write; all_task = write }) refl))

-- The channel is torn down: since `l` the hooks were fired once, `done` closed once and the pipeline
-- released once, and the connection is closed.
pub record IsTornDown (l l' : Life) : Type 0 where
  pub phase : l'.phase ≡ torn_down
  pub conn : l'.ch.conn_active ≡ false
  pub hooks : l'.hooks_fired ≡ l.hooks_fired + 1
  pub done : l'.done_closed ≡ l.done_closed + 1
  pub released : l'.released ≡ l.released + 1

closing : Option Error → Life → Life
unfolding close_bits
closing e l = record l {
  ch = close_bits inactive (record (l.ch) { state = inactive });
  phase = wait_reads e;
}

closes_open :
    (e : Option Error) (l : Life) → l.ch.state ≢ 0 → close l.ch.state e l ≡ (ok tt, closing e l)
unfolding close closing
closes_open e l up =
    let refused : (l.ch.state == inactive || not (l.ch.state == l.ch.state)) ≡ false =
      ground (arith, up) in
    rw refused refl

tears_down :
    (e : Option Error) (l : Life)
    → l.ch.tasks.all_task ≡ l.ch.tasks.read_task + l.ch.tasks.write_task
    → (l' : Life) × Reach (closing e l) l' × IsTornDown l l'
unfolding closing close_bits fire_hooks tear_down
tears_down none l balanced =
    let wg = l.ch.tasks in
    let l1 = closing none l in
    let r1 = reads_end wg.read_task wg.write_task wg.all_task l1 balanced here in
    let l2 = with_tasks 0 wg.write_task wg.write_task l1 in
    let r2 = next r1 (reads_done l2 none refl refl) in
    let r3 = writes_end wg.write_task (fire_hooks none l2) r2 in
    let l3 = with_tasks 0 0 0 (fire_hooks none l2) in
    (
      tear_down l3,
      next r3 (writes_done l3 refl refl),
      record { phase = refl; conn = refl; hooks = refl; done = refl; released = refl },
    )
tears_down (some x) l balanced =
    let wg = l.ch.tasks in
    let l1 = closing (some x) l in
    let r1 = reads_end wg.read_task wg.write_task wg.all_task l1 balanced here in
    let l2 = with_tasks 0 wg.write_task wg.write_task l1 in
    let r2 = next r1 (reads_done l2 (some x) refl refl) in
    let l3 = fire_hooks (some x) l2 in
    (
      tear_down l3,
      next r2 (returns l3 refl),
      record { phase = refl; conn = refl; hooks = refl; done = refl; released = refl },
    )

-- On a channel that is open in some direction, whose counter of all tasks is the sum of the reading and
-- the writing ones: a `Close` that no other goroutine overtakes is accepted, and its goroutine can come
-- to its end, once the tasks do.
pub close-completes :
    (e : Option Error) (l : Life)
    → l.ch.state ≢ 0
    → l.ch.tasks.all_task ≡ l.ch.tasks.read_task + l.ch.tasks.write_task
    → let r = close l.ch.state e l in (r.0 ≡ ok tt) × ((l' : Life) × Reach r.1 l' × IsTornDown l l')
close-completes e l up balanced = let c = closes_open e l up in rw c (refl, tears_down e l balanced)
