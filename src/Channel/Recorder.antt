-- ===== src/Channel/Recorder.antt =====
-- The task counters of a channel (internal/channel/waitgroup.go, and Recorder and addTask of
-- internal/channel/channel.go).
use less.Base.{
  ℕ, ◌+◌, ◌≤◌, ◌≡◌, ap, ◌∙◌, true, false, Outcome, ok, err, panic, hang, some, arith, ◌==◌,
  IsReturned, Bool-cases, inl, inr,
}
use native.Mathlib.Numerals.{add-one}
use less.Codec.{Message}
use less.Pipeline.{Context, Handler}
use less.Channel.{
  WaitGroup, wait_group_add, wait_group_done, done_one, Channel, add_task, recorder, after_handler,
  finish_task, read_event, write_event,
}

-- The counter of all tasks is the sum of the other two.
abbrev pub IsBalanced : WaitGroup → Type 0
IsBalanced wg = wg.all_task ≡ wg.read_task + wg.write_task

done_one-add : (n : ℕ) → done_one (n + 1) ≡ some n
unfolding done_one
done_one-add n = rw add-one

done-read :
    (event : ℕ) (wg : WaitGroup)
    → (event == read_event) ≡ true
    → wait_group_done event (wait_group_add event wg) ≡ ok wg
unfolding wait_group_add wait_group_done
done-read event wg e = rw e (rw (done_one-add wg.read_task, done_one-add wg.all_task))

done-write :
    (event : ℕ) (wg : WaitGroup)
    → (event == read_event) ≡ false
    → (event == write_event) ≡ true
    → wait_group_done event (wait_group_add event wg) ≡ ok wg
unfolding wait_group_add wait_group_done
done-write event wg e f = rw (e, f) (rw (done_one-add wg.write_task, done_one-add wg.all_task))

done-other :
    (event : ℕ) (wg : WaitGroup)
    → (event == read_event) ≡ false
    → (event == write_event) ≡ false
    → wait_group_done event (wait_group_add event wg) ≡ ok wg
unfolding wait_group_add wait_group_done
done-other event wg e f = rw (e, f)

done-add : (event : ℕ) (wg : WaitGroup) → wait_group_done event (wait_group_add event wg) ≡ ok wg
done-add event wg = elim (Bool-cases (event == read_event)) [
  | inl e ↦ done-read event wg e
  | inr e ↦ elim (Bool-cases (event == write_event)) [
    | inl f ↦ done-write event wg e f
    | inr f ↦ done-other event wg e f
  ]
]

-- On balanced counters, `Add` keeps them balanced, and `Done` of the same event undoes it without a
-- panic; an event other than ReadEvent and WriteEvent changes no counter.
pub add_done-IsBalanced :
    (event : ℕ) (wg : WaitGroup)
    → IsBalanced wg
    → IsBalanced (wait_group_add event wg)
      × (wait_group_done event (wait_group_add event wg) ≡ ok wg)
      × (2 ≤ event → wait_group_add event wg ≡ wg)
add_done-IsBalanced event wg b = (
  unfold wait_group_add in ground arith,
  done-add event wg,
  λ h. unfold wait_group_add in ground arith,
)

add_task-tasks :
    (event now : ℕ) (ch : Channel) → (add_task event now ch).tasks ≡ wait_group_add event ch.tasks
unfolding add_task
add_task-tasks event now ch = ground arith

module _ (event now : ℕ) (h : Handler Channel) (ctx : Context) (m : Message) (ch ch' : Channel)
    (kept : ch'.tasks ≡ (add_task event now ch).tasks) where
  done_kept : wait_group_done event ch'.tasks ≡ ok ch.tasks
  done_kept =
      ap (wait_group_done event) (kept ∙ add_task-tasks event now ch) ∙ done-add event ch.tasks

  -- The recorder passes on what its handler returns (a value or an error), and a handler that
  -- returns with the task counters as it found them leaves them, behind the recorder, as they were
  -- before the message.
  pub recorder-returns :
      (o : Outcome (Unit {0}))
      → IsReturned o
      → h ctx m (add_task event now ch) ≡ (o, ch')
      → recorder event now h ctx m ch ≡ (o, record ch' { tasks = ch.tasks })
  unfolding recorder after_handler finish_task
  recorder-returns (ok a) r e = rw e (rw done_kept)
  recorder-returns (err x) r e = rw e (rw done_kept)
  recorder-returns panic r e = absurd r
  recorder-returns hang r e = absurd r

  -- Behind a handler for read events that panics with the task counters as it found them, the
  -- recorder panics with the task still counted: no call of `Done` follows.
  pub recorder-panics :
      event ≡ read_event
      → h ctx m (add_task event now ch) ≡ (panic, ch')
      → (recorder event now h ctx m ch ≡ (panic, ch'))
        × (ch'.tasks.read_task ≡ ch.tasks.read_task + 1)
  unfolding recorder after_handler wait_group_add
  recorder-panics read e = (
    rw e,
    ap (λ wg. wg.read_task) (kept ∙ add_task-tasks event now ch)
        ∙ ap (λ e. (wait_group_add e ch.tasks).read_task) read,
  )
