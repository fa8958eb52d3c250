-- ===== src/Pool.antt =====
-- The goroutine pool (pkg/pool/go/goroutine.go). A task is named by a number. The pool of
-- github.com/panjf2000/ants is an argument.
use less.Base.{
  ℕ, ◌+◌, ◌^◌, ◌≡◌, refl, sym, ap, ◌∙◌, Bool, true, List, [], ◌∷◌, Option, none, some, Error, arith,
  ◌==◌, if◌then◌else◌,
}

-- An ants.Pool, with its state `P`. `new_pool` answers with no pool beside an error.
pub record Ants (P : Type 0) : Type 0 where
  pub new_pool : ℕ → Option P
  pub submit : ℕ → P → Option Error × P
  pub release : P → P
  pub reboot : P → P

-- What the package relies on: a task that is accepted is the pool's to run, a task that is refused is
-- not; a pool that is open stays so when it is given a task, and is not changed by `Reboot`, which opens
-- a closed one.
pub record AntsLaws {P : Type 0} (ants : Ants P) : Type 0 where
  pub tasks : P → List ℕ
  pub is_open : P → Bool
  pub accepts :
      (task : ℕ) (p : P)
      → (ants.submit task p).0 ≡ none
      → tasks (ants.submit task p).1 ≡ task ∷ tasks p
  pub refuses :
      (task : ℕ) (p : P) {e : Error}
      → (ants.submit task p).0 ≡ some e
      → tasks (ants.submit task p).1 ≡ tasks p
  pub stays_open : (task : ℕ) (p : P) → is_open p ≡ true → is_open (ants.submit task p).1 ≡ true
  pub reboots : (p : P) → is_open p ≡ true → ants.reboot p ≡ p

-- `global` and `DefaultAntsPoolSize`, and the tasks that were given a goroutine of their own.
pub record GoPool (P : Type 0) : Type 0 where
  pub global : Option P
  pub default_size : ℕ
  pub spawned : List ℕ

-- Before `Init`.
unfoldable pub no_pool : {P : Type 0} → GoPool P
no_pool = record { global = none; default_size = 2 ^ 18; spawned = [] }

module _ {P : Type 0} (ants : Ants P) where
  -- An old pool is released, and a new one takes its place.
  unfoldable pub init : GoPool P → GoPool P
  init g = record g { global = ants.new_pool g.default_size }

  spawn : ℕ → GoPool P → GoPool P
  spawn task g = record g { spawned = task ∷ g.spawned }

  -- `err == nil` returns; with an error, a warning is logged and the task has a goroutine of its own.
  answered : ℕ → Option Error × P → GoPool P → GoPool P
  unfolding spawn
  answered task (none, p) g = record g { global = some p }
  answered task (some e, p) g = spawn task (record g { global = some p })

  submit_to : Option P → ℕ → GoPool P → GoPool P
  unfolding answered
  submit_to none task g = spawn task g
  submit_to (some p) task g = answered task (ants.submit task p) g

  unfoldable pub submit : ℕ → GoPool P → GoPool P
  unfolding submit_to answered spawn
  submit task g = submit_to g.global task g

  unfoldable pub submit_all : List ℕ → GoPool P → GoPool P
  submit_all [] g = g
  submit_all (task ∷ tasks) g = submit_all tasks (submit task g)

  rebooted : Option P → Option P
  rebooted none = none
  rebooted (some p) = some (ants.reboot p)

  unfoldable pub release : GoPool P → GoPool P
  unfolding rebooted
  release g = record g { global = rebooted g.global }

-- How often a task stands in a list.
abbrev pub occurrences : ℕ → List ℕ → ℕ
occurrences t [] = 0
occurrences t (x ∷ xs) = (if x == t then 1 else 0) + occurrences t xs

module _ {P : Type 0} (ants : Ants P) (laws : AntsLaws ants) where
  open laws use {tasks, is_open, accepts, refuses, stays_open, reboots}

  abbrev pub pooled : Option P → List ℕ
  pooled none = []
  pooled (some p) = tasks p

  -- How often the pool or a goroutine of its own has a task.
  abbrev pub running : ℕ → GoPool P → ℕ
  running t g = occurrences t (pooled g.global) + occurrences t g.spawned

  answered-running :
      (t task : ℕ) (p : P) (g : GoPool P) (r : Option Error × P)
      → g.global ≡ some p
      → (r.0 ≡ none → tasks r.1 ≡ task ∷ tasks p)
      → ((e : Error) → r.0 ≡ some e → tasks r.1 ≡ tasks p)
      → running t (answered ants task r g) ≡ (if task == t then 1 else 0) + running t g
  unfolding answered spawn
  answered-running t task p g (none, q) has fine failed =
      let a : occurrences t (tasks q) ≡ (if task == t then 1 else 0) + occurrences t (tasks p) =
        ap (occurrences t) (fine refl) in
      let b : occurrences t (pooled g.global) ≡ occurrences t (tasks p) =
        ap (λ o. occurrences t (pooled o)) has in
      omega (arith, a, b)
  answered-running t task p g (some e, q) has fine failed =
      let a : occurrences t (tasks q) ≡ occurrences t (tasks p) =
        ap (occurrences t) (failed e refl) in
      let b : occurrences t (pooled g.global) ≡ occurrences t (tasks p) =
        ap (λ o. occurrences t (pooled o)) has in
      omega (arith, a, b)

  submit_to-running :
      (o : Option P) (t task : ℕ) (g : GoPool P)
      → g.global ≡ o
      → running t (submit_to ants o task g) ≡ (if task == t then 1 else 0) + running t g
  unfolding submit_to spawn
  submit_to-running none t task g has = omega arith
  submit_to-running (some p) t task g has =
      answered-running t task p g (ants.submit task p) has (accepts task p) (λ e. refuses task p)

  -- Whether there is a pool or not, and whatever tasks it refuses: of the tasks that are submitted, each
  -- is run as often as it was submitted, by the pool or by a goroutine of its own.
  pub submit_all-running :
      (t : ℕ) (ts : List ℕ) (g : GoPool P)
      → running t (submit_all ants ts g) ≡ occurrences t ts + running t g
  unfolding submit_all submit
  submit_all-running t [] g = omega arith
  submit_all-running t (task ∷ ts) g =
      let a = submit_to-running g.global t task g refl in
      let b = submit_all-running t ts (submit ants task g) in omega (arith, a, b)

  -- Releasing the package's pool leaves an open pool as it is: it still takes tasks.
  pub release-keeps :
      (g : GoPool P) (p : P) → g.global ≡ some p → is_open p ≡ true → release ants g ≡ g
  unfolding release rebooted
  release-keeps g p has up =
      ap (λ o. record g { global = o }) (ap (rebooted ants) has ∙ ap some (reboots p up) ∙ sym has)

  -- The package's pool is there and open.
  abbrev pub IsOpen : GoPool P → Type 0
  IsOpen g = (p : P) × ((g.global ≡ some p) × (is_open p ≡ true))

  answered-IsOpen :
      (task : ℕ) (r : Option Error × P) (g : GoPool P)
      → is_open r.1 ≡ true
      → IsOpen (answered ants task r g)
  unfolding answered spawn
  answered-IsOpen task (none, q) g up = (q, (refl, up))
  answered-IsOpen task (some e, q) g up = (q, (refl, up))

  submit_to-IsOpen :
      (task : ℕ) (o : Option P) (g : GoPool P)
      → g.global ≡ o
      → IsOpen g
      → IsOpen (submit_to ants o task g)
  unfolding submit_to
  submit_to-IsOpen task none g is (p, (has, up)) = absurd (missing (sym is ∙ has))
    where
      missing : none ≡ some p → ⊥
      missing h = ground arith
  submit_to-IsOpen task (some q) g is (p, (has, up)) =
      let same : q ≡ p = cc in
      answered-IsOpen task (ants.submit task q) g (stays_open task q (ap is_open same ∙ up))

  pub submit_all-IsOpen : (ts : List ℕ) (g : GoPool P) → IsOpen g → IsOpen (submit_all ants ts g)
  unfolding submit_all submit
  submit_all-IsOpen [] g h = h
  submit_all-IsOpen (task ∷ ts) g h =
      submit_all-IsOpen ts (submit ants task g) (submit_to-IsOpen task g.global g refl h)
