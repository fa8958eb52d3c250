-- ===== src/Examples/Services.antt =====
-- The server, the goroutine pool and the loggers at concrete inputs (server, pkg/pool/go, log).
use less.Base.{
  ◌%◌, ℕ, ◌+◌, ◌*◌, ◌≡◌, refl, true, false, Bool, List, [], ◌∷◌, ◌++◌, Option, none, some, Error,
  custom, ok, length, arith, ◌==◌, Bool-cases, inl, inr, ◌||◌,
}
use less.Trans.Goroutines
use less.Trans.Options.{
  TransOptions, default_trans_options, handler_options, apply, with_max_channel_size,
  new_trans_handler,
}
use less.Keepalive.{consummate_health, consummate_go_away, consummate_keepalive_params, second}
use less.Pool.{Ants, AntsLaws, GoPool, init, submit_all, running, submit_all-running}
use less.Server
use less.Server.{
  ServerOptions, Process, Server, default_server_options, new_server, max_channel_size, run,
  parse_addr, join, Split,
}
use less.Server.Sharing.{new_server-shared}
use less.Log.{Printing, logger, foreign, LogState, with_kvs, log}
use less.Log.Prefixes.{with_kvs-twice}
use less.Log.Global.{filter_level, filter_level-exact}
use less.Examples.Servers.{handler, two, life}

-- A pool of two workers; its state is the list of their tasks.
abbrev take_task : List ℕ → ℕ → Option Error × List ℕ
take_task [] task = (none, task ∷ [])
take_task (a ∷ []) task = (none, task ∷ a ∷ [])
take_task (a ∷ b ∷ rest) task = (some (custom 8), a ∷ b ∷ rest)

abbrev workers : Ants (List ℕ)
workers = record {
  new_pool = λ n. some [];
  submit = λ task p. take_task p task;
  release = λ p. p;
  reboot = λ p. p;
}

take_task-accepts :
    (task : ℕ) (p : List ℕ) → (take_task p task).0 ≡ none → (take_task p task).1 ≡ task ∷ p
take_task-accepts task [] h = refl
take_task-accepts task (a ∷ []) h = refl
take_task-accepts task (a ∷ b ∷ rest) h = ground arith

take_task-refuses :
    (task : ℕ) (p : List ℕ) {e : Error} → (take_task p task).0 ≡ some e → (take_task p task).1 ≡ p
take_task-refuses task [] h = ground arith
take_task-refuses task (a ∷ []) h = ground arith
take_task-refuses task (a ∷ b ∷ rest) h = refl

worker_laws : AntsLaws workers
worker_laws = record {
  tasks = λ p. p;
  is_open = λ p. true;
  accepts = take_task-accepts;
  refuses = take_task-refuses;
  stays_open = λ task p h. refl;
  reboots = λ p h. refl;
}

abbrev pool : GoPool (List ℕ)
pool = record { global = some []; default_size = 2; spawned = [] }

submit_all-running_example :
    running workers worker_laws 7 (submit_all workers (7 ∷ 8 ∷ 7 ∷ []) pool)
    ≡ 2 + running workers worker_laws 7 pool
submit_all-running_example = submit_all-running workers worker_laws 7 (7 ∷ 8 ∷ 7 ∷ []) pool

-- net.SplitHostPort, as far as it is asked: the address `[:]:1` has the host `:`.
abbrev split : Split
split a = ((58 ∷ [], 49 ∷ []), none)

abbrev options : ServerOptions ℕ
options = record {
  addr = 49 ∷ [];
  port = 56 ∷ [];
  transport = 0;
  trans_options = [];
  disable_g_pool = false;
}

abbrev process : Process ℕ (List ℕ)
process = record {
  options = options;
  trans_defaults = default_trans_options 0;
  pool = pool;
  cancelled = [];
  exited = false;
}

-- Two servers with different limits, the first of which is run.
abbrev second_made : Process ℕ (List ℕ)
second_made =
    (new_server [] (max_channel_size 9 ∷ []) (new_server [] (max_channel_size 3 ∷ []) process).1).1

-- The options that the first server's handler is made of.
abbrev made : TransOptions ℕ
made = record (default_trans_options 0) {
  max_channel_size = 9;
  kp = record {
    max_channel_idle_time = 0;
    max_channel_age = 0;
    close_grace = 5 * second;
    health_params = some (record {
      time = 0;
      timeout = 0;
      ping = none;
      ping_recognizer = none;
      pong = none;
      pong_recognizer = none;
    });
    go_away_params = some (record { go_away = none; go_away_recognizer = none });
  };
}

abbrev running_server : Server
running_server = record {
  addr = 58 ∷ 58 ∷ 49 ∷ [];
  handler = some (new_trans_handler made (life 0));
}

abbrev after_run : Process ℕ (List ℕ)
after_run = record second_made { trans_defaults = made }

runs :
    run split workers (λ n. 0) (life 0) (record { addr = []; handler = none }) second_made
    ≡ (ok running_server, after_run)
unfolding default_trans_options handler_options consummate_keepalive_params apply
    with_max_channel_size consummate_health consummate_go_away new_server Server.apply
    max_channel_size run init parse_addr new_trans_handler
runs = refl

new_server-shared_example : (new_trans_handler made (life 0)).max_channel_size ≡ 9
unfolding new_server
new_server-shared_example =
    new_server-shared split workers (λ n. 0) (life 0) [] [] 3 9 process after_run running_server
      (new_trans_handler made (life 0)) runs refl

abbrev serving_server : Server
serving_server = record { addr = []; handler = some (handler 2 two) }

-- A schedule of the goroutines of `Close` for two channels.
abbrev picks : List ℕ
picks = 0 ∷ 0 ∷ 0 ∷ 0 ∷ 1 ∷ 1 ∷ 1 ∷ 1 ∷ 2 ∷ []

-- Keys and values are numbers, and the value 100 is a valuer.
abbrev has_valuer : List ℕ → Bool
has_valuer [] = false
has_valuer (k ∷ []) = false
has_valuer (k ∷ v ∷ kvs) = (v == 100) || has_valuer kvs

abbrev printing : Printing ℕ
printing = record {
  sprint = length;
  sprintf = λ format vs. length format;
  msg_key = 1;
  contains_valuer = has_valuer;
  calculate_values = λ ctx vs. vs;
}

has_valuer-append :
    (a b : List ℕ) → length a % 2 ≡ 0 → has_valuer (a ++ b) ≡ has_valuer a || has_valuer b
has_valuer-append [] b even = refl
has_valuer-append (k ∷ []) b even = absurd (omega (arith, even))
has_valuer-append (k ∷ v ∷ kvs) b even = elim (Bool-cases (v == 100)) [
  | inl e ↦ rw e refl
  | inr e ↦ rw e (has_valuer-append kvs b (omega (arith, even)))
]

with_kvs-twice_example :
    with_kvs printing (with_kvs printing (foreign 0) (5 ∷ 100 ∷ [])).0 (6 ∷ 7 ∷ [])
    ≡ with_kvs printing (foreign 0) (5 ∷ 100 ∷ 6 ∷ 7 ∷ [])
with_kvs-twice_example =
    with_kvs-twice printing has_valuer-append (foreign 0) (5 ∷ 100 ∷ []) (6 ∷ 7 ∷ []) refl refl

abbrev log_state : LogState ℕ
log_state = record { filter_levels = []; written = []; exited = false; global = foreign 0 }

filter_level-exact_example :
    let w = filter_level (1 ∷ 9 ∷ 2 ∷ []) log_state in
    (log printing (logger (foreign 0) (some 1) (3 ∷ 4 ∷ []) false) 9 (5 ∷ 6 ∷ []) w
      ≡ log printing (foreign 0) 9 (3 ∷ 4 ∷ 5 ∷ 6 ∷ []) w)
    × (w.written ≡ [])
    × (w.global ≡ foreign 0)
    × (w.exited ≡ false)
filter_level-exact_example =
    filter_level-exact printing 9 (1 ∷ 9 ∷ 2 ∷ []) (5 ∷ 6 ∷ []) (3 ∷ 4 ∷ []) (foreign 0) (some 1)
      false log_state
