-- ===== src/Log.antt =====
-- The loggers (log/log.go, log/level.go). `V` is the type of what is logged. The printing of the fmt
-- package and the valuers of log/value.go are arguments.
pub mod Global
pub mod Prefixes
use less.Base.{
  ℕ, suc, ◌%◌, Bool, true, false, not, ◌||◌, List, [], ◌∷◌, ◌++◌, Option, none, some, Bytes, Error,
  custom, Outcome, ok, err, panic, length, ◌==◌, if◌then◌else◌,
}
use less.Pipeline.{Context}

-- A Level is a uint8.
abbrev pub level_debug : ℕ
level_debug = 0

abbrev pub level_info : ℕ
level_info = 1

abbrev pub level_warn : ℕ
level_warn = 2

abbrev pub level_error : ℕ
level_error = 3

abbrev pub level_fatal : ℕ
level_fatal = 4

unfoldable pub level_string : ℕ → Bytes
level_string level =
    if level == level_debug
    then 68 ∷ 69 ∷ 66 ∷ 85 ∷ 71 ∷ []
    else if level == level_info
    then 73 ∷ 78 ∷ 70 ∷ 79 ∷ []
    else if level == level_warn
    then 87 ∷ 65 ∷ 82 ∷ 78 ∷ []
    else if level == level_error
    then 69 ∷ 82 ∷ 82 ∷ 79 ∷ 82 ∷ []
    else if level == level_fatal
    then 70 ∷ 65 ∷ 84 ∷ 65 ∷ 76 ∷ []
    else []

abbrev pub kvs_not_in_paired : Error
kvs_not_in_paired = custom 1

abbrev pub context_is_nil : Error
context_is_nil = custom 2

abbrev pub not_support : Error
not_support = custom 3

-- fmt.Sprint and fmt.Sprintf, `DefaultMsgKey`, containsValuer and calculateValues.
pub record Printing (V : Type 0) : Type 0 where
  pub sprint : List V → V
  pub sprintf : Bytes → List V → V
  pub msg_key : V
  pub contains_valuer : List V → Bool
  pub calculate_values : Context → List V → List V

-- A value of the interface type Logger: a *logger, a *fullLogger around one, or another one: that of
-- log/std.go or one of another package.
pub data Logger (V : Type 0) : Type 0 where
  logger : (l : Logger V) (ctx : Context) (prefixes : List V) (contains_valuer : Bool) → Logger V
  full_logger : Logger V → Logger V
  foreign : ℕ → Logger V

-- What a foreign logger was given.
pub record Entry (V : Type 0) : Type 0 where
  pub to : ℕ
  pub level : ℕ
  pub kvs : List V

-- `filterLevels`, what was written, the last entry first, whether the process has exited, and `global`.
pub record LogState (V : Type 0) : Type 0 where
  pub filter_levels : List ℕ
  pub written : List (Entry V)
  pub exited : Bool
  pub global : Logger V

abbrev pub filtered : ℕ → List ℕ → Bool
filtered level [] = false
filtered level (l ∷ ls) = l == level || filtered level ls

module _ {V : Type 0} (printing : Printing V) where
  -- The method `Log` of each.
  unfoldable pub log : Logger V → (level : ℕ) → List V → LogState V → LogState V
  log (logger l ctx prefixes contains_valuer) level kvs w =
      let keyvals = if contains_valuer then printing.calculate_values ctx prefixes else prefixes in
      let logged = log l level (keyvals ++ kvs) w in
      if filtered level w.filter_levels then w else logged
  log (full_logger l) level kvs w = log l level kvs w
  log (foreign to) level kvs w = record w {
    written = record { to = to; level = level; kvs = kvs } ∷ w.written;
  }

  -- `With`: a *logger is copied, with more prefixes.
  with_paired : Logger V → List V → Logger V
  with_paired (logger l ctx prefixes contains_valuer) kvs =
      logger l ctx (prefixes ++ kvs) (contains_valuer || printing.contains_valuer kvs)
  with_paired l kvs = logger l (some 0) kvs (printing.contains_valuer kvs)

  unfoldable pub with_kvs : Logger V → List V → Logger V × Option Error
  unfolding with_paired
  with_kvs l kvs =
      if not (length kvs % 2 == 0) then (l, some kvs_not_in_paired) else (with_paired l kvs, none)

  with_context_of : Logger V → ℕ → Logger V
  with_context_of (logger l ctx prefixes contains_valuer) c =
      logger l (some c) prefixes contains_valuer
  with_context_of l c = logger l (some c) [] false

  unfoldable pub with_context : Context → Logger V → Logger V × Option Error
  unfolding with_context_of
  with_context none l = (l, some context_is_nil)
  with_context (some c) l = (with_context_of l c, none)

  -- `fl.l = d.(*logger)`, for the *fullLogger that the caller holds; the copy of a *logger is one.
  with_full : Logger V × Option Error → Logger V → Logger V × Option Error
  with_full (d, none) l = (full_logger d, none)
  with_full (d, some e) l = (full_logger l, some e)

  unfoldable pub with_full_logger : Logger V → List V → Logger V × Option Error
  unfolding with_full
  with_full_logger (full_logger l) kvs = with_full (with_kvs l kvs) l
  with_full_logger l kvs = (l, some not_support)

  -- The methods of a *fullLogger, around the *logger `l`.
  module _ (l : Logger V) where
    exit : LogState V → LogState V
    exit w = record w { exited = true }

    message : ℕ → V → LogState V → LogState V
    message level text = log l level (printing.msg_key ∷ text ∷ [])

    unfoldable pub full_log : ℕ → List V → LogState V → LogState V
    full_log level kvs = log l level kvs

    unfoldable pub debug : List V → LogState V → LogState V
    unfolding message
    debug v = message level_debug (printing.sprint v)

    unfoldable pub debugf : Bytes → List V → LogState V → LogState V
    unfolding message
    debugf format v = message level_debug (printing.sprintf format v)

    unfoldable pub debugw : List V → LogState V → LogState V
    debugw kvs = log l level_debug kvs

    unfoldable pub info : List V → LogState V → LogState V
    unfolding message
    info v = message level_info (printing.sprint v)

    unfoldable pub infof : Bytes → List V → LogState V → LogState V
    unfolding message
    infof format v = message level_info (printing.sprintf format v)

    unfoldable pub infow : List V → LogState V → LogState V
    infow kvs = log l level_info kvs

    unfoldable pub warn : List V → LogState V → LogState V
    unfolding message
    warn v = message level_warn (printing.sprint v)

    unfoldable pub warnf : Bytes → List V → LogState V → LogState V
    unfolding message
    warnf format v = message level_warn (printing.sprintf format v)

    unfoldable pub warnw : List V → LogState V → LogState V
    warnw kvs = log l level_warn kvs

    unfoldable pub error : List V → LogState V → LogState V
    unfolding message
    error v = message level_error (printing.sprint v)

    unfoldable pub errorf : Bytes → List V → LogState V → LogState V
    unfolding message
    errorf format v = message level_error (printing.sprintf format v)

    unfoldable pub errorw : List V → LogState V → LogState V
    errorw kvs = log l level_error kvs

    unfoldable pub fatal : List V → LogState V → LogState V
    unfolding message exit
    fatal v w = exit (message level_fatal (printing.sprint v) w)

    unfoldable pub fatalf : Bytes → List V → LogState V → LogState V
    unfolding message exit
    fatalf format v w = exit (message level_fatal (printing.sprintf format v) w)

    unfoldable pub fatalw : List V → LogState V → LogState V
    unfolding exit
    fatalw kvs w = exit (log l level_fatal kvs w)
