-- ===== src/Log/Global.antt =====
-- The global logger (log/global.go).
use less.Base.{
  ℕ, ◌≤◌, ◌≡◌, refl, sym, ap, ◌∙◌, Bool, true, false, ◌||◌, ◌&&◌, ◌++◌, List, [], ◌∷◌, none, some,
  Bytes, Outcome, ok, panic, leb, le→leb, ◌==◌, ==_iff, if◌then◌else◌, Bool-cases, inl, inr, arith,
}
use less.Pipeline.{Context}
use less.Log.{
  with_context_of, Printing, Logger, logger, full_logger, foreign, LogState, filtered, log,
  with_context, level_debug, level_info, level_warn, level_error, level_fatal,
}

module _ {V : Type 0} where
  unfoldable pub set_logger : Logger V → LogState V → LogState V
  set_logger l w = record w { global = l }

  unfoldable pub get_logger : LogState V → Logger V
  get_logger w = w.global

  -- The levels that the package has are LevelDebug to LevelFatal; the others are passed over.
  unfoldable pub filter_level : List ℕ → LogState V → LogState V
  filter_level [] w = w
  filter_level (l ∷ ls) w =
      filter_level ls
        (if leb l level_fatal then record w { filter_levels = l ∷ w.filter_levels } else w)

  -- `l.(*logger)`.
  as_logger : Logger V → Outcome (Logger V)
  as_logger (logger l ctx prefixes contains_valuer) =
      ok (full_logger (logger l ctx prefixes contains_valuer))
  as_logger (full_logger l) = panic
  as_logger (foreign to) = panic

  exit : LogState V → LogState V
  exit w = record w { exited = true }

module _ {V : Type 0} (printing : Printing V) where
  unfoldable pub new_context_logger : Context → LogState V → Outcome (Logger V)
  unfolding as_logger
  new_context_logger ctx w = as_logger (with_context printing ctx w.global).0

  unfoldable pub log_global : ℕ → List V → LogState V → LogState V
  log_global level kvs w = log printing w.global level kvs w

  say : ℕ → V → LogState V → LogState V
  say level text w = log printing w.global level (printing.msg_key ∷ text ∷ []) w

  unfoldable pub debug : List V → LogState V → LogState V
  unfolding say
  debug v w = say level_debug (printing.sprint v) w

  unfoldable pub debugf : Bytes → List V → LogState V → LogState V
  unfolding say
  debugf format v w = say level_debug (printing.sprintf format v) w

  unfoldable pub debugw : List V → LogState V → LogState V
  debugw kvs w = log printing w.global level_debug kvs w

  unfoldable pub info : List V → LogState V → LogState V
  unfolding say
  info v w = say level_info (printing.sprint v) w

  unfoldable pub infof : Bytes → List V → LogState V → LogState V
  unfolding say
  infof format v w = say level_info (printing.sprintf format v) w

  unfoldable pub infow : List V → LogState V → LogState V
  infow kvs w = log printing w.global level_info kvs w

  unfoldable pub warn : List V → LogState V → LogState V
  unfolding say
  warn v w = say level_warn (printing.sprint v) w

  unfoldable pub warnf : Bytes → List V → LogState V → LogState V
  unfolding say
  warnf format v w = say level_warn (printing.sprintf format v) w

  unfoldable pub warnw : List V → LogState V → LogState V
  warnw kvs w = log printing w.global level_warn kvs w

  unfoldable pub error : List V → LogState V → LogState V
  unfolding say
  error v w = say level_error (printing.sprint v) w

  unfoldable pub errorf : Bytes → List V → LogState V → LogState V
  unfolding say
  errorf format v w = say level_error (printing.sprintf format v) w

  unfoldable pub errorw : List V → LogState V → LogState V
  errorw kvs w = log printing w.global level_error kvs w

  unfoldable pub fatal : List V → LogState V → LogState V
  unfolding say exit
  fatal v w = exit (say level_fatal (printing.sprint v) w)

  unfoldable pub fatalf : Bytes → List V → LogState V → LogState V
  unfolding say exit
  fatalf format v w = exit (say level_fatal (printing.sprintf format v) w)

  unfoldable pub fatalw : List V → LogState V → LogState V
  unfolding exit
  fatalw kvs w = exit (log printing w.global level_fatal kvs w)

or_right : (a b : Bool) → b ≡ true → (a || b) ≡ true
or_right true b h = refl
or_right false b h = h

module _ {V : Type 0} (level : ℕ) where
  abbrev Drops : LogState V → Type 0
  Drops w = filtered level w.filter_levels ≡ true

  abbrev with_level : Bool → ℕ → LogState V → LogState V
  with_level known l w = if known then record w { filter_levels = l ∷ w.filter_levels } else w

  with_level-keeps :
      (known : Bool) (l : ℕ) (w : LogState V) → Drops w → Drops (with_level known l w)
  with_level-keeps true l w h = or_right (l == level) _ h
  with_level-keeps false l w h = h

  filter_level-keeps : (ls : List ℕ) (w : LogState V) → Drops w → Drops (filter_level ls w)
  unfolding filter_level
  filter_level-keeps [] w h = h
  filter_level-keeps (l ∷ ls) w h =
      filter_level-keeps ls (with_level (leb l level_fatal) l w)
        (with_level-keeps (leb l level_fatal) l w h)

  with_level-adds :
      (known : Bool) (l : ℕ) (w : LogState V)
      → known ≡ true
      → (l == level) ≡ true
      → Drops (with_level known l w)
  with_level-adds known l w k same = rw k (rw same refl)

  filter_level-Drops :
      (ls : List ℕ) (w : LogState V)
      → level ≤ level_fatal
      → filtered level ls ≡ true
      → Drops (filter_level ls w)
  unfolding filter_level
  filter_level-Drops [] w known h = ground arith
  filter_level-Drops (l ∷ ls) w known h = elim (Bool-cases (l == level)) [
    | inl same ↦ filter_level-keeps ls (with_level (leb l level_fatal) l w) (
        with_level-adds (leb l level_fatal) l w
          (le→leb _ _ (omega (arith, (==_iff l level).0 same))) same)
    | inr other ↦
        filter_level-Drops ls (with_level (leb l level_fatal) l w) known
          (sym (ap (λ b. b || filtered level ls) other) ∙ h)
  ]

one_more :
    (known_level same before known more : Bool)
    → (same ≡ true → known ≡ known_level)
    → ((if known then same || before else before) || (known_level && more))
      ≡ (before || (known_level && (same || more)))
one_more known_level false before true more h = refl
one_more known_level false before false more h = refl
one_more true true true known more h = rw (h refl) refl
one_more true true false known more h = rw (h refl) refl
one_more false true before known more h = rw (h refl) refl

module _ {V : Type 0} where
  levels_with :
      (known : Bool) (level l : ℕ) (w : LogState V)
      → filtered level (with_level level known l w).filter_levels ≡ (
          if known
          then (l == level) || filtered level w.filter_levels
          else filtered level w.filter_levels)
  levels_with true level l w = refl
  levels_with false level l w = refl

  filtered-exact :
      (level : ℕ) (ls : List ℕ) (w : LogState V)
      → filtered level (filter_level ls w).filter_levels
        ≡ filtered level w.filter_levels || (leb level level_fatal && filtered level ls)
  unfolding filter_level
  filtered-exact level [] w = ground arith
  filtered-exact level (l ∷ ls) w =
      filtered-exact level ls (with_level level (leb l level_fatal) l w)
      ∙ ap (λ b. b || (leb level level_fatal && filtered level ls))
          (levels_with (leb l level_fatal) level l w)
      ∙ one_more (leb level level_fatal) (l == level) (filtered level w.filter_levels)
          (leb l level_fatal) (filtered level ls)
          (λ same. ap (λ k. leb k level_fatal) ((==_iff l level).0 same))

  others_with :
      (known : Bool) (level l : ℕ) (w : LogState V)
      → let w' = with_level level known l w in
        (w'.written ≡ w.written) × (w'.global ≡ w.global) × (w'.exited ≡ w.exited)
  others_with true level l w = (refl, refl, refl)
  others_with false level l w = (refl, refl, refl)

  filter_level-others :
      (ls : List ℕ) (w : LogState V)
      → let w' = filter_level ls w in
        (w'.written ≡ w.written) × (w'.global ≡ w.global) × (w'.exited ≡ w.exited)
  unfolding filter_level
  filter_level-others [] w = (refl, refl, refl)
  filter_level-others (l ∷ ls) w =
      let (a, b, c) = others_with (leb l level_fatal) 0 l w in
      let (a', b', c') = filter_level-others ls (with_level 0 (leb l level_fatal) l w) in
      (a' ∙ a, b' ∙ b, c' ∙ c)

module _ {V : Type 0} (printing : Printing V) where
  -- Behind `FilterLevel` a *logger, as With and WithContext make it, writes nothing at a level that was
  -- filtered before or is among the given ones and one of the package's own, LevelDebug to LevelFatal;
  -- at every other level it hands the fields with its prefixes on, and nothing of the state is changed
  -- but the filter.
  pub filter_level-exact :
      (level : ℕ) (ls : List ℕ) (kvs prefixes : List V) (l : Logger V) (ctx : Context)
      (valuer : Bool) (w : LogState V)
      → let w' = filter_level ls w in
        (log printing (logger l ctx prefixes valuer) level kvs w' ≡ (
          if filtered level w.filter_levels || (leb level level_fatal && filtered level ls)
          then w'
          else log printing l level
              ((if valuer then printing.calculate_values ctx prefixes else prefixes) ++ kvs)
              w'))
        × (w'.written ≡ w.written)
        × (w'.global ≡ w.global)
        × (w'.exited ≡ w.exited)
  unfolding log
  filter_level-exact level ls kvs prefixes l ctx valuer w =
      let (a, b, c) = filter_level-others ls w in (rw (filtered-exact level ls w) refl, a, b, c)

  -- Where fatal messages are filtered, `Fatalw` with a *logger as the global one ends the process
  -- without having written anything.
  pub fatalw-silent :
      (ls : List ℕ) (kvs prefixes : List V) (l : Logger V) (ctx : Context) (valuer : Bool)
      (w : LogState V)
      → filtered level_fatal ls ≡ true
      → let w' = filter_level ls (set_logger (logger l ctx prefixes valuer) w) in
        fatalw printing kvs w' ≡ record w' { exited = true }
  unfolding fatalw exit log
  fatalw-silent ls kvs prefixes l ctx valuer w h =
      let own = logger l ctx prefixes valuer in
      let w' = filter_level ls (set_logger own w) in
      let kept : w'.global ≡ own =
        (filter_level-others ls (set_logger own w)).1 ∙ unfold set_logger in refl in
      let drops = filter_level-Drops level_fatal ls (set_logger own w) (omega arith) h in
      let dropped : log printing own level_fatal kvs w' ≡ w' = rw drops refl in
      ap exit (ap (λ g. log printing g level_fatal kvs w') kept ∙ dropped)

  some_logger :
      (c : ℕ) (l : Logger V)
      → (l' : Logger V) × (as_logger (with_context printing (some c) l).0 ≡ ok (full_logger l'))
  unfolding with_context with_context_of as_logger
  some_logger c (logger l ctx prefixes valuer) = (logger l (some c) prefixes valuer, refl)
  some_logger c (full_logger l) = (logger (full_logger l) (some c) [] false, refl)
  some_logger c (foreign to) = (logger (foreign to) (some c) [] false, refl)

  -- `NewContextLogger` with a context returns a logger, whatever the global logger is; without one it
  -- panics where the global logger is not one of the package's plain loggers.
  pub new_context_logger-panics :
      (w : LogState V)
      → ((c : ℕ) → (l : Logger V) × (new_context_logger printing (some c) w ≡ ok (full_logger l)))
        × ((to : ℕ) → new_context_logger printing none (set_logger (foreign to) w) ≡ panic)
  unfolding new_context_logger with_context as_logger set_logger
  new_context_logger-panics w = (λ c. some_logger c w.global, λ to. refl)
