-- ===== src/Log/Prefixes.antt =====
-- The prefixes of a logger (log/log.go, With and Log).
use less.Base.{
  ◌%◌, ◌≡◌, refl, sym, ap, ◌∙◌, Bool, true, false, ◌||◌, List, ◌++◌, none, some, ◌==◌, ==_iff,
  length, length-append, append_assoc, arith,
}
use less.Log.{
  Printing, Logger, logger, full_logger, foreign, with_kvs, with_paired, with_full_logger,
  with_full, kvs_not_in_paired,
}

or_assoc : (a b c : Bool) → (a || b) || c ≡ a || (b || c)
or_assoc true b c = refl
or_assoc false b c = refl

module _ {V : Type 0} (printing : Printing V)
    (contains_append : (a b : List V)
      → length a % 2 ≡ 0
      → printing.contains_valuer (a ++ b)
        ≡ printing.contains_valuer a || printing.contains_valuer b) where
  paired_twice :
      (l : Logger V) (a b : List V)
      → length a % 2 ≡ 0
      → with_paired printing (with_paired printing l a) b ≡ with_paired printing l (a ++ b)
  unfolding with_paired
  paired_twice (logger l ctx prefixes v) a b even = λ i.
      logger l ctx (append_assoc prefixes a b i) (
        (or_assoc v (printing.contains_valuer a) (printing.contains_valuer b)
            ∙ ap (λ c. v || c) (sym (contains_append a b even)))
          i)
  paired_twice (full_logger l) a b even =
      λ i. logger (full_logger l) (some 0) (a ++ b) (sym (contains_append a b even) i)
  paired_twice (foreign to) a b even =
      λ i. logger (foreign to) (some 0) (a ++ b) (sym (contains_append a b even) i)

  in_pairs :
      (l : Logger V) (kvs : List V)
      → length kvs % 2 ≡ 0
      → with_kvs printing l kvs ≡ (with_paired printing l kvs, none)
  unfolding with_kvs
  in_pairs l kvs h = let e : (length kvs % 2 == 0) ≡ true = (==_iff _ _).1 h in rw e refl

  -- Where containsValuer, which looks at the values of a list of fields in pairs, finds one in two lists
  -- in a row if it does in either: fields in pairs that a logger is given one after the other are as
  -- good as given at once, the two loggers are the same.
  pub with_kvs-twice :
      (l : Logger V) (a b : List V)
      → length a % 2 ≡ 0
      → length b % 2 ≡ 0
      → with_kvs printing (with_kvs printing l a).0 b ≡ with_kvs printing l (a ++ b)
  with_kvs-twice l a b even_a even_b =
      let even : length (a ++ b) % 2 ≡ 0 = omega (arith, length-append {0} a b) in
      ap (λ r. with_kvs printing r.0 b) (in_pairs l a even_a)
      ∙ in_pairs (with_paired printing l a) b even_b
      ∙ ap (λ d. (d, none)) (paired_twice l a b even_a)
      ∙ sym (in_pairs l (a ++ b) even)

  -- Fields that do not come in pairs are refused: the logger stays as it is.
  pub with_full_logger-odd :
      (l : Logger V) (kvs : List V)
      → length kvs % 2 ≡ 1
      → with_full_logger printing (full_logger l) kvs ≡ (full_logger l, some kvs_not_in_paired)
  unfolding with_full_logger with_full with_kvs
  with_full_logger-odd l kvs odd = let e : (length kvs % 2 == 0) ≡ false = ground arith in rw e refl
