-- ===== src/Base/Windows.antt =====
-- Laws of list windows: what a prefix keeps under an overwrite, and cuts of cuts.
use Prim.Native.Nat.{ℕ, zero, suc, ◌+◌, ◌-◌, ◌≤◌}
use mathlib.Core.Path.{◌≡◌, refl, ap, ◌∙◌}
use mathlib.Core.List.{List, [], ◌∷◌, ◌++◌}
use native.Mathlib.Omega.{arith}
use less.Base.Lists.{length, take, drop, replicate, overwrite, overwrite_at, take_all}

module _ {ℓ} {A : Type ℓ} where
  pub take-drop : (m n k : ℕ) (xs : List A) → k ≡ m + n → take n (drop m xs) ≡ drop m (take k xs)
  take-drop zero n k xs e = let e' : n ≡ k = omega arith in ap (λ t. take t xs) e'
  take-drop (suc m) n zero xs e = absurd (omega arith)
  take-drop (suc m) zero (suc k) [] e = refl
  take-drop (suc m) (suc n) (suc k) [] e = refl
  take-drop (suc m) n (suc k) (x ∷ xs) e = take-drop m n k xs (omega arith)

  pub take-take : (m n : ℕ) (xs : List A) → m ≤ n → take m (take n xs) ≡ take m xs
  take-take zero n xs h = refl
  take-take (suc m) zero xs h = absurd (omega arith)
  take-take (suc m) (suc n) [] h = refl
  take-take (suc m) (suc n) (x ∷ xs) h = ap (λ r. x ∷ r) (take-take m n xs (omega arith))

  pub take-overwrite :
      (w : ℕ) (zs xs : List A)
      → w ≤ length xs
      → w ≤ length zs
      → take w (overwrite zs xs) ≡ take w xs
  take-overwrite zero zs xs h k = refl
  take-overwrite (suc w) zs [] h k = absurd (omega arith)
  take-overwrite (suc w) [] (x ∷ xs) h k = absurd (omega arith)
  take-overwrite (suc w) (z ∷ zs) (x ∷ xs) h k =
      ap (λ r. x ∷ r) (take-overwrite w zs xs (omega arith) (omega arith))

  take-overwrite_all :
      (k : ℕ) (xs ys : List A) → k ≡ length ys → k ≤ length xs → take k (overwrite xs ys) ≡ ys
  take-overwrite_all k xs ys e h =
      take-overwrite k xs ys (omega arith) h ∙ take_all k ys (omega arith)

  pub take-overwrite_at :
      (n k : ℕ) (xs ys : List A)
      → k ≡ n + length ys
      → k ≤ length xs
      → take k (overwrite_at n xs ys) ≡ take n xs ++ ys
  take-overwrite_at zero k xs ys e h = take-overwrite_all k xs ys (omega arith) h
  take-overwrite_at (suc n) zero xs ys e h = absurd (omega arith)
  take-overwrite_at (suc n) (suc k) [] ys e h = absurd (omega arith)
  take-overwrite_at (suc n) (suc k) (x ∷ xs) ys e h =
      ap (λ r. x ∷ r) (take-overwrite_at n k xs ys (omega arith) (omega arith))

  pub take_append_all : (n : ℕ) (xs ys : List A) → n ≡ length xs → take n (xs ++ ys) ≡ xs
  take_append_all n [] ys e = let e' : n ≡ 0 = e in ap (λ t. take t ys) e'
  take_append_all zero (x ∷ xs) ys e = absurd (omega arith)
  take_append_all (suc n) (x ∷ xs) ys e = ap (λ r. x ∷ r) (take_append_all n xs ys (omega arith))

  pub drop_append_all : (n : ℕ) (xs ys : List A) → n ≡ length xs → drop n (xs ++ ys) ≡ ys
  drop_append_all n [] ys e = let e' : n ≡ 0 = e in ap (λ t. drop t ys) e'
  drop_append_all zero (x ∷ xs) ys e = absurd (omega arith)
  drop_append_all (suc n) (x ∷ xs) ys e = drop_append_all n xs ys (omega arith)

  overwrite-append :
      (old new rest : List A) → length old ≡ length new → overwrite (old ++ rest) new ≡ new ++ rest
  overwrite-append [] [] rest e = refl
  overwrite-append [] (y ∷ ys) rest e = absurd (omega arith)
  overwrite-append (x ∷ xs) [] rest e = absurd (omega arith)
  overwrite-append (x ∷ xs) (y ∷ ys) rest e =
      ap (λ r. y ∷ r) (overwrite-append xs ys rest (omega arith))

  -- A write over the middle part.
  pub overwrite_at-append :
      (n : ℕ) (front old new rest : List A)
      → n ≡ length front
      → length old ≡ length new
      → overwrite_at n (front ++ (old ++ rest)) new ≡ front ++ (new ++ rest)
  overwrite_at-append zero [] old new rest e h = overwrite-append old new rest h
  overwrite_at-append (suc n) [] old new rest e h = absurd (omega arith)
  overwrite_at-append zero (x ∷ xs) old new rest e h = absurd (omega arith)
  overwrite_at-append (suc n) (x ∷ xs) old new rest e h =
      ap (λ r. x ∷ r) (overwrite_at-append n xs old new rest (omega arith) h)

  pub replicate-split :
      (k m : ℕ) (a : A) → m ≤ k → replicate k a ≡ replicate m a ++ replicate (k - m) a
  replicate-split k zero a h = let e : k ≡ k - 0 = omega arith in ap (λ t. replicate t a) e
  replicate-split zero (suc m) a h = absurd (omega arith)
  replicate-split (suc k) (suc m) a h =
      let e : k - m ≡ suc k - suc m = omega arith in
      ap (λ r. a ∷ r)
        (replicate-split k m a (omega arith) ∙ ap (λ t. replicate m a ++ replicate t a) e)

  pub overwrite-replicate :
      (c : ℕ) (a : A) (xs : List A)
      → length xs ≤ c
      → overwrite (replicate c a) xs ≡ xs ++ replicate (c - length xs) a
  overwrite-replicate c a [] h = let e : c ≡ c - 0 = omega arith in ap (λ t. replicate t a) e
  overwrite-replicate zero a (x ∷ xs) h = absurd (omega arith)
  overwrite-replicate (suc c) a (x ∷ xs) h =
      let e : c - length xs ≡ suc c - suc (length xs) = omega arith in
      ap (λ r. x ∷ r) (overwrite-replicate c a xs (omega arith) ∙ ap (λ t. xs ++ replicate t a) e)

  pub replicate_add : (m n : ℕ) (a : A) → replicate m a ++ replicate n a ≡ replicate (m + n) a
  replicate_add zero n a = let e : n ≡ 0 + n = omega arith in ap (λ t. replicate t a) e
  replicate_add (suc m) n a =
      let e : suc (m + n) ≡ suc m + n = omega arith in
      ap (λ r. a ∷ r) (replicate_add m n a) ∙ ap (λ t. replicate t a) e
