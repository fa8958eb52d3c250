-- ===== src/Trans/Registry.antt =====
-- The registered channels and their count (internal/trans/trans_handler.go).
use less.Base.{
  sym, ◌∙◌, ℕ, suc, ◌≡◌, refl, ap, Bool, true, false, List, [], ◌∷◌, Option, none, some, Error,
  arith, length, ◌==◌, if◌then◌else◌, Bool-cases, inl, inr, ==_iff,
}
use less.Trans.{TransHandler, load, delete, close_life, close_loaded, close_channel}

-- No key stands in the map twice.
abbrev pub Distinct : List (ℕ × Bool) → Type 0
Distinct [] = Unit
Distinct ((k, v) ∷ rest) = (load k rest ≡ none) × Distinct rest

pub record IsRegistry (th : TransHandler) : Type 0 where
  pub counted : th.channel_count ≡ length th.channels
  pub distinct : Distinct th.channels

pick :
    (P : List (ℕ × Bool) → Type 0) (b : Bool) {xs ys : List (ℕ × Bool)}
    → P xs
    → P ys
    → P (if b then xs else ys)
pick P true p q = p
pick P false p q = q

if-none :
    (b v : Bool) (o : Option Bool) → (if b then some v else o) ≡ none → (b ≡ false) × (o ≡ none)
if-none true v o h = absurd (ground arith)
if-none false v o h = (refl, h)

-- A key that is not in the map is not its first key, and not among the others.
missing :
    (j k : ℕ) (v : Bool) (rest : List (ℕ × Bool))
    → load k ((j, v) ∷ rest) ≡ none
    → ((j == k) ≡ false) × (load k rest ≡ none)
unfolding load
missing j k v rest h = if-none (j == k) v (load k rest) h

absent :
    (j k : ℕ) (v : Bool) (xs : List (ℕ × Bool))
    → (j == k) ≡ false
    → load k xs ≡ none
    → load k ((j, v) ∷ xs) ≡ none
unfolding load
absent j k v xs e n = rw (e, n) refl

delete-missing : (i k : ℕ) (xs : List (ℕ × Bool)) → load i xs ≡ none → load i (delete k xs) ≡ none
unfolding delete
delete-missing i k [] h = h
delete-missing i k ((j, v) ∷ rest) h =
    let m = missing j i v rest h in
    pick (λ xs. load i xs ≡ none) (j == k) m.1
      (absent j i v (delete k rest) m.0 (delete-missing i k rest m.1))

pub delete-Distinct : (k : ℕ) (xs : List (ℕ × Bool)) → Distinct xs → Distinct (delete k xs)
unfolding delete
delete-Distinct k [] d = tt
delete-Distinct k ((j, v) ∷ rest) d =
    pick Distinct (j == k) d.1 (delete-missing j k rest d.0, delete-Distinct k rest d.1)

pub load-delete : (k : ℕ) (xs : List (ℕ × Bool)) → Distinct xs → load k (delete k xs) ≡ none
unfolding load delete
load-delete k [] d = refl
load-delete k ((j, v) ∷ rest) d = elim (Bool-cases (j == k)) [
  | inl e ↦ rw e (ap (λ i. load i rest) (sym ((==_iff j k).0 e)) ∙ d.0)
  | inr e ↦ rw e (absent j k v (delete k rest) e (load-delete k rest d.1))
]

length-found :
    (j k : ℕ) (u v : Bool) (rest : List (ℕ × Bool)) (b : Bool)
    → (if b then some u else load k rest) ≡ some v
    → (load k rest ≡ some v → length rest ≡ suc (length (delete k rest)))
    → suc (length rest) ≡ suc (length (if b then rest else (j, u) ∷ delete k rest))
length-found j k u v rest true e later = refl
length-found j k u v rest false e later = ap suc (later e)

pub length-delete :
    (k : ℕ) (v : Bool) (xs : List (ℕ × Bool))
    → load k xs ≡ some v
    → length xs ≡ suc (length (delete k xs))
unfolding load delete
length-delete k v [] e = ground arith
length-delete k v ((j, u) ∷ rest) e = length-found j k u v rest (j == k) e (length-delete k v rest)

module _ (id : ℕ) (e : Option Error) where
  loaded-IsRegistry :
      (th : TransHandler) (o : Option Bool)
      → load id th.channels ≡ o
      → IsRegistry th
      → IsRegistry (close_loaded id e o th)
  unfolding close_loaded close_life
  loaded-IsRegistry th none l i = i
  loaded-IsRegistry th (some v) l i =
      let shorter = length-delete id v th.channels l in
      record {
        counted = rw i.counted (omega (arith, shorter));
        distinct = delete-Distinct id th.channels i.distinct;
      }

  pub close_channel-IsRegistry :
      (th : TransHandler) → IsRegistry th → IsRegistry (close_channel id e th)
  unfolding close_channel
  close_channel-IsRegistry th i = loaded-IsRegistry th (load id th.channels) refl i

  loaded-gone :
      (th : TransHandler) (o : Option Bool)
      → load id th.channels ≡ o
      → Distinct th.channels
      → load id (close_loaded id e o th).channels ≡ none
  unfolding close_loaded close_life
  loaded-gone th none l i = l
  loaded-gone th (some v) l i = load-delete id th.channels i

  pub close_channel-gone :
      (th : TransHandler) → Distinct th.channels → load id (close_channel id e th).channels ≡ none
  unfolding close_channel
  close_channel-gone th i = loaded-gone th (load id th.channels) refl i

pub unregistered :
    (id : ℕ) (e : Option Error) (th : TransHandler)
    → load id th.channels ≡ none
    → close_channel id e th ≡ th
unfolding close_channel close_loaded
unregistered id e th l = rw l refl

counted_down :
    (id : ℕ) (e : Option Error) (v : Bool) (th : TransHandler)
    → IsRegistry th
    → load id th.channels ≡ some v
    → th.channel_count ≡ suc (close_channel id e th).channel_count
unfolding close_channel close_loaded close_life
counted_down id e v th i l =
    let shorter = length-delete id v th.channels l in rw l (omega (arith, shorter, i.counted))

-- A registered channel is taken off the register once, if the count is the number of registered
-- channels and their no key is there twice: closing it counts down by one, its entry is gone, and closing it
-- again changes nothing.
pub close_channel-once :
    (id : ℕ) (e e' : Option Error) (v : Bool) (th : TransHandler)
    → IsRegistry th
    → load id th.channels ≡ some v
    → (th.channel_count ≡ suc (close_channel id e th).channel_count)
      × (load id (close_channel id e th).channels ≡ none)
      × (close_channel id e' (close_channel id e th) ≡ close_channel id e th)
close_channel-once id e e' v th i l = (
  counted_down id e v th i l,
  close_channel-gone id e th i.distinct,
  unregistered id e' (close_channel id e th) (close_channel-gone id e th i.distinct),
)
