-- ===== src/Io/Reader.antt =====
-- The interface pkg/io.Reader, and the bounds checks of a Go slice expression.
use less.Base.{
  ℕ, ◌-◌, ◌≤◌, ◌≡◌, ◌&&◌, Outcome, ok, panic, Bytes, Method, leb, if◌then◌else◌, length, take, drop,
}
use less.Io.Source.{Got, IsFront}

-- A reader with state `S`. `read n` is `Read` with a buffer of `n` bytes. The arguments are
-- lengths: no caller in the repository passes a negative number.
pub record Reader (S : Type 0) : Type 0 where
  pub read : ℕ → Method S Got
  pub next : ℕ → Method S Bytes
  pub peek : ℕ → Method S Bytes
  pub skip : ℕ → Method S (Unit {0})
  pub length_of : S → ℕ
  pub release : Method S (Unit {0})

-- `buff[lo:hi]`, over the array `mem` that reaches up to the capacity of `buff`.
abbrev pub slice : Bytes → ℕ → ℕ → Outcome Bytes
slice mem lo hi =
    if leb lo hi && leb hi (length mem) then ok (take (hi - lo) (drop lo mem)) else panic

-- What a client relies on: the reader is a stream `view` of unread bytes, and while it is ready for
-- `k` of them each call that stays within `k` succeeds, returns the next bytes and leaves the others.
pub record Stream {S : Type 0} (api : Reader S) : Type 1 where
  pub view : S → Bytes
  pub IsReady : ℕ → S → Type 0
  pub enough : (k : ℕ) (s : S) → IsReady k s → k ≤ length (view s)
  pub peek_law :
      (k n : ℕ) (s : S)
      → IsReady k s
      → n ≤ k
      → (s' : S) × (api.peek n s ≡ (ok (take n (view s)), s')) × (view s' ≡ view s) × IsReady k s'
  pub next_law :
      (k n : ℕ) (s : S)
      → IsReady k s
      → n ≤ k
      → (s' : S) × (api.next n s ≡ (ok (take n (view s)), s'))
        × (view s' ≡ drop n (view s))
        × IsReady (k - n) s'
  pub skip_law :
      (k n : ℕ) (s : S)
      → IsReady k s
      → n ≤ k
      → (s' : S) × (api.skip n s ≡ (ok tt, s')) × (view s' ≡ drop n (view s)) × IsReady (k - n) s'
  pub read_law :
      (k n : ℕ) (s : S)
      → IsReady k s
      → n ≤ k
      → (g : Got) × (s' : S) × (api.read n s ≡ (ok g, s'))
        × IsFront n (view s) g (view s')
        × IsReady (k - length g.got) s'
