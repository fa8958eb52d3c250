-- ===== src/Tcp/Options.antt =====
-- The options of the TCP transport, and its constructor (transport/tcp/options.go; New of
-- transport/tcp/trans_std.go). The options lie in Go's memory: an option is given a pointer to them.
use less.Base.{
  ℕ, ◌+◌, ◌*◌, ◌^◌, ◌≤◌, ◌<◌, ◌≡◌, refl, ◌∙◌, Bool, true, false, ◌||◌, List, [], ◌∷◌, Option, none,
  some, Bytes, arith, ◌==◌, if◌then◌else◌,
}
use less.Codec.Delimiter.{bytes_eq}

-- Go's int, for the linger time.
pub data ℤ : Type 0 where
  pos negsuc : ℕ → ℤ

abbrev pub tcp : Bytes
tcp = 116 ∷ 99 ∷ 112 ∷ []

abbrev pub tcp4 : Bytes
tcp4 = 116 ∷ 99 ∷ 112 ∷ 52 ∷ []

abbrev pub tcp6 : Bytes
tcp6 = 116 ∷ 99 ∷ 112 ∷ 54 ∷ []

-- Durations are in nanoseconds.
pub record TcpOptions : Type 0 where
  pub network : Bytes
  pub timeout : ℕ
  pub keepalive : Bool
  pub keep_alive_period : ℕ
  pub linger : ℤ
  pub no_delay : Bool

abbrev pub second : ℕ
second = 10 ^ 9

unfoldable pub default_options : TcpOptions
default_options = record {
  network = tcp;
  timeout = second * 5;
  keepalive = true;
  keep_alive_period = second * 60;
  linger = negsuc 0;
  no_delay = true;
}

-- The structs in memory: those below `fresh` are in use.
pub record Memory : Type 0 where
  pub cell : ℕ → TcpOptions
  pub fresh : ℕ

set_cell : ℕ → TcpOptions → Memory → Memory
set_cell at ops m = record m { cell = λ k. if k == at then ops else m.cell k }

-- `tcpOps, ok := ...`: a local variable is a struct of its own.
local : TcpOptions → Memory → ℕ × Memory
unfolding set_cell
local ops m = (m.fresh, set_cell m.fresh ops (record m { fresh = m.fresh + 1 }))

-- A value of the interface type trans.Options: a pointer to options, options, or something else.
pub data Options : Type 0 where
  pointer : ℕ → Options
  options : TcpOptions → Options
  something : Options

-- `ops.(TCPOptions)`: a pointer to TCPOptions is not of the type TCPOptions.
assert_options : Options → Option TcpOptions
assert_options (pointer at) = none
assert_options (options o) = some o
assert_options something = none

-- `tcpOps.F = v`, of the variable `tcpOps` that the assertion made.
assign : (TcpOptions → TcpOptions) → ℕ × Memory → Memory
assign change (at, m) = set_cell at (change (m.cell at)) m

on_asserted : (TcpOptions → TcpOptions) → Option TcpOptions → Memory → Memory
on_asserted change none m = m
on_asserted change (some o) m = assign change (local o m)

abbrev pub TcpOption : Type 0
TcpOption = Options → Memory → Memory

module _ (ops : Options) where
  pub with_network : Bytes → Memory → Memory
  unfolding on_asserted
  with_network network =
      on_asserted
        (λ tcp_ops. record tcp_ops {
          network =
              if bytes_eq network tcp || bytes_eq network tcp4 || bytes_eq network tcp6
              then network
              else tcp;
        })
        (assert_options ops)

  pub with_timeout : ℕ → Memory → Memory
  unfolding on_asserted
  with_timeout d = on_asserted (λ tcp_ops. record tcp_ops { timeout = d }) (assert_options ops)

  pub with_keepalive : Bool → Memory → Memory
  unfolding on_asserted
  with_keepalive keepalive =
      on_asserted (λ tcp_ops. record tcp_ops { keepalive = keepalive }) (assert_options ops)

  pub with_keepalive_period : ℕ → Memory → Memory
  unfolding on_asserted
  with_keepalive_period period =
      on_asserted (λ tcp_ops. record tcp_ops { keep_alive_period = period }) (assert_options ops)

  pub with_linger : ℤ → Memory → Memory
  unfolding on_asserted
  with_linger linger =
      on_asserted (λ tcp_ops. record tcp_ops { linger = linger }) (assert_options ops)

  pub with_no_delay : Bool → Memory → Memory
  unfolding on_asserted
  with_no_delay delay =
      on_asserted (λ tcp_ops. record tcp_ops { no_delay = delay }) (assert_options ops)

pub apply : List TcpOption → Options → Memory → Memory
apply [] ops m = m
apply (o ∷ rest) ops m = apply rest ops (o ops m)

-- `New`: the transport's `ops` is the pointer `DefaultOptions`.
pub new_transport : (default_at : ℕ) → List TcpOption → Memory → ℕ × Memory
new_transport default_at op m = (default_at, apply op (pointer default_at) m)

-- The options that this package makes.
pub data IsPackaged : TcpOption → Type 0 where
  network : (n : Bytes) → IsPackaged (λ ops. with_network ops n)
  timeout : (d : ℕ) → IsPackaged (λ ops. with_timeout ops d)
  keepalive : (k : Bool) → IsPackaged (λ ops. with_keepalive ops k)
  keepalive_period : (p : ℕ) → IsPackaged (λ ops. with_keepalive_period ops p)
  linger : (l : ℤ) → IsPackaged (λ ops. with_linger ops l)
  no_delay : (d : Bool) → IsPackaged (λ ops. with_no_delay ops d)

abbrev pub AllPackaged : List TcpOption → Type 0
AllPackaged [] = Unit
AllPackaged (o ∷ os) = IsPackaged o × AllPackaged os

-- Every struct that was in use stays as it is.
pub record Keeps (m m' : Memory) : Type 0 where
  pub cells : (at : ℕ) → at < m.fresh → m'.cell at ≡ m.cell at
  pub grows : m.fresh ≤ m'.fresh

on_asserted-Keeps :
    (change : TcpOptions → TcpOptions) (o : Option TcpOptions) (m : Memory)
    → Keeps m (on_asserted change o m)
unfolding on_asserted assign local set_cell
on_asserted-Keeps change none m = record { cells = λ at h. refl; grows = omega arith }
on_asserted-Keeps change (some o) m = record {
  cells = λ at h. let other : (at == m.fresh) ≡ false = ground arith in rw other refl;
  grows = omega arith;
}

packaged-Keeps : {o : TcpOption} → IsPackaged o → (ops : Options) (m : Memory) → Keeps m (o ops m)
unfolding with_network with_timeout with_keepalive with_keepalive_period with_linger with_no_delay
packaged-Keeps (network n) ops m = on_asserted-Keeps _ _ m
packaged-Keeps (timeout d) ops m = on_asserted-Keeps _ _ m
packaged-Keeps (keepalive k) ops m = on_asserted-Keeps _ _ m
packaged-Keeps (keepalive_period p) ops m = on_asserted-Keeps _ _ m
packaged-Keeps (linger l) ops m = on_asserted-Keeps _ _ m
packaged-Keeps (no_delay d) ops m = on_asserted-Keeps _ _ m

pub apply-Keeps :
    (os : List TcpOption) (ops : Options) (m : Memory) → AllPackaged os → Keeps m (apply os ops m)
unfolding apply
apply-Keeps [] ops m h = record { cells = λ at h. refl; grows = omega arith }
apply-Keeps (o ∷ os) ops m (h, hs) =
    let a = packaged-Keeps h ops m in
    let b = apply-Keeps os ops (o ops m) hs in
    record {
      cells = λ at lt. b.cells at (omega (arith, lt, a.grows)) ∙ a.cells at lt;
      grows = omega (arith, a.grows, b.grows);
    }

-- Whatever options of this package a transport is made with, it has the default options, unchanged.
pub new_transport-ignores :
    (default_at : ℕ) (os : List TcpOption) (m : Memory)
    → default_at < m.fresh
    → AllPackaged os
    → let r = new_transport default_at os m in r.1.cell r.0 ≡ m.cell default_at
unfolding new_transport
new_transport-ignores default_at os m h packaged =
    (apply-Keeps os (pointer default_at) m packaged).cells default_at h
