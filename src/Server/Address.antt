-- ===== src/Server/Address.antt =====
-- The address that a server listens on (server/server.go, parseAddr).
use less.Base.{
  ◌≡◌, refl, sym, ap, ◌∙◌, [], ◌∷◌, ◌++◌, Option, none, some, Bytes, Error, ◌≢◌, length,
  length-append, ◌<◌, arith,
}
use less.Server.{Server, ServerOptions, Split, or_default, join, parse_addr}

module _ {P : Type 0} (split : Split) (srv : Server) (ops : ServerOptions P) where
  parts :
      (host port : Bytes) (e : Option Error)
      → split srv.addr ≡ ((host, port), e)
      → parse_addr split srv ops ≡ join (or_default host ops.addr) (or_default port ops.port)
  unfolding parse_addr
  parts host port e s = rw s refl

  kept : (bs default : Bytes) → 0 < length bs → or_default bs default ≡ bs
  kept [] default pos = absurd (omega arith)
  kept (b ∷ bs) default pos = refl

  -- An address of a host and a port that net.SplitHostPort splits at the colon, both of them not empty,
  -- is what the server listens on.
  pub parse_addr-round_trip :
      (host port : Bytes)
      → srv.addr ≡ join host port
      → split (join host port) ≡ ((host, port), none)
      → 0 < length host
      → 0 < length port
      → parse_addr split srv ops ≡ srv.addr
  parse_addr-round_trip host port is s h p =
      parts host port none (ap split is ∙ s)
      ∙ (λ i. join (kept host ops.addr h i) (kept port ops.port p i))
      ∙ sym is

  shorter : (xs ys : Bytes) → length xs < length ys → xs ≢ ys
  shorter xs ys lt e = omega (arith, lt, ap length e)

  -- An address in brackets, out of which net.SplitHostPort takes the host, loses them: what the server
  -- listens on is another address, with no brackets around a host that has colons.
  pub parse_addr-brackets :
      (host port : Bytes)
      → srv.addr ≡ 91 ∷ (host ++ (93 ∷ (58 ∷ port)))
      → split srv.addr ≡ ((host, port), none)
      → 0 < length host
      → 0 < length port
      → (parse_addr split srv ops ≡ join host port) × (parse_addr split srv ops ≢ srv.addr)
  parse_addr-brackets host port is s h p =
      let e =
        parts host port none s ∙ (λ i. join (kept host ops.addr h i) (kept port ops.port p i)) in
      (
        e,
        λ same.
            shorter (join host port) _
              (omega (
                arith,
                length-append {0} host (58 ∷ port),
                length-append {0} host (93 ∷ (58 ∷ port)),
              ))
              (sym e ∙ same ∙ is),
      )

  -- An address without a port, on which net.SplitHostPort fails and returns nothing, is dropped with
  -- its host: the server listens on the default host and port.
  pub parse_addr-no_port :
      (e : Error)
      → split srv.addr ≡ (([], []), some e)
      → parse_addr split srv ops ≡ join ops.addr ops.port
  parse_addr-no_port e s = parts [] [] (some e) s
