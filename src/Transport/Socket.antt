-- ===== src/Transport/Socket.antt =====
-- The byte stream under transport/ws.py, and `_recv_exact`.
pub mod Exact
use priestly.Base.{
  ℕ, zero, suc, ◌+◌, ◌-◌, ◌*◌, ◌≤◌, ◌<◌, ◌≡◌, refl, sym, ap, ◌∙◌, Bool, true, false, Option, none,
  some, List, [], ◌∷◌, ◌++◌, append_assoc, append-nil, arith, ltb, leb, Bool-cases, inl, inr,
  if◌then◌else◌, length, length-append, length-take, length-drop, take, drop, take-append-drop,
  Exception, connection_closed, Result, ok, raise, Bytes,
}
use priestly.Base.State.{Action}

-- What the calls of `sock.recv` will find, in order: the bytes of one delivery, or an OSError. After
-- the last the peer has closed, and `recv` returns no byte.
pub data Delivery : Type 0 where
  chunk : ℕ → Bytes → Delivery
  failure : Delivery

abbrev pub Socket : Type 0
Socket = List Delivery

-- sock.recv(n): at most `n` bytes of the next delivery, which is not empty (it has a first byte).
-- `none` is an OSError.
unfoldable pub recv : ℕ → Socket → Option Bytes × Socket
recv n [] = (some [], [])
recv n (failure ∷ rest) = (none, rest)
recv zero (chunk b bs ∷ rest) = (some [], chunk b bs ∷ rest)
recv (suc n) (chunk b bs ∷ rest) = elim (drop n bs) [
  | [] ↦ (some (b ∷ bs), rest)
  | c ∷ cs ↦ (some (b ∷ take n bs), chunk c cs ∷ rest)
]

-- One round of the loop, from what `recv` returned.
abbrev pub received : Option Bytes → Bytes → (Bytes → Action Socket Bytes) → Action Socket Bytes
received none buf go s = (raise (connection_closed none), s)
received (some []) buf go s = (raise (connection_closed none), s)
received (some (b ∷ bs)) buf go s = go (buf ++ (b ∷ bs)) s

-- `while len(buf) < n`: each round adds a byte at least, so `n` rounds are enough.
unfoldable pub recv_loop : ℕ → ℕ → Bytes → Action Socket Bytes
recv_loop zero n buf s = (ok buf, s)
recv_loop (suc fuel) n buf s = elim (ltb (length buf) n) [
  | true ↦
      let (got, s') = recv (n - length buf) s in received got buf (λ buf'. recv_loop fuel n buf') s'
  | false ↦ (ok buf, s)
]

unfoldable pub recv_exact : ℕ → Action Socket Bytes
recv_exact n s = recv_loop n n [] s
