-- ===== src/Transport/Socket/Exact.antt =====
-- `_recv_exact` reads just the bytes it was asked for, however the stream is cut into deliveries.
use priestly.Base.{
  ℕ, zero, suc, ◌+◌, ◌-◌, ◌≤◌, ◌<◌, ◌≡◌, refl, sym, ap, ◌∙◌, true, false, none, some, [], ◌∷◌, ◌++◌,
  append_assoc, append-nil, arith, ltb, Bool-cases, lt→ltb, le→ltb, ltb→lt, ◌⊎◌, inl, inr, length,
  length-append, length-take, length-drop, take, drop, take-append-drop, connection_closed, ok,
  raise, Bytes,
}
use priestly.Transport.Socket.{Socket, chunk, failure, recv, recv_loop, recv_exact}

-- The bytes that can still be read: those before an error or the end.
abbrev pub available : Socket → Bytes
available [] = []
available (failure ∷ rest) = []
available (chunk b bs ∷ rest) = b ∷ (bs ++ available rest)

-- A part of the available bytes, at least one and at most as many as asked for.
pub record Part (n : ℕ) (s : Socket) : Type 0 where
  pub first : ℕ
  pub more : Bytes
  pub left : Socket
  pub got : recv n s ≡ (some (first ∷ more), left)
  pub split : available s ≡ (first ∷ more) ++ available left
  pub within : length (first ∷ more) ≤ n

recv-Part-chunk : (n b : ℕ) (bs : Bytes) (rest : Socket) → Part (suc n) (chunk b bs ∷ rest)
recv-Part-chunk n b bs rest = go (drop n bs) refl
  where
    go : (over : Bytes) → drop n bs ≡ over → Part (suc n) (chunk b bs ∷ rest)
    go [] e = record {
      first = b;
      more = bs;
      left = rest;
      got = unfold recv in rw (e, recv);
      split = refl;
      within = omega (arith, length-drop n bs, ap length e);
    }
    go (c ∷ cs) e = record {
      first = b;
      more = take n bs;
      left = chunk c cs ∷ rest;
      got = unfold recv in rw (e, recv);
      split =
          ap (λ (t : Bytes). b ∷ (t ++ available rest)) (sym (take-append-drop n bs) ∙ rw e)
          ∙ ap (λ (t : Bytes). b ∷ t) (append_assoc (take n bs) (c ∷ cs) (available rest));
      within = omega (arith, length-take n bs);
    }

pub recv-Part : (n : ℕ) (s : Socket) (y : ℕ) (ys : Bytes) → available s ≡ y ∷ ys → Part (suc n) s
recv-Part n [] y ys e = absurd (omega (arith, ap length e))
recv-Part n (failure ∷ rest) y ys e = absurd (omega (arith, ap length e))
recv-Part n (chunk b bs ∷ rest) y ys e = recv-Part-chunk n b bs rest

-- Where two splits of one list are compared, the shorter front is a front of the longer.
front :
    (u v x r : Bytes)
    → u ++ v ≡ x ++ r
    → length u ≤ length x
    → (x' : Bytes) × (x ≡ u ++ x') × (v ≡ x' ++ r)
front [] v x r e le = (x, refl, e)
front (a ∷ u) v [] r e le = absurd (omega arith)
front (a ∷ u) v (b ∷ x) r e le =
    let heads : a ≡ b = cc e in
    let tails : u ++ v ≡ x ++ r = cc e in
    let (x', p, q) = front u v x r tails (omega arith) in (x', cc (heads, p), q)

recv_loop_step :
    (fuel n k : ℕ) (buf : Bytes) (s : Socket) (p : Part (suc k) s)
    → n - length buf ≡ suc k
    → recv_loop (suc fuel) n buf s ≡ recv_loop fuel n (buf ++ (p.first ∷ p.more)) p.left
unfolding recv_loop
recv_loop_step fuel n k buf s p e =
    let t : ltb (length buf) n ≡ true = lt→ltb (length buf) n (omega arith) in
    let q : recv (n - length buf) s ≡ (some (p.first ∷ p.more), p.left) =
      ap (λ (m : ℕ). recv m s) e ∙ p.got in
    rw (t, q, recv_loop)

recv_loop-exact :
    (fuel n : ℕ) (buf x rest : Bytes) (s : Socket)
    → available s ≡ x ++ rest
    → length buf + length x ≡ n
    → length x ≤ fuel
    → (s' : Socket) × (recv_loop fuel n buf s ≡ (ok (buf ++ x), s')) × (available s' ≡ rest)
unfolding recv_loop
recv_loop-exact zero n buf [] rest s e len enough =
    (s, ap (λ (b : Bytes). (ok b, s)) (sym (append-nil buf)), e)
recv_loop-exact zero n buf (y ∷ x) rest s e len enough = absurd (omega arith)
recv_loop-exact (suc fuel) n buf [] rest s e len enough =
    let t : ltb (length buf) n ≡ false = le→ltb (length buf) n (omega arith) in
    (s, rw (t, recv_loop) (ap (λ (b : Bytes). (ok b, s)) (sym (append-nil buf))), e)
recv_loop-exact (suc fuel) n buf (y ∷ x) rest s e len enough =
    let p : Part (suc (length x)) s = recv-Part (length x) s y (x ++ rest) e in
    let (x', whole, after) =
      front (p.first ∷ p.more) (available p.left) (y ∷ x) rest (sym p.split ∙ e) p.within in
    let size : length (y ∷ x) ≡ length (p.first ∷ p.more) + length x' =
      ap length whole ∙ length-append (p.first ∷ p.more) x' in
    let (s', read, left) =
      recv_loop-exact fuel n (buf ++ (p.first ∷ p.more)) x' rest p.left after
        (omega (arith, size, len, length-append buf (p.first ∷ p.more)))
        (omega (arith, size, enough)) in
    (
      s',
      recv_loop_step fuel n (length x) buf s p (omega (arith, len))
          ∙ read
          ∙ ap (λ (b : Bytes). (ok b, s'))
              (append_assoc buf (p.first ∷ p.more) x' ∙ ap (λ (b : Bytes). buf ++ b) (sym whole)),
      left,
    )

pub recv_exact-available :
    (n : ℕ) (x rest : Bytes) (s : Socket)
    → available s ≡ x ++ rest
    → length x ≡ n
    → (s' : Socket) × (recv_exact n s ≡ (ok x, s')) × (available s' ≡ rest)
unfolding recv_exact
recv_exact-available n x rest s e len =
    recv_loop-exact n n [] x rest s e (omega (arith, len)) (omega (arith, len))

-- Nothing is available: `recv` reports an error or the end.
recv-empty :
    (n : ℕ) (s : Socket)
    → available s ≡ []
    → (s' : Socket) × ((recv (suc n) s ≡ (none, s')) ⊎ (recv (suc n) s ≡ (some [], s')))
unfolding recv
recv-empty n [] e = ([], inr refl)
recv-empty n (failure ∷ rest) e = (rest, inl refl)
recv-empty n (chunk b bs ∷ rest) e = absurd (cc e)

recv_loop-empty :
    (fuel n k : ℕ) (buf : Bytes) (s : Socket)
    → available s ≡ []
    → n - length buf ≡ suc k
    → (s' : Socket) × (recv_loop (suc fuel) n buf s ≡ (raise (connection_closed none), s'))
unfolding recv_loop
recv_loop-empty fuel n k buf s e more =
    let t : ltb (length buf) n ≡ true = lt→ltb (length buf) n (omega arith) in
    let (s', ends) = recv-empty k s e in
    let shift : recv (n - length buf) s ≡ recv (suc k) s = ap (λ (m : ℕ). recv m s) more in
    (
      s',
      elim ends [
        | inl q ↦ let q' : recv (n - length buf) s ≡ (none, s') = shift ∙ q in rw (t, q', recv_loop)
        | inr q ↦
            let q' : recv (n - length buf) s ≡ (some [], s') = shift ∙ q in rw (t, q', recv_loop)
      ],
    )

recv_loop-short :
    (fuel n : ℕ) (buf x : Bytes) (s : Socket)
    → available s ≡ x
    → length buf + length x < n
    → n ≤ length buf + fuel
    → (s' : Socket) × (recv_loop fuel n buf s ≡ (raise (connection_closed none), s'))
recv_loop-short zero n buf x s e short enough = absurd (omega arith)
recv_loop-short (suc fuel) n buf [] s e short enough =
    recv_loop-empty fuel n (n - length buf - 1) buf s e (omega arith)
recv_loop-short (suc fuel) n buf (y ∷ x) s e short enough =
    let k : ℕ = n - length buf - 1 in
    let p : Part (suc k) s = recv-Part k s y x e in
    let part : Bytes = p.first ∷ p.more in
    let size : length (y ∷ x) ≡ length part + length (available p.left) =
      ap length (sym e ∙ p.split) ∙ length-append part (available p.left) in
    let (s', stops) =
      recv_loop-short fuel n (buf ++ part) (available p.left) p.left refl
        (omega (arith, size, short, length-append buf part))
        (omega (arith, enough, length-append buf part)) in
    (s', recv_loop_step fuel n k buf s p (omega (arith, short)) ∙ stops)

-- If fewer bytes can be read than were asked for, the connection counts as closed.
pub recv_exact-short :
    (n : ℕ) (s : Socket)
    → length (available s) < n
    → (s' : Socket) × (recv_exact n s ≡ (raise (connection_closed none), s'))
unfolding recv_exact
recv_exact-short n s short =
    recv_loop-short n n [] (available s) s refl (omega (arith, short)) (omega arith)

-- What was read is what was next.
pub recv_exact_returned :
    (n : ℕ) (s : Socket) (x : Bytes) (s' : Socket)
    → recv_exact n s ≡ (ok x, s')
    → length (available s') + n ≡ length (available s)
recv_exact_returned n s x s' e = elim (Bool-cases (ltb (length (available s)) n)) [
  | inl few ↦
      let (s₁, stops) = recv_exact-short n s (ltb→lt (length (available s)) n few) in
      absurd (cc (e, stops))
  | inr enough ↦
      let le : n ≤ length (available s) = ground (arith, enough) in
      let (s₁, read, left) =
        recv_exact-available n (take n (available s)) (drop n (available s)) s
          (sym (take-append-drop n (available s))) (omega (arith, length-take n (available s))) in
      let same : s₁ ≡ s' = cc (e, read) in
      omega (arith, ap length (ap available (sym same) ∙ left), length-drop n (available s))
]
