-- ===== src/Transport/WebSocket/Loop.antt =====
-- The loop of WebSocket.recv as it is written, without a bound on its rounds, and that it ends.
use priestly.Base.{
  ℕ, zero, suc, ◌+◌, ◌≤◌, ◌<◌, ◌≡◌, refl, sym, ap, ◌∙◌, Bool, false, arith, length, none, Exception,
  connection_closed, Result, ok, raise, Bytes,
}
use mathlib.Core.Path.{subst}
use priestly.Base.State.{throw_if, proceed}
use priestly.Transport.Socket.Exact.{available}
use priestly.Transport.Frame.{read_frame}
use priestly.Transport.WebSocket.{
  WebSocket, Message, Partial, Round, again, finished, nothing_yet, on_socket, on_frame, next_round,
  receive, recv,
}
use priestly.Transport.WebSocket.Stream.{read_frame-Takes, on_frame-incoming}

module _ (urandom : ℕ → Bytes) where
  -- What a run of the loop ends with: an error of the reading or of a frame, or a message; any other
  -- frame starts the next round. A derivation is a run that ends.
  pub data Runs : Partial → WebSocket → Result Message × WebSocket → Type 0 where
    broken :
        (p : Partial) (ws w : WebSocket) (e : Exception)
        → on_socket read_frame ws ≡ (raise e, w)
        → Runs p ws (raise e, w)
    refused :
        (p : Partial) (ws w w' : WebSocket) (frame : Bool × ℕ × Bytes) (e : Exception)
        → on_socket read_frame ws ≡ (ok frame, w)
        → on_frame urandom p frame w ≡ (raise e, w')
        → Runs p ws (raise e, w')
    ended :
        (p : Partial) (ws w w' : WebSocket) (frame : Bool × ℕ × Bytes) (m : Message)
        → on_socket read_frame ws ≡ (ok frame, w)
        → on_frame urandom p frame w ≡ (ok (finished m), w')
        → Runs p ws (ok m, w')
    goes_on :
        (p p' : Partial) (ws w w' : WebSocket) (frame : Bool × ℕ × Bytes)
        (out : Result Message × WebSocket)
        → on_socket read_frame ws ≡ (ok frame, w)
        → on_frame urandom p frame w ≡ (ok (again p'), w')
        → Runs p' w' out
        → Runs p ws out

  -- The rest of a round, from what became of its frame, and from what was read.
  abbrev framed_round : ℕ → Result Round × WebSocket → Result Message × WebSocket
  framed_round fuel (r, w) = proceed r (λ x. next_round x (receive urandom fuel)) w

  abbrev read_round :
      ℕ → Partial → Result (Bool × ℕ × Bytes) × WebSocket → Result Message × WebSocket
  read_round fuel p (r, w) = proceed r (λ frame v. framed_round fuel (on_frame urandom p frame v)) w

  took_round :
      (p : Partial) (ws w w' : WebSocket) (frame : Bool × ℕ × Bytes) (q : Result Round)
      → on_socket read_frame ws ≡ (ok frame, w)
      → on_frame urandom p frame w ≡ (q, w')
      → length (available w'.incoming) < length (available ws.incoming)
  took_round p ws w w' frame q read went =
      let took : length (available w.incoming) + 2 ≤ length (available ws.incoming) =
        read_frame-Takes ws.incoming w.incoming frame
          (ap (λ (x : Result (Bool × ℕ × Bytes) × WebSocket). (x.0, x.1.incoming)) read) in
      let left : length (available w'.incoming) ≡ length (available w.incoming) =
        ap (λ t. length (available t))
          (sym (ap (λ (x : Result Round × WebSocket). x.1.incoming) went)
            ∙ on_frame-incoming urandom p frame.0 frame.1 frame.2 w) in
      omega (arith, took, left)

  module _ (fuel : ℕ) (p : Partial) (ws : WebSocket)
      (later : (p' : Partial) (w : WebSocket)
        → length (available w.incoming) < length (available ws.incoming)
        → Runs p' w (receive urandom fuel p' w)) where
    by_frame :
        (frame : Bool × ℕ × Bytes) (w : WebSocket) (q : Result Round × WebSocket)
        → on_socket read_frame ws ≡ (ok frame, w)
        → on_frame urandom p frame w ≡ q
        → Runs p ws (framed_round fuel q)
    by_frame frame w (raise e, w') read went = refused p ws w w' frame e read went
    by_frame frame w (ok (finished m), w') read went = ended p ws w w' frame m read went
    by_frame frame w (ok (again p'), w') read went =
        goes_on p p' ws w w' frame _ read went
          (later p' w' (took_round p ws w w' frame (ok (again p')) read went))

    round-Runs : Runs p ws (receive urandom (suc fuel) p ws)
    unfolding receive
    round-Runs = by_read (on_socket read_frame ws) refl
      where
        by_read :
            (r : Result (Bool × ℕ × Bytes) × WebSocket)
            → on_socket read_frame ws ≡ r
            → Runs p ws (read_round fuel p r)
        by_read (raise e, w) read = broken p ws w e read
        by_read (ok frame, w) read = by_frame frame w (on_frame urandom p frame w) read refl

  receive-Runs :
      (fuel : ℕ) (p : Partial) (ws : WebSocket)
      → length (available ws.incoming) < fuel
      → Runs p ws (receive urandom fuel p ws)
  receive-Runs zero p ws h = absurd (omega arith)
  receive-Runs (suc fuel) p ws h =
      round-Runs fuel p ws λ p' w less. receive-Runs fuel p' w (omega (arith, h, less))

  -- A round that has read a frame, by what became of the frame.
  after_frame :
      (fuel : ℕ) (p : Partial) (ws w : WebSocket) (frame : Bool × ℕ × Bytes)
      (q : Result Round × WebSocket)
      → on_socket read_frame ws ≡ (ok frame, w)
      → on_frame urandom p frame w ≡ q
      → receive urandom (suc fuel) p ws ≡ framed_round fuel q
  unfolding receive
  after_frame fuel p ws w frame q read went =
      ap (read_round fuel p) read ∙ ap (framed_round fuel) went

  after_failure :
      (fuel : ℕ) (p : Partial) (ws w : WebSocket) (e : Exception)
      → on_socket read_frame ws ≡ (raise e, w)
      → receive urandom (suc fuel) p ws ≡ (raise e, w)
  unfolding receive
  after_failure fuel p ws w e read = ap (read_round fuel p) read

  Runs-receive :
      {p : Partial} {ws : WebSocket} {out : Result Message × WebSocket}
      → Runs p ws out
      → (fuel : ℕ) → length (available ws.incoming) < fuel
      → receive urandom fuel p ws ≡ out
  Runs-receive run zero h = absurd (omega arith)
  Runs-receive (broken p ws w e read) (suc fuel) h = after_failure fuel p ws w e read
  Runs-receive (refused p ws w w' frame e read went) (suc fuel) h =
      after_frame fuel p ws w frame _ read went
  Runs-receive (ended p ws w w' frame m read went) (suc fuel) h =
      after_frame fuel p ws w frame _ read went
  Runs-receive (goes_on p p' ws w w' frame out read went rest) (suc fuel) h =
      after_frame fuel p ws w frame _ read went
      ∙ Runs-receive rest fuel
          (omega (arith, h, took_round p ws w w' frame (ok (again p')) read went))

  recv-open :
      (ws : WebSocket)
      → ws.closed ≡ false
      → recv urandom ws ≡ receive urandom (suc (length (available ws.incoming))) nothing_yet ws
  unfolding recv
  recv-open ws opened =
      ap
        (λ (b : Bool).
          throw_if b (connection_closed none)
            (receive urandom (suc (length (available ws.incoming))) nothing_yet) ws)
        opened

  -- On an open object the loop of recv, which is written without a bound on its rounds, ends after
  -- finitely many of them, and what recv returns or raises, with the object behind it, is the
  -- outcome of that run and the only one.
  pub recv-Runs :
      (ws : WebSocket)
      → ws.closed ≡ false
      → Runs nothing_yet ws (recv urandom ws)
        × ((out : Result Message × WebSocket) → Runs nothing_yet ws out → recv urandom ws ≡ out)
  recv-Runs ws opened = (
    subst (Runs nothing_yet ws) (sym (recv-open ws opened))
        (receive-Runs (suc (length (available ws.incoming))) nothing_yet ws (omega arith)),
    λ out run.
        recv-open ws opened ∙ Runs-receive run (suc (length (available ws.incoming))) (omega arith),
  )
