-- ===== src/Protocol/Process.antt =====
-- Programs that send and receive frames over a connection: the steps they take on it.
pub mod System
pub mod Confluence
pub mod Returns
use priestly.Base.{ℕ, Result, ok, raise, Exception, List, [], ◌∷◌, ◌≡◌, ap}
use priestly.Protocol.Packets.{Frame}

-- A program that is done, is about to send a frame, or waits for one. What it does next depends on
-- whether sending raised, and on the frame or the exception that receiving gave.
pub data Process (A : Type 0) : Type 0 where
  finished : Result A → Process A
  sending : Frame → (Result (Unit {0}) → Process A) → Process A
  receiving : (Result Frame → Process A) → Process A

infixl 5 ◌>>=◌ ◌>>◌
abbrev pub ◌>>=◌ : {A B : Type 0} → Process A → (A → Process B) → Process B
finished (ok a) >>= g = g a
finished (raise e) >>= g = finished (raise e)
sending f k >>= g = sending f (λ r. k r >>= g)
receiving k >>= g = receiving (λ r. k r >>= g)

abbrev pub ◌>>◌ : {A B : Type 0} → Process A → Process B → Process B
p >> q = p >>= λ _. q

abbrev pub return : {A : Type 0} → A → Process A
return a = finished (ok a)

abbrev pub throw : {A : Type 0} → Exception → Process A
throw e = finished (raise e)

abbrev pub lift : {A : Type 0} → Result A → Process A
lift = finished

-- `ws.send(dumps(frame))`
abbrev pub send_frame : Frame → Process (Unit {0})
send_frame f = sending f (λ r. finished r)

-- `_recv_frame(ws)`
abbrev pub recv_frame : Process Frame
recv_frame = receiving (λ r. finished r)

-- What a program does if every frame is sent, on a list of what it receives: the frames it sends
-- and its outcome, if it comes to one before the list ends.
pub data Outcome (A : Type 0) : Type 0 where
  waits : Outcome A
  ends : Result A → Outcome A

unfoldable pub play : {A : Type 0} → Process A → List (Result Frame) → List Frame × Outcome A
play (finished r) script = ([], ends r)
play (sending f k) script = let (sent, o) = play (k (ok tt)) script in (f ∷ sent, o)
play (receiving k) [] = ([], waits)
play (receiving k) (r ∷ script) = play (k r) script
