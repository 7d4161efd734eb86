-- ===== src/Protocol/Process/System.antt =====
-- Two programs with a queue of frames each way between them, and the steps of the whole.
use priestly.Base.{ℕ, suc, ◌≡◌, Option, none, some, List, [], ◌∷◌, ◌++◌, Result, ok}
use priestly.Protocol.Packets.{Frame}
use priestly.Protocol.Process.{Process, finished, sending, receiving}

-- `to_right` holds what the left one has sent and the right one has not yet received.
pub record System (A B : Type 0) : Type 0 where
  pub left : Process A
  pub right : Process B
  pub to_right : List Frame
  pub to_left : List Frame

-- What a program does next with the frames that have arrived: what is then left of it and of them,
-- and what it sends. It does nothing if it is done or waits for a frame.
unfoldable pub advance :
    {A : Type 0} → Process A → List Frame → Option (Process A × List Frame × List Frame)
advance (finished r) inbox = none
advance (sending f k) inbox = some (k (ok tt), inbox, f ∷ [])
advance (receiving k) [] = none
advance (receiving k) (f ∷ inbox) = some (k (ok f), inbox, [])

-- One of the two goes on, in whatever order: no frame is lost and none is overtaken.
pub data Step {A B : Type 0} (s t : System A B) : Type 0 where
  left_goes :
      (p : Process A) (rest sent : List Frame)
      → advance s.left s.to_left ≡ some (p, rest, sent)
      → t ≡ record s { left = p; to_left = rest; to_right = s.to_right ++ sent }
      → Step s t
  right_goes :
      (q : Process B) (rest sent : List Frame)
      → advance s.right s.to_right ≡ some (q, rest, sent)
      → t ≡ record s { right = q; to_right = rest; to_left = s.to_left ++ sent }
      → Step s t

-- A run of so many steps.
pub data Run {A B : Type 0} : ℕ → System A B → System A B → Type 0 where
  here : {s : System A B} → Run 0 s s
  after : {n : ℕ} {s t u : System A B} → Step s t → Run n t u → Run (suc n) s u

-- Both are done.
pub record IsDone {A B : Type 0} (s : System A B) (a : Result A) (b : Result B) : Type 0 where
  pub left_done : s.left ≡ finished a
  pub right_done : s.right ≡ finished b
