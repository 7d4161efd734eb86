-- ===== src/Protocol/Session/Replay.antt =====
-- A frame that was accepted once is never accepted again.
use priestly.Base.{
  ◌≡◌, refl, ◌∙◌, true, false, List, [], ◌∷◌, arith, ◌⊎◌, inl, inr, Result, ok, raise, Exception,
  replay_error, Bytes,
}
use priestly.Base.Int.{ℤ, leb_ℤ}
use priestly.Python.Text.{Text, text_eq, compare_digest}
use priestly.Python.Base64.{b64decode}
use priestly.Protocol.Packets.{SealedFrame}
use priestly.Protocol.Session.{
  SessionState, compute_tag, as_authentication, verified_body, unpack, open_frame,
}
use priestly.Protocol.Session.Channel.{open_frame-ok}

-- Each check that an accepted frame has passed.
pub record IsVerified (s : SessionState) (frame : SealedFrame) (body : Bytes) : Type 0 where
  pub direction : text_eq frame.direction s.rx_dir ≡ true
  pub decoded : as_authentication (b64decode frame.payload) ≡ ok body
  pub expected : Text
  pub tagged : compute_tag s.rx_mac frame.epoch frame.seq frame.direction body ≡ ok expected
  pub same : compare_digest expected frame.tag ≡ ok true
  pub new : leb_ℤ frame.seq s.rx_seq ≡ false

-- The value of a call that has returned.
text_of : Result Text → Text
text_of (ok t) = t
text_of (raise e) = []

pub verified_body-IsVerified :
    (s : SessionState) (frame : SealedFrame) (body : Bytes)
    → verified_body s frame ≡ ok body
    → IsVerified s frame body
unfolding verified_body text_of
verified_body-IsVerified s frame body h = record {
  direction = ground arith;
  decoded = ground arith;
  expected = text_of (compute_tag s.rx_mac frame.epoch frame.seq frame.direction body);
  tagged = ground arith;
  same = ground arith;
  new = ground arith;
}

-- From the checks to the body: the other direction, but for the sequence number.
IsVerified-again :
    (s t : SessionState) (frame : SealedFrame) {body : Bytes}
    → t.rx_dir ≡ s.rx_dir
    → t.rx_mac ≡ s.rx_mac
    → leb_ℤ frame.seq t.rx_seq ≡ true
    → IsVerified s frame body
    → verified_body t frame ≡ raise replay_error
unfolding verified_body
IsVerified-again s t frame d m stale v = rw (d, m, v.direction, v.decoded, v.tagged, v.same, stale)

-- `feed` opens a row of frames and drops what each of them gives, error or text.
pub feed : SessionState → List SealedFrame → SessionState
feed s [] = s
feed s (frame ∷ frames) = feed (open_frame s frame).1 frames

abbrev AtLeast : ℤ → ℤ → Type 0
AtLeast a b = leb_ℤ b a ≡ true

-- What opening keeps: the direction, the key, and every bound from below on the last number.
record Keeps (s t : SessionState) : Type 0 where
  dir : t.rx_dir ≡ s.rx_dir
  mac : t.rx_mac ≡ s.rx_mac
  grows : (z : ℤ) → AtLeast s.rx_seq z → AtLeast t.rx_seq z

Keeps-refl : (s : SessionState) → Keeps s s
Keeps-refl s = record { dir = refl; mac = refl; grows = λ z h. h }

leb_ℤ_trans : (a b c : ℤ) → leb_ℤ a b ≡ true → leb_ℤ c b ≡ false → leb_ℤ a c ≡ true
leb_ℤ_trans a b c h k = ground arith

pub open_frame-raise :
    (s : SessionState) (frame : SealedFrame) {e : Exception}
    → verified_body s frame ≡ raise e
    → open_frame s frame ≡ (raise e, s)
unfolding open_frame
open_frame-raise s frame h = rw (h, open_frame)

pub open_frame_cases :
    (s : SessionState) (frame : SealedFrame)
    → ((e : Exception) × (verified_body s frame ≡ raise e) × (open_frame s frame ≡ (raise e, s)))
      ⊎ ((body : Bytes) × (verified_body s frame ≡ ok body)
          × (open_frame s frame ≡ (unpack body, record s { rx_seq = frame.seq })))
open_frame_cases s frame = go (verified_body s frame) refl
  where
    go :
        (r : Result Bytes)
        → verified_body s frame ≡ r
        → ((e : Exception) × (verified_body s frame ≡ raise e)
            × (open_frame s frame ≡ (raise e, s)))
          ⊎ ((body : Bytes) × (verified_body s frame ≡ ok body)
              × (open_frame s frame ≡ (unpack body, record s { rx_seq = frame.seq })))
    go (ok body) h = inr (body, h, open_frame-ok s frame h)
    go (raise e) h = inl (e, h, open_frame-raise s frame h)

open_frame-Keeps : (s : SessionState) (frame : SealedFrame) → Keeps s (open_frame s frame).1
open_frame-Keeps s frame = elim (open_frame_cases s frame) [
  | inl (e, _, h) ↦ rw h (Keeps-refl s)
  | inr (body, v, h) ↦ rw h (record {
    dir = refl;
    mac = refl;
    grows =
        λ z old. leb_ℤ_trans z s.rx_seq frame.seq old (verified_body-IsVerified s frame body v).new;
  })
]

Keeps-trans : {s t u : SessionState} → Keeps s t → Keeps t u → Keeps s u
Keeps-trans k l = record {
  dir = l.dir ∙ k.dir;
  mac = l.mac ∙ k.mac;
  grows = λ z h. l.grows z (k.grows z h);
}

feed-Keeps : (s : SessionState) (frames : List SealedFrame) → Keeps s (feed s frames)
unfolding feed
feed-Keeps s [] = Keeps-refl s
feed-Keeps s (frame ∷ frames) =
    Keeps-trans (open_frame-Keeps s frame) (feed-Keeps (open_frame s frame).1 frames)

leb_ℤ_refl : (z : ℤ) → leb_ℤ z z ≡ true
leb_ℤ_refl z = ground arith

-- Once a frame has been opened, the same frame raises ReplayError at every later time, whatever
-- frames come in between, and changes nothing.
pub replay_refused :
    (s : SessionState) (frame : SealedFrame) (frames : List SealedFrame) {text : Bytes}
    → (open_frame s frame).0 ≡ ok text
    → let later = feed (open_frame s frame).1 frames in
      open_frame later frame ≡ (raise replay_error, later)
replay_refused s frame frames h = elim (open_frame_cases s frame) [
  | inl (e, _, r) ↦ cc
  | inr (body, v, r) ↦
      let s' = record s { rx_seq = frame.seq } in
      let kept = feed-Keeps s' frames in
      rw r (
        open_frame-raise (feed s' frames) frame (
          IsVerified-again s (feed s' frames) frame kept.dir kept.mac
            (kept.grows frame.seq (leb_ℤ_refl frame.seq))
            (verified_body-IsVerified s frame body v)))
]
