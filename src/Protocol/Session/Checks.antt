-- ===== src/Protocol/Session/Checks.antt =====
-- `open` of protocol/session.py: what an accepted frame shows, and what a refused one leaves.
use priestly.Base.{
  ℕ, ◌+◌, ◌<◌, ◌^◌, ◌≡◌, ◌≢◌, refl, sym, ◌∙◌, Bool, true, false, not, arith, ◌⊎◌, inl, inr, Result,
  ok, raise, guard, ◌>>◌, ◌>>=◌, Exception, replay_error, authentication_error, type_error,
  struct_error, Bytes,
}
use priestly.Base.Int.{ℤ, pos, negsuc, leb_ℤ, pack_q, IsU64}
use priestly.Python.Text.{
  Text, text_eq, text_eq_refl, text_eq→eq, is_ascii, compare_digest, compare_digest_iff,
  compare_digest_refused,
}
use priestly.Python.Base64.{b64decode}
use priestly.Crypto.HmacSha256.{sign}
use priestly.Crypto.HmacSha256.Tag.{is_ascii-sign}
use priestly.Protocol.Packets.{SealedFrame}
use priestly.Protocol.Session.{
  SessionState, compute_tag, as_authentication, verified_body, unpack, seal, sealed_frame,
  open_frame,
}
use priestly.Protocol.Session.Channel.{signed, compute_tag-ok}
use priestly.Protocol.Session.Replay.{verified_body-IsVerified, open_frame-raise, open_frame_cases}

-- The facts that an accepted frame carries.
pub record IsAuthentic (s : SessionState) (frame : SealedFrame) (text : Bytes) : Type 0 where
  pub body : Bytes
  pub epoch : ℕ
  pub seq : ℕ
  pub direction : frame.direction ≡ s.rx_dir
  pub decoded : b64decode frame.payload ≡ ok body
  pub epoch_eq : frame.epoch ≡ pos epoch
  pub seq_eq : frame.seq ≡ pos seq
  pub tag : frame.tag ≡ sign s.rx_mac (signed epoch seq frame.direction body)
  pub new : leb_ℤ frame.seq s.rx_seq ≡ false
  pub unpacked : unpack body ≡ ok text

as_authentication-ok : (r : Result Bytes) {b : Bytes} → as_authentication r ≡ ok b → r ≡ ok b
unfolding as_authentication
as_authentication-ok (ok b) h = h
as_authentication-ok (raise e) h = ground arith

-- A tag is computed only for an epoch and a number of 64 bits.
compute_tag_inv :
    (key : Bytes) (epoch seq : ℤ) (direction : Text) (body : Bytes) {t : Text}
    → compute_tag key epoch seq direction body ≡ ok t
    → (e : ℕ) × (n : ℕ) × (epoch ≡ pos e)
      × (seq ≡ pos n)
      × (sign key (signed e n direction body) ≡ t)
unfolding compute_tag pack_q
compute_tag_inv key (pos e) (pos n) direction body h = (e, n, refl, refl, ground arith)
compute_tag_inv key (pos e) (negsuc n) direction body h = ground arith
compute_tag_inv key (negsuc e) seq direction body h = cc

-- The facts that a frame shows whose number is recorded.
pub record IsGenuine (s : SessionState) (frame : SealedFrame) (body : Bytes) : Type 0 where
  pub epoch : ℕ
  pub seq : ℕ
  pub direction : frame.direction ≡ s.rx_dir
  pub decoded : b64decode frame.payload ≡ ok body
  pub epoch_eq : frame.epoch ≡ pos epoch
  pub seq_eq : frame.seq ≡ pos seq
  pub tag : frame.tag ≡ sign s.rx_mac (signed epoch seq frame.direction body)
  pub new : leb_ℤ frame.seq s.rx_seq ≡ false

verified_body-IsGenuine :
    (s : SessionState) (frame : SealedFrame) (body : Bytes)
    → verified_body s frame ≡ ok body
    → IsGenuine s frame body
verified_body-IsGenuine s frame body v =
    let c = verified_body-IsVerified s frame body v in
    let (e, n, epoch_eq, seq_eq, t) =
      compute_tag_inv s.rx_mac frame.epoch frame.seq frame.direction body c.tagged in
    let same : compare_digest (sign s.rx_mac (signed e n frame.direction body)) frame.tag
        ≡ ok true =
      rw t c.same in
    record {
      epoch = e;
      seq = n;
      direction = text_eq→eq frame.direction s.rx_dir c.direction;
      decoded = as_authentication-ok (b64decode frame.payload) c.decoded;
      epoch_eq = epoch_eq;
      seq_eq = seq_eq;
      tag =
          (compare_digest_iff _ frame.tag
              (is_ascii-sign s.rx_mac (signed e n frame.direction body))).0
            same;
      new = c.new;
    }

-- A frame is opened only if its direction is the receiving one, its tag is the HMAC under the
-- receiving key of its 64-bit epoch and number, direction and body, its number is new and its body
-- unpacks to the returned text; the new state differs in the last number alone.
pub open_frame-IsAuthentic :
    (s s' : SessionState) (frame : SealedFrame) (text : Bytes)
    → open_frame s frame ≡ (ok text, s')
    → IsAuthentic s frame text × (s' ≡ record s { rx_seq = frame.seq })
open_frame-IsAuthentic s s' frame text h = elim (open_frame_cases s frame) [
  | inl (e, _, r) ↦ cc
  | inr (body, v, r) ↦
      let g = verified_body-IsGenuine s frame body v in
      (
        record {
          body = body;
          epoch = g.epoch;
          seq = g.seq;
          direction = g.direction;
          decoded = g.decoded;
          epoch_eq = g.epoch_eq;
          seq_eq = g.seq_eq;
          tag = g.tag;
          new = g.new;
          unpacked = cc (h, r);
        },
        cc (h, r),
      )
]

-- Opening a frame either raises and leaves the state as it was, or the frame has the receiving
-- direction, the HMAC under the receiving key of its epoch, number, direction and body as its tag,
-- and a new number: then its number is recorded, nothing else in the state changes, and the
-- outcome is that of unpacking the body.
pub open_frame-recorded :
    (s : SessionState) (frame : SealedFrame)
    → ((e : Exception) × (open_frame s frame ≡ (raise e, s)))
      ⊎ ((body : Bytes) × IsGenuine s frame body
          × (open_frame s frame ≡ (unpack body, record s { rx_seq = frame.seq })))
open_frame-recorded s frame = elim (open_frame_cases s frame) [
  | inl (e, _, r) ↦ inl (e, r)
  | inr (body, v, r) ↦ inr (body, verified_body-IsGenuine s frame body v, r)
]

-- The frame that `seal` returns carries the sender's direction.
sealed_frame-direction :
    (s : SessionState) (p : Bytes) {frame : SealedFrame}
    → sealed_frame s p ≡ ok frame
    → frame.direction ≡ s.tx_dir
unfolding sealed_frame
sealed_frame-direction s p h = ground arith

text_eq_ne : (a b : Text) → a ≢ b → text_eq a b ≡ false
text_eq_ne a b ne = go (text_eq a b) refl
  where
    go : (r : Bool) → text_eq a b ≡ r → r ≡ false
    go true e = absurd (ne (text_eq→eq a b e))
    go false e = refl

wrong_direction :
    (s : SessionState) (frame : SealedFrame)
    → frame.direction ≢ s.rx_dir
    → open_frame s frame ≡ (raise authentication_error, s)
wrong_direction s frame ne =
    open_frame-raise s frame (unfold verified_body in rw (text_eq_ne frame.direction s.rx_dir ne))

-- A frame that is reflected to an end whose receiving direction is not the one it was sealed with
-- raises AuthenticationError and changes nothing.
pub reflection_refused :
    (s later : SessionState) (plaintext : Bytes) {frame : SealedFrame}
    → s.tx_dir ≢ later.rx_dir
    → (seal s plaintext).0 ≡ ok frame
    → open_frame later frame ≡ (raise authentication_error, later)
reflection_refused s later plaintext {frame} ne h =
    wrong_direction later frame (λ e.
      ne (sym (sealed_frame-direction (record s { tx_seq = s.tx_seq + 1 }) plaintext sent) ∙ e))
  where
    sent : sealed_frame (record s { tx_seq = s.tx_seq + 1 }) plaintext ≡ ok frame
    sent = unfold seal in h

compute_tag_refused :
    (key : Bytes) (epoch seq : ℤ) (direction : Text) (body : Bytes)
    → (¬ IsU64 epoch) ⊎ (¬ IsU64 seq)
    → compute_tag key epoch seq direction body ≡ raise struct_error
unfolding compute_tag
compute_tag_refused key (pos e) (pos n) direction body h = ground arith
compute_tag_refused key (pos e) (negsuc n) direction body h = ground arith
compute_tag_refused key (negsuc e) seq direction body h = refl

-- The first two checks, and what follows them.
checked_tag :
    (s : SessionState) (frame : SealedFrame) {body : Bytes} {e : Exception}
    → frame.direction ≡ s.rx_dir
    → b64decode frame.payload ≡ ok body
    → (compute_tag s.rx_mac frame.epoch frame.seq frame.direction body >>= λ t.
        compare_digest t frame.tag)
      ≡ raise e
    → verified_body s frame ≡ raise e
unfolding verified_body as_authentication
checked_tag s frame {body} d decoded h =
    rw (text_eq_of_eq frame.direction s.rx_dir d, decoded)
      (bind_raise (compute_tag s.rx_mac frame.epoch frame.seq frame.direction body)
        (λ t. compare_digest t frame.tag)
        (λ same.
          guard same authentication_error
          >> (guard (not (leb_ℤ frame.seq s.rx_seq)) replay_error >> ok body))
        h)
  where
    text_eq_of_eq : (a b : Text) → a ≡ b → text_eq a b ≡ true
    text_eq_of_eq a b e = rw e (text_eq_refl b)

    bind_raise :
        {A : Type 0} (m : Result Text) (f : Text → Result Bool) (g : Bool → Result A)
        {e : Exception}
        → (m >>= f) ≡ raise e
        → (m >>= λ t. f t >>= g) ≡ raise e
    bind_raise (ok t) f g h = rw h
    bind_raise (raise x) f g h = cc

pub open_frame-struct_error :
    (s : SessionState) (frame : SealedFrame) {body : Bytes}
    → frame.direction ≡ s.rx_dir
    → b64decode frame.payload ≡ ok body
    → (¬ IsU64 frame.epoch) ⊎ (¬ IsU64 frame.seq)
    → open_frame s frame ≡ (raise struct_error, s)
open_frame-struct_error s frame {body} d decoded out = open_frame-raise s frame (
    checked_tag s frame d decoded
      (rw (compute_tag_refused s.rx_mac frame.epoch frame.seq frame.direction body out)))

pub open_frame-type_error :
    (s : SessionState) (frame : SealedFrame) {body : Bytes} {epoch seq : ℕ}
    → frame.direction ≡ s.rx_dir
    → b64decode frame.payload ≡ ok body
    → frame.epoch ≡ pos epoch
    → frame.seq ≡ pos seq
    → epoch < 2 ^ 64
    → seq < 2 ^ 64
    → is_ascii frame.tag ≡ false
    → open_frame s frame ≡ (raise type_error, s)
open_frame-type_error s frame {body} {epoch} {seq} d decoded e n he hn t =
    open_frame-raise s frame (
      checked_tag s frame d decoded (
        rw (e, n, compute_tag-ok s.rx_mac epoch seq frame.direction body he hn)
          (compare_digest_refused _ frame.tag t)))
