-- ===== src/Protocol/Session/Channel.antt =====
-- Two ends that share a key: what one seals the other opens, message after message.
use Prim.Native.Nat.{◌≤◌}
use priestly.Base.{
  ℕ, ◌+◌, ◌^◌, ◌<◌, ◌≡◌, refl, Bool, true, false, not, List, [], ◌∷◌, ◌++◌, arith, if◌then◌else◌,
  length, Result, ok, raise, ◌>>=◌, Bytes, IsBytes, be_bytes, All,
}
use priestly.Base.Int.{pos, pack_q-ok}
use priestly.Python.Text.{Text, text_eq_refl, compare_digest_iff}
use priestly.Python.Base64.{b64encode}
use priestly.Python.Base64.Codec.{b64decode-b64encode}
use priestly.Crypto.HmacSha256.{sign}
use priestly.Crypto.HmacSha256.Tag.{is_ascii-sign}
use priestly.Protocol.Packets.{SealedFrame}
use priestly.Crypto.Covenant.{Keys}
use priestly.Protocol.Session.{
  SessionState, start, stored, pack, unpack, direction_byte, compute_tag, seal, as_authentication,
  verified_body, open_frame,
}
use priestly.Protocol.Session.Pack.{unpack-pack, unpack-stored}

-- The text that a tag is computed over.
abbrev pub signed : ℕ → ℕ → Text → Bytes → Bytes
signed epoch seq direction body =
    (be_bytes 8 epoch ++ (be_bytes 8 seq ++ (direction_byte direction ∷ []))) ++ body

pub compute_tag-ok :
    (key : Bytes) (epoch seq : ℕ) (direction : Text) (body : Bytes)
    → epoch < 2 ^ 64
    → seq < 2 ^ 64
    → compute_tag key (pos epoch) (pos seq) direction body
      ≡ ok (sign key (signed epoch seq direction body))
unfolding compute_tag
compute_tag-ok key epoch seq direction body he hs = rw (pack_q-ok epoch he, pack_q-ok seq hs)

-- The receiver's key and direction are the sender's, and it has seen nothing that is yet to be sent.
pub record Paired (s r : SessionState) : Type 0 where
  pub direction : s.tx_dir ≡ r.rx_dir
  pub mac : s.tx_mac ≡ r.rx_mac
  pub seen : ℕ
  pub seen_eq : r.rx_seq ≡ pos seen
  pub fresh : seen ≤ s.tx_seq
  pub epoch_fits : s.epoch < 2 ^ 64

-- The body that is authenticated, packed or stored.
body_of :
    (compress : Bool) (p : Bytes)
    → IsBytes p
    → length p < 2 ^ 32
    → (body : Bytes) × ((if compress then pack p else ok (stored ∷ p)) ≡ ok body)
      × (unpack body ≡ ok p)
      × IsBytes body
body_of true p bytes short =
    let (body, e, back, _, body_bytes) = unpack-pack p bytes short in (body, e, back, body_bytes)
body_of false p bytes short = (stored ∷ p, refl, unpack-stored p, (omega arith, bytes))

-- A frame that carries the right tag, for the receiver's direction and with a new number.
verified_body-ok :
    (r : SessionState) (epoch seq seen : ℕ) (body : Bytes)
    → epoch < 2 ^ 64
    → seq < 2 ^ 64
    → IsBytes body
    → r.rx_seq ≡ pos seen
    → seen < seq
    → verified_body r (record {
      epoch = pos epoch;
      seq = pos seq;
      direction = r.rx_dir;
      payload = b64encode body;
      tag = sign r.rx_mac (signed epoch seq r.rx_dir body);
    })
      ≡ ok body
unfolding verified_body as_authentication
verified_body-ok r epoch seq seen body he hs bytes seen_eq new =
    let t = sign r.rx_mac (signed epoch seq r.rx_dir body) in
    rw
      (
        text_eq_refl r.rx_dir,
        b64decode-b64encode body bytes,
        compute_tag-ok r.rx_mac epoch seq r.rx_dir body he hs,
        (compare_digest_iff t t (is_ascii-sign r.rx_mac (signed epoch seq r.rx_dir body))).1 refl,
        seen_eq,
      )
      (ground arith)

pub open_frame-ok :
    (r : SessionState) (frame : SealedFrame) {body : Bytes}
    → verified_body r frame ≡ ok body
    → open_frame r frame ≡ (unpack body, record r { rx_seq = frame.seq })
unfolding open_frame
open_frame-ok r frame e = rw (e, open_frame)

-- What one end of a paired channel seals the other opens to the same text, the ends stay paired,
-- and the two states change in their sequence numbers alone.
pub open_frame-seal :
    (s r : SessionState) (plaintext : Bytes)
    → Paired s r
    → IsBytes plaintext
    → length plaintext < 2 ^ 32
    → s.tx_seq + 1 < 2 ^ 64
    → let s' = record s { tx_seq = s.tx_seq + 1 } in
      let r' = record r { rx_seq = pos (s.tx_seq + 1) } in
      (frame : SealedFrame) × (seal s plaintext ≡ (ok frame, s'))
      × (open_frame r frame ≡ (ok plaintext, r'))
      × Paired s' r'
unfolding seal
open_frame-seal s r plaintext pair bytes short room =
    let (body, packed, unpacked, body_bytes) = body_of s.compress plaintext bytes short in
    (
      record {
        epoch = pos s.epoch;
        seq = pos (s.tx_seq + 1);
        direction = r.rx_dir;
        payload = b64encode body;
        tag = sign r.rx_mac (signed s.epoch (s.tx_seq + 1) r.rx_dir body);
      },
      rw (
        packed,
        compute_tag-ok s.tx_mac s.epoch (s.tx_seq + 1) s.tx_dir body pair.epoch_fits room,
        pair.direction,
        pair.mac,
      ),
      rw (
        open_frame-ok r _ (
            verified_body-ok r s.epoch (s.tx_seq + 1) pair.seen body pair.epoch_fits room body_bytes
              pair.seen_eq (omega (arith, pair.fresh))),
        unpacked,
      ),
      record {
        direction = pair.direction;
        mac = pair.mac;
        seen = s.tx_seq + 1;
        seen_eq = refl;
        fresh = omega arith;
        epoch_fits = pair.epoch_fits;
      },
    )

-- A frame that is lost leaves the ends paired.
Paired-skip : (s r : SessionState) → Paired s r → Paired (record s { tx_seq = s.tx_seq + 1 }) r
Paired-skip s r pair = record {
  direction = pair.direction;
  mac = pair.mac;
  seen = pair.seen;
  seen_eq = pair.seen_eq;
  fresh = omega (arith, pair.fresh);
  epoch_fits = pair.epoch_fits;
}

-- One end seals each text in turn, and the network delivers its frame or loses it; the texts that
-- the other end gets.
pub transmit : SessionState → SessionState → List (Bool × Bytes) → Result (List Bytes)
transmit s r [] = ok []
transmit s r ((arrives, plaintext) ∷ rest) = elim (seal s plaintext).0 [
  | raise e ↦ raise e
  | ok frame ↦ elim arrives [
    | false ↦ transmit (seal s plaintext).1 r rest
    | true ↦ do
      text ← (open_frame r frame).0
      more ← transmit (seal s plaintext).1 (open_frame r frame).1 rest
      ok (text ∷ more)
  ]
]

abbrev pub arrived : List (Bool × Bytes) → List Bytes
arrived [] = []
arrived ((true, plaintext) ∷ rest) = plaintext ∷ arrived rest
arrived ((false, plaintext) ∷ rest) = arrived rest

abbrev pub Sendable : Bool × Bytes → Type 0
Sendable (arrives, plaintext) = IsBytes plaintext × (length plaintext < 2 ^ 32)

-- Between two paired ends, whichever frames the network loses, every frame that arrives is opened
-- without an error to the text that was sealed, in the order of sending, as long as the sequence
-- numbers stay below 2 ^ 64.
pub transmit-arrived :
    (s r : SessionState) (script : List (Bool × Bytes))
    → Paired s r
    → All Sendable script
    → s.tx_seq + length script < 2 ^ 64
    → transmit s r script ≡ ok (arrived script)
unfolding transmit
transmit-arrived s r [] pair ready room = refl
transmit-arrived s r ((true, plaintext) ∷ rest) pair ((bytes, short), ready) room =
    let (frame, sent, opened, still) =
      open_frame-seal s r plaintext pair bytes short (omega arith) in
    rw (
      sent,
      transmit,
      opened,
      sent,
      transmit-arrived (record s { tx_seq = s.tx_seq + 1 })
          (record r { rx_seq = pos (s.tx_seq + 1) }) rest still ready (omega arith),
    )
transmit-arrived s r ((false, plaintext) ∷ rest) pair ((bytes, short), ready) room =
    let (frame, sent, opened, still) =
      open_frame-seal s r plaintext pair bytes short (omega arith) in
    rw (
      sent,
      transmit,
      sent,
      transmit-arrived (record s { tx_seq = s.tx_seq + 1 }) r rest (Paired-skip s r pair) ready
          (omega arith),
    )

-- The two ends that one handshake starts, whichever of them sends, and however each compresses.
pub start-Paired :
    (keys : Keys) (side a b : Bool) → Paired (start keys side a) (start keys (not side) b)
unfolding start
start-Paired keys true a b = record {
  direction = refl;
  mac = refl;
  seen = 0;
  seen_eq = refl;
  fresh = omega arith;
  epoch_fits = omega arith;
}
start-Paired keys false a b = record {
  direction = refl;
  mac = refl;
  seen = 0;
  seen_eq = refl;
  fresh = omega arith;
  epoch_fits = omega arith;
}
