-- ===== src/Protocol/Session/Pack.antt =====
-- `unpack` inverts `pack`, and `pack` never lengthens a payload by more than its marker.
use Prim.Native.Nat.{◌≤◌}
use priestly.Base.{
  ◌+◌, ◌^◌, ◌<◌, ◌≡◌, refl, ◌∙◌, ◌∷◌, arith, ltb, Bool-cases, inl, inr, length, ok, Bytes, IsBytes,
}
use priestly.Crypto.Huffman.{decompress}
use priestly.Crypto.Huffman.RoundTrip.{decompress-compress}
use priestly.Protocol.Session.{stored, huffman_marker, pack, unpack}

unpack_huffman : (blob : Bytes) → unpack (huffman_marker ∷ blob) ≡ decompress blob
unfolding unpack
unpack_huffman blob = refl

pub unpack-stored : (bs : Bytes) → unpack (stored ∷ bs) ≡ ok bs
unfolding unpack
unpack-stored bs = refl

-- A text shorter than 2 ^ 32 bytes is packed to a byte string at most one byte longer, which
-- unpacks to the text.
pub unpack-pack :
    (bs : Bytes)
    → IsBytes bs
    → length bs < 2 ^ 32
    → (body : Bytes) × (pack bs ≡ ok body)
      × (unpack body ≡ ok bs)
      × (length body ≤ length bs + 1)
      × IsBytes body
unfolding pack
unpack-pack bs bytes short =
    let (blob, e, back, blob_bytes) = decompress-compress bs bytes short in
    elim (Bool-cases (ltb (length blob) (length bs))) [
      | inl shorter ↦ (
        huffman_marker ∷ blob,
        rw (e, shorter),
        unpack_huffman blob ∙ back,
        ground arith,
        (omega arith, blob_bytes),
      )
      | inr longer ↦
          (stored ∷ bs, rw (e, longer), unpack-stored bs, omega arith, (omega arith, bytes))
    ]
