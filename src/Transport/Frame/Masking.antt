-- ===== src/Transport/Frame/Masking.antt =====
-- The masking of payloads in transport/ws.py: doing it twice undoes it.
use priestly.Base.{
  ℕ, zero, suc, ◌%◌, ◌≡◌, refl, ap, ap₂, [], ◌∷◌, arith, length, get_or, Bytes, IsByte, IsBytes,
}
use priestly.Base.Bits.{bit_xor_undo, bit_xor-lt}
use priestly.Transport.Frame.{apply_mask}

pub apply_mask-apply_mask :
    (key : Bytes) (i : ℕ) (bs : Bytes) → apply_mask key i (apply_mask key i bs) ≡ bs
unfolding apply_mask
apply_mask-apply_mask key i [] = refl
apply_mask-apply_mask key i (b ∷ bs) =
    ap₂ (λ (x : ℕ) (xs : Bytes). x ∷ xs) (bit_xor_undo b (get_or key (i % 4) 0))
      (apply_mask-apply_mask key (suc i) bs)

pub length-apply_mask :
    (key : Bytes) (i : ℕ) (bs : Bytes) → length (apply_mask key i bs) ≡ length bs
unfolding apply_mask
length-apply_mask key i [] = refl
length-apply_mask key i (b ∷ bs) = ap suc (length-apply_mask key (suc i) bs)

get_or-IsByte : (bs : Bytes) (i : ℕ) → IsBytes bs → IsByte (get_or bs i 0)
get_or-IsByte [] i h = omega arith
get_or-IsByte (b ∷ bs) zero h = h.0
get_or-IsByte (b ∷ bs) (suc i) h = get_or-IsByte bs i h.1

pub apply_mask-IsBytes :
    (key : Bytes) (i : ℕ) (bs : Bytes) → IsBytes key → IsBytes bs → IsBytes (apply_mask key i bs)
unfolding apply_mask
apply_mask-IsBytes key i [] hk h = tt
apply_mask-IsBytes key i (b ∷ bs) hk h = (
  bit_xor-lt 8 b (get_or key (i % 4) 0) h.0 (get_or-IsByte key (i % 4) hk),
  apply_mask-IsBytes key (suc i) bs hk h.1,
)
