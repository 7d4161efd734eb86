-- ===== src/Protocol/Process/Confluence.antt =====
-- The order in which two programs take their steps makes no difference to where they end.
use priestly.Base.{
  ℕ, zero, suc, ◌+◌, ◌≡◌, refl, sym, ap, ◌∙◌, ◌⊎◌, inl, inr, some, List, [], ◌∷◌, ◌++◌, arith,
  Result,
}
use priestly.Protocol.Packets.{Frame}
use priestly.Protocol.Process.{Process, finished, sending, receiving}
use priestly.Protocol.Process.System.{
  System, advance, Step, left_goes, right_goes, Run, here, after, IsDone,
}

-- Frames that arrive later make no difference to a step that can be taken.
advance-append :
    {A : Type 0} (p p' : Process A) (inbox rest sent more : List Frame)
    → advance p inbox ≡ some (p', rest, sent)
    → advance p (inbox ++ more) ≡ some (p', rest ++ more, sent)
unfolding advance
advance-append (finished r) p' inbox rest sent more h = absurd (cc h)
advance-append (sending f k) p' inbox rest sent more h = cc h
advance-append (receiving k) p' [] rest sent more h = absurd (cc h)
advance-append (receiving k) p' (f ∷ inbox) rest sent more h = cc h

module _ {A B : Type 0} where
  -- Two steps from one state lead to the same state, or a step from each joins them.
  abbrev Joined : System A B → System A B → Type 0
  Joined t u = (t ≡ u) ⊎ ((w : System A B) × Step t w × Step u w)

  crossed :
      (s t u : System A B) (p : Process A) (q : Process B) (rest sent rest' sent' : List Frame)
      → advance s.left s.to_left ≡ some (p, rest, sent)
      → advance s.right s.to_right ≡ some (q, rest', sent')
      → t ≡ record s { left = p; to_left = rest; to_right = s.to_right ++ sent }
      → u ≡ record s { right = q; to_right = rest'; to_left = s.to_left ++ sent' }
      → (w : System A B) × Step t w × Step u w
  crossed s t u p q rest sent rest' sent' h k e e' = (
    record { left = p; right = q; to_right = rest' ++ sent; to_left = rest ++ sent' },
    right_goes q (rest' ++ sent) sent'
        (ap (λ (z : System A B). advance z.right z.to_right) e
          ∙ advance-append s.right q s.to_right rest' sent' sent k)
        (sym (
          ap
            (λ (z : System A B). record z {
              right = q;
              to_right = rest' ++ sent;
              to_left = z.to_left ++ sent';
            })
            e)),
    left_goes p (rest ++ sent') sent
        (ap (λ (z : System A B). advance z.left z.to_left) e'
          ∙ advance-append s.left p s.to_left rest sent sent' h)
        (sym (
          ap
            (λ (z : System A B). record z {
              left = p;
              to_left = rest ++ sent';
              to_right = z.to_right ++ sent;
            })
            e')),
  )

  diamond : (s t u : System A B) → Step s t → Step s u → Joined t u
  diamond s t u (left_goes p rest sent h e) (left_goes p' rest' sent' h' e') =
      inl (cc (h, h', e, e'))
  diamond s t u (left_goes p rest sent h e) (right_goes q rest' sent' k e') =
      inr (crossed s t u p q rest sent rest' sent' h k e e')
  diamond s t u (right_goes q rest' sent' k e') (left_goes p rest sent h e) =
      let (w, a, b) = crossed s u t p q rest sent rest' sent' h k e e' in inr (w, b, a)
  diamond s t u (right_goes q rest sent k e) (right_goes q' rest' sent' k' e') =
      inl (cc (k, k', e, e'))

  -- Where one run ends that cannot go on, all runs end, after as many steps.
  Run-Step :
      (n : ℕ) (s t f : System A B)
      → Run n s f
      → ((t : System A B) → Step f t → ⊥)
      → Step s t
      → (m : ℕ) × (n ≡ suc m) × Run m t f
  Run-Step zero s t _ here stuck st = absurd (stuck t st)
  Run-Step (suc n) s t f (after {t = u} su r) stuck st = elim (diamond s t u st su) [
    | inl same ↦ (n, refl, rw same r)
    | inr (w, tw, uw) ↦
        let (m, e, r') = Run-Step n u w f r stuck uw in (n, refl, rw e (after tw r'))
  ]

  done_stuck :
      (f : System A B) (a : Result A) (b : Result B)
      → IsDone f a b
      → (t : System A B) → Step f t
      → ⊥
  unfolding advance
  done_stuck f a b d t (left_goes p rest sent h e) =
      cc (ap (λ (q : Process A). advance q f.to_left) (sym d.left_done) ∙ h)
  done_stuck f a b d t (right_goes q rest sent h e) =
      cc (ap (λ (p : Process B). advance p f.to_right) (sym d.right_done) ∙ h)

  -- If some run from a state ends with both programs done, every run from it can be continued to
  -- the same end, and all runs that end have the same number of steps.
  pub Run-confluent :
      (n k : ℕ) (s t f : System A B) (a : Result A) (b : Result B)
      → IsDone f a b
      → Run n s f
      → Run k s t
      → (m : ℕ) × (k + m ≡ n) × Run m t f
  Run-confluent n zero s _ f a b d r here = (n, omega arith, r)
  Run-confluent n (suc k) s t f a b d r (after {t = u} st more) =
      let (m, e, r') = Run-Step n s u f r (done_stuck f a b d) st in
      let (m', e', r'') = Run-confluent m k u t f a b d r' more in (m', omega (arith, e, e'), r'')
