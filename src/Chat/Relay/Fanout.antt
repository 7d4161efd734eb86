-- ===== src/Chat/Relay/Fanout.antt =====
-- The broadcast of cli/relay.py: what it does to each client.
use priestly.Base.{
  ℕ, ◌≡◌, refl, sym, ap, ◌∙◌, Bool, true, false, not, ◌&&◌, ◌||◌, Option, none, some, List, [], ◌∷◌,
  ◌==◌, ==_iff, Bytes, if◌then◌else◌, Result, ok, raise,
}
use mathlib.Core.Option as Option
use priestly.Base.Dict.{lookup, update, lookup-update, update-Distinct, Distinct}
use priestly.Python.Text.{Text}
use priestly.Protocol.Packets.{Pydantic}
use priestly.Chat.Relay.{
  Json, RegisteredClient, Member, ClientRegistry, recipients, settle, deliver, delivered,
  deliver_all, broadcast,
}

-- Whether a number is on the list.
abbrev contains : ℕ → List ℕ → Bool
contains k [] = false
contains k (j ∷ js) = (j == k) || contains k js

abbrev NoRepeats : List ℕ → Type 0
NoRepeats [] = Unit
NoRepeats (j ∷ js) = (contains j js ≡ false) × NoRepeats js

-- Whether a broadcast of `sender` goes to the client under a number.
abbrev pub is_recipient : ℕ → ℕ → Option Member → Bool
is_recipient sender k none = false
is_recipient sender k (some m) = m.registered && not (k == sender)

module _ (sender : ℕ) where
  wanted_there :
      (k id : ℕ) (m : Member) (wanted : Bool)
      → (id == k) ≡ true
      → m.registered && not (id == sender) ≡ wanted
      → is_recipient sender k (some m) ≡ wanted
  wanted_there k id m wanted e w =
      ap (λ (n : ℕ). m.registered && not (n == sender)) (sym ((==_iff id k).0 e)) ∙ w

  recipients_step :
      (k id : ℕ) (m : Member) (rest : List ℕ) (o : Option Member) (same wanted : Bool)
      → (id == k) ≡ same
      → m.registered && not (id == sender) ≡ wanted
      → (same ≡ true → o ≡ none)
      → contains k rest ≡ is_recipient sender k o
      → contains k (if wanted then id ∷ rest else rest)
        ≡ is_recipient sender k (if same then some m else o)
  recipients_step k id m rest o true true e w fresh ih =
      ap (λ (b : Bool). b || contains k rest) e ∙ sym (wanted_there k id m true e w)
  recipients_step k id m rest o true false e w fresh ih =
      ih ∙ ap (is_recipient sender k) (fresh refl) ∙ sym (wanted_there k id m false e w)
  recipients_step k id m rest o false true e w fresh ih =
      ap (λ (b : Bool). b || contains k rest) e ∙ ih
  recipients_step k id m rest o false false e w fresh ih = ih

  contains-recipients :
      (k : ℕ) (hub : ClientRegistry)
      → Distinct hub
      → contains k (recipients sender hub) ≡ is_recipient sender k (lookup k hub)
  unfolding recipients lookup
  contains-recipients k [] h = refl
  contains-recipients k ((id, m) ∷ hub) h =
      recipients_step k id m (recipients sender hub) (lookup k hub) (id == k)
        (m.registered && not (id == sender)) refl refl
        (λ e. ap (λ (n : ℕ). lookup n hub) (sym ((==_iff id k).0 e)) ∙ h.0)
        (contains-recipients k hub h.1)

  kept-NoRepeats :
      (id : ℕ) (rest : List ℕ) (wanted : Bool)
      → contains id rest ≡ false
      → NoRepeats rest
      → NoRepeats (if wanted then id ∷ rest else rest)
  kept-NoRepeats id rest true fresh h = (fresh, h)
  kept-NoRepeats id rest false fresh h = h

  recipients-NoRepeats : (hub : ClientRegistry) → Distinct hub → NoRepeats (recipients sender hub)
  unfolding recipients
  recipients-NoRepeats [] h = tt
  recipients-NoRepeats ((id, m) ∷ hub) h =
      kept-NoRepeats id (recipients sender hub) (m.registered && not (id == sender))
        (contains-recipients id hub h.1 ∙ ap (is_recipient sender id) h.0)
        (recipients-NoRepeats hub h.1)

module _ (urandom : ℕ → Bytes) (json : Json) (pydantic : Pydantic) (text sender_name : Text) where
  abbrev after_delivery : Bool → Option Member → Option Member
  after_delivery b o =
      if b then Option.map (delivered urandom json pydantic text sender_name) o else o

  deliver_all_step :
      (k id : ℕ) (ids : List ℕ) (hub : ClientRegistry) (same : Bool)
      → (id == k) ≡ same
      → contains id ids ≡ false
      → after_delivery
          (contains k ids)
          (lookup k (update id (delivered urandom json pydantic text sender_name) hub))
        ≡ after_delivery (same || contains k ids) (lookup k hub)
  deliver_all_step k id ids hub true e fresh =
      ap
        (λ (b : Bool).
          after_delivery b
            (lookup k (update id (delivered urandom json pydantic text sender_name) hub)))
        (ap (λ (n : ℕ). contains n ids) (sym ((==_iff id k).0 e)) ∙ fresh)
      ∙ lookup-update k id (delivered urandom json pydantic text sender_name) hub
      ∙ ap (λ (b : Bool). after_delivery b (lookup k hub)) e
  deliver_all_step k id ids hub false e fresh = ap (after_delivery (contains k ids)) (
      lookup-update k id (delivered urandom json pydantic text sender_name) hub
      ∙ ap (λ (b : Bool). after_delivery b (lookup k hub)) e)

  deliver_all-lookup :
      (k : ℕ) (ids : List ℕ) (hub : ClientRegistry)
      → NoRepeats ids
      → lookup k (deliver_all urandom json pydantic text sender_name ids hub)
        ≡ after_delivery (contains k ids) (lookup k hub)
  unfolding deliver_all
  deliver_all-lookup k [] hub h = refl
  deliver_all-lookup k (id ∷ ids) hub h =
      deliver_all-lookup k ids (update id (delivered urandom json pydantic text sender_name) hub)
        h.1
      ∙ deliver_all_step k id ids hub (id == k) refl h.0

  deliver_all-Distinct :
      (ids : List ℕ) (hub : ClientRegistry)
      → Distinct hub
      → Distinct (deliver_all urandom json pydantic text sender_name ids hub)
  unfolding deliver_all
  deliver_all-Distinct [] hub h = h
  deliver_all-Distinct (id ∷ ids) hub h =
      deliver_all-Distinct ids (update id (delivered urandom json pydantic text sender_name) hub)
        (update-Distinct id (delivered urandom json pydantic text sender_name) hub h)

  pub broadcast-lookup :
      (sender k : ℕ) (hub : ClientRegistry)
      → Distinct hub
      → lookup k (broadcast urandom json pydantic sender text sender_name hub) ≡ (
          if is_recipient sender k (lookup k hub)
          then Option.map (delivered urandom json pydantic text sender_name) (lookup k hub)
          else lookup k hub)
  unfolding broadcast
  broadcast-lookup sender k hub h =
      deliver_all-lookup k (recipients sender hub) hub (recipients-NoRepeats sender hub h)
      ∙ ap (λ (b : Bool). after_delivery b (lookup k hub)) (contains-recipients sender k hub h)

  pub broadcast-Distinct :
      (sender : ℕ) (hub : ClientRegistry)
      → Distinct hub
      → Distinct (broadcast urandom json pydantic sender text sender_name hub)
  unfolding broadcast
  broadcast-Distinct sender hub = deliver_all-Distinct (recipients sender hub) hub

  abbrev returned : Result (Unit {0}) → Bool
  returned (ok u) = true
  returned (raise e) = false

  -- A recipient behind its delivery: it stays in the set if the delivery returned, and only then.
  abbrev pub outcome : Member → Member
  outcome m =
      let (r, c) = deliver urandom json pydantic text sender_name m.client in
      record { client = c; registered = returned r }

  delivered-outcome :
      (m : Member)
      → m.registered ≡ true
      → delivered urandom json pydantic text sender_name m ≡ outcome m
  unfolding delivered
  delivered-outcome m h =
      let (r, c) = deliver urandom json pydantic text sender_name m.client in settled r c
    where
      settled :
          (r : Result (Unit {0})) (c : RegisteredClient)
          → settle r (record m { client = c }) ≡ record { client = c; registered = returned r }
      settled (ok u) c = ap (λ (b : Bool). record { client = c; registered = b }) h
      settled (raise e) c = refl

  recipient_outcome :
      (wanted : Bool) (m : Member) (registered : Bool)
      → m.registered ≡ registered
      → (if m.registered && wanted
          then some (delivered urandom json pydantic text sender_name m)
          else some m)
        ≡ (if m.registered && wanted then some (outcome m) else some m)
  recipient_outcome wanted m true h =
      ap (λ (n : Member). if m.registered && wanted then some n else some m) (delivered-outcome m h)
  recipient_outcome wanted m false h =
      ap
        (λ (b : Bool).
          if b && wanted then some (delivered urandom json pydantic text sender_name m) else some m)
        h
      ∙ sym (ap (λ (b : Bool). if b && wanted then some (outcome m) else some m) h)

  -- After a broadcast every registered client but the sender is what its own delivery has made of
  -- it, and registered exactly if that delivery returned, and every other client is as it was: no
  -- delivery depends on another.
  pub broadcast-outcome :
      (sender k : ℕ) (hub : ClientRegistry)
      → Distinct hub
      → lookup k (broadcast urandom json pydantic sender text sender_name hub) ≡ (
          if is_recipient sender k (lookup k hub)
          then Option.map outcome (lookup k hub)
          else lookup k hub)
  broadcast-outcome sender k hub h = broadcast-lookup sender k hub h ∙ by_member (lookup k hub)
    where
      by_member :
          (o : Option Member)
          → (if is_recipient sender k o
              then Option.map (delivered urandom json pydantic text sender_name) o
              else o)
            ≡ (if is_recipient sender k o then Option.map outcome o else o)
      by_member none = refl
      by_member (some m) = recipient_outcome (not (k == sender)) m m.registered refl
