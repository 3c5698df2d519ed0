-- ===== src/Devices/Protocol.antt =====
-- The EEPROM's dialogues, byte by byte. The SSU calls the EEPROM seven times for a byte.
pub mod Reading
pub mod Writing
pub mod Accel
use pokestroller.Base.{ℕ, zero, suc, ◌≡◌, refl, ap, ◌∙◌, List, [], ◌∷◌}
use pokestroller.Machine.{EepromState, Walker, Outcome, ok, unimplemented, undefined, poke, ◌>>=◌}
use pokestroller.Devices.Status.{sstdr, tdre, rdrf, raise}
use pokestroller.Devices.Eeprom.{
  eeprom_receive, eeprom_receive_in, eeprom_transmit, eeprom_transmit_in,
}

unfoldable pub times : ℕ → (Walker → Outcome) → Walker → Outcome
times zero f w = ok w
times (suc n) f w = f w >>= times n f

-- A byte in SSTDR, and the seven calls.
unfoldable pub receive_byte : ℕ → Walker → Outcome
receive_byte v w = times 7 eeprom_receive (poke w sstdr v)

unfoldable pub transmit_byte : ℕ → Walker → Outcome
transmit_byte v w = times 7 eeprom_transmit (poke w sstdr v)

-- One exchange for each byte of a list.
unfoldable pub each : (ℕ → Walker → Outcome) → List ℕ → Walker → Outcome
each f [] w = ok w
each f (v ∷ vs) w = f v w >>= each f vs

abbrev pub at_progress : ℕ → Walker → Walker
at_progress k w = record w { ssu = record { progress = k } }

pub >>=-ok : (o : Outcome) → (o >>= ok) ≡ o
>>=-ok (ok w) = refl
>>=-ok (unimplemented w) = refl
>>=-ok undefined = refl

pub seven_receive :
    (w : Walker)
    → times 7 eeprom_receive (at_progress 0 w) ≡ (
        eeprom_receive_in w.eeprom.state (at_progress 0 w) >>= λ w2.
        ok (raise tdre (raise rdrf w2)))
unfolding times eeprom_receive
seven_receive w =
    >>=-ok
      (eeprom_receive_in w.eeprom.state (at_progress 0 w) >>= λ w2. ok (raise tdre (raise rdrf w2)))

pub seven_transmit :
    (w : Walker)
    → times 7 eeprom_transmit (at_progress 0 w)
      ≡ (eeprom_transmit_in w.eeprom.state (at_progress 0 w) >>= λ w2. ok (raise tdre w2))
unfolding times eeprom_transmit
seven_transmit w =
    >>=-ok (eeprom_transmit_in w.eeprom.state (at_progress 0 w) >>= λ w2. ok (raise tdre w2))

-- Between two bytes the count stands at 0.
pub at_progress_zero : (w : Walker) → w.ssu.progress ≡ 0 → w ≡ at_progress 0 w
at_progress_zero w h = λ i. record w { ssu = record { progress = h i } }

pub receive_whole :
    (v : ℕ) (w : Walker)
    → w.ssu.progress ≡ 0
    → receive_byte v w ≡ (
        eeprom_receive_in w.eeprom.state (at_progress 0 (poke w sstdr v)) >>= λ w2.
        ok (raise tdre (raise rdrf w2)))
unfolding receive_byte
receive_whole v w h =
    ap (times 7 eeprom_receive) (at_progress_zero (poke w sstdr v) h)
    ∙ seven_receive (poke w sstdr v)

pub transmit_whole :
    (v : ℕ) (w : Walker)
    → w.ssu.progress ≡ 0
    → transmit_byte v w ≡ (
        eeprom_transmit_in w.eeprom.state (at_progress 0 (poke w sstdr v)) >>= λ w2.
        ok (raise tdre w2))
unfolding transmit_byte
transmit_whole v w h =
    ap (times 7 eeprom_transmit) (at_progress_zero (poke w sstdr v) h)
    ∙ seven_transmit (poke w sstdr v)

-- Between two bytes: no partial byte, the device in `state`, its memory `m`, its offset `k`.
pub record Between (state : EepromState) (m : ℕ → ℕ) (k : ℕ) (w : Walker) : Type 0 where
  pub whole : w.ssu.progress ≡ 0
  pub now : w.eeprom.state ≡ state
  pub holds : w.eeprom.memory ≡ m
  pub done : w.eeprom.offset ≡ k

-- The outcome is a state with a property.
abbrev pub Holds : (Walker → Type 0) → Outcome → Type 0
Holds P (ok w) = P w
Holds P (unimplemented w) = ⊥
Holds P undefined = ⊥

pub Holds-bind :
    (P Q : Walker → Type 0) (o : Outcome) (f : Walker → Outcome)
    → Holds P o
    → ((w : Walker) → P w → Holds Q (f w))
    → Holds Q (o >>= f)
Holds-bind P Q (ok w) f h k = k w h
Holds-bind P Q (unimplemented w) f h k = absurd h
Holds-bind P Q undefined f h k = absurd h

pub Holds-mono :
    (P Q : Walker → Type 0) (o : Outcome) → Holds P o → ((w : Walker) → P w → Q w) → Holds Q o
Holds-mono P Q (ok w) h k = k w h
Holds-mono P Q (unimplemented w) h k = h
Holds-mono P Q undefined h k = h

pub Holds-undefined :
    (P : Walker → Type 0) (o : Outcome) (f : Walker → Outcome)
    → Holds P o
    → ((w : Walker) → P w → f w ≡ undefined)
    → (o >>= f) ≡ undefined
Holds-undefined P (ok w) f h k = k w h
Holds-undefined P (unimplemented w) f h k = absurd h
Holds-undefined P undefined f h k = absurd h
