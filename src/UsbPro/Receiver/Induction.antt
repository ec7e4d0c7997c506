-- ===== src/UsbPro/Receiver/Induction.antt =====
-- Induction over the events of Read of UsbProReceiver.cpp.
use rgbmixer.Base.{ℕ, ◌≡◌, subst, inl, inr, Option-cases, List, [], ◌∷◌, some}
use rgbmixer.UsbPro.Receiver.{
  Receiver, Outcome, waits, calls, overrun, receive, Event, idle, byte, act, round, read,
}

module _ {ℓ} {B D : Type 0} (callback : B → ℕ → (ℕ → ℕ) → ℕ → D → D) (idle_callback : D → D)
    (R : D → D → Type ℓ) (stay : (d : D) → R d d)
    (join : (d d' d'' : D) → R d d' → R d' d'' → R d d'')
    (on_call : (b : B) (label : ℕ) (m : ℕ → ℕ) (size : ℕ) (d : D) → R d (callback b label m size d))
    (on_idle : (d : D) → R d (idle_callback d)) where
  act_inv :
      (b : B) (o : Outcome) (d : D) (r' : Receiver) (d' : D)
      → act callback idle_callback b o d ≡ some (r', d')
      → R d d'
  unfolding act
  act_inv b (waits r) d r' d' e = let same : d ≡ d' = cc in subst (R d) same (stay d)
  act_inv b (calls label m size r) d r' d' e =
      let same : callback b label m size d ≡ d' = cc in subst (R d) same (on_call b label m size d)
  act_inv b overrun d r' d' e = absurd (cc)

  round_inv :
      (ev : Event B) (r : Receiver) (d : D) (r' : Receiver) (d' : D)
      → round callback idle_callback ev r d ≡ some (r', d')
      → R d d'
  unfolding round
  round_inv idle r d r' d' e = let same : idle_callback d ≡ d' = cc in subst (R d) same (on_idle d)
  round_inv (byte b value) r d r' d' e = act_inv b (receive r value) d r' d' e

  -- What each callback does to the state, and doing nothing and one thing after another, the loop
  -- does.
  pub read_inv :
      (evs : List (Event B)) (r : Receiver) (d : D) (r' : Receiver) (d' : D)
      → read callback idle_callback evs r d ≡ some (r', d')
      → R d d'
  unfolding read
  read_inv [] r d r' d' e = let same : d ≡ d' = cc in subst (R d) same (stay d)
  read_inv (ev ∷ evs) r d r' d' e = elim (Option-cases (round callback idle_callback ev r d)) [
    | inl stops ↦ absurd (let none_some = rw (stops, read) at e in cc)
    | inr ((r1, d1), goes) ↦
        join d d1 d' (round_inv ev r d r1 d1 goes) (read_inv evs r1 d1 r' d' (rw (goes, read) at e))
  ]
