-- ===== src/UsbPro/Receiver/Bytes.antt =====
-- The content of the buffer of Read of UsbProReceiver.cpp, and what its callbacks keep.
use rgbmixer.Base.{
  ℕ, ◌<◌, ◌≡◌, subst, List, [], ◌∷◌, some, inl, inr, Bool-cases, Option-cases, ltb, ◌==◌, arith,
  All,
}
use rgbmixer.UsbPro.Receiver.{
  ReceivingState, pre_som, got_som, got_label, got_data_lsb, in_data, waiting_for_eom, Receiver,
  Outcome, waits, calls, overrun, message_capacity, store_data, dispatch, receive, Event, idle,
  byte, act, round, read,
}

abbrev pub AreBytesAt : (ℕ → ℕ) → Type 0
AreBytesAt m = (i : ℕ) → m i < 256

-- What arrives is a byte.
abbrev pub IsByteEvent : {B : Type 0} → Event B → Type 0
IsByteEvent idle = Unit {0}
IsByteEvent (byte b value) = value < 256

abbrev HoldsBytes : Outcome → Type 0
HoldsBytes (waits r) = AreBytesAt r.message
HoldsBytes (calls label m size r) = AreBytesAt m × AreBytesAt r.message
HoldsBytes overrun = Unit {0}

dispatch-HoldsBytes :
    (mode : ReceivingState) (r : Receiver) (value : ℕ)
    → AreBytesAt r.message
    → value < 256
    → HoldsBytes (dispatch mode r value)
unfolding dispatch store_data
dispatch-HoldsBytes pre_som r value h small = elim (Bool-cases (value == 0x7e)) [
  | inl start ↦ rw start h
  | inr noise ↦ rw noise h
]
dispatch-HoldsBytes got_som r value h small = h
dispatch-HoldsBytes got_label r value h small = h
dispatch-HoldsBytes got_data_lsb r value h small = h
dispatch-HoldsBytes in_data r value h small =
    elim (Bool-cases (ltb r.data_offset message_capacity)) [
      | inl inside ↦ rw inside (λ i. ground (arith, h i))
      | inr full ↦ rw full tt
    ]
dispatch-HoldsBytes waiting_for_eom r value h small = elim (Bool-cases (value == 0xe7)) [
  | inl end ↦ rw end (h, h)
  | inr other ↦ rw other h
]

-- A property of the state that the callbacks keep, given a buffer of bytes.
module _ {ℓ} {B D : Type 0} (callback : B → ℕ → (ℕ → ℕ) → ℕ → D → D) (idle_callback : D → D)
    (P : D → Type ℓ)
    (on_call : (b : B) (label : ℕ) (m : ℕ → ℕ) (size : ℕ) (d : D)
      → AreBytesAt m
      → P d
      → P (callback b label m size d))
    (on_idle : (d : D) → P d → P (idle_callback d)) where
  act-keeps :
      (b : B) (o : Outcome) (d : D) (r' : Receiver) (d' : D)
      → HoldsBytes o
      → P d
      → act callback idle_callback b o d ≡ some (r', d')
      → AreBytesAt r'.message × P d'
  unfolding act
  act-keeps b (waits r) d r' d' h held run =
      let same : r ≡ r' = cc in
      let same' : d ≡ d' = cc in
      (subst (λ (x : Receiver). AreBytesAt x.message) same h, subst P same' held)
  act-keeps b (calls label m size r) d r' d' h held run =
      let same : r ≡ r' = cc in
      let same' : callback b label m size d ≡ d' = cc in
      (
        subst (λ (x : Receiver). AreBytesAt x.message) same h.1,
        subst P same' (on_call b label m size d h.0 held),
      )
  act-keeps b overrun d r' d' h held run = absurd (cc)

  pub read-keeps :
      (evs : List (Event B)) (r : Receiver) (d : D) (r' : Receiver) (d' : D)
      → All IsByteEvent evs
      → AreBytesAt r.message
      → P d
      → read callback idle_callback evs r d ≡ some (r', d')
      → P d'
  unfolding read round receive
  read-keeps [] r d r' d' bytes h held run = let same : d ≡ d' = cc in subst P same held
  read-keeps (idle ∷ evs) r d r' d' bytes h held run =
      read-keeps evs r (idle_callback d) r' d' bytes.1 h (on_idle d held) run
  read-keeps (byte b value ∷ evs) r d r' d' bytes h held run =
      elim (Option-cases (round callback idle_callback (byte b value) r d)) [
        | inl stops ↦ absurd (let none_some = rw (stops, read) at run in cc)
        | inr ((r1, d1), goes) ↦
            let (h1, held1) =
              act-keeps b (receive r value) d r1 d1
                (dispatch-HoldsBytes r.recv_mode r value h bytes.0) held goes in
            read-keeps evs r1 d1 r' d' bytes.1 h1 held1 (rw (goes, read) at run)
      ]
