-- ===== src/UsbPro/Receiver/Reach.antt =====
-- The states that the local variables of Read of UsbProReceiver.cpp can reach.
use rgbmixer.Base.{
  ℕ, ◌+◌, ◌≤◌, ◌<◌, ◌≡◌, refl, some, ltb, ◌==◌, u16, ◌<<<◌, arith, Bool-cases, inl, inr, ltb→lt,
  ==→eq, ◌∙◌, ap, subst, Option-cases, List, [], ◌∷◌,
}
use rgbmixer.UsbPro.Receiver.{
  ReceivingState, pre_som, got_som, got_label, got_data_lsb, in_data, waiting_for_eom, Receiver,
  Outcome, waits, calls, overrun, start, store_data, act, round, read, Event, idle, byte, dispatch,
  receive, message_capacity,
}

-- A byte leads from one state to another, with a call of the callback or without one.
pub data Step (r : Receiver) : Receiver → Type 0 where
  goes_on : {r' : Receiver} (value : ℕ) → receive r value ≡ waits r' → Step r r'
  called :
      {r' : Receiver} (value label : ℕ) (message : ℕ → ℕ) (size : ℕ)
      → receive r value ≡ calls label message size r'
      → Step r r'

pub data Reach (stack : ℕ → ℕ) : Receiver → Type 0 where
  started : Reach stack (start stack)
  later : {r r' : Receiver} → Reach stack r → Step r r' → Reach stack r'

-- What holds of the size and the offset in each mode.
abbrev pub Fits : ReceivingState → ℕ → ℕ → Type 0
Fits got_data_lsb size offset = offset ≡ 0
Fits in_data size offset = (offset < size) × (offset ≤ message_capacity)
Fits waiting_for_eom size offset = (offset ≡ size) × (size ≤ message_capacity)
Fits mode size offset = Unit {0}

abbrev pub IsReading : Receiver → Type 0
IsReading r = Fits r.recv_mode r.expected_size r.data_offset

-- What an outcome says.
abbrev pub Follows : Receiver → Outcome → Type 0
Follows r (waits r') = IsReading r'
Follows r (calls label message size r') =
    IsReading r' × (size ≤ message_capacity) × (size ≡ r.data_offset) × (message ≡ r.message)
Follows r overrun = message_capacity < r.expected_size

store_data-Follows :
    (r : Receiver) (value : ℕ)
    → r.data_offset < r.expected_size
    → r.data_offset ≤ message_capacity
    → Follows r (store_data r value)
unfolding store_data
store_data-Follows r value more room = elim (Bool-cases (ltb r.data_offset message_capacity)) [
  | inr full ↦ rw full (ground (arith, full))
  | inl inside ↦ rw inside (elim (Bool-cases (u16 (r.data_offset + 1) == r.expected_size)) [
    | inl last ↦
        let low = ltb→lt _ _ inside in let same = ==→eq _ _ last in rw last (same, omega arith)
    | inr other ↦ let low = ltb→lt _ _ inside in rw other (ground (arith, other), omega arith)
  ])
]

dispatch-Follows :
    (mode : ReceivingState) (r : Receiver) (value : ℕ)
    → r.recv_mode ≡ mode
    → Fits mode r.expected_size r.data_offset
    → Follows r (dispatch mode r value)
unfolding dispatch
dispatch-Follows pre_som r value e h = elim (Bool-cases (value == 0x7e)) [
  | inl start ↦ rw start tt
  | inr noise ↦ rw (noise, e) tt
]
dispatch-Follows got_som r value e h = tt
dispatch-Follows got_label r value e h = refl
dispatch-Follows got_data_lsb r value e h =
    elim (Bool-cases (u16 (r.expected_size + u16 (value <<< 8)) == 0)) [
      | inl empty ↦ let none_left = ==→eq _ _ empty in rw empty (omega arith, omega arith)
      | inr some_left ↦ rw some_left (ground (arith, some_left), omega arith)
    ]
dispatch-Follows in_data r value e h = store_data-Follows r value h.0 h.1
dispatch-Follows waiting_for_eom r value e h = elim (Bool-cases (value == 0xe7)) [
  | inl end ↦ rw end (tt, h.1, omega arith, refl)
  | inr other ↦ rw other tt
]

pub receive-Follows : (r : Receiver) (value : ℕ) → IsReading r → Follows r (receive r value)
unfolding receive
receive-Follows r value h = dispatch-Follows r.recv_mode r value refl h

Step-IsReading : {r r' : Receiver} → Step r r' → IsReading r → IsReading r'
Step-IsReading {r} (goes_on value e) h = rw e at (receive-Follows r value h)
Step-IsReading {r} (called value label message size e) h = (rw e at (receive-Follows r value h)).0

pub Reach-IsReading : {stack : ℕ → ℕ} {r : Receiver} → Reach stack r → IsReading r
unfolding start
Reach-IsReading started = tt
Reach-IsReading (later path step) = Step-IsReading step (Reach-IsReading path)

module _ {B D : Type 0} (callback : B → ℕ → (ℕ → ℕ) → ℕ → D → D) (idle_callback : D → D) where
  act-Step :
      (b : B) (value : ℕ) (r : Receiver) (d : D) (r' : Receiver) (d' : D) (o : Outcome)
      → receive r value ≡ o
      → act callback idle_callback b o d ≡ some (r', d')
      → Step r r'
  unfolding act
  act-Step b value r d r' d' (waits r1) got run =
      let same : r1 ≡ r' = cc in goes_on value (got ∙ ap waits same)
  act-Step b value r d r' d' (calls label message size r1) got run =
      let same : r1 ≡ r' = cc in
      called value label message size (got ∙ ap (calls label message size) same)
  act-Step b value r d r' d' overrun got run = absurd (cc)

  -- The loop goes through reachable states alone.
  pub read-Reach :
      {stack : ℕ → ℕ} (evs : List (Event B)) (r : Receiver) (d : D) (r' : Receiver) (d' : D)
      → Reach stack r
      → read callback idle_callback evs r d ≡ some (r', d')
      → Reach stack r'
  unfolding read round
  read-Reach {stack} [] r d r' d' path run = let same : r ≡ r' = cc in subst (Reach stack) same path
  read-Reach (idle ∷ evs) r d r' d' path run = read-Reach evs r (idle_callback d) r' d' path run
  read-Reach (byte b value ∷ evs) r d r' d' path run =
      elim (Option-cases (round callback idle_callback (byte b value) r d)) [
        | inl stops ↦ absurd (let none_some = rw (stops, read) at run in cc)
        | inr ((r1, d1), goes) ↦
            read-Reach evs r1 d1 r' d'
              (later path (act-Step b value r d r1 d1 (receive r value) refl goes))
              (rw (goes, read) at run)
      ]

-- After any events from the start on, whatever byte comes next: a call of the callback passes the
-- buffer as it is, with the size of what was stored in it, which is at most the buffer's, and a
-- write past the end of the buffer happens only in a message that announced more than the buffer
-- holds.
pub read-Follows :
    {B D : Type 0} (callback : B → ℕ → (ℕ → ℕ) → ℕ → D → D) (idle_callback : D → D) (stack : ℕ → ℕ)
    (evs : List (Event B)) (d : D) (r : Receiver) (d' : D)
    → read callback idle_callback evs (start stack) d ≡ some (r, d')
    → (value : ℕ) → Follows r (receive r value)
read-Follows callback idle_callback stack evs d r d' run value =
    let first : Reach stack (start stack) = started in
    receive-Follows r value
      (Reach-IsReading (read-Reach callback idle_callback evs (start stack) d r d' first run))
