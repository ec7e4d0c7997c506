-- ===== src/UsbPro/Receiver.antt =====
-- UsbProReceiver.h and UsbProReceiver.cpp: the byte machine inside Read, and the loop around it.
pub mod Steps
pub mod Frames
pub mod Induction
pub mod Streams
pub mod Noise
pub mod Reach
pub mod Bytes
pub mod Pauses
use rgbmixer.Base.{
  ℕ, ◌+◌, ◌*◌, ◌%◌, ◌^◌, ◌<◌, Bool, List, [], ◌∷◌, Option, none, some, ltb, ◌==◌, if◌then◌else◌,
  u16, ◌<<<◌,
}

pub data ReceivingState : Type 0 where
  pre_som got_som got_label got_data_lsb in_data waiting_for_eom : ReceivingState

-- The local variables of Read.
pub record Receiver : Type 0 where
  pub recv_mode : ReceivingState
  pub label : ℕ
  pub expected_size : ℕ
  pub data_offset : ℕ
  pub message : ℕ → ℕ

-- `byte message[600]`.
abbrev pub message_capacity : ℕ
message_capacity = 600

-- What a byte leads to: more reading, a call of the callback, or a write past the buffer's end.
pub data Outcome : Type 0 where
  waits : Receiver → Outcome
  calls : ℕ → (ℕ → ℕ) → ℕ → Receiver → Outcome
  overrun : Outcome

-- The variables at the start; the buffer holds what the stack held.
unfoldable pub start : (ℕ → ℕ) → Receiver
start memory = record {
  recv_mode = pre_som;
  label = 0;
  expected_size = 0;
  data_offset = 0;
  message = memory;
}

abbrev pub store : (ℕ → ℕ) → ℕ → ℕ → ℕ → ℕ
store memory offset value i = if i == offset then value else memory i

-- `message[data_offset] = data; data_offset++` and the test that follows.
unfoldable pub store_data : Receiver → ℕ → Outcome
store_data r byte =
    let next = u16 (r.data_offset + 1) in
    let r' = record r {
      message = store r.message r.data_offset byte;
      data_offset = next;
      recv_mode = if next == r.expected_size then waiting_for_eom else in_data;
    } in
    if ltb r.data_offset message_capacity then waits r' else overrun

-- The body of the loop's `switch`.
unfoldable pub dispatch : ReceivingState → Receiver → ℕ → Outcome
unfolding store_data
dispatch pre_som r byte = waits (if byte == 0x7E then record r { recv_mode = got_som } else r)
dispatch got_som r byte = waits (record r { label = byte; recv_mode = got_label })
dispatch got_label r byte =
    waits (record r { data_offset = 0; expected_size = byte; recv_mode = got_data_lsb })
dispatch got_data_lsb r byte =
    let size = u16 (r.expected_size + u16 (byte <<< 8)) in
    waits (record r {
      expected_size = size;
      recv_mode = if size == 0 then waiting_for_eom else in_data;
    })
dispatch in_data r byte = store_data r byte
dispatch waiting_for_eom r byte =
    let r' = record r { recv_mode = pre_som } in
    if byte == 0xE7 then calls r.label r.message r.expected_size r' else waits r'

unfoldable pub receive : Receiver → ℕ → Outcome
unfolding dispatch
receive r byte = dispatch r.recv_mode r byte

-- A round of the loop: no data, so that the idle callback runs, or a byte, with what the callback
-- takes from the outside at that time.
pub data Event (B : Type 0) : Type 0 where
  idle : Event B
  byte : B → ℕ → Event B

-- The loop over the events so far, for any callbacks on a state `D`; `none` is the overrun.
module _ {B D : Type 0} (callback : B → ℕ → (ℕ → ℕ) → ℕ → D → D) (idle_callback : D → D) where
  unfoldable pub act : B → Outcome → D → Option (Receiver × D)
  act b (waits r) d = some (r, d)
  act b (calls label message size r) d = some (r, callback b label message size d)
  act b overrun d = none

  unfoldable pub round : Event B → Receiver → D → Option (Receiver × D)
  unfolding act
  round idle r d = some (r, idle_callback d)
  round (byte b value) r d = act b (receive r value) d

  unfoldable pub read : List (Event B) → Receiver → D → Option (Receiver × D)
  unfolding round
  read [] r d = some (r, d)
  read (ev ∷ evs) r d = elim (round ev r d) [ none ↦ none | some (r', d') ↦ read evs r' d' ]
