-- ===== src/UsbPro/Receiver/Frames.antt =====
-- Read of UsbProReceiver.cpp on whole frames.
use rgbmixer.Base.{
  ℕ, suc, ◌+◌, ◌%◌, ◌*◌, ◌/◌, ◌≤◌, ◌<◌, ◌≡◌, refl, ◌∙◌, List, [], ◌∷◌, ◌++◌, map, append_assoc,
  append-nil, none, some, length, cells, arith, if◌then◌else◌, ◌==◌, ne→==,
}
use mathlib.Core.List.{map-append}
use rgbmixer.UsbPro.Frame.{Frame, frame_bytes}
use rgbmixer.UsbPro.Receiver.{
  pre_som, got_som, got_label, got_data_lsb, in_data, waiting_for_eom, Receiver, receive, dispatch,
  Event, byte, read, message_capacity,
}
use rgbmixer.UsbPro.Receiver.Steps.{
  receiver, fill, cells-fill, read_waits, read_calls, read_data, read_data_over,
}

-- The memory that the callback sees.
unfoldable pub received : Frame → (ℕ → ℕ) → ℕ → ℕ
received f m = fill m 0 f.payload

pub cells-received : (f : Frame) (m : ℕ → ℕ) → cells (received f m) 0 (length f.payload) ≡ f.payload
unfolding received
cells-received f m = cells-fill m 0 f.payload

module _ {B D : Type 0} (callback : B → ℕ → (ℕ → ℕ) → ℕ → D → D) (idle_callback : D → D) where
  -- The four bytes before the data.
  pub read_header :
      (b : B) (f : Frame) (rest : List (Event B)) (r : Receiver) (d : D)
      → length f.payload < 65536
      → r.recv_mode ≡ pre_som
      → read callback idle_callback
          (byte b 0x7e
            ∷ byte b f.label
            ∷ byte b (length f.payload % 256)
            ∷ byte b (length f.payload / 256 % 256)
            ∷ rest)
          r
          d
        ≡ read callback idle_callback rest
            (receiver
              (if length f.payload == 0 then waiting_for_eom else in_data)
              f.label
              (length f.payload)
              0
              r.message)
            d
  unfolding receive dispatch
  read_header b f rest r d h fresh =
      let n = length f.payload in
      let whole : (n % 256 + n / 256 % 256 * 256 % 65536) % 65536 ≡ n = (omega arith) in
      read_waits callback idle_callback b 0x7e _ r (record r { recv_mode = got_som }) d (rw fresh)
      ∙ read_waits callback idle_callback b f.label _ _
          (record r { recv_mode = got_label; label = f.label }) d refl
      ∙ read_waits callback idle_callback b (n % 256) _ _
          (receiver got_data_lsb f.label (n % 256) 0 r.message) d refl
      ∙ read_waits callback idle_callback b (n / 256 % 256) _ _
          (receiver (if n == 0 then waiting_for_eom else in_data) f.label n 0 r.message) d
          (rw whole)

  -- The end byte.
  read_end :
      (b : B) (label size offset : ℕ) (m : ℕ → ℕ) (rest : List (Event B)) (d : D)
      → read callback idle_callback
          (byte b 0xe7 ∷ rest)
          (receiver waiting_for_eom label size offset m)
          d
        ≡ read callback idle_callback rest
            (receiver pre_som label size offset m)
            (callback b label m size d)
  unfolding receive dispatch
  read_end b label size offset m rest d =
      read_calls callback idle_callback b 0xe7 label size m rest _ _ d refl

  pub read_payload :
      (b : B) (label : ℕ) (xs : List ℕ) (m : ℕ → ℕ) (rest : List (Event B)) (d : D)
      → length xs ≤ message_capacity
      → read callback idle_callback
          (map (byte b) xs ++ rest)
          (receiver (if length xs == 0 then waiting_for_eom else in_data) label (length xs) 0 m)
          d
        ≡ read callback idle_callback rest
            (receiver waiting_for_eom label (length xs) (length xs) (fill m 0 xs))
            d
  unfolding fill
  read_payload b label [] m rest d fits = refl
  read_payload b label (x ∷ xs) m rest d fits = rw (ne→== (suc (length xs)) 0 (omega arith)) (
      read_data callback idle_callback b label (suc (length xs)) 0 m x xs rest d (omega arith) fits)

  -- The events of a run of bytes.
  abbrev pub bytes : B → List ℕ → List (Event B)
  bytes b xs = map (byte b) xs

  pub read_frame_then :
      (b : B) (f : Frame) (rest : List (Event B)) (r : Receiver) (d : D)
      → length f.payload ≤ message_capacity
      → r.recv_mode ≡ pre_som
      → read callback idle_callback (bytes b (frame_bytes f) ++ rest) r d
        ≡ read callback idle_callback rest
            (receiver pre_som f.label (length f.payload) (length f.payload) (received f r.message))
            (callback b f.label (received f r.message) (length f.payload) d)
  unfolding frame_bytes received
  read_frame_then b f rest r d fits fresh =
      rw (map-append (byte b) f.payload (0xe7 ∷ []), append_assoc)
        (read_header b f _ r d (omega arith) fresh
          ∙ read_payload b f.label f.payload r.message (byte b 0xe7 ∷ rest) d fits
          ∙ read_end b f.label (length f.payload) (length f.payload) (fill r.message 0 f.payload)
              rest d)

-- A frame that fits the buffer and comes without a pause is received whole: the callback is called once, with its label, its
-- size and a memory that begins with its payload, and the receiver waits for the next frame.
pub read-frame_bytes :
    {B D : Type 0} (callback : B → ℕ → (ℕ → ℕ) → ℕ → D → D) (idle_callback : D → D) (b : B)
    (f : Frame) (r : Receiver) (d : D)
    → length f.payload ≤ message_capacity
    → r.recv_mode ≡ pre_som
    → (m : ℕ → ℕ) × (r' : Receiver) × (read callback idle_callback
          (map (byte b) (frame_bytes f))
          r
          d
        ≡ some (r', callback b f.label m (length f.payload) d))
      × (cells m 0 (length f.payload) ≡ f.payload)
      × (r'.recv_mode ≡ pre_som)
unfolding read
read-frame_bytes callback idle_callback b f r d fits fresh = (
  received f r.message,
  receiver pre_som f.label (length f.payload) (length f.payload) (received f r.message),
  rw (← append-nil (map (byte b) (frame_bytes f)))
      (read_frame_then callback idle_callback b f [] r d fits fresh),
  cells-received f r.message,
  refl,
)

-- A frame that announces, in its two bytes, and carries more than the buffer holds makes the
-- receiver write past the end of `message`.
pub read-overrun :
    {B D : Type 0} (callback : B → ℕ → (ℕ → ℕ) → ℕ → D → D) (idle_callback : D → D) (b : B)
    (f : Frame) (r : Receiver) (d : D)
    → length f.payload < 65536
    → message_capacity < length f.payload
    → r.recv_mode ≡ pre_som
    → read callback idle_callback (map (byte b) (frame_bytes f)) r d ≡ none
unfolding frame_bytes
read-overrun callback idle_callback b f r d h over fresh =
    rw (map-append (byte b) f.payload (0xe7 ∷ [])) (
      read_header callback idle_callback b f _ r d h fresh
      ∙ rw (ne→== (length f.payload) 0 (omega arith)) (
          read_data_over callback idle_callback b f.label (length f.payload) 0 r.message f.payload
            (byte b 0xe7 ∷ []) d (omega arith) (omega arith) over))
