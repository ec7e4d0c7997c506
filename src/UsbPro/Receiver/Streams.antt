-- ===== src/UsbPro/Receiver/Streams.antt =====
-- Read of UsbProReceiver.cpp on frames one after another.
use rgbmixer.Base.{ℕ, ◌≤◌, ◌≡◌, refl, ◌∙◌, List, [], ◌∷◌, map, some, length, All}
use mathlib.Core.List.{map-append}
use rgbmixer.UsbPro.Frame.{Frame, frame_bytes, stream}
use rgbmixer.UsbPro.Receiver.{pre_som, Receiver, byte, read, message_capacity}
use rgbmixer.UsbPro.Receiver.Steps.{receiver}
use rgbmixer.UsbPro.Receiver.Frames.{received, read_frame_then}

-- A frame that the buffer holds.
abbrev pub Receivable : Frame → Type 0
Receivable f = length f.payload ≤ message_capacity

module _ {B D : Type 0} (callback : B → ℕ → (ℕ → ℕ) → ℕ → D → D) where
  -- The callback on one frame after another; the buffer keeps what the last frame left.
  unfoldable pub serve : B → List Frame → (ℕ → ℕ) → D → D
  serve b [] m d = d
  serve b (f ∷ fs) m d =
      serve b fs (received f m) (callback b f.label (received f m) (length f.payload) d)

-- A receiver that waits for a frame reads any number of frames that fit the buffer: the loop goes
-- through all their bytes, calls the callback once for each in their order, and waits for the next.
pub read-stream :
    {B D : Type 0} (callback : B → ℕ → (ℕ → ℕ) → ℕ → D → D) (idle_callback : D → D) (b : B)
    (fs : List Frame) (r : Receiver) (d : D)
    → All Receivable fs
    → r.recv_mode ≡ pre_som
    → (r' : Receiver) × (read callback idle_callback (map (byte b) (stream fs)) r d
        ≡ some (r', serve callback b fs r.message d))
      × (r'.recv_mode ≡ pre_som)
unfolding read stream serve
read-stream callback idle_callback b [] r d h fresh = (r, refl, fresh)
read-stream callback idle_callback b (f ∷ fs) r d h fresh =
    let next =
      receiver pre_som f.label (length f.payload) (length f.payload) (received f r.message) in
    let (r', reads, waits) =
      read-stream callback idle_callback b fs next
        (callback b f.label (received f r.message) (length f.payload) d) h.1 refl in
    (
      r',
      rw (map-append (byte b) (frame_bytes f) (stream fs)) (
          read_frame_then callback idle_callback b f (map (byte b) (stream fs)) r d h.0 fresh
          ∙ reads),
      waits,
    )
