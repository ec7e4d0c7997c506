-- ===== src/UsbPro/Receiver/Noise.antt =====
-- Read of UsbProReceiver.cpp on bytes that are no frame.
use rgbmixer.Base.{
  ◌%◌, ◌/◌, ℕ, ◌≡◌, ◌≢◌, refl, ◌∙◌, List, [], ◌∷◌, ◌++◌, map, append_assoc, some, length, All,
  ne→==, arith,
}
use mathlib.Core.List.{map-append}
use rgbmixer.UsbPro.Frame.{Frame, som, eom, stream}
use rgbmixer.UsbPro.Receiver.{
  pre_som, waiting_for_eom, Receiver, receive, dispatch, Event, byte, read,
}
use rgbmixer.UsbPro.Receiver.Steps.{receiver, fill, read_waits}
use rgbmixer.UsbPro.Receiver.Frames.{received, read_header, read_payload}
use rgbmixer.UsbPro.Receiver.Streams.{Receivable, serve, read-stream}

-- A frame with another byte in place of the end byte.
unfoldable pub spoilt_bytes : Frame → ℕ → List ℕ
spoilt_bytes f e =
    som ∷ f.label ∷ length f.payload % 256 ∷ length f.payload / 256 % 256 ∷ (f.payload ++ e ∷ [])

module _ {B D : Type 0} (callback : B → ℕ → (ℕ → ℕ) → ℕ → D → D) (idle_callback : D → D)
    (b : B) where
  read_noise :
      (noise : List ℕ) (rest : List (Event B)) (r : Receiver) (d : D)
      → All (λ x. x ≢ som) noise
      → r.recv_mode ≡ pre_som
      → read callback idle_callback (map (byte b) noise ++ rest) r d
        ≡ read callback idle_callback rest r d
  unfolding receive dispatch
  read_noise [] rest r d quiet fresh = refl
  read_noise (x ∷ xs) rest r d quiet fresh =
      read_waits callback idle_callback b x (map (byte b) xs ++ rest) r r d
        (rw fresh (rw (ne→== x 0x7e quiet.0)))
      ∙ read_noise xs rest r d quiet.1 fresh

-- When a start byte is awaited, bytes that are none change nothing: any number of frames after
-- them, each with a payload that the buffer holds, are read as if they had come alone.
pub read-noise_stream :
    {B D : Type 0} (callback : B → ℕ → (ℕ → ℕ) → ℕ → D → D) (idle_callback : D → D) (b : B)
    (noise : List ℕ) (fs : List Frame) (r : Receiver) (d : D)
    → All (λ x. x ≢ som) noise
    → All Receivable fs
    → r.recv_mode ≡ pre_som
    → (r' : Receiver) × (read callback idle_callback (map (byte b) (noise ++ stream fs)) r d
        ≡ some (r', serve callback b fs r.message d))
      × (r'.recv_mode ≡ pre_som)
read-noise_stream callback idle_callback b noise fs r d quiet fit fresh =
    let (r', reads, waits) = read-stream callback idle_callback b fs r d fit fresh in
    (
      r',
      rw (map-append (byte b) noise (stream fs)) (
          read_noise callback idle_callback b noise (map (byte b) (stream fs)) r d quiet fresh
          ∙ reads),
      waits,
    )

-- When a start byte is awaited, a frame with a payload that the buffer holds, but with another
-- byte in place of its end byte, is dropped: the callback is not called for it, and any number of
-- frames after it that the buffer holds are read.
pub read-spoilt_bytes :
    {B D : Type 0} (callback : B → ℕ → (ℕ → ℕ) → ℕ → D → D) (idle_callback : D → D) (b : B)
    (f : Frame) (e : ℕ) (fs : List Frame) (r : Receiver) (d : D)
    → Receivable f
    → e ≢ eom
    → All Receivable fs
    → r.recv_mode ≡ pre_som
    → (r' : Receiver) × (read callback idle_callback
          (map (byte b) (spoilt_bytes f e ++ stream fs))
          r
          d
        ≡ some (r', serve callback b fs (received f r.message) d))
      × (r'.recv_mode ≡ pre_som)
unfolding spoilt_bytes receive dispatch received
read-spoilt_bytes callback idle_callback b f e fs r d fits bad fit fresh =
    let n = length f.payload in
    let filled = receiver waiting_for_eom f.label n n (fill r.message 0 f.payload) in
    let next = receiver pre_som f.label n n (fill r.message 0 f.payload) in
    let (r', reads, waits) = read-stream callback idle_callback b fs next d fit refl in
    let rest = map (byte b) (stream fs) in
    let dropped : read callback idle_callback (byte b e ∷ rest) filled d
        ≡ read callback idle_callback rest next d =
      read_waits callback idle_callback b e rest filled next d (rw (ne→== e 0xe7 bad)) in
    (
      r',
      rw
          (
            append_assoc f.payload (e ∷ []) (stream fs),
            map-append (byte b) f.payload (e ∷ stream fs),
          )
          (read_header callback idle_callback b f (map (byte b) f.payload ++ byte b e ∷ rest) r d
              (omega arith) fresh
            ∙ read_payload callback idle_callback b f.label f.payload r.message (byte b e ∷ rest) d
                fits
            ∙ dropped
            ∙ reads),
      waits,
    )
