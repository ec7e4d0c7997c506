-- ===== src/Mixer/Loopback.antt =====
-- The bytes that main of main.cpp writes, read by Read of UsbProReceiver.cpp.
use rgbmixer.Base.{ℕ, ◌≡◌, List, [], ◌∷◌, map, some, All, arith}
use rgbmixer.Arduino.{Eeprom}
use rgbmixer.Settings.{Settings}
use rgbmixer.Device.{Device}
use rgbmixer.UsbPro.Frame.{Frame, stream}
use rgbmixer.UsbPro.Receiver
use rgbmixer.UsbPro.Receiver.Streams.{Receivable, serve, read-stream}
use rgbmixer.Rdm.Handlers.Tables.{Board}
use rgbmixer.Mixer.{main}
use rgbmixer.Mixer.Stream.{IsShort, main-serial}

short-Receivable : (fs : List Frame) → All IsShort fs → All Receivable fs
short-Receivable [] h = tt
short-Receivable (f ∷ fs) h = (omega arith, short-Receivable fs h.1)

-- A receiver of the same kind that waits for a start byte reads all that a device wrote since it
-- was switched on, without an overrun: its callback gets each frame once, in the order in which
-- the device sent them, and it waits for the next.
pub main-loopback :
    {S B D : Type 0} ⦃e : Eeprom S⦄ (s : Settings S) (stack : ℕ → ℕ)
    (events : List (Receiver.Event Board)) (r : Receiver.Receiver) (d : Device S)
    (callback : B → ℕ → (ℕ → ℕ) → ℕ → D → D) (idle_callback : D → D) (b : B)
    (r0 : Receiver.Receiver) (d0 : D)
    → main s stack events ≡ some (r, d)
    → r0.recv_mode ≡ Receiver.pre_som
    → (out : List Frame) × (r1 : Receiver.Receiver) × (d.serial ≡ stream out)
      × (Receiver.read callback idle_callback (map (Receiver.byte b) d.serial) r0 d0
          ≡ some (r1, serve callback b out r0.message d0))
      × (r1.recv_mode ≡ Receiver.pre_som)
main-loopback s stack events r d callback idle_callback b r0 d0 run fresh =
    let (out, short, put_out) = main-serial s stack events r d run in
    let (r1, reads, waits) =
      read-stream callback idle_callback b out r0 d0 (short-Receivable out short) fresh in
    (out, r1, put_out, rw put_out reads, waits)
