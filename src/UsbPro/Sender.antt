-- ===== src/UsbPro/Sender.antt =====
-- UsbProSender.h and UsbProSender.cpp.
use rgbmixer.Base.{ℕ, ◌≡◌, [], ◌∷◌, u8, ◌>>>◌, cells, length-cells, append_assoc}
use rgbmixer.Device.{Device, Cmd, ◌>>◌, serial_write}
use rgbmixer.UsbPro.Frame.{Frame, frame_bytes}

module _ {S : Type 0} where
  unfoldable pub send_message_header : ℕ → ℕ → Cmd S
  send_message_header label size = do
    serial_write (0x7E ∷ [])
    serial_write (label ∷ [])
    serial_write (u8 size ∷ [])
    serial_write (u8 (size >>> 8) ∷ [])

  unfoldable pub send_message_footer : Cmd S
  send_message_footer = serial_write (0xE7 ∷ [])

  -- Write of a byte, and Write of an array of bytes.
  unfoldable pub write : ℕ → Cmd S
  write b = serial_write (b ∷ [])

  unfoldable pub write_bytes : (ℕ → ℕ) → ℕ → Cmd S
  write_bytes bytes size = serial_write (cells bytes 0 size)

  unfoldable pub write_message : ℕ → ℕ → (ℕ → ℕ) → Cmd S
  write_message label size bytes = do
    send_message_header label size
    write_bytes bytes size
    send_message_footer

  -- A command that does nothing but to put out a frame.
  abbrev pub put_frame : Frame → Cmd S
  put_frame f = serial_write (frame_bytes f)

  -- One frame, whose payload is the `size` bytes of the array.
  pub write_message_lem :
      (label size : ℕ) (bytes : ℕ → ℕ) (d : Device S)
      → write_message label size bytes d
        ≡ put_frame (record { label = label; payload = cells bytes 0 size }) d
  unfolding write_message send_message_header send_message_footer write_bytes frame_bytes
  write_message_lem label size bytes d = simp (append_assoc, length-cells)
