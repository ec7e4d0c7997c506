-- ===== src/Mixer/Stream.antt =====
-- TakeAction, Idle and main of main.cpp and the serial line.
use rgbmixer.Base.{
  ℕ, ◌+◌, ◌≤◌, ◌≡◌, refl, ◌∙◌, sym, ap, ◌==◌, if◌then◌else◌, List, [], ◌∷◌, ◌++◌, append-nil,
  append_assoc, some, length, length-append, All, All-append, u8, ◌>>>◌, mem_of, ltb, u16, arith,
  sum, Bool-cases, inl, inr,
}
use rgbmixer.Arduino.{Eeprom}
use rgbmixer.Settings
use rgbmixer.Settings.{Settings}
use rgbmixer.Device.{Device, ◌>>◌, skip}
use rgbmixer.Common.{device_name, manufacturer_name}
use rgbmixer.UsbPro.Labels.{parameters_label, serial_number_label, manufacturer_label, name_label}
use rgbmixer.UsbPro.Frame.{Frame, frame_bytes, stream, stream-append}
use rgbmixer.UsbPro.Sender.{
  send_message_header, send_message_footer, write, write_bytes, write_message, write_message_lem,
}
use rgbmixer.UsbPro.Receiver
use rgbmixer.UsbPro.Receiver.Induction.{read_inv}
use rgbmixer.Rdm.Enums.{status_invalid_command}
use rgbmixer.Rdm.Packet.{packet_body, packet_bytes, int_bytes}
use rgbmixer.Rdm.Reply.{reply_packet}
use rgbmixer.Rdm.Sender.{Memory}
use rgbmixer.Rdm.Answer.{Answer, status, reply, deliver}
use rgbmixer.Rdm.Handlers.Tables.{Board}
use rgbmixer.Rdm.Handlers.Message.{handle_rdm_message, handle_command}
use rgbmixer.Rdm.Handlers.Message.Frames.{
  OneFrame, Fits, frame_of, deliver-OneFrame, handle_command-OneFrame, one_frame_cases,
}
use rgbmixer.Mixer.Actions.{take_action_cases}
use rgbmixer.Mixer.{
  device_params, device_id, long_memory, pwm_pins, set_pwm_from, dark_from, toggle_led,
  send_device_response, send_serial_number_response, send_manufacturer_response,
  queue_set_device_label, set_pwm, idle, take_action, power_on, set_up, main,
}

-- The payloads are short.
abbrev pub IsShort : Frame → Type 0
IsShort f = length f.payload ≤ 258

-- Between two states the device put out whole frames, and nothing else.
pub record Streams {S : Type 0} (d d' : Device S) : Type 0 where
  pub frames : List Frame
  pub short : All IsShort frames
  pub put_out : d'.serial ≡ d.serial ++ stream frames

module _ {S : Type 0} where
  silent : (d d' : Device S) → d'.serial ≡ d.serial → Streams d d'
  unfolding stream
  silent d d' e = record { frames = []; short = tt; put_out = e ∙ sym (append-nil d.serial) }

  one :
      (d d' : Device S) (f : Frame)
      → IsShort f
      → d'.serial ≡ d.serial ++ frame_bytes f
      → Streams d d'
  unfolding stream
  one d d' f short e = record {
    frames = f ∷ [];
    short = (short, tt);
    put_out = e ∙ ap (◌++◌ d.serial) (sym (append-nil (frame_bytes f)));
  }

  join : (d d' d'' : Device S) → Streams d d' → Streams d' d'' → Streams d d''
  join d d' d'' h k = record {
    frames = h.frames ++ k.frames;
    short = All-append IsShort h.frames k.frames h.short k.short;
    put_out =
        k.put_out
        ∙ ap (λ bytes. bytes ++ stream k.frames) h.put_out
        ∙ append_assoc d.serial (stream h.frames) (stream k.frames)
        ∙ ap (◌++◌ d.serial) (sym (stream-append h.frames k.frames));
  }

  send_params-Streams :
      (d : Device S)
      → Streams d (write_message parameters_label (length device_params) (mem_of device_params) d)
  send_params-Streams d =
      one d _ (record { label = parameters_label; payload = device_params }) (omega arith)
        (ap (λ d'. d'.serial)
          (write_message_lem parameters_label (length device_params) (mem_of device_params) d))

  set_pwm_from-serial :
      (start personality : ℕ) (bytes : Memory) (size : ℕ) (left : List ℕ) (i : ℕ) (d : Device S)
      → (set_pwm_from start personality bytes size left i d).serial ≡ d.serial
  unfolding set_pwm_from
  set_pwm_from-serial start personality bytes size [] i d = refl
  set_pwm_from-serial start personality bytes size (pin ∷ rest) i d =
      elim (Bool-cases (ltb (u16 (start + i)) size)) [
        | inl more ↦ rw more (set_pwm_from-serial start personality bytes size rest (i + 1) _)
        | inr full ↦ rw full
      ]

  dark_from-serial :
      (personality : ℕ) (left : List ℕ) (i : ℕ) (d : Device S)
      → (dark_from personality left i d).serial ≡ d.serial
  unfolding dark_from
  dark_from-serial personality [] i d = refl
  dark_from-serial personality (pin ∷ rest) i d = dark_from-serial personality rest (i + 1) _

  send_device_response-Streams : (d : Device S) → Streams d (send_device_response d)
  unfolding send_device_response send_message_header send_message_footer write_bytes frame_bytes
  send_device_response-Streams d =
      one d _ (record { label = name_label; payload = device_id ++ device_name }) (omega arith)
        (simp append_assoc)

module _ {S : Type 0} ⦃e : Eeprom S⦄ where
  frame_of-IsShort :
      (msg : Memory) (a : Answer) (d : Device S) → Fits a → IsShort (frame_of msg a d)
  unfolding frame_of packet_bytes packet_body
  frame_of-IsShort msg (status c) d fits = omega arith
  frame_of-IsShort msg (reply rt cls pid bytes) d fits = omega (
    arith,
    length-append bytes (int_bytes (sum (packet_body (reply_packet msg rt cls pid bytes d)))),
  )

  OneFrame-Streams : (msg : Memory) (d d' : Device S) → OneFrame msg d d' → Streams d d'
  OneFrame-Streams msg d d' h =
      one d d' (frame_of msg h.given h.at) (frame_of-IsShort msg h.given h.at h.fits) h.put_out

  handle_rdm_message-Streams :
      (board : Board) (msg : Memory) (size : ℕ) (d : Device S)
      → Streams d (handle_rdm_message board msg size d)
  handle_rdm_message-Streams board msg size d =
      one_frame_cases board msg size d (Streams d) (OneFrame-Streams msg d) (λ other.
        let told = deliver msg (status status_invalid_command) d in
        join d told (handle_command board msg told)
          (OneFrame-Streams msg d told
            (deliver-OneFrame msg (status status_invalid_command) d d refl tt))
          (OneFrame-Streams msg told _ (handle_command-OneFrame board msg told)))

  send_serial_number_response-Streams : (d : Device S) → Streams d (send_serial_number_response d)
  unfolding send_serial_number_response send_message_header send_message_footer write_bytes
      frame_bytes
  send_serial_number_response-Streams d =
      one d _
        (record {
          label = serial_number_label;
          payload = long_memory (Settings.serial_number d.settings);
        })
        (omega arith) (simp append_assoc)

  send_manufacturer_response-Streams : (d : Device S) → Streams d (send_manufacturer_response d)
  unfolding send_manufacturer_response send_message_header send_message_footer write write_bytes
      frame_bytes
  send_manufacturer_response-Streams d =
      one d _
        (record {
          label = manufacturer_label;
          payload =
              u8 (Settings.esta_id d.settings)
              ∷ u8 (Settings.esta_id d.settings >>> 8)
              ∷ manufacturer_name;
        })
        (omega arith) (simp append_assoc)

  idle-Streams : (d : Device S) → Streams d (idle d)
  unfolding idle queue_set_device_label
  idle-Streams d = silent d (idle d) (elim (Bool-cases (Settings.perform_write d.settings).0) [
    | inl written ↦ rw written
    | inr nothing ↦ rw nothing
  ])

  set_up-serial : (s : Settings S) → (set_up (power_on s)).serial ≡ []
  unfolding set_up power_on
  set_up-serial s = dark_from-serial _ pwm_pins 0 _

  toggle_led-serial : (d : Device S) → (toggle_led d).serial ≡ d.serial
  unfolding toggle_led
  toggle_led-serial d = refl

  dmx-Streams :
      (msg : Memory) (size : ℕ) (d : Device S)
      → Streams d ((if msg 0 == 0 then (toggle_led >> set_pwm (λ i. msg (1 + i)) size) else skip) d)
  unfolding set_pwm
  dmx-Streams msg size d = elim (Bool-cases (msg 0 == 0)) [
    | inl dmx ↦
        rw dmx
          (silent d _ (set_pwm_from-serial _ _ _ _ pwm_pins 0 (toggle_led d) ∙ toggle_led-serial d))
    | inr other ↦ rw other (silent d d refl)
  ]

  rdm-Streams :
      (board : Board) (msg : Memory) (size : ℕ) (d : Device S)
      → Streams d (handle_rdm_message board msg size (toggle_led d))
  rdm-Streams board msg size d =
      join d (toggle_led d) _ (silent d (toggle_led d) (toggle_led-serial d))
        (handle_rdm_message-Streams board msg size (toggle_led d))

  take_action-Streams :
      (board : Board) (label : ℕ) (msg : Memory) (size : ℕ) (d : Device S)
      → Streams d (take_action board label msg size d)
  take_action-Streams board label msg size d =
      take_action_cases board label msg size d (Streams d) (send_params-Streams d)
        (dmx-Streams msg size d) (send_serial_number_response-Streams d)
        (send_device_response-Streams d) (send_manufacturer_response-Streams d)
        (rdm-Streams board msg size d) (silent d d refl)

-- Whatever bytes arrive, and whenever the line is idle, as long as no message overran the buffer:
-- all that was written to the serial line since the start is a sequence of whole frames, none with
-- a payload of more than 258 bytes.
pub main-serial :
    {S : Type 0} ⦃e : Eeprom S⦄ (s : Settings S) (stack : ℕ → ℕ)
    (events : List (Receiver.Event Board)) (r : Receiver.Receiver) (d : Device S)
    → main s stack events ≡ some (r, d)
    → (fs : List Frame) × (All IsShort fs) × (d.serial ≡ stream fs)
unfolding main
main-serial s stack events r d e =
    let h =
      read_inv take_action idle Streams (λ d. silent d d refl) join
        (λ b l m n d. take_action-Streams b l m n d) idle-Streams events (Receiver.start stack)
        (set_up (power_on s)) r d e in
    (h.frames, h.short, h.put_out ∙ ap (λ out. out ++ stream h.frames) (set_up-serial s))
