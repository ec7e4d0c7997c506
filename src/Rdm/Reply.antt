-- ===== src/Rdm/Reply.antt =====
-- What the commands of RDMSender put out, in closed form.
use mathlib.Core.Path.{ap₂}
use rgbmixer.Base.{
  ℕ, suc, ◌+◌, ◌/◌, ◌%◌, ◌≤◌, ◌<◌, ◌≡◌, refl, sym, ap, List, [], ◌∷◌, ◌++◌, append_assoc,
  append-nil, length, length-append, cells, sum, sum-append, arith, u8, u16,
}
use rgbmixer.Arduino.{Eeprom}
use rgbmixer.Settings.{esta_id, serial_number}
use rgbmixer.Device.{Device, Cmd}
use rgbmixer.UsbPro.Labels.{rdm_label}
use rgbmixer.UsbPro.Frame.{Frame, frame_bytes, som, eom}
use rgbmixer.UsbPro.Sender.{send_message_header, send_message_footer, write, put_frame}
use rgbmixer.Rdm.Enums.{StatusCode, status_ok, status_code, ResponseType, response_code}
use rgbmixer.Rdm.Packet.{Packet, packet_body, packet_bytes, int_bytes, long_bytes}
use rgbmixer.Rdm.Sender.{
  Memory, return_rdm_error_response, send_byte_and_checksum, send_int_and_checksum,
  send_long_and_checksum, end_rdm_response, start_custom_response,
}

int_bytes-mod : (i : ℕ) → int_bytes (i % 65536) ≡ int_bytes i
int_bytes-mod i = ap₂ (λ h l. h ∷ l ∷ []) (omega arith) (omega arith)

u8_small : (n : ℕ) → n < 256 → u8 n ≡ n
u8_small n h = omega arith

abbrev pub status_frame : StatusCode → Frame
status_frame c = record { label = rdm_label; payload = status_code c ∷ [] }

-- The frame of a packet: its label, the status byte and the packet.
abbrev pub packet_frame : Packet → Frame
packet_frame p = record { label = rdm_label; payload = status_code status_ok ∷ packet_bytes p }

module _ {S : Type 0} where
  -- Bytes written and counted in the checksum.
  pub send : List ℕ → Cmd S
  send bytes d = record d {
    serial = d.serial ++ bytes;
    m_current_checksum = u16 (d.m_current_checksum + sum bytes);
  }

  pub send-send : (xs ys : List ℕ) (d : Device S) → send ys (send xs d) ≡ send (xs ++ ys) d
  unfolding send
  send-send xs ys d =
      ap₂ (λ s c. record d { serial = s; m_current_checksum = c }) (append_assoc d.serial xs ys)
        (omega (arith, sum-append xs ys))

  pub send-settings : (xs : List ℕ) (d : Device S) → (send xs d).settings ≡ d.settings
  unfolding send
  send-settings xs d = refl

  pub send-message_count :
      (xs : List ℕ) (d : Device S) → (send xs d).m_message_count ≡ d.m_message_count
  unfolding send
  send-message_count xs d = refl

  pub send_byte_lem : (b : ℕ) (d : Device S) → send_byte_and_checksum b d ≡ send (b ∷ []) d
  unfolding send send_byte_and_checksum write sum
  send_byte_lem b d =
      ap (λ c. record d { serial = d.serial ++ b ∷ []; m_current_checksum = c }) (omega arith)

  pub send_int_lem : (i : ℕ) (d : Device S) → send_int_and_checksum i d ≡ send (int_bytes i) d
  unfolding send_int_and_checksum
  send_int_lem i d = simp (send_byte_lem, send-send)

  pub send_long_lem : (l : ℕ) (d : Device S) → send_long_and_checksum l d ≡ send (long_bytes l) d
  unfolding send_long_and_checksum
  send_long_lem l d =
      simp (send_int_lem, send-send)
        (ap (λ bytes. send bytes d) (ap₂ ◌++◌ (int_bytes-mod (l / 65536)) (int_bytes-mod l)))

  -- A status message: one frame with the code alone.
  pub return_rdm_error_response_lem :
      (c : StatusCode) (d : Device S) → return_rdm_error_response c d ≡ put_frame (status_frame c) d
  unfolding return_rdm_error_response send_message_header send_message_footer write frame_bytes
  return_rdm_error_response_lem c d = simp append_assoc

module _ {S : Type 0} ⦃e : Eeprom S⦄ where
  -- The packet that answers a request: it goes back to the sender, under the responder's own UID.
  abbrev pub reply_packet : Memory → ResponseType → ℕ → ℕ → List ℕ → Device S → Packet
  reply_packet msg rt command_class pid param_data d = record {
    destination = cells msg 9 6;
    source = int_bytes (esta_id d.settings) ++ long_bytes (serial_number d.settings);
    transaction = msg 15;
    response_type = response_code rt;
    message_count = d.m_message_count;
    sub_device = cells msg 18 2;
    command_class = command_class;
    pid = pid;
    param_data = param_data;
  }

  abbrev pub respond : Memory → ResponseType → ℕ → ℕ → List ℕ → Cmd S
  respond msg rt command_class pid param_data d =
      let p = reply_packet msg rt command_class pid param_data d in
      put_frame (packet_frame p) (record d { m_current_checksum = u16 (sum (packet_body p)) })

  -- The bytes of a packet before its parameter data, after the length byte.
  header : Memory → ResponseType → ℕ → ℕ → ℕ → Device S → List ℕ
  header msg rt size command_class pid d =
      cells msg 9 6
      ++ (int_bytes (esta_id d.settings) ++ long_bytes (serial_number d.settings))
      ++ (msg 15 ∷ response_code rt ∷ d.m_message_count ∷ [])
      ++ cells msg 18 2
      ++ (command_class ∷ [])
      ++ int_bytes pid
      ++ (size ∷ [])

  opening : ℕ → Cmd S
  opening size d = record d {
    serial = d.serial ++ (som ∷ rdm_label ∷ u8 size ∷ u8 (size / 256) ∷ []);
    m_current_checksum = 0;
  }

  start_lem :
      (msg : Memory) (rt : ResponseType) (size command_class pid : ℕ) (d : Device S)
      → start_custom_response msg rt size command_class pid d
        ≡ send
            (0 ∷ 0xcc ∷ 1 ∷ u8 (24 + size) ∷ header msg rt (u8 size) command_class pid d)
            (opening (u16 (27 + size)) d)
  unfolding start_custom_response send_message_header opening header
  start_lem msg rt size command_class pid d = simp (
    append_assoc, send_byte_lem, send_int_lem, send_long_lem, send-send, send-settings,
    send-message_count,
  )

  pub send_nil-start :
      (msg : Memory) (rt : ResponseType) (size command_class pid : ℕ) (d : Device S)
      → send [] (start_custom_response msg rt size command_class pid d)
        ≡ start_custom_response msg rt size command_class pid d
  send_nil-start msg rt size command_class pid d = simp (start_lem, send-send, append-nil)

  pub start-settings :
      (msg : Memory) (rt : ResponseType) (size command_class pid : ℕ) (d : Device S)
      → (start_custom_response msg rt size command_class pid d).settings ≡ d.settings
  unfolding opening
  start-settings msg rt size command_class pid d = simp (start_lem, send-settings)

  pub start-identify :
      (msg : Memory) (rt : ResponseType) (size command_class pid : ℕ) (d : Device S)
      → (start_custom_response msg rt size command_class pid d).m_identify_mode_enabled
        ≡ d.m_identify_mode_enabled
  unfolding opening send
  start-identify msg rt size command_class pid d = rw start_lem

  body_lem :
      (msg : Memory) (rt : ResponseType) (command_class pid : ℕ) (param_data : List ℕ)
      (d : Device S)
      → length param_data ≤ 231
      → (0xcc
          ∷ 1
          ∷ u8 (24 + length param_data)
          ∷ (header msg rt (u8 (length param_data)) command_class pid d ++ param_data))
        ≡ packet_body (reply_packet msg rt command_class pid param_data d)
  unfolding header packet_body
  body_lem msg rt command_class pid param_data d fits =
      rw (
        u8_small (24 + length param_data) (omega arith),
        u8_small (length param_data) (omega arith),
      )

  length-body :
      (msg : Memory) (rt : ResponseType) (command_class pid : ℕ) (param_data : List ℕ)
      (d : Device S)
      → length (packet_body (reply_packet msg rt command_class pid param_data d))
        ≡ 24 + length param_data
  unfolding packet_body
  length-body msg rt command_class pid param_data d = omega arith

  end_lem :
      (body : List ℕ) (size : ℕ) (d : Device S)
      → size ≡ length body
      → size < 256
      → end_rdm_response (send (0 ∷ body) (opening (3 + size) d))
        ≡ put_frame
            (record { label = rdm_label; payload = 0 ∷ (body ++ int_bytes (sum body)) })
            (record d { m_current_checksum = u16 (sum body) })
  unfolding end_rdm_response send opening send_message_footer write frame_bytes sum
  end_lem body size d same fits =
      let check : u16 (0 + (0 + sum body)) ≡ u16 (sum body) = omega arith in
      let low : u8 (3 + size) ≡ suc (length body + 2) % 256 = omega arith in
      let high : u8 ((3 + size) / 256) ≡ suc (length body + 2) / 256 % 256 = omega arith in
      let upper : u8 (u16 (0 + (0 + sum body)) / 256) ≡ sum body / 256 % 256 = omega arith in
      let lower : u8 (u16 (0 + (0 + sum body))) ≡ sum body % 256 = omega arith in
      simp (append_assoc, length-append)
        λ i. record d {
          m_current_checksum = check i;
          serial =
              d.serial
              ++ (som ∷ rdm_label ∷ low i ∷ high i ∷ 0 ∷ (body ++ upper i ∷ lower i ∷ eom ∷ []));
        }

  -- The three steps of a response, with the right size announced, are one framed packet.
  pub respond_lem :
      (msg : Memory) (rt : ResponseType) (size command_class pid : ℕ) (param_data : List ℕ)
      (d : Device S)
      → length param_data ≡ size
      → size ≤ 231
      → end_rdm_response (send param_data (start_custom_response msg rt size command_class pid d))
        ≡ respond msg rt command_class pid param_data d
  unfolding packet_bytes
  respond_lem msg rt size command_class pid param_data d same fits =
      let n = length param_data in
      let body = packet_body (reply_packet msg rt command_class pid param_data d) in
      let opened : u16 (27 + n) ≡ 3 + (24 + n) = omega arith in
      let counted : 24 + n ≡ length body =
        sym (length-body msg rt command_class pid param_data d) in
      rw (← same) (
        simp
          (
            start_lem,
            send-send,
            body_lem msg rt command_class pid param_data d (omega arith),
            opened,
          )
          (end_lem body (24 + n) d counted (omega arith)))
