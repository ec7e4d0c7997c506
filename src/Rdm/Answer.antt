-- ===== src/Rdm/Answer.antt =====
-- What a handler may answer, and the answer's delivery in closed form.
use rgbmixer.Base.{
  ℕ, ◌+◌, ◌≤◌, ◌≡◌, refl, List, [], Bool, true, false, ◌==◌, if◌then◌else◌, u16, ◌<<<◌, length,
  arith,
}
use rgbmixer.Arduino.{Eeprom}
use rgbmixer.Device.{Device, Cmd}
use rgbmixer.UsbPro.Sender.{put_frame}
use rgbmixer.Rdm.Enums.{
  StatusCode, status_broadcast, ResponseType, ack, ack_timer, nack, NackReason, nack_code,
  get_command, get_command_response, set_command_response,
}
use rgbmixer.Rdm.Packet.{int_bytes}
use rgbmixer.Rdm.Sender.{
  Memory, start_rdm_response, start_rdm_ack_response, start_custom_response, end_rdm_response,
  send_empty_ack, send_ack_timer, send_nack, nack_or_broadcast, return_rdm_error_response,
}
use rgbmixer.Rdm.Reply.{
  send, send_int_lem, respond, respond_lem, status_frame, return_rdm_error_response_lem,
  send_nil-start, start-settings, start-identify,
}

pub data Answer : Type 0 where
  status : StatusCode → Answer
  reply : ResponseType → ℕ → ℕ → List ℕ → Answer

-- The command class and the parameter id of an answer to a request.
abbrev pub response_class : Memory → ℕ
response_class msg = if msg 20 == get_command then get_command_response else set_command_response

abbrev pub request_pid : Memory → ℕ
request_pid msg = u16 (msg 21 <<< 8 + msg 22)

abbrev pub answer : Memory → ResponseType → List ℕ → Answer
answer msg rt param_data = reply rt (response_class msg) (request_pid msg) param_data

abbrev pub acks : Memory → List ℕ → Answer
acks msg param_data = answer msg ack param_data

abbrev pub nacks : Memory → NackReason → Answer
nacks msg reason = answer msg nack (int_bytes (nack_code reason))

-- To a broadcast the host gets a status instead of a packet.
abbrev pub unless_broadcast : Bool → Answer → Answer
unless_broadcast was_broadcast a = if was_broadcast then status status_broadcast else a

module _ {S : Type 0} ⦃e : Eeprom S⦄ where
  unfoldable pub deliver : Memory → Answer → Cmd S
  deliver msg (status c) = put_frame (status_frame c)
  deliver msg (reply rt command_class pid param_data) = respond msg rt command_class pid param_data

  pub respond_custom :
      (msg : Memory) (rt : ResponseType) (size command_class pid : ℕ) (param_data : List ℕ)
      (d : Device S)
      → length param_data ≡ size
      → size ≤ 231
      → end_rdm_response (send param_data (start_custom_response msg rt size command_class pid d))
        ≡ deliver msg (reply rt command_class pid param_data) d
  unfolding deliver
  respond_custom = respond_lem

  pub respond_empty :
      (msg : Memory) (rt : ResponseType) (command_class pid : ℕ) (d : Device S)
      → end_rdm_response (start_custom_response msg rt 0 command_class pid d)
        ≡ deliver msg (reply rt command_class pid []) d
  respond_empty msg rt command_class pid d =
      rw (← send_nil-start msg rt 0 command_class pid d)
        (respond_custom msg rt 0 command_class pid [] d refl (omega arith))

  pub respond_ack :
      (msg : Memory) (size : ℕ) (param_data : List ℕ) (d : Device S)
      → length param_data ≡ size
      → size ≤ 231
      → end_rdm_response (send param_data (start_rdm_ack_response msg size d))
        ≡ deliver msg (acks msg param_data) d
  unfolding start_rdm_ack_response start_rdm_response
  respond_ack msg size param_data d same fits =
      respond_custom msg ack size (response_class msg) (request_pid msg) param_data d same fits

  -- The handlers read the settings and the identify flag after they started the response.
  pub start_ack-settings :
      (msg : Memory) (size : ℕ) (d : Device S)
      → (start_rdm_ack_response msg size d).settings ≡ d.settings
  unfolding start_rdm_ack_response start_rdm_response
  start_ack-settings msg size d = start-settings msg ack size _ _ d

  pub start_ack-identify :
      (msg : Memory) (size : ℕ) (d : Device S)
      → (start_rdm_ack_response msg size d).m_identify_mode_enabled ≡ d.m_identify_mode_enabled
  unfolding start_rdm_ack_response start_rdm_response
  start_ack-identify msg size d = start-identify msg ack size _ _ d

  pub send_nil-start_ack :
      (msg : Memory) (size : ℕ) (d : Device S)
      → send [] (start_rdm_ack_response msg size d) ≡ start_rdm_ack_response msg size d
  unfolding start_rdm_ack_response start_rdm_response
  send_nil-start_ack msg size d = send_nil-start msg ack size _ _ d

  pub send_nack_lem :
      (msg : Memory) (reason : NackReason) (d : Device S)
      → send_nack msg reason d ≡ deliver msg (nacks msg reason) d
  unfolding send_nack start_rdm_response
  send_nack_lem msg reason d =
      rw send_int_lem
        (respond_custom msg nack 2 (response_class msg) (request_pid msg) _ d refl (omega arith))

  pub send_ack_timer_lem :
      (msg : Memory) (time : ℕ) (d : Device S)
      → send_ack_timer msg time d ≡ deliver msg (answer msg ack_timer (int_bytes time)) d
  unfolding send_ack_timer start_rdm_response
  send_ack_timer_lem msg time d =
      rw send_int_lem (
        respond_custom msg ack_timer 2 (response_class msg) (request_pid msg) _ d refl
          (omega arith))

  pub send_empty_ack_lem :
      (msg : Memory) (d : Device S) → send_empty_ack msg d ≡ deliver msg (acks msg []) d
  unfolding send_empty_ack start_rdm_ack_response start_rdm_response
  send_empty_ack_lem msg d = respond_empty msg ack (response_class msg) (request_pid msg) d

  pub status_lem :
      (msg : Memory) (c : StatusCode) (d : Device S)
      → return_rdm_error_response c d ≡ deliver msg (status c) d
  unfolding deliver
  status_lem msg c d = return_rdm_error_response_lem c d

  pub nack_or_broadcast_lem :
      (was_broadcast : Bool) (msg : Memory) (reason : NackReason) (d : Device S)
      → nack_or_broadcast was_broadcast msg reason d
        ≡ deliver msg (unless_broadcast was_broadcast (nacks msg reason)) d
  unfolding nack_or_broadcast
  nack_or_broadcast_lem true msg reason d = status_lem msg status_broadcast d
  nack_or_broadcast_lem false msg reason d = send_nack_lem msg reason d
