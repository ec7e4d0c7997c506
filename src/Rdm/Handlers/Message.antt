-- ===== src/Rdm/Handlers/Message.antt =====
-- VerifyChecksum and HandleRDMMessage of RDMHandlers.cpp.
pub mod Addressed
pub mod Cases
pub mod Corrupt
pub mod Decide
pub mod Faults
pub mod Lookup
pub mod Parameters
pub mod Judged
pub mod Requests
pub mod Agree
pub mod Frames
pub mod Keeps
pub mod Broadcast
pub mod OwnPackets
pub mod Invariant
pub mod Ranges
pub mod Rejected
use rgbmixer.Base.{
  ℕ, zero, suc, ◌+◌, ◌-◌, ◌*◌, ◌/◌, ◌%◌, ◌^◌, Bool, true, false, ◌&&◌, ◌||◌, not, List, [], ◌∷◌,
  Option, none, some, ◌==◌, if◌then◌else◌, u8, u16, int_lt, ◌<<<◌, ◌>>>◌,
}
use rgbmixer.Arduino.{Eeprom}
use rgbmixer.Settings.{Settings, esta_id, matches_serial_number}
use rgbmixer.Device.{Device, Cmd, ◌>>◌, ◌>>=◌, skip, setting}
use rgbmixer.Rdm.Enums.{
  status_broadcast, status_failed, status_failed_checksum, status_invalid_destination,
  status_invalid_command, start_code, sub_start_code, minimum_rdm_packet_size, get_command,
  set_command, unknown_pid, format_error, unsupported_command_class, sub_device_out_of_range,
}
use rgbmixer.Rdm.Sender.{Memory, return_rdm_error_response, send_nack, nack_or_broadcast}
use rgbmixer.Rdm.Handlers.Tables.{Board, PidDefinition, GetHandler, SetHandler, pid_definitions}
use rgbmixer.Rdm.Handlers.Get.{call_get_handler}
use rgbmixer.Rdm.Handlers.Set.{call_set_handler}

-- The loop of VerifyChecksum: `left` rounds from round `i`.
unfoldable pub checksum_from : Memory → ℕ → ℕ → ℕ → ℕ
checksum_from message zero i checksum = checksum
checksum_from message (suc left) i checksum =
    checksum_from message left (i + 1) (u16 (checksum + message i))

unfoldable pub verify_checksum : Memory → ℕ → Bool
unfolding checksum_from
verify_checksum message size =
    let checksum = checksum_from message (size - 2) 0 0 in
    let checksum_offset = message 2 in
    checksum >>> 8 == message checksum_offset && u8 checksum == message (checksum_offset + 1)

-- Too small, a wrong start or sub start code, or a length byte that does not fit the size.
unfoldable pub is_malformed : Memory → ℕ → Bool
is_malformed message size =
    int_lt size minimum_rdm_packet_size
    || (not (message 0 == start_code)
        || (not (message 1 == sub_start_code) || not (message 2 == size - 2)))

unfoldable pub is_broadcast : Memory → Bool
is_broadcast message =
    message 5 == 0xff && (message 6 == 0xff && (message 7 == 0xff && message 8 == 0xff))

unfoldable pub is_get_or_set : Memory → Bool
is_get_or_set message = message 20 == get_command || message 20 == set_command

unfoldable pub sub_device : Memory → ℕ
sub_device message = u16 (message 18 <<< 8 + message 19)

unfoldable pub param_id : Memory → ℕ
param_id message = u16 (message 21 <<< 8 + message 22)

-- The loop over PID_DEFINITIONS: the last entry with the id.
unfoldable pub find_pid : ℕ → List PidDefinition → Option PidDefinition → Option PidDefinition
find_pid id [] found = found
find_pid id (p ∷ ps) found = find_pid id ps (if p.pid == id then some p else found)

module _ {S : Type 0} ⦃e : Eeprom S⦄ where
  unfoldable pub is_to_us : Memory → Settings S → Bool
  is_to_us message s =
      let expected_esta_id = u16 (message 3 <<< 8 + message 4) in
      expected_esta_id == esta_id s
        && (matches_serial_number s (λ i. message (5 + i)) || is_broadcast message)
      || (expected_esta_id == 0xffff && is_broadcast message)

  unfoldable pub handle_get : Board → Memory → PidDefinition → Option GetHandler → Cmd S
  handle_get board message p none =
      nack_or_broadcast (is_broadcast message) message unsupported_command_class
  handle_get board message p (some handler) =
      if is_broadcast message
      then return_rdm_error_response status_broadcast
      else if not (sub_device message == 0)
      then send_nack message sub_device_out_of_range
      else if not (message 23 == p.get_argument_size)
      then send_nack message format_error
      else call_get_handler board handler message

  unfoldable pub handle_set : Board → Memory → Option SetHandler → Cmd S
  handle_set board message none =
      nack_or_broadcast (is_broadcast message) message unsupported_command_class
  handle_set board message (some handler) =
      call_set_handler board handler (is_broadcast message) (sub_device message) message

  unfoldable pub handle_pid : Board → Memory → Option PidDefinition → Cmd S
  unfolding handle_get handle_set
  handle_pid board message none = nack_or_broadcast (is_broadcast message) message unknown_pid
  handle_pid board message (some p) =
      if message 20 == get_command
      then handle_get board message p p.get_handler
      else handle_set board message p.set_handler

  -- From the check of the sub device on.
  unfoldable pub handle_command : Board → Memory → Cmd S
  unfolding handle_pid
  handle_command board message =
      if not (sub_device message == 0) && not (sub_device message == 0xffff)
      then nack_or_broadcast (is_broadcast message) message sub_device_out_of_range
      else handle_pid board message (find_pid (param_id message) pid_definitions none)

  -- From the check of the command class on. That check does not return.
  unfoldable pub handle_request : Board → Memory → Cmd S
  handle_request board message = do
    if is_get_or_set message then skip else return_rdm_error_response status_invalid_command
    handle_command board message

  unfoldable pub handle_rdm_message : Board → Memory → ℕ → Cmd S
  handle_rdm_message board message size =
      if is_malformed message size
      then return_rdm_error_response status_failed
      else if not (verify_checksum message size)
      then return_rdm_error_response status_failed_checksum
      else (do
        to_us ← setting (is_to_us message)
        if to_us
            then handle_request board message
            else if is_broadcast message
            then return_rdm_error_response status_broadcast
            else return_rdm_error_response status_invalid_destination)
