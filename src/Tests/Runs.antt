-- ===== src/Tests/Runs.antt =====
-- Runs of the operations of RDMHandlers.cpp on concrete messages.
use rgbmixer.Base.{
  ℕ, ◌==◌, ◌||◌, ◌&&◌, ◌%◌, ◌≡◌, refl, true, false, [], ◌∷◌, ◌++◌, length, mem_of, arith, sum,
}
use rgbmixer.Settings.{esta_id, read_int, matches_serial_number, serial_number}
use rgbmixer.Device.{Device}
use rgbmixer.UsbPro.Frame.{frame_bytes}
use rgbmixer.Rdm.Packet.{packet_bytes, packet_body}
use rgbmixer.Rdm.Enums.{StatusCode, ack, status_invalid_command, status_failed}
use rgbmixer.Rdm.Reply.{status_frame, reply_packet}
use rgbmixer.Rdm.Answer.{Answer, deliver}
use rgbmixer.Rdm.Handlers.Tables.{get_device_info, set_personality}
use rgbmixer.Rdm.Handlers.Get.{call_get_handler}
use rgbmixer.Rdm.Handlers.Get.Answers.{get_answer, after_get}
use rgbmixer.Rdm.Handlers.Get.Refines.{call_get_handler-deliver}
use rgbmixer.Rdm.Handlers.Set.{call_set_handler}
use rgbmixer.Rdm.Handlers.Set.Answers.{set_outcome, set_check}
use rgbmixer.Rdm.Handlers.Set.Refines.{call_set_handler-outcome}
use rgbmixer.Rdm.Handlers.Message.{
  handle_rdm_message, is_malformed, verify_checksum, is_get_or_set, is_broadcast, is_to_us,
  param_id,
}
use rgbmixer.Rdm.Handlers.Message.Addressed.{
  destination_esta, destination_serial, is_to_us-destination,
}
use rgbmixer.Rdm.Handlers.Message.Frames.{
  OneFrame, frame_of, handle_rdm_message-OneFrame, handle_rdm_message-invalid_command,
}
use rgbmixer.Rdm.Handlers.Message.Broadcast.{handle_rdm_message-broadcast}
use rgbmixer.Rdm.Handlers.Message.Keeps.{SameSettings, handle_rdm_message_get-SameSettings}
use rgbmixer.Rdm.Handlers.Message.OwnPackets.{reply_packet-verify}
use rgbmixer.UsbPro.Sender.{put_frame}
use rgbmixer.Rdm.Handlers.Message.Judged.{handle_rdm_message-fault}
use rgbmixer.Tests.{
  store_eeprom, settings, device, board, get_info, set_mode, set_all, discovery, store_read,
}

handle_rdm_message-OneFrame_example :
    OneFrame (mem_of get_info) device (handle_rdm_message board (mem_of get_info) 26 device)
unfolding is_get_or_set packet_bytes packet_body sum
handle_rdm_message-OneFrame_example =
    handle_rdm_message-OneFrame board (mem_of get_info) 26 device refl

call_get_handler-deliver_example :
    call_get_handler board get_device_info (mem_of get_info) device
    ≡ deliver
        (mem_of get_info)
        (get_answer board get_device_info (mem_of get_info) device)
        (after_get get_device_info (mem_of get_info) device)
call_get_handler-deliver_example =
    call_get_handler-deliver board get_device_info (mem_of get_info) device

call_set_handler-outcome_example :
    call_set_handler board set_personality false 0 (mem_of set_mode) device
    ≡ set_outcome board set_personality false
        (mem_of set_mode)
        (set_check set_personality (mem_of set_mode))
        device
call_set_handler-outcome_example =
    call_set_handler-outcome board set_personality false 0 (mem_of set_mode) device

reply_packet-verify_example :
    let bytes =
      packet_bytes (reply_packet (mem_of get_info) ack 0x21 0x60 (1 ∷ 2 ∷ 3 ∷ []) device) in
    (is_malformed (mem_of bytes) (length bytes) ≡ false)
    × (verify_checksum (mem_of bytes) (length bytes) ≡ true)
reply_packet-verify_example =
    reply_packet-verify (mem_of get_info) ack 0x21 0x60 (1 ∷ 2 ∷ 3 ∷ []) device (omega arith)

handle_rdm_message-broadcast_example :
    (c : StatusCode) × ((handle_rdm_message board (mem_of set_all) 28 device).serial
      ≡ device.serial ++ frame_bytes (status_frame c))
unfolding is_broadcast is_get_or_set param_id packet_bytes packet_body sum
handle_rdm_message-broadcast_example =
    handle_rdm_message-broadcast board (mem_of set_all) 28 device refl refl (omega arith)

handle_rdm_message_get-SameSettings_example :
    SameSettings device (handle_rdm_message board (mem_of get_info) 26 device)
unfolding packet_bytes packet_body sum
handle_rdm_message_get-SameSettings_example =
    handle_rdm_message_get-SameSettings board (mem_of get_info) 26 device refl

handle_rdm_message-invalid_command_example :
    (a : Answer) × (s : Device (ℕ → ℕ)) × ((handle_rdm_message board
        (mem_of discovery)
        26
        device).serial
      ≡ (device.serial ++ frame_bytes (status_frame status_invalid_command))
        ++ frame_bytes (frame_of (mem_of discovery) a s))
unfolding is_malformed verify_checksum is_to_us is_broadcast is_get_or_set packet_bytes packet_body
    sum store_read esta_id read_int matches_serial_number
handle_rdm_message-invalid_command_example =
    handle_rdm_message-invalid_command board (mem_of discovery) 26 device refl refl refl refl

abbrev info_bytes : ℕ → ℕ
info_bytes i = mem_of get_info i % 256

handle_rdm_message-fault_example :
    handle_rdm_message board info_bytes 27 device ≡ put_frame (status_frame status_failed) device
unfolding packet_bytes packet_body sum
handle_rdm_message-fault_example =
    handle_rdm_message-fault board info_bytes 27 device status_failed (λ i. omega arith)
      (omega arith) refl

is_to_us-destination_example : is_to_us (λ i. mem_of get_info i % 256) settings ≡ (
    destination_esta (λ i. mem_of get_info i % 256) == esta_id settings
      && (destination_serial (λ i. mem_of get_info i % 256) == serial_number settings
          || destination_serial (λ i. mem_of get_info i % 256) == 0xffffffff)
    || (destination_esta (λ i. mem_of get_info i % 256) == 0xffff
        && destination_serial (λ i. mem_of get_info i % 256) == 0xffffffff))
is_to_us-destination_example =
    is_to_us-destination (λ i. mem_of get_info i % 256) settings (λ i. omega arith)
