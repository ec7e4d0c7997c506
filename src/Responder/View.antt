-- ===== src/Responder/View.antt =====
-- The state of the responder that the firmware keeps, and a message that is held in its memory.
use rgbmixer.Base.{
  ℕ, ◌+◌, ◌≤◌, ◌<◌, ◌≡◌, refl, ap, List, ◌++◌, Option, none, some, if◌then◌else◌, length, cells,
  mem_of, AreBytes,
}
use rgbmixer.Arduino.{Eeprom}
use rgbmixer.Settings
use rgbmixer.Settings.{Settings}
use rgbmixer.Device.{Device}
use rgbmixer.UsbPro.Frame.{frame_bytes}
use rgbmixer.Rdm.Enums.{ResponseType, ack, nack, NackReason, nack_code}
use rgbmixer.Rdm.Packet.{int_bytes, long_bytes}
use rgbmixer.Rdm.Sender.{Memory}
use rgbmixer.Rdm.Reply.{packet_frame, reply_packet}
use rgbmixer.Rdm.Answer.{Answer, status, reply, answer, acks, nacks, deliver, request_pid}
use rgbmixer.Rdm.Handlers.Queue.{queue_of}
use rgbmixer.Rdm.Handlers.Message.{is_broadcast}
use rgbmixer.Responder.{Responder, Message, is_to_all, answers, accepts, denies}
use rgbmixer.Responder.Service.{answer_frame, answer_packet}

module _ {S : Type 0} ⦃e : Eeprom S⦄ where
  abbrev pub waiting_label : Settings S → Option (List ℕ)
  waiting_label s =
      if s.m_label_pending then some (cells s.m_label_buffer 0 s.m_label_size) else none

  abbrev pub view : Device S → Responder
  view d = record {
    address = Settings.start_address d.settings;
    mode = Settings.personality d.settings;
    maker = Settings.esta_id d.settings;
    serial = Settings.serial_number d.settings;
    cycles = Settings.device_power_cycles d.settings;
    label = Settings.device_label d.settings 32;
    unwritten = waiting_label d.settings;
    identify = d.m_identify_mode_enabled;
    queue = queue_of d;
    counted = d.m_message_count;
  }

-- The buffer of the label holds bytes and is not overrun.
pub record IsSound {S : Type 0} (s : Settings S) : Type 0 where
  pub fits : s.m_label_size ≤ 32
  pub bytes : (i : ℕ) → i < s.m_label_size → s.m_label_buffer i < 256

-- What the handlers read of a message, and its reply packet copies, is what the host put in.
pub record Holds (msg : Memory) (m : Message) : Type 0 where
  pub command_class : msg 20 ≡ m.request.command_class
  pub pid : request_pid msg ≡ m.request.pid
  pub to_all : is_broadcast msg ≡ is_to_all m.request
  pub size : msg 23 ≡ length m.request.param_data
  pub bytes :
      (i : ℕ) → i < length m.request.param_data → msg (24 + i) ≡ mem_of m.request.param_data i
  pub source : cells msg 9 6 ≡ int_bytes m.host_esta ++ long_bytes m.host_serial
  pub transaction : msg 15 ≡ m.transaction
  pub sub_number : cells msg 18 2 ≡ int_bytes m.request.sub_number
  pub are_bytes : AreBytes m.request.param_data

module _ {msg : Memory} {m : Message} (h : Holds msg m) where
  pub answer_lem :
      (rt : ResponseType) (bytes : List ℕ) → answer msg rt bytes ≡ answers m.request rt bytes
  answer_lem rt bytes = rw (h.command_class, h.pid)

  pub acks_lem : (bytes : List ℕ) → acks msg bytes ≡ accepts m.request bytes
  acks_lem bytes = answer_lem ack bytes

  pub nacks_lem : (reason : NackReason) → nacks msg reason ≡ denies m.request reason
  nacks_lem reason = answer_lem nack (int_bytes (nack_code reason))

  module _ {S : Type 0} ⦃e : Eeprom S⦄ where
    reply_packet_lem :
        (rt : ResponseType) (command_class pid : ℕ) (bytes : List ℕ) (d : Device S)
        → reply_packet msg rt command_class pid bytes d
          ≡ answer_packet m rt command_class pid bytes (view d)
    reply_packet_lem rt command_class pid bytes d = rw (h.source, h.transaction, h.sub_number)

    -- An answer is delivered by its frame alone.
    pub deliver-serial :
        (a : Answer) (d : Device S)
        → (deliver msg a d).serial ≡ d.serial ++ frame_bytes (answer_frame m a (view d))
    unfolding deliver
    deliver-serial (status c) d = refl
    deliver-serial (reply rt command_class pid bytes) d =
        ap (λ p. d.serial ++ frame_bytes (packet_frame p))
          (reply_packet_lem rt command_class pid bytes d)

    pub deliver-view : (a : Answer) (d : Device S) → view (deliver msg a d) ≡ view d
    unfolding deliver
    deliver-view (status c) d = refl
    deliver-view (reply rt command_class pid bytes) d = refl
