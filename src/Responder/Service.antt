-- ===== src/Responder/Service.antt =====
-- What the responder does with a message of a host, when the line is silent, and when power is lost:
-- the specification of HandleRDMMessage, of Idle and of a new start.
use rgbmixer.Base.{ℕ, ◌+◌, ◌%◌, false, List, ◌++◌, Option, none, some, if◌then◌else◌}
use rgbmixer.Settings.Written.{up_to_nul}
use rgbmixer.UsbPro.Frame.{Frame}
use rgbmixer.Rdm.Enums.{
  status_broadcast, status_invalid_destination, ResponseType, response_code, NackReason,
}
use rgbmixer.Rdm.Packet.{Packet, int_bytes, long_bytes}
use rgbmixer.Rdm.Reply.{status_frame, packet_frame}
use rgbmixer.Rdm.Answer.{Answer, status, reply, unless_broadcast}
use rgbmixer.Rdm.Handlers.Tables.{Board, SetHandler}
use rgbmixer.Rdm.Handlers.Queue.{empty, waiting}
use rgbmixer.Rdm.Handlers.Message.Decide.{Decision, refuses, reads, writes}
use rgbmixer.Rdm.Handlers.Message.Requests.{decide_request}
use rgbmixer.Responder.{
  Message, Responder, asked, asked_after, change, check, confirm, denies, deny, is_named, is_to_all,
  remember,
}

-- The frame of an answer, by the state in which it is given.
abbrev pub answer_packet : Message → ResponseType → ℕ → ℕ → List ℕ → Responder → Packet
answer_packet m rt command_class pid bytes v = record {
  destination = int_bytes m.host_esta ++ long_bytes m.host_serial;
  source = int_bytes v.maker ++ long_bytes v.serial;
  transaction = m.transaction;
  response_type = response_code rt;
  message_count = v.counted;
  sub_device = int_bytes m.request.sub_number;
  command_class = command_class;
  pid = pid;
  param_data = bytes;
}

abbrev pub answer_frame : Message → Answer → Responder → Frame
answer_frame m (status c) v = status_frame c
answer_frame m (reply rt command_class pid bytes) v =
    packet_frame (answer_packet m rt command_class pid bytes v)

-- A SET, by what its check says.
unfoldable pub set_by :
    Board → SetHandler → Message → Option NackReason → Responder → Responder × Frame
unfolding change confirm deny remember
set_by board h m (some reason) v = (v, answer_frame m (deny h m.request reason) v)
set_by board h m none v =
    let changed = change board h m.request.param_data v in
    (
      remember h (is_to_all m.request) changed,
      answer_frame m (confirm board h m.request changed) changed,
    )

unfoldable pub carry_out : Board → Message → Decision → Responder → Responder × Frame
unfolding asked asked_after check set_by
carry_out board m (refuses reason) v =
    (v, answer_frame m (unless_broadcast (is_to_all m.request) (denies m.request reason)) v)
carry_out board m (reads h) v =
    let after = asked_after h m.request v in
    (after, answer_frame m (asked board h m.request v) after)
carry_out board m (writes h) v = set_by board h m (check h m.request.param_data) v

-- A message of a host: the state after it, and the one frame that answers it. A message for others
-- is answered by a status.
unfoldable pub serve : Board → Message → Responder → Responder × Frame
unfolding carry_out
serve board m v = if is_named m.request v then carry_out board m (decide_request m.request) v else (
  v,
  status_frame (if is_to_all m.request then status_broadcast else status_invalid_destination),
)

-- When the line is silent, a label that waits is written, and leaves a message that is not counted.
unfoldable pub settle : Responder → Responder
settle v = elim v.unwritten [
  | none ↦ v
  | some bytes ↦ record v { label = up_to_nul bytes; unwritten = none; queue = waiting }
]

-- A loss of power.
unfoldable pub restart : Responder → Responder
restart v = record v {
  cycles = (v.cycles + 1) % 4294967296;
  unwritten = none;
  identify = false;
  queue = empty;
  counted = 0;
}
