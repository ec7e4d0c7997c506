-- ===== src/Responder/Heard.antt =====
-- HandleRDMMessage on the packet of a message, against what the responder does with the message.
use rgbmixer.Base.{
  ℕ, ◌≤◌, ◌<◌, ◌≡◌, ◌∙◌, refl, ap, List, ◌++◌, some, ◌==◌, if◌then◌else◌, length, cells, mem_of,
  AreBytes, arith, Bool-cases, inl, inr,
}
use rgbmixer.Arduino.{Eeprom}
use rgbmixer.Device.{Device}
use rgbmixer.UsbPro.Frame.{frame_bytes}
use rgbmixer.Rdm.Enums.{status_broadcast, status_invalid_destination}
use rgbmixer.Rdm.Packet.{packet_bytes, packet_body}
use rgbmixer.Rdm.Sender.{Memory}
use rgbmixer.Rdm.Handlers.Tables.{Board}
use rgbmixer.Rdm.Handlers.Message.{handle_rdm_message, param_id}
use rgbmixer.Rdm.Handlers.Message.Addressed.{AreUidBytes, is_broadcast_lem}
use rgbmixer.Rdm.Handlers.Message.Agree.{at, cells-agree, cells-mem}
use rgbmixer.Rdm.Handlers.Message.Rejected.{rejection, handle_rdm_message-rejected}
use rgbmixer.Rdm.Handlers.Message.Requests.{
  Request, IsRequest, packet_of, request_of, decide_request, agree, low, rejection-held,
  held-request, held-perform,
}
use rgbmixer.Responder.{Message, is_to_all, is_named}
use rgbmixer.Responder.Service.{serve}
use rgbmixer.Responder.View.{view, IsSound, Holds}
use rgbmixer.Responder.Served.{Does, perform_lem}

-- The bytes of its packet.
abbrev pub message_bytes : Message → List ℕ
message_bytes m = packet_bytes (packet_of m.host_esta m.host_serial m.transaction m.request)

-- Its fields fit their width, and its data are bytes, as many as a packet carries.
pub record IsMessage (m : Message) : Type 0 where
  pub fits : IsRequest m.request
  pub are_bytes : AreBytes m.request.param_data

module _ (msg : Memory) (m : Message) (h : IsMessage m)
    (held : cells msg 0 (length (message_bytes m)) ≡ message_bytes m) where
  abbrev mem : Memory
  mem = mem_of (message_bytes m)

  agrees : (i : ℕ) → i < length (message_bytes m) → msg i ≡ mem i
  agrees = agree msg m.host_esta m.host_serial m.transaction m.request h.fits held

  large : 26 ≤ length (message_bytes m)
  large = low msg m.host_esta m.host_serial m.transaction m.request h.fits held

  first : (i : ℕ) → i < 26 → msg i ≡ mem i
  first = at msg mem (length (message_bytes m)) agrees large

  -- What the code reads of it is the request.
  request_lem : request_of msg ≡ m.request
  request_lem = held-request msg m.host_esta m.host_serial m.transaction m.request h.fits held

  size_lem : msg 23 ≡ length m.request.param_data
  unfolding packet_bytes packet_body
  size_lem = first 23 (omega arith)

  uid_bytes : AreUidBytes msg
  unfolding packet_bytes packet_body
  uid_bytes = (
    rw (first 3 (omega arith)) (omega arith),
    rw (first 4 (omega arith)) (omega arith),
    rw (first 5 (omega arith)) (omega arith),
    rw (first 6 (omega arith)) (omega arith),
    rw (first 7 (omega arith)) (omega arith),
    rw (first 8 (omega arith)) (omega arith),
  )

  holds : Holds msg m
  holds = record {
    command_class = first 20 (omega arith) ∙ (unfold packet_bytes packet_body in refl);
    pid = (unfold param_id in ap (λ (q : Request). q.pid) request_lem);
    to_all =
        is_broadcast_lem msg uid_bytes ∙ ap (λ (q : Request). q.serial == 0xffffffff) request_lem;
    size = size_lem;
    bytes = λ i inside.
        cells-mem msg m.request.param_data 24 i
          (rw size_lem at (ap (λ (q : Request). q.param_data) request_lem)) inside;
    source =
        cells-agree msg mem 6 9 (length (message_bytes m)) agrees (omega (arith, large))
        ∙ (unfold packet_bytes packet_body in refl);
    transaction = first 15 (omega arith) ∙ (unfold packet_bytes packet_body in refl);
    sub_number =
        cells-agree msg mem 2 18 (length (message_bytes m)) agrees (omega (arith, large))
        ∙ (unfold packet_bytes packet_body in refl);
    are_bytes = h.are_bytes;
  }

  handle_rdm_message_lem :
      {S : Type 0} ⦃e : Eeprom S⦄ (board : Board) (d : Device S)
      → IsSound d.settings
      → Does d (handle_rdm_message board msg (length (message_bytes m)) d) (serve board m (view d))
  unfolding serve
  handle_rdm_message_lem board d sound = elim (Bool-cases (is_named m.request (view d))) [
    | inl ours ↦
        rw
          (
            ours,
            held-perform msg m.host_esta m.host_serial m.transaction m.request h.fits held board d
                ours,
          )
          (perform_lem holds board (decide_request m.request) d refl sound)
    | inr others ↦
        let status_of =
          if is_to_all m.request then status_broadcast else status_invalid_destination in
        let refused : rejection msg (length (message_bytes m)) d ≡ some status_of =
          (rejection-held msg m.host_esta m.host_serial m.transaction m.request h.fits held d
            ∙ rw others) in
        rw
          (
            others,
            handle_rdm_message-rejected board msg (length (message_bytes m)) d status_of refused,
          )
          (record { state = refl; told = refl; sound = sound })
  ]

-- A GET or SET of any host, whose fields fit their width, with at most 231 bytes of data, for
-- whomever it is, is held in memory as its packet, and the label that waits fits its buffer and
-- holds bytes below 256. After HandleRDMMessage the settings, the label that waits, the identify
-- mode, the queued message and the message count of the firmware are those that the responder has
-- after the message, and the code puts out the one frame of the responder and nothing else.
pub handle_rdm_message-serve :
    {S : Type 0} ⦃e : Eeprom S⦄ (board : Board) (msg : Memory) (m : Message) (d : Device S)
    → IsMessage m
    → cells msg 0 (length (message_bytes m)) ≡ message_bytes m
    → IsSound d.settings
    → let d' = handle_rdm_message board msg (length (message_bytes m)) d in
      let (v', f) = serve board m (view d) in
      (view d' ≡ v') × (d'.serial ≡ d.serial ++ frame_bytes f)
handle_rdm_message-serve board msg m d h held sound =
    let does = handle_rdm_message_lem msg m h held board d sound in (does.state, does.told)
