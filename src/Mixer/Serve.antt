-- ===== src/Mixer/Serve.antt =====
-- A request of a host from the bytes of the serial line to HandleRDMMessage: Read of
-- UsbProReceiver.cpp, TakeAction of main.cpp and HandleRDMMessage of RDMHandlers.cpp.
use rgbmixer.Base.{ℕ, ◌≡◌, ◌∙◌, refl, ap, true, map, some, arith}
use rgbmixer.Arduino.{Eeprom}
use rgbmixer.Device.{Device}
use rgbmixer.UsbPro.Frame.{Frame, frame_bytes}
use rgbmixer.UsbPro.Labels.{rdm_label}
use rgbmixer.UsbPro.Receiver
use rgbmixer.UsbPro.Receiver.Frames.{read-frame_bytes}
use rgbmixer.Rdm.Packet.{packet_bytes}
use rgbmixer.Rdm.Sender.{Memory}
use rgbmixer.Rdm.Handlers.Tables.{Board}
use rgbmixer.Rdm.Handlers.Message.{handle_rdm_message}
use rgbmixer.Rdm.Handlers.Message.Decide.{perform}
use rgbmixer.Rdm.Handlers.Message.Requests.{
  Request, IsRequest, packet_of, request_of, names_us, decide_request, packet-size, held-request,
  held-perform,
}
use rgbmixer.Mixer.{toggle_led, take_action, idle}

-- The packet of a request in the frame for RDM.
abbrev pub request_frame : ℕ → ℕ → ℕ → Request → Frame
request_frame host_esta host_serial transaction q = record {
  label = rdm_label;
  payload = packet_bytes (packet_of host_esta host_serial transaction q);
}

take_action-rdm :
    {S : Type 0} ⦃e : Eeprom S⦄ (board : Board) (msg : Memory) (size : ℕ) (d : Device S)
    → take_action board rdm_label msg size d ≡ handle_rdm_message board msg size (toggle_led d)
unfolding take_action
take_action-rdm board msg size d = refl

-- A host sends the frame of a GET or SET whose fields fit their width, with at most 231 bytes of
-- data, for the device, all devices of its manufacturer or all devices, while the receiver waits for
-- a start byte. The main loop reads the frame to its end and waits for the next; the fields that the
-- code reads from its buffer are those that the host put in; and besides the toggle of the LED the
-- device does what the decision on these fields says.
pub read-request_frame :
    {S : Type 0} ⦃e : Eeprom S⦄ (board : Board) (host_esta host_serial transaction : ℕ)
    (q : Request) (r : Receiver.Receiver) (d : Device S)
    → IsRequest q
    → names_us q d.settings ≡ true
    → r.recv_mode ≡ Receiver.pre_som
    → (msg : Memory) × (r' : Receiver.Receiver) × (Receiver.read take_action idle
          (map
            (Receiver.byte board)
            (frame_bytes (request_frame host_esta host_serial transaction q)))
          r
          d
        ≡ some (r', perform board msg (decide_request q) (toggle_led d)))
      × (request_of msg ≡ q)
      × (r'.recv_mode ≡ Receiver.pre_som)
read-request_frame board x y t q r d h ours fresh =
    let size = packet-size x y t q h in
    let (msg, r', reads, held, waits) =
      read-frame_bytes take_action idle board (request_frame x y t q) r d
        (omega (arith, size, h.data_fits)) fresh in
    let ours' : names_us q (toggle_led d).settings ≡ true = (unfold toggle_led in ours) in
    let carried =
      take_action-rdm board msg _ d ∙ held-perform msg x y t q h held board (toggle_led d) ours' in
    (msg, r', reads ∙ ap (λ d'. some (r', d')) carried, held-request msg x y t q h held, waits)
