-- ===== src/Responder/Actions.antt =====
-- What a host may do on the serial line, and what the device of main.cpp promises for it.
use rgbmixer.Base.{
  ℕ, zero, suc, ◌≤◌, ◌≡◌, Bool, false, ◌||◌, ◌==◌, if◌then◌else◌, cells, List, [], ◌∷◌, ◌++◌,
  length, u8, ◌>>>◌,
}
use rgbmixer.Common.{device_name, manufacturer_name}
use rgbmixer.UsbPro.Frame.{Frame, frame_bytes}
use rgbmixer.UsbPro.Labels.{
  parameters_label, dmx_data_label, serial_number_label, manufacturer_label, name_label, rdm_label,
}
use rgbmixer.UsbPro.Receiver
use rgbmixer.UsbPro.Receiver.{message_capacity}
use rgbmixer.UsbPro.Receiver.Pauses.{Paused, pauses}
use rgbmixer.Rdm.Handlers.Tables.{Board}
use rgbmixer.Mixer.{device_params, device_id, long_memory}
use rgbmixer.Responder.{Responder}
use rgbmixer.Responder.Service.{settle}
use rgbmixer.Responder.Payload.{hear, IsPayload}

-- The questions about the device.
pub data Query : Type 0 where
  parameters serial_number maker name : Query

-- Nothing; bytes in a frame for RDM; a question, values for the outputs, or a frame with another
-- label, with any payload. The board is as it is when the bytes arrive.
pub data Action : Type 0 where
  silence : Action
  says : Board → List ℕ → Action
  asks : Board → Query → List ℕ → Action
  lights : Board → List ℕ → Action
  other : Board → ℕ → List ℕ → Action

abbrev pub query_label : Query → ℕ
query_label parameters = parameters_label
query_label serial_number = serial_number_label
query_label maker = manufacturer_label
query_label name = name_label

abbrev pub host_frame : ℕ → List ℕ → Frame
host_frame label payload = record { label = label; payload = payload }

abbrev pub payload_of : Action → List ℕ
payload_of silence = []
payload_of (says board bytes) = bytes
payload_of (asks board query payload) = payload
payload_of (lights board payload) = payload
payload_of (other board label payload) = payload

-- The labels that are acted on.
abbrev pub is_known_label : ℕ → Bool
is_known_label label =
    label == parameters_label
    || (label == dmx_data_label
        || (label == serial_number_label
            || (label == name_label || (label == manufacturer_label || label == rdm_label))))

abbrev pub IsAction : Action → Type 0
IsAction silence = Unit {0}
IsAction (says board bytes) = IsPayload bytes
IsAction (asks board query payload) = length payload ≤ message_capacity
IsAction (lights board payload) = length payload ≤ message_capacity
IsAction (other board label payload) =
    (length payload ≤ message_capacity) × (is_known_label label ≡ false)

abbrev pub reply_to : Query → Responder → Frame
reply_to parameters v = host_frame parameters_label device_params
reply_to serial_number v = host_frame serial_number_label (long_memory v.serial)
reply_to maker v =
    host_frame manufacturer_label (u8 v.maker ∷ u8 (v.maker >>> 8) ∷ manufacturer_name)
reply_to name v = host_frame name_label (device_id ++ device_name)

-- The state after it, and the frames that the device puts out.
unfoldable pub react : Action → Responder → Responder × List Frame
unfolding hear settle
react silence v = (settle v, [])
react (says board bytes) v = hear board bytes v
react (asks board query payload) v = (v, reply_to query v ∷ [])
react (lights board payload) v = (v, [])
react (other board label payload) v = (v, [])

unfoldable pub replay : List Action → Responder → Responder × List Frame
unfolding react
replay [] v = (v, [])
replay (a ∷ actions) v =
    let (v1, frames) = react a v in let (v2, more) = replay actions v1 in (v2, frames ++ more)

-- What a frame with the label is.
abbrev pub action_of : Board → ℕ → List ℕ → Action
action_of board label payload =
    if label == parameters_label
    then asks board parameters payload
    else if label == dmx_data_label
    then lights board payload
    else if label == serial_number_label
    then asks board serial_number payload
    else if label == name_label
    then asks board name payload
    else if label == manufacturer_label
    then asks board maker payload
    else if label == rdm_label
    then says board payload
    else other board label payload

-- What the receiver makes of the events of the line.
unfoldable pub actions_in : List (Receiver.Event Board) → Receiver.Receiver → List Action
actions_in [] r = []
actions_in (Receiver.idle ∷ events) r = silence ∷ actions_in events r
actions_in (Receiver.byte board value ∷ events) r = elim (Receiver.receive r value) [
  | Receiver.waits r' ↦ actions_in events r'
  | Receiver.calls label message size r' ↦
      action_of board label (cells message 0 size) ∷ actions_in events r'
  | Receiver.overrun ↦ []
]

abbrev pub silences : ℕ → List Action → List Action
silences zero actions = actions
silences (suc n) actions = silence ∷ silences n actions

-- What a host sends, frame by frame, each with a payload that the buffer holds, and the events of it
-- on the line: silent rounds may come at any time, also between the bytes of a frame.
pub data Brings : List Action → List (Receiver.Event Board) → Type 0 where
  nothing : Brings [] []
  quiet :
      {actions : List Action} {events : List (Receiver.Event Board)}
      → Brings actions events
      → Brings (silence ∷ actions) (Receiver.idle ∷ events)
  frame :
      {actions : List Action} {events later : List (Receiver.Event Board)} (board : Board)
      (f : Frame)
      → length f.payload ≤ message_capacity
      → Paused board (frame_bytes f) events
      → Brings actions later
      → Brings
          (silences (pauses events) (action_of board f.label f.payload ∷ actions))
          (events ++ later)
