-- ===== src/Rdm/Handlers/Message/Requests.antt =====
-- HandleRDMMessage of RDMHandlers.cpp on the packets of a host.
use rgbmixer.Base.{
  ℕ, refl, length-append, ◌+◌, ◌*◌, ◌≤◌, ◌<◌, ◌≡◌, ◌⊎◌, ◌∙◌, ap, Bool, true, ◌&&◌, ◌||◌, List, ◌++◌,
  length, sum, cells, cells-mem_of-middle, mem_of, none, some, ◌==◌, if◌then◌else◌, arith,
}
use rgbmixer.Arduino.{Eeprom}
use rgbmixer.Settings.{Settings, esta_id, serial_number}
use rgbmixer.Device.{Device}
use rgbmixer.Rdm.Enums.{get_command, set_command, status_broadcast, status_invalid_destination}
use rgbmixer.Rdm.Packet.{Packet, packet_body, packet_bytes, int_bytes, long_bytes}
use rgbmixer.Rdm.Sender.{Memory}
use rgbmixer.Rdm.Handlers.Tables.{Board}
use rgbmixer.Rdm.Handlers.Message.{
  is_get_or_set, is_to_us, sub_device, param_id, handle_rdm_message,
}
use rgbmixer.Rdm.Handlers.Message.OwnPackets.{packet-verify}
use rgbmixer.Rdm.Handlers.Message.Addressed.{
  AreUidBytes, destination_esta, destination_serial, is_broadcast_lem, is_to_us_lem,
}
use rgbmixer.Rdm.Handlers.Message.Agree.{
  cells-mem_of-agree, cells-agree, at, sub_device-agree, param_id-agree, rejection-agree,
  is_get_or_set-agree, decide-agree,
}
use rgbmixer.Rdm.Handlers.Message.Rejected.{rejection}
use rgbmixer.Rdm.Handlers.Message.Decide.{
  Decision, decide, decide_fields, perform, handle_rdm_message-perform,
}

-- A request as the host means it.
pub record Request : Type 0 where
  pub esta : ℕ
  pub serial : ℕ
  pub command_class : ℕ
  pub sub_number : ℕ
  pub pid : ℕ
  pub param_data : List ℕ

-- Its packet, from the host with the given UID.
abbrev pub packet_of : ℕ → ℕ → ℕ → Request → Packet
packet_of host_esta host_serial transaction q = record {
  destination = int_bytes q.esta ++ long_bytes q.serial;
  source = int_bytes host_esta ++ long_bytes host_serial;
  transaction = transaction;
  response_type = 1;
  message_count = 0;
  sub_device = int_bytes q.sub_number;
  command_class = q.command_class;
  pid = q.pid;
  param_data = q.param_data;
}

-- What HandleRDMMessage and the handlers read.
abbrev pub request_of : Memory → Request
request_of msg = record {
  esta = destination_esta msg;
  serial = destination_serial msg;
  command_class = msg 20;
  sub_number = sub_device msg;
  pid = param_id msg;
  param_data = cells msg 24 (msg 23);
}

pub record IsRequest (q : Request) : Type 0 where
  pub esta_fits : q.esta < 65536
  pub serial_fits : q.serial < 4294967296
  pub class_known : (q.command_class ≡ get_command) ⊎ (q.command_class ≡ set_command)
  pub sub_fits : q.sub_number < 65536
  pub pid_fits : q.pid < 65536
  pub data_fits : length q.param_data ≤ 231

-- It names the device, all devices of its manufacturer, or all devices.
abbrev pub names_us : {S : Type 0} ⦃e : Eeprom S⦄ → Request → Settings S → Bool
names_us q s =
    q.esta == esta_id s && (q.serial == serial_number s || q.serial == 0xffffffff)
    || (q.esta == 0xffff && q.serial == 0xffffffff)

-- What is to be done with it, by what the host put in.
abbrev pub decide_request : Request → Decision
decide_request q =
    decide_fields (q.serial == 0xffffffff) q.sub_number q.command_class q.pid (length q.param_data)

module _ (x y t : ℕ) (q : Request) (h : IsRequest q) where
  abbrev msg : Memory
  msg = mem_of (packet_bytes (packet_of x y t q))

  read_esta : destination_esta msg ≡ q.esta
  unfolding packet_bytes packet_body
  read_esta = omega (arith, h.esta_fits)

  read_serial : destination_serial msg ≡ q.serial
  unfolding packet_bytes packet_body
  read_serial = omega (arith, h.serial_fits)

  read_sub : sub_device msg ≡ q.sub_number
  unfolding packet_bytes packet_body sub_device
  read_sub = omega (arith, h.sub_fits)

  read_pid : param_id msg ≡ q.pid
  unfolding packet_bytes packet_body param_id
  read_pid = omega (arith, h.pid_fits)

  uid_bytes : AreUidBytes msg
  unfolding packet_bytes packet_body
  uid_bytes = (omega arith, omega arith, omega arith, omega arith, omega arith, omega arith)

  pub read_decision : decide msg ≡ decide_request q
  unfolding packet_bytes packet_body
  read_decision = rw (is_broadcast_lem msg uid_bytes, read_serial, read_sub, read_pid)

  read_data : cells msg 24 (length q.param_data) ≡ q.param_data
  unfolding packet_bytes packet_body
  read_data =
      cells-mem_of-middle (cells msg 0 24) q.param_data
        (int_bytes (sum (packet_body (packet_of x y t q))))

  pub reads_back : request_of msg ≡ q
  unfolding packet_bytes packet_body
  reads_back = λ j. record {
    esta = read_esta j;
    serial = read_serial j;
    command_class = q.command_class;
    sub_number = read_sub j;
    pid = read_pid j;
    param_data = read_data j;
  }

  pub known : is_get_or_set msg ≡ true
  unfolding packet_bytes packet_body is_get_or_set
  known = ground (arith, h.class_known)

  -- Of the three checks the packet can fail the last one alone.
  pub rejection_lem :
      {S : Type 0} ⦃e : Eeprom S⦄ (d : Device S)
      → rejection msg (length (packet_bytes (packet_of x y t q))) d ≡ (
          if names_us q d.settings
          then none
          else some
              (if q.serial == 0xffffffff then status_broadcast else status_invalid_destination))
  unfolding rejection
  rejection_lem d =
      let p = packet_of x y t q in
      let (shape, right) = packet-verify p (unfold packet_body in omega arith) h.data_fits in
      let us : is_to_us msg d.settings ≡ names_us q d.settings =
        (is_to_us_lem msg d.settings uid_bytes ∙ rw (read_esta, read_serial)) in
      rw (shape, right, us, is_broadcast_lem msg uid_bytes, read_serial)

pub packet-size :
    (x y t : ℕ) (q : Request)
    → IsRequest q
    → length (packet_bytes (packet_of x y t q)) ≡ 26 + length q.param_data
unfolding packet_bytes packet_body
packet-size x y t q h = length-append (packet_body (packet_of x y t q)) _ ∙ omega arith

-- A memory that begins with the packet of a request, as the buffer of the receiver does.
module _ (msg : Memory) (x y t : ℕ) (q : Request) (h : IsRequest q)
    (held : cells msg 0 (length (packet_bytes (packet_of x y t q)))
      ≡ packet_bytes (packet_of x y t q)) where
  abbrev packet : List ℕ
  packet = packet_bytes (packet_of x y t q)

  size : length packet ≡ 26 + length q.param_data
  size = packet-size x y t q h

  pub agree : (i : ℕ) → i < length packet → msg i ≡ mem_of packet i
  agree = cells-mem_of-agree msg packet held

  pub low : 26 ≤ length packet
  low = omega (arith, size)

  pub counted : mem_of packet 2 + 2 ≡ length packet
  counted = omega (
    arith,
    size,
    (let e : mem_of packet 2 ≡ 24 + length q.param_data =
          (unfold packet_bytes packet_body in refl) in
        e),
  )

  pub held-request : request_of msg ≡ q
  held-request =
      let first = at msg (mem_of packet) (length packet) agree low in
      let data_size : mem_of packet 23 ≡ length q.param_data =
        (unfold packet_bytes packet_body in refl) in
      let data_cells : cells msg 24 (msg 23) ≡ cells (mem_of packet) 24 (mem_of packet 23) =
        (ap (cells msg 24) (first 23 (omega arith))
          ∙ cells-agree msg (mem_of packet) (mem_of packet 23) 24 (length packet) agree
              (omega (arith, size, data_size))) in
      let read : request_of msg ≡ request_of (mem_of packet) = (λ j. record {
        esta = first 3 (omega arith) j * 256 + first 4 (omega arith) j;
        serial =
            ((first 5 (omega arith) j * 256 + first 6 (omega arith) j) * 256
                + first 7 (omega arith) j)
              * 256
            + first 8 (omega arith) j;
        command_class = first 20 (omega arith) j;
        sub_number = sub_device-agree msg (mem_of packet) (length packet) agree low j;
        pid = param_id-agree msg (mem_of packet) (length packet) agree low j;
        param_data = data_cells j;
      }) in
      read ∙ reads_back x y t q h

  pub rejection-held :
      {S : Type 0} ⦃e : Eeprom S⦄ (d : Device S)
      → rejection msg (length packet) d ≡ (
          if names_us q d.settings
          then none
          else some
              (if q.serial == 0xffffffff then status_broadcast else status_invalid_destination))
  rejection-held d =
      rejection-agree msg (mem_of packet) (length packet) agree low d counted
      ∙ rejection_lem x y t q h d

  pub held-perform :
      {S : Type 0} ⦃e : Eeprom S⦄ (board : Board) (d : Device S)
      → names_us q d.settings ≡ true
      → handle_rdm_message board msg (length packet) d ≡ perform board msg (decide_request q) d
  held-perform board d ours =
      let mem = mem_of packet in
      let accepted = rejection-held d ∙ rw ours in
      let class_known = is_get_or_set-agree msg mem (length packet) agree low ∙ known x y t q h in
      let decided = decide-agree msg mem (length packet) agree low ∙ read_decision x y t q h in
      handle_rdm_message-perform board msg (length packet) d accepted class_known
      ∙ ap (λ c. perform board msg c d) decided
