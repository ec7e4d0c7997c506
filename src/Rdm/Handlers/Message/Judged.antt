-- ===== src/Rdm/Handlers/Message/Judged.antt =====
-- HandleRDMMessage of RDMHandlers.cpp against what a message is by the rules of the protocol.
use rgbmixer.Base.{
  ℕ, ◌+◌, ◌-◌, ◌*◌, ◌%◌, ◌<◌, ◌≡◌, ◌⊎◌, ◌∙◌, refl, ap₂, Bool, true, not, ◌&&◌, ◌||◌, Option, none,
  some, ◌==◌, leb, if◌then◌else◌, sum, cells, arith, Bool-cases, inl, inr,
}
use rgbmixer.Arduino.{Eeprom}
use rgbmixer.Settings.{esta_id, serial_number}
use rgbmixer.Device.{Device}
use rgbmixer.UsbPro.Sender.{put_frame}
use rgbmixer.Rdm.Enums.{
  StatusCode, status_broadcast, status_failed, status_failed_checksum, status_invalid_destination,
}
use rgbmixer.Rdm.Sender.{Memory}
use rgbmixer.Rdm.Reply.{status_frame}
use rgbmixer.Rdm.Answer.{nacks, deliver, unless_broadcast}
use rgbmixer.Rdm.Handlers.Tables.{Board}
use rgbmixer.Rdm.Handlers.Get.Answers.{get_answer, after_get}
use rgbmixer.Rdm.Handlers.Set.Answers.{set_check, set_outcome}
use rgbmixer.Rdm.Handlers.Message.{
  checksum_from, is_malformed, verify_checksum, is_broadcast, is_get_or_set, sub_device, param_id,
  handle_rdm_message,
}
use rgbmixer.Rdm.Handlers.Message.Addressed.{
  AreUidBytes, destination_esta, destination_serial, is_broadcast_lem, is_to_us_lem,
}
use rgbmixer.Rdm.Handlers.Message.OwnPackets.{checksum_from_lem}
use rgbmixer.Rdm.Handlers.Message.Rejected.{rejection, handle_rdm_message-rejected}
use rgbmixer.Rdm.Handlers.Message.Decide.{
  Decision, refuses, reads, writes, decide, decide_fields, perform, handle_rdm_message-perform,
}

-- A packet has at least 26 bytes, the two start codes, and the number of bytes before its checksum.
abbrev pub has_shape : Memory → ℕ → Bool
has_shape msg size = leb 26 size && (msg 0 == 0xcc && (msg 1 == 0x01 && msg 2 + 2 == size))

-- The last two bytes are the sum of those before, the high one first.
abbrev pub has_sum : Memory → ℕ → Bool
has_sum msg size = sum (cells msg 0 (size - 2)) % 65536 == msg (size - 2) * 256 + msg (size - 1)

module _ {S : Type 0} ⦃e : Eeprom S⦄ where
  -- It names the device, all devices of its manufacturer, or all devices.
  abbrev pub names : Memory → Device S → Bool
  names msg d =
      destination_esta msg == esta_id d.settings
        && (destination_serial msg == serial_number d.settings
            || destination_serial msg == 0xffffffff)
      || (destination_esta msg == 0xffff && destination_serial msg == 0xffffffff)

  -- What is wrong with a message, if anything.
  abbrev pub fault : Memory → ℕ → Device S → Option StatusCode
  fault msg size d =
      if not (has_shape msg size)
      then some status_failed
      else if not (has_sum msg size)
      then some status_failed_checksum
      else if names msg d
      then none
      else some (
          if destination_serial msg == 0xffffffff
          then status_broadcast
          else status_invalid_destination)

module _ (msg : Memory) (size : ℕ) (bytes : (i : ℕ) → msg i < 256) (small : size < 32768) where
  is_malformed_lem : is_malformed msg size ≡ not (has_shape msg size)
  unfolding is_malformed
  is_malformed_lem = elim (Bool-cases (leb 26 size)) [
    | inl large ↦ ground (arith, large, small)
    | inr short ↦ ground (arith, short, small)
  ]

  verify_checksum_lem : has_shape msg size ≡ true → verify_checksum msg size ≡ has_sum msg size
  unfolding verify_checksum
  verify_checksum_lem shape =
      let behind : msg 2 ≡ size - 2 = ground (arith, shape) in
      let last : size - 2 + 1 ≡ size - 1 = ground (arith, shape) in
      let total : checksum_from msg (size - 2) 0 0 ≡ sum (cells msg 0 (size - 2)) % 65536 =
        (checksum_from_lem msg (size - 2) 0 0 (omega arith) ∙ omega arith) in
      rw (total, behind, last) (ground (arith, bytes (size - 2), bytes (size - 1)))

  fault_lem : {S : Type 0} ⦃e : Eeprom S⦄ (d : Device S) → rejection msg size d ≡ fault msg size d
  unfolding rejection
  fault_lem d =
      let uid : AreUidBytes msg = (bytes 3, bytes 4, bytes 5, bytes 6, bytes 7, bytes 8) in
      elim (Bool-cases (has_shape msg size)) [
        | inr other ↦ rw (is_malformed_lem, other) refl
        | inl shape ↦
            rw
              (
                is_malformed_lem,
                verify_checksum_lem shape,
                is_to_us_lem msg d.settings uid,
                is_broadcast_lem msg uid,
              )
              refl
      ]

  broadcast_lem : is_broadcast msg ≡ (destination_serial msg == 0xffffffff)
  broadcast_lem = is_broadcast_lem msg (bytes 3, bytes 4, bytes 5, bytes 6, bytes 7, bytes 8)

  sub_device_lem : sub_device msg ≡ msg 18 * 256 + msg 19
  unfolding sub_device
  sub_device_lem = omega (arith, bytes 18, bytes 19)

  param_id_lem : param_id msg ≡ msg 21 * 256 + msg 22
  unfolding param_id
  param_id_lem = omega (arith, bytes 21, bytes 22)

-- What is to be done with a message, by its fields.
abbrev pub decide_by : Memory → Decision
decide_by msg =
    decide_fields (destination_serial msg == 0xffffffff) (msg 18 * 256 + msg 19) (msg 20)
      (msg 21 * 256 + msg 22) (msg 23)

module _ {S : Type 0} ⦃e : Eeprom S⦄ where
  -- What a device does then, for a message to it alone or to all.
  unfoldable pub carry : Board → Memory → Bool → Decision → Device S → Device S
  carry board msg to_all (refuses reason) d =
      deliver msg (unless_broadcast to_all (nacks msg reason)) d
  carry board msg to_all (reads h) d = deliver msg (get_answer board h msg d) (after_get h msg d)
  carry board msg to_all (writes h) d = set_outcome board h to_all msg (set_check h msg) d

  perform-carry :
      (board : Board) (msg : Memory) (c : Decision) (d : Device S)
      → perform board msg c d ≡ carry board msg (is_broadcast msg) c d
  unfolding perform carry
  perform-carry board msg (refuses reason) d = refl
  perform-carry board msg (reads h) d = refl
  perform-carry board msg (writes h) d = refl

-- A message of bytes that has not the shape of a packet (at least 26 bytes, the two start codes, its
-- length byte two less than its size), or whose last two bytes are not the sum of the others, or that
-- names neither the device nor all devices of its manufacturer nor all devices, is answered by the
-- frame of the status for the first of these, and changes nothing else: no setting, no pin, no
-- queue and no checksum in progress. The size is below 32768.
pub handle_rdm_message-fault :
    {S : Type 0} ⦃e : Eeprom S⦄ (board : Board) (msg : Memory) (size : ℕ) (d : Device S)
    (c : StatusCode)
    → ((i : ℕ) → msg i < 256)
    → size < 32768
    → fault msg size d ≡ some c
    → handle_rdm_message board msg size d ≡ put_frame (status_frame c) d
handle_rdm_message-fault board msg size d c bytes small wrong =
    handle_rdm_message-rejected board msg size d c (fault_lem msg size bytes small d ∙ wrong)

-- A GET or SET of bytes, with a size below 32768, that has the shape of a packet and its sum and names
-- the device, its manufacturer at large or all devices, is carried out as the decision on its fields
-- says: by the handler for its parameter in a list of the parameters apart from the table of the
-- code, or by a refusal with the reason; a refused broadcast is answered by a status alone.
pub handle_rdm_message-decide_by :
    {S : Type 0} ⦃e : Eeprom S⦄ (board : Board) (msg : Memory) (size : ℕ) (d : Device S)
    → ((i : ℕ) → msg i < 256)
    → size < 32768
    → fault msg size d ≡ none
    → (msg 20 ≡ 0x20) ⊎ (msg 20 ≡ 0x30)
    → handle_rdm_message board msg size d
      ≡ carry board msg (destination_serial msg == 0xffffffff) (decide_by msg) d
handle_rdm_message-decide_by board msg size d bytes small right known =
    let class_known : is_get_or_set msg ≡ true = (unfold is_get_or_set in ground (arith, known)) in
    let to_all = broadcast_lem msg size bytes small in
    let decided : decide msg ≡ decide_by msg =
      rw (to_all, sub_device_lem msg size bytes small, param_id_lem msg size bytes small) refl in
    handle_rdm_message-perform board msg size d (fault_lem msg size bytes small d ∙ right)
      class_known
    ∙ perform-carry board msg (decide msg) d
    ∙ ap₂ (λ b c. carry board msg b c d) to_all decided
