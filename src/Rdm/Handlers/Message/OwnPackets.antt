-- ===== src/Rdm/Handlers/Message/OwnPackets.antt =====
-- The packets of RDMSender under the checks of HandleRDMMessage.
use rgbmixer.Base.{
  ℕ, zero, suc, ◌+◌, ◌-◌, ◌/◌, ◌%◌, ◌≤◌, ◌<◌, ◌≡◌, refl, true, false, List, ◌++◌, length,
  length-append, sum, cells, mem_of, cells-mem_of-append, mem_of-append_left, mem_of-append_right,
  arith, ◌∙◌, ap, u16,
}
use rgbmixer.Arduino.{Eeprom}
use rgbmixer.Device.{Device}
use rgbmixer.Rdm.Enums.{ResponseType}
use rgbmixer.Rdm.Packet.{Packet, packet_body, packet_bytes, int_bytes}
use rgbmixer.Rdm.Sender.{Memory}
use rgbmixer.Rdm.Reply.{reply_packet}
use rgbmixer.Rdm.Handlers.Message.{checksum_from, verify_checksum, is_malformed}

-- The loop adds up the cells.
pub checksum_from_lem :
    (m : Memory) (n i c : ℕ) → c < 65536 → checksum_from m n i c ≡ (c + sum (cells m i n)) % 65536
unfolding checksum_from sum
checksum_from_lem m zero i c h = omega arith
checksum_from_lem m (suc n) i c h =
    omega (arith, checksum_from_lem m n (i + 1) (u16 (c + m i)) (omega arith))

module _ (body : List ℕ) (counted : mem_of body 2 ≡ length body) (long : 2 < length body) where
  -- Such a list with its sum behind it passes the test of the checksum.
  body-verify : verify_checksum (mem_of (body ++ int_bytes (sum body))) (length body + 2) ≡ true
  unfolding verify_checksum
  body-verify =
      let m = mem_of (body ++ int_bytes (sum body)) in
      let upto : length body + 2 - 2 ≡ length body = omega arith in
      let summed : checksum_from m (length body) 0 0 ≡ sum body % 65536 =
        (checksum_from_lem m (length body) 0 0 (omega arith)
          ∙ ap (λ bytes. (0 + sum bytes) % 65536) (cells-mem_of-append body (int_bytes (sum body)))
          ∙ omega arith) in
      let offset : m 2 ≡ length body =
        (mem_of-append_left body (int_bytes (sum body)) 2 long ∙ counted) in
      let at0 : length body ≡ length body + 0 = omega arith in
      let upper : m (length body) ≡ sum body / 256 % 256 =
        (ap m at0 ∙ mem_of-append_right body (int_bytes (sum body)) 0) in
      let lower : m (length body + 1) ≡ sum body % 256 =
        mem_of-append_right body (int_bytes (sum body)) 1 in
      let total = sum body in
      let high : total % 65536 / 256 ≡ total / 256 % 256 = omega arith in
      let low : total % 65536 % 256 ≡ total % 256 = omega arith in
      rw (upto, summed, offset, upper, lower) (ground (arith, high, low))

formed :
    (m : Memory) (n : ℕ)
    → m 0 ≡ 0xcc
    → m 1 ≡ 1
    → m 2 + 2 ≡ n
    → 26 ≤ n
    → n < 32768
    → is_malformed m n ≡ false
unfolding is_malformed
formed m n e0 e1 e2 low high = ground arith

pub packet-verify :
    (p : Packet)
    → length (packet_body p) ≡ 24 + length p.param_data
    → length p.param_data ≤ 231
    → let bytes = packet_bytes p in
      (is_malformed (mem_of bytes) (length bytes) ≡ false)
      × (verify_checksum (mem_of bytes) (length bytes) ≡ true)
unfolding packet_bytes packet_body
packet-verify p whole fits =
    let size : length (packet_bytes p) ≡ length (packet_body p) + 2 =
      length-append (packet_body p) (int_bytes (sum (packet_body p))) in
    (
      formed _ _ refl refl (omega (arith, size, whole)) (omega (arith, size, whole))
          (omega (arith, size, whole)),
      rw size (body-verify (packet_body p) (omega (arith, whole)) (omega (arith, whole))),
    )

-- Every packet that the responder sends, with at most 231 bytes of parameter data, is well formed by
-- its own checks: the start codes, the length byte against the size, and the checksum.
pub reply_packet-verify :
    {S : Type 0} ⦃e : Eeprom S⦄ (msg : Memory) (rt : ResponseType) (command_class pid : ℕ)
    (param_data : List ℕ) (d : Device S)
    → length param_data ≤ 231
    → let bytes = packet_bytes (reply_packet msg rt command_class pid param_data d) in
      (is_malformed (mem_of bytes) (length bytes) ≡ false)
      × (verify_checksum (mem_of bytes) (length bytes) ≡ true)
unfolding packet_body
reply_packet-verify msg rt command_class pid param_data d fits =
    packet-verify (reply_packet msg rt command_class pid param_data d) (omega arith) fits
