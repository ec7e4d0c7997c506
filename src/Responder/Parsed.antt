-- ===== src/Responder/Parsed.antt =====
-- What the code reads of bytes that are held in memory, against the fields of a packet.
use rgbmixer.Base.{
  ℕ, zero, suc, ◌+◌, ◌-◌, ◌/◌, ◌*◌, ◌%◌, ◌≤◌, ◌<◌, ◌≡◌, ◌∙◌, refl, sym, ap, ap₂, not, List, [], ◌∷◌,
  ◌++◌, leb, sum, length, length-cells, cells, mem_of, mem_of-lt, AreBytes, arith, Bool-cases, inl,
  inr,
}
use rgbmixer.Arduino.{Eeprom}
use rgbmixer.Device.{Device}
use rgbmixer.Rdm.Packet.{int_bytes, long_bytes}
use rgbmixer.Rdm.Sender.{Memory}
use rgbmixer.Rdm.Handlers.Message.{
  checksum_from, is_broadcast, is_malformed, verify_checksum, param_id, sub_device, is_to_us,
}
use rgbmixer.Rdm.Handlers.Message.Addressed.{AreUidBytes, is_broadcast_lem, is_to_us_lem}
use rgbmixer.Rdm.Handlers.Message.Agree.{at, cells-agree, cells-mem, cells-mem_of-agree}
use rgbmixer.Rdm.Handlers.Message.Decide.{decide}
use rgbmixer.Rdm.Handlers.Message.OwnPackets.{checksum_from_lem}
use rgbmixer.Rdm.Handlers.Message.Requests.{decide_request}
use rgbmixer.Responder.{Message, is_named}
use rgbmixer.Responder.View.{view, Holds}
use rgbmixer.Responder.Payload.{int_at, is_packet, sums_up, message_in, IsPayload}

int_bytes_lem : (a b : ℕ) → a < 256 → b < 256 → int_bytes (a * 256 + b) ≡ a ∷ b ∷ []
int_bytes_lem a b ha hb =
    let high : (a * 256 + b) / 256 % 256 ≡ a = omega arith in
    let low : (a * 256 + b) % 256 ≡ b = omega arith in rw (high, low) refl

long_bytes_lem :
    (a b c d : ℕ)
    → a < 256
    → b < 256
    → c < 256
    → d < 256
    → long_bytes (((a * 256 + b) * 256 + c) * 256 + d) ≡ a ∷ b ∷ c ∷ d ∷ []
long_bytes_lem a b c d ha hb hc hd =
    let l = ((a * 256 + b) * 256 + c) * 256 + d in
    let first : l / 65536 / 256 % 256 ≡ a = omega arith in
    let second : l / 65536 % 256 ≡ b = omega arith in
    let third : l / 256 % 256 ≡ c = omega arith in
    let fourth : l % 256 ≡ d = omega arith in rw (first, second, third, fourth) refl

cells-AreBytes : (mem : Memory) → ((i : ℕ) → mem i < 256) → (i n : ℕ) → AreBytes (cells mem i n)
cells-AreBytes mem below i zero = tt
cells-AreBytes mem below i (suc n) = (below i, cells-AreBytes mem below (i + 1) n)

module _ (msg : Memory) (bytes : List ℕ) (h : IsPayload bytes)
    (held : cells msg 0 (length bytes) ≡ bytes) where
  abbrev pub mem : Memory
  mem = mem_of bytes

  abbrev pub n : ℕ
  n = length bytes

  abbrev pub m : Message
  m = message_in bytes

  agrees : (i : ℕ) → i < n → msg i ≡ mem i
  agrees = cells-mem_of-agree msg bytes held

  below : (i : ℕ) → mem i < 256
  below i = mem_of-lt bytes i h.are_bytes

  pub is_malformed_lem : is_malformed msg n ≡ not (is_packet bytes)
  unfolding is_malformed
  is_malformed_lem = elim (Bool-cases (leb 26 n)) [
    | inl large ↦
        let big : 26 ≤ n = ground (arith, large) in
        rw (agrees 0 (omega arith), agrees 1 (omega arith), agrees 2 (omega arith))
          (ground (arith, big, h.held))
    | inr small ↦ ground (arith, small, h.held)
  ]

  module _ (large : 26 ≤ n) where
    pub first : (i : ℕ) → i < 26 → msg i ≡ mem i
    first = at msg mem n agrees large

    pub verify_checksum_lem : mem 2 + 2 ≡ n → verify_checksum msg n ≡ sums_up bytes
    unfolding verify_checksum
    verify_checksum_lem counted =
        let behind : msg 2 ≡ n - 2 = (first 2 (omega arith) ∙ omega arith) in
        let next : n - 2 + 1 ≡ n - 1 = omega arith in
        let total : checksum_from msg (n - 2) 0 0 ≡ sum (cells mem 0 (n - 2)) % 65536 =
          (checksum_from_lem msg (n - 2) 0 0 (omega arith)
            ∙ omega arith
            ∙ ap (λ xs. sum xs % 65536) (cells-agree msg mem (n - 2) 0 n agrees (omega arith))) in
        rw (total, behind, agrees (n - 2) (omega arith), agrees (n - 2 + 1) (omega arith))
          (ground (arith, below (n - 2), below (n - 2 + 1)))

    uid_bytes : AreUidBytes msg
    uid_bytes = (
      rw (first 3 (omega arith)) (below 3),
      rw (first 4 (omega arith)) (below 4),
      rw (first 5 (omega arith)) (below 5),
      rw (first 6 (omega arith)) (below 6),
      rw (first 7 (omega arith)) (below 7),
      rw (first 8 (omega arith)) (below 8),
    )

    data_held : 24 + mem 23 ≤ n
    data_held = omega (arith, h.whole large)

    pid_lem : param_id msg ≡ int_at bytes 21
    unfolding param_id
    pid_lem =
        rw (first 21 (omega arith), first 22 (omega arith)) (omega (arith, below 21, below 22))

    sub_lem : sub_device msg ≡ int_at bytes 18
    unfolding sub_device
    sub_lem =
        rw (first 18 (omega arith), first 19 (omega arith)) (omega (arith, below 18, below 19))

    -- The handlers read the fields of the message.
    pub holds : Holds msg m
    unfolding is_broadcast
    holds = record {
      command_class = first 20 (omega arith);
      pid = (unfold param_id in pid_lem);
      to_all =
          is_broadcast_lem msg uid_bytes
          ∙ rw
              (
                first 5 (omega arith),
                first 6 (omega arith),
                first 7 (omega arith),
                first 8 (omega arith),
              )
              refl;
      size = first 23 (omega arith) ∙ sym (length-cells mem 24 (mem 23));
      bytes = λ i inside.
          let size : length (cells mem 24 (mem 23)) ≡ mem 23 = length-cells mem 24 (mem 23) in
          agrees (24 + i) (omega (arith, data_held))
          ∙ cells-mem mem (cells mem 24 (mem 23)) 24 i (ap (cells mem 24) size) inside;
      source =
          cells-agree msg mem 6 9 n agrees (omega arith)
          ∙ sym (
              ap₂ ◌++◌ (int_bytes_lem (mem 9) (mem 10) (below 9) (below 10)) (
                long_bytes_lem (mem 11) (mem 12) (mem 13) (mem 14) (below 11) (below 12) (below 13)
                  (below 14)));
      transaction = first 15 (omega arith);
      sub_number =
          cells-agree msg mem 2 18 n agrees (omega arith)
          ∙ sym (int_bytes_lem (mem 18) (mem 19) (below 18) (below 19));
      are_bytes = cells-AreBytes mem below 24 (mem 23);
    }

    pub decide_lem : decide msg ≡ decide_request m.request
    decide_lem = rw (holds.to_all, holds.command_class, holds.size, pid_lem, sub_lem) refl

    pub addressed_lem :
        {S : Type 0} ⦃e : Eeprom S⦄ (d : Device S)
        → is_to_us msg d.settings ≡ is_named m.request (view d)
    addressed_lem d =
        is_to_us_lem msg d.settings uid_bytes
        ∙ rw
            (
              first 3 (omega arith),
              first 4 (omega arith),
              first 5 (omega arith),
              first 6 (omega arith),
              first 7 (omega arith),
              first 8 (omega arith),
            )
            refl
