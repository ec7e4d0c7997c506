-- ===== src/Responder/Payload.antt =====
-- What the responder does with any bytes that come in a frame for RDM.
use rgbmixer.Base.{
  ap, ℕ, ◌+◌, ◌-◌, ◌*◌, ◌%◌, ◌≤◌, ◌≡◌, Bool, not, ◌&&◌, ◌||◌, List, [], ◌∷◌, Option, none, some,
  ◌==◌, leb, if◌then◌else◌, sum, length, cells, mem_of, AreBytes,
}
use rgbmixer.UsbPro.Frame.{Frame}
use rgbmixer.UsbPro.Receiver.{message_capacity}
use rgbmixer.Rdm.Enums.{
  StatusCode, status_failed, status_failed_checksum, status_invalid_command, get_command,
  set_command,
}
use rgbmixer.Rdm.Reply.{status_frame}
use rgbmixer.Rdm.Handlers.Tables.{Board}
use rgbmixer.Responder.{Responder, Message, is_named}
use rgbmixer.Responder.Service.{serve}

-- Two bytes and four bytes of them as a number.
abbrev pub int_at : List ℕ → ℕ → ℕ
int_at bytes i = mem_of bytes i * 256 + mem_of bytes (i + 1)

abbrev pub long_at : List ℕ → ℕ → ℕ
long_at bytes i =
    ((mem_of bytes i * 256 + mem_of bytes (i + 1)) * 256 + mem_of bytes (i + 2)) * 256
    + mem_of bytes (i + 3)

abbrev pub is_packet : List ℕ → Bool
is_packet bytes =
    leb 26 (length bytes)
    && (mem_of bytes 0 == 0xcc && (mem_of bytes 1 == 0x01 && mem_of bytes 2 + 2 == length bytes))

-- The two bytes behind the packet are the sum of those before.
abbrev pub sums_up : List ℕ → Bool
sums_up bytes =
    sum (cells (mem_of bytes) 0 (length bytes - 2)) % 65536 == int_at bytes (length bytes - 2)

unfoldable pub complaint : List ℕ → Option StatusCode
complaint bytes =
    if not (is_packet bytes)
    then some status_failed
    else if not (sums_up bytes)
    then some status_failed_checksum
    else none

-- The fields of a packet.
abbrev pub message_in : List ℕ → Message
message_in bytes = record {
  host_esta = int_at bytes 9;
  host_serial = long_at bytes 11;
  transaction = mem_of bytes 15;
  request = record {
    esta = int_at bytes 3;
    serial = long_at bytes 5;
    command_class = mem_of bytes 20;
    sub_number = int_at bytes 18;
    pid = int_at bytes 21;
    param_data = cells (mem_of bytes) 24 (mem_of bytes 23);
  };
}

abbrev pub is_known_class : Message → Bool
is_known_class m = m.request.command_class == get_command || m.request.command_class == set_command

-- A class that is neither GET nor SET is reported by a status first, and then served as a SET.
abbrev pub reports : Message → Responder → List Frame → List Frame
reports m v frames =
    if is_named m.request v && not (is_known_class m)
    then status_frame status_invalid_command ∷ frames
    else frames

unfoldable pub hear : Board → List ℕ → Responder → Responder × List Frame
unfolding complaint serve
hear board bytes v = elim (complaint bytes) [
  | some c ↦ (v, status_frame c ∷ [])
  | none ↦ let m = message_in bytes in let (v', f) = serve board m v in (v', reports m v (f ∷ []))
]

pub hear-some :
    (board : Board) (bytes : List ℕ) (v : Responder) (c : StatusCode)
    → complaint bytes ≡ some c
    → hear board bytes v ≡ (v, status_frame c ∷ [])
unfolding hear
hear-some board bytes v c e =
    ap
      (λ (o : Option StatusCode). elim o [
        | some c ↦ (v, status_frame c ∷ [])
        | none ↦
            let m = message_in bytes in let (v', f) = serve board m v in (v', reports m v (f ∷ []))
      ])
      e

pub hear-none :
    (board : Board) (bytes : List ℕ) (v : Responder)
    → complaint bytes ≡ none
    → let m = message_in bytes in
      let (v', f) = serve board m v in hear board bytes v ≡ (v', reports m v (f ∷ []))
unfolding hear
hear-none board bytes v e =
    ap
      (λ (o : Option StatusCode). elim o [
        | some c ↦ (v, status_frame c ∷ [])
        | none ↦
            let m = message_in bytes in let (v', f) = serve board m v in (v', reports m v (f ∷ []))
      ])
      e

-- Bytes that the buffer holds, with as much data as their data size byte says.
pub record IsPayload (bytes : List ℕ) : Type 0 where
  pub held : length bytes ≤ message_capacity
  pub are_bytes : AreBytes bytes
  pub whole : 26 ≤ length bytes → 26 + mem_of bytes 23 ≤ length bytes
