-- ===== src/Rdm/Packet.antt =====
-- An RDM packet and its bytes, described apart from the code that sends it.
use rgbmixer.Base.{ℕ, ◌+◌, ◌/◌, ◌%◌, List, [], ◌∷◌, ◌++◌, length, sum}

pub record Packet : Type 0 where
  pub destination : List ℕ
  pub source : List ℕ
  pub transaction : ℕ
  pub response_type : ℕ
  pub message_count : ℕ
  pub sub_device : List ℕ
  pub command_class : ℕ
  pub pid : ℕ
  pub param_data : List ℕ

-- The big-endian bytes of an int and of a long.
abbrev pub int_bytes : ℕ → List ℕ
int_bytes i = i / 256 % 256 ∷ i % 256 ∷ []

abbrev pub long_bytes : ℕ → List ℕ
long_bytes l = int_bytes (l / 65536) ++ int_bytes l

-- From the start code to the parameter data; the third byte is the length of all this.
unfoldable pub packet_body : Packet → List ℕ
packet_body p =
    0xcc
    ∷ 0x01
    ∷ (24 + length p.param_data)
    ∷ (p.destination
        ++ p.source
        ++ (p.transaction ∷ p.response_type ∷ p.message_count ∷ [])
        ++ p.sub_device
        ++ (p.command_class ∷ [])
        ++ int_bytes p.pid
        ++ (length p.param_data ∷ [])
        ++ p.param_data)

unfoldable pub packet_bytes : Packet → List ℕ
packet_bytes p = packet_body p ++ int_bytes (sum (packet_body p))
