-- ===== src/Rdm/Handlers/Message/Corrupt.antt =====
-- VerifyChecksum of RDMHandlers.cpp on a packet with one byte changed.
use rgbmixer.Base.{
  ℕ, zero, suc, ◌+◌, ◌-◌, ◌*◌, ◌%◌, ◌≤◌, ◌<◌, ◌≡◌, ◌≢◌, refl, ap, true, false, sum, cells, ◌==◌,
  if◌then◌else◌, ==→eq, ne→==, arith, Bool-cases, inl, inr,
}
use rgbmixer.Rdm.Sender.{Memory}
use rgbmixer.Rdm.Handlers.Message.{verify_checksum}
use rgbmixer.Rdm.Handlers.Message.OwnPackets.{checksum_from_lem}

-- A message with another byte at one offset.
abbrev pub corrupt : Memory → ℕ → ℕ → Memory
corrupt msg offset value i = if i == offset then value else msg i

cells_above :
    (msg : Memory) (offset value n k : ℕ)
    → offset < k
    → sum (cells (corrupt msg offset value) k n) ≡ sum (cells msg k n)
unfolding sum
cells_above msg offset value zero k low = refl
cells_above msg offset value (suc n) k low =
    rw (ne→== k offset (omega arith))
      (ap (◌+◌ (msg k)) (cells_above msg offset value n (k + 1) (omega arith)))

cells-corrupt :
    (msg : Memory) (offset value n k : ℕ)
    → k ≤ offset
    → offset < k + n
    → sum (cells (corrupt msg offset value) k n) + msg offset ≡ sum (cells msg k n) + value
unfolding sum
cells-corrupt msg offset value zero k low high = absurd (omega arith)
cells-corrupt msg offset value (suc n) k low high = elim (Bool-cases (k == offset)) [
  | inl here ↦
      let same : k ≡ offset = ==→eq k offset here in
      let at : msg k ≡ msg offset = ap msg same in
      rw here (omega (arith, at, cells_above msg offset value n (k + 1) (omega arith)))
  | inr before ↦ rw before (
      omega
        (arith, cells-corrupt msg offset value n (k + 1) (ground (arith, before)) (omega arith)))
]

-- A sum that the test accepts is the one that stands behind the data.
pub accepted :
    (msg : Memory) (size : ℕ)
    → verify_checksum msg size ≡ true
    → sum (cells msg 0 (size - 2)) % 65536 ≡ msg (msg 2) * 256 + msg (msg 2 + 1)
unfolding verify_checksum
accepted msg size ok =
    let total = checksum_from_lem msg (size - 2) 0 0 (omega arith) in ground (arith, ok, total)

-- A packet that passes the test, and whose length byte is that of its size, does not pass it after
-- any one byte of its data, other than the length byte, was changed to another one.
pub verify_checksum-corrupt :
    (msg : Memory) (size offset value : ℕ)
    → msg 2 ≡ size - 2
    → offset < size - 2
    → offset ≢ 2
    → msg offset < 256
    → value < 256
    → value ≢ msg offset
    → verify_checksum msg size ≡ true
    → verify_checksum (corrupt msg offset value) size ≡ false
verify_checksum-corrupt msg size offset value counted inside other old new changed ok =
    elim (Bool-cases (verify_checksum (corrupt msg offset value) size)) [
      | inr rejected ↦ rejected
      | inl passed ↦
          let length_kept : corrupt msg offset value 2 ≡ msg 2 =
            rw (ne→== 2 offset (omega arith)) in
          let high : corrupt msg offset value (msg 2) ≡ msg (msg 2) =
            rw (ne→== (msg 2) offset (omega arith)) in
          let low : corrupt msg offset value (msg 2 + 1) ≡ msg (msg 2 + 1) =
            rw (ne→== (msg 2 + 1) offset (omega arith)) in
          let was = accepted msg size ok in
          let is : sum (cells (corrupt msg offset value) 0 (size - 2)) % 65536
              ≡ msg (msg 2) * 256 + msg (msg 2 + 1) =
            (rw (length_kept, high, low) at (accepted (corrupt msg offset value) size passed)) in
          absurd
            (omega (arith, cells-corrupt msg offset value (size - 2) 0 (omega arith) (omega arith)))
    ]
