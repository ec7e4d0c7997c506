-- ===== src/Rdm/Handlers/Message/Agree.antt =====
-- HandleRDMMessage of RDMHandlers.cpp reads of a message no more than its size, up to the call of a
-- handler: two memories that agree so far.
use rgbmixer.Base.{
  ℕ, zero, suc, ◌+◌, ◌-◌, ◌≤◌, ◌<◌, ◌≡◌, refl, ◌∙◌, ap, ap₂, List, [], ◌∷◌, length, cells, mem_of,
  u16, arith,
}
use rgbmixer.Arduino.{Eeprom}
use rgbmixer.Settings.{Settings, matches_serial_number}
use rgbmixer.Device.{Device}
use rgbmixer.Rdm.Sender.{Memory}
use rgbmixer.Rdm.Handlers.Message.{
  checksum_from, verify_checksum, is_malformed, is_broadcast, is_get_or_set, is_to_us, sub_device,
  param_id,
}
use rgbmixer.Rdm.Handlers.Message.Rejected.{rejection}
use rgbmixer.Rdm.Handlers.Message.Decide.{decide}

-- The cells of a memory that begins with a list.
pub cells-mem :
    (m : Memory) (xs : List ℕ) (o i : ℕ)
    → cells m o (length xs) ≡ xs
    → i < length xs
    → m (o + i) ≡ mem_of xs i
cells-mem m [] o i same inside = absurd (omega arith)
cells-mem m (x ∷ xs) o zero same inside =
    let here : m o ≡ x = cc in let at : o + 0 ≡ o = omega arith in rw at here
cells-mem m (x ∷ xs) o (suc i) same inside =
    let rest : cells m (o + 1) (length xs) ≡ xs = cc in
    let at : o + suc i ≡ o + 1 + i = omega arith in
    rw at (cells-mem m xs (o + 1) i rest (omega arith))

pub cells-mem_of-agree :
    (m : Memory) (xs : List ℕ)
    → cells m 0 (length xs) ≡ xs
    → (i : ℕ) → i < length xs
    → m i ≡ mem_of xs i
cells-mem_of-agree m xs same i inside =
    let start : i ≡ 0 + i = omega arith in ap m start ∙ cells-mem m xs 0 i same inside

pub cells-agree :
    (m m' : Memory) (k o n : ℕ)
    → ((i : ℕ) → i < n → m i ≡ m' i)
    → o + k ≤ n
    → cells m o k ≡ cells m' o k
cells-agree m m' zero o n same fits = refl
cells-agree m m' (suc k) o n same fits =
    ap₂ ◌∷◌ (same o (omega arith)) (cells-agree m m' k (o + 1) n same (omega arith))

module _ (m m' : Memory) (n : ℕ) (same : (i : ℕ) → i < n → m i ≡ m' i) (low : 26 ≤ n) where
  pub at : (i : ℕ) → i < 26 → m i ≡ m' i
  at i first = same i (omega arith)

  checksum-agree :
      (left i c : ℕ) → i + left ≤ n → checksum_from m left i c ≡ checksum_from m' left i c
  unfolding checksum_from
  checksum-agree zero i c fits = refl
  checksum-agree (suc left) i c fits =
      rw (same i (omega arith)) (checksum-agree left (i + 1) (u16 (c + m' i)) (omega arith))

  verify_checksum-agree : m' 2 + 2 ≡ n → verify_checksum m n ≡ verify_checksum m' n
  unfolding verify_checksum
  verify_checksum-agree counted = rw (
    checksum-agree (n - 2) 0 0 (omega arith),
    at 2 (omega arith),
    same (m' 2) (omega arith),
    same (m' 2 + 1) (omega arith),
  )

  is_malformed-agree : is_malformed m n ≡ is_malformed m' n
  unfolding is_malformed
  is_malformed-agree = rw (at 0 (omega arith), at 1 (omega arith), at 2 (omega arith))

  is_broadcast-agree : is_broadcast m ≡ is_broadcast m'
  unfolding is_broadcast
  is_broadcast-agree =
      rw (at 5 (omega arith), at 6 (omega arith), at 7 (omega arith), at 8 (omega arith))

  is_to_us-agree : {S : Type 0} ⦃e : Eeprom S⦄ (s : Settings S) → is_to_us m s ≡ is_to_us m' s
  unfolding is_to_us matches_serial_number
  is_to_us-agree s = rw (
    is_broadcast-agree,
    at 3 (omega arith),
    at 4 (omega arith),
    at 5 (omega arith),
    at 6 (omega arith),
    at 7 (omega arith),
    at 8 (omega arith),
  )

  pub rejection-agree :
      {S : Type 0} ⦃e : Eeprom S⦄ (d : Device S) → m' 2 + 2 ≡ n → rejection m n d ≡ rejection m' n d
  unfolding rejection
  rejection-agree d counted = rw (
    is_malformed-agree,
    verify_checksum-agree counted,
    is_to_us-agree d.settings,
    is_broadcast-agree,
  )

  pub is_get_or_set-agree : is_get_or_set m ≡ is_get_or_set m'
  unfolding is_get_or_set
  is_get_or_set-agree = rw (at 20 (omega arith))

  pub sub_device-agree : sub_device m ≡ sub_device m'
  unfolding sub_device
  sub_device-agree = rw (at 18 (omega arith), at 19 (omega arith))

  pub param_id-agree : param_id m ≡ param_id m'
  unfolding param_id
  param_id-agree = rw (at 21 (omega arith), at 22 (omega arith))

  pub decide-agree : decide m ≡ decide m'
  decide-agree = rw (
    is_broadcast-agree,
    sub_device-agree,
    param_id-agree,
    at 20 (omega arith),
    at 23 (omega arith),
  )
