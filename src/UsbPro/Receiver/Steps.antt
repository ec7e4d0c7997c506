-- ===== src/UsbPro/Receiver/Steps.antt =====
-- Read of UsbProReceiver.cpp on the bytes of a frame, one by one and run by run.
use rgbmixer.Base.{
  ℕ, suc, ◌+◌, ◌%◌, ◌≤◌, ◌<◌, ◌≡◌, refl, ◌∙◌, ap₂, List, [], ◌∷◌, ◌++◌, map, none, ltb, length,
  cells, arith, lt→ltb, ltb→lt, eq→==, ne→==, Bool-cases, inl, inr,
}
use rgbmixer.UsbPro.Receiver.{
  ReceivingState, in_data, waiting_for_eom, Receiver, waits, calls, overrun, store, store_data,
  dispatch, receive, Event, byte, act, round, read, message_capacity,
}

abbrev pub receiver : ReceivingState → ℕ → ℕ → ℕ → (ℕ → ℕ) → Receiver
receiver mode label size offset memory = record {
  recv_mode = mode;
  label = label;
  expected_size = size;
  data_offset = offset;
  message = memory;
}

-- The memory after bytes were stored from offset `k` on.
unfoldable pub fill : (ℕ → ℕ) → ℕ → List ℕ → ℕ → ℕ
fill m k [] = m
fill m k (x ∷ xs) = fill (store m k x) (k + 1) xs

fill_below : (m : ℕ → ℕ) (k : ℕ) (xs : List ℕ) (i : ℕ) → i < k → fill m k xs i ≡ m i
unfolding fill
fill_below m k [] i h = refl
fill_below m k (x ∷ xs) i h =
    fill_below (store m k x) (k + 1) xs i (omega arith) ∙ rw (ne→== i k (omega arith))

pub cells-fill : (m : ℕ → ℕ) (k : ℕ) (xs : List ℕ) → cells (fill m k xs) k (length xs) ≡ xs
unfolding fill
cells-fill m k [] = refl
cells-fill m k (x ∷ xs) =
    ap₂ ◌∷◌ (fill_below (store m k x) (k + 1) xs k (omega arith) ∙ rw (eq→== k k refl))
      (cells-fill (store m k x) (k + 1) xs)

module _ (label size k : ℕ) (m : ℕ → ℕ) (x : ℕ) where
  step_more :
      k + 1 < size
      → k < message_capacity
      → receive (receiver in_data label size k m) x
        ≡ waits (receiver in_data label size (k + 1) (store m k x))
  unfolding receive dispatch store_data
  step_more more room =
      let small : (k + 1) % 65536 ≡ k + 1 = omega arith in
      rw (lt→ltb k 600 room, small, ne→== (k + 1) size (omega arith))

  step_last :
      k + 1 ≡ size
      → k < message_capacity
      → receive (receiver in_data label size k m) x
        ≡ waits (receiver waiting_for_eom label size size (store m k x))
  unfolding receive dispatch store_data
  step_last last room =
      let small : (k + 1) % 65536 ≡ size = omega arith in
      rw (lt→ltb k 600 room, small, eq→== size size refl)

  step_over : message_capacity ≤ k → receive (receiver in_data label size k m) x ≡ overrun
  unfolding receive dispatch store_data
  step_over full = ground arith

module _ {B D : Type 0} (callback : B → ℕ → (ℕ → ℕ) → ℕ → D → D) (idle_callback : D → D) where
  pub read_waits :
      (b : B) (x : ℕ) (rest : List (Event B)) (r r' : Receiver) (d : D)
      → receive r x ≡ waits r'
      → read callback idle_callback (byte b x ∷ rest) r d ≡ read callback idle_callback rest r' d
  unfolding read round act
  read_waits b x rest r r' d e = rw (e, read)

  pub read_calls :
      (b : B) (x label size : ℕ) (m : ℕ → ℕ) (rest : List (Event B)) (r r' : Receiver) (d : D)
      → receive r x ≡ calls label m size r'
      → read callback idle_callback (byte b x ∷ rest) r d
        ≡ read callback idle_callback rest r' (callback b label m size d)
  unfolding read round act
  read_calls b x label size m rest r r' d e = rw (e, read)

  read_overrun :
      (b : B) (x : ℕ) (rest : List (Event B)) (r : Receiver) (d : D)
      → receive r x ≡ overrun
      → read callback idle_callback (byte b x ∷ rest) r d ≡ none
  unfolding read round act
  read_overrun b x rest r d e = rw (e, read)

  -- All the data of a message that fits the buffer.
  pub read_data :
      (b : B) (label size k : ℕ) (m : ℕ → ℕ) (x : ℕ) (xs : List ℕ) (rest : List (Event B)) (d : D)
      → k + suc (length xs) ≡ size
      → size ≤ message_capacity
      → read callback idle_callback
          (map (byte b) (x ∷ xs) ++ rest)
          (receiver in_data label size k m)
          d
        ≡ read callback idle_callback rest
            (receiver waiting_for_eom label size size (fill m k (x ∷ xs)))
            d
  unfolding fill
  read_data b label size k m x [] rest d counted fits =
      read_waits b x _ _ _ d (step_last label size k m x (omega arith) (omega arith))
  read_data b label size k m x (y ∷ ys) rest d counted fits =
      read_waits b x _ _ _ d (step_more label size k m x (omega arith) (omega arith))
      ∙ read_data b label size (k + 1) (store m k x) y ys rest d (omega arith) fits

  -- The data of a message that does not fit.
  pub read_data_over :
      (b : B) (label size k : ℕ) (m : ℕ → ℕ) (xs : List ℕ) (rest : List (Event B)) (d : D)
      → k + length xs ≡ size
      → k ≤ message_capacity
      → message_capacity < size
      → read callback idle_callback (map (byte b) xs ++ rest) (receiver in_data label size k m) d
        ≡ none
  read_data_over b label size k m [] rest d counted low over = absurd (omega arith)
  read_data_over b label size k m (x ∷ xs) rest d counted low over =
      elim (Bool-cases (ltb k message_capacity)) [
        | inl room ↦
            read_waits b x _ _ _ d
              (step_more label size k m x (omega (arith, ltb→lt k 600 room)) (ltb→lt k 600 room))
            ∙ read_data_over b label size (k + 1) (store m k x) xs rest d (omega arith)
                (omega (arith, ltb→lt k 600 room)) over
        | inr full ↦ read_overrun b x _ _ d (step_over label size k m x (ground (arith, full)))
      ]
