-- ===== src/Base/Lists.antt =====
-- Lists measured by native numbers, memory as a function from offsets, and C strings.
use Prim.Native.Nat.{ℕ, zero, suc, ◌+◌, ◌<◌}
use Prim.Native.Char.{code}
use Prim.Native.String.{String}
use mathlib.Core.Path.{◌≡◌, refl, sym, ap, ap₂, ◌∙◌}
use mathlib.Core.List.{List, [], ◌∷◌, ◌++◌, append-nil}
use mathlib.Core.Option.{Option, none, some}
use native.Mathlib.Omega.{arith}

module _ {ℓ} {A : Type ℓ} where
  abbrev pub length : List A → ℕ
  length [] = 0
  length (x ∷ xs) = suc (length xs)

  abbrev pub get_elem? : List A → ℕ → Option A
  get_elem? [] i = none
  get_elem? (x ∷ xs) zero = some x
  get_elem? (x ∷ xs) (suc i) = get_elem? xs i

  abbrev pub take : ℕ → List A → List A
  take zero xs = []
  take (suc n) [] = []
  take (suc n) (x ∷ xs) = x ∷ take n xs

  pub take-nil : (n : ℕ) → take n (let none' : List A = [] in none') ≡ []
  take-nil zero = refl
  take-nil (suc n) = refl

  pub length-append : (xs ys : List A) → length (xs ++ ys) ≡ length xs + length ys
  length-append [] ys = omega arith
  length-append (x ∷ xs) ys = omega (arith, length-append xs ys)

  abbrev pub All {κ} : (A → Type κ) → List A → Type κ
  All P [] = Unit {κ}
  All P (x ∷ xs) = P x × All P xs

  pub All-append {κ} : (P : A → Type κ) (xs ys : List A) → All P xs → All P ys → All P (xs ++ ys)
  All-append P [] ys h k = k
  All-append P (x ∷ xs) ys h k = (h.0, All-append P xs ys h.1 k)

abbrev pub IsByte : ℕ → Type 0
IsByte b = b < 256

abbrev pub AreBytes : List ℕ → Type 0
AreBytes = All IsByte

unfoldable pub sum : List ℕ → ℕ
sum [] = 0
sum (x ∷ xs) = x + sum xs

pub sum-append : (xs ys : List ℕ) → sum (xs ++ ys) ≡ sum xs + sum ys
unfolding sum
sum-append [] ys = omega arith
sum-append (x ∷ xs) ys = omega (arith, sum-append xs ys)

-- The `n` cells of a memory from offset `i` on.
abbrev pub cells : (ℕ → ℕ) → ℕ → ℕ → List ℕ
cells mem i zero = []
cells mem i (suc n) = mem i ∷ cells mem (i + 1) n

pub length-cells : (mem : ℕ → ℕ) (i n : ℕ) → length (cells mem i n) ≡ n
length-cells mem i zero = refl
length-cells mem i (suc n) = ap suc (length-cells mem (i + 1) n)

-- The bytes of an ASCII string literal, without its terminating NUL.
abbrev pub codes : String → List ℕ
codes String.[] = []
codes (String.◌∷◌ c s) = code c ∷ codes s

-- A string literal as an array of chars: `sizeof` counts the NUL.
abbrev pub c_string : String → List ℕ
c_string s = codes s ++ 0 ∷ []

-- An array seen as memory; the arrays are read within their bounds only.
abbrev pub mem_of : List ℕ → ℕ → ℕ
mem_of [] i = 0
mem_of (x ∷ xs) zero = x
mem_of (x ∷ xs) (suc i) = mem_of xs i

pub mem_of-lt : (xs : List ℕ) (i : ℕ) → AreBytes xs → mem_of xs i < 256
mem_of-lt [] i bytes = omega arith
mem_of-lt (x ∷ xs) zero bytes = bytes.0
mem_of-lt (x ∷ xs) (suc i) bytes = mem_of-lt xs i bytes.1

cells_shift :
    (m n : ℕ → ℕ) (i k : ℕ) → ((j : ℕ) → m (suc j) ≡ n j) → cells m (suc i) k ≡ cells n i k
cells_shift m n i zero same = refl
cells_shift m n i (suc k) same =
    let step : suc i + 1 ≡ suc (i + 1) = omega arith in
    ap₂ ◌∷◌ (same i) (rw step (cells_shift m n (i + 1) k same))

-- The cells of an array that is the front of a longer one.
pub cells-mem_of-append : (xs ys : List ℕ) → cells (mem_of (xs ++ ys)) 0 (length xs) ≡ xs
cells-mem_of-append [] ys = refl
cells-mem_of-append (x ∷ xs) ys =
    let one : 0 + 1 ≡ suc 0 = omega arith in
    ap (◌∷◌ x) (
      rw one (
        cells_shift (mem_of (x ∷ (xs ++ ys))) (mem_of (xs ++ ys)) 0 (length xs) (λ j. refl)
        ∙ cells-mem_of-append xs ys))

pub cells-mem_of-middle :
    (xs ys zs : List ℕ) → cells (mem_of (xs ++ ys ++ zs)) (length xs) (length ys) ≡ ys
cells-mem_of-middle [] ys zs = cells-mem_of-append ys zs
cells-mem_of-middle (x ∷ xs) ys zs =
    cells_shift (mem_of (x ∷ (xs ++ ys ++ zs))) (mem_of (xs ++ ys ++ zs)) (length xs) (length ys)
      (λ j. refl)
    ∙ cells-mem_of-middle xs ys zs

pub cells-mem_of : (xs : List ℕ) → cells (mem_of xs) 0 (length xs) ≡ xs
cells-mem_of xs =
    ap (λ ys. cells (mem_of ys) 0 (length xs)) (sym (append-nil xs)) ∙ cells-mem_of-append xs []

pub mem_of-append_right : (xs ys : List ℕ) (i : ℕ) → mem_of (xs ++ ys) (length xs + i) ≡ mem_of ys i
mem_of-append_right [] ys i = ap (mem_of ys) (omega arith)
mem_of-append_right (x ∷ xs) ys i =
    let step : suc (length xs) + i ≡ suc (length xs + i) = omega arith in
    rw step (mem_of-append_right xs ys i)

pub mem_of-append_left :
    (xs ys : List ℕ) (i : ℕ) → i < length xs → mem_of (xs ++ ys) i ≡ mem_of xs i
mem_of-append_left [] ys i h = absurd (omega arith)
mem_of-append_left (x ∷ xs) ys zero h = refl
mem_of-append_left (x ∷ xs) ys (suc i) h = mem_of-append_left xs ys i (omega arith)
