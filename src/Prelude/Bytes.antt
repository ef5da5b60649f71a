-- ===== src/Prelude/Bytes.antt =====
-- Bytes of little-endian words, as `memcpy` between a word and a byte buffer moves them.
use pcie_systemc_linux.Prelude.Lists.{length, get_or, take, drop, replicate, tabulate_from}
use Prim.Native.Nat.{ℕ, zero, suc, ◌+◌, ◌*◌, ◌/◌, ◌%◌, ◌^◌, ◌<◌}
use mathlib.Core.Path.{◌≡◌, refl, ap, ap₂, ◌∙◌}
use mathlib.Core.List.{List, [], ◌∷◌, ◌++◌, map}
use native.Mathlib.Omega.{arith}

-- The low `n` bytes of a word, the lowest first.
abbrev pub le_bytes : ℕ → ℕ → List ℕ
le_bytes zero v = []
le_bytes (suc n) v = v % 256 ∷ le_bytes n (v / 256)

-- The word that a run of bytes holds.
abbrev pub from_le : List ℕ → ℕ
from_le [] = 0
from_le (b ∷ bs) = b + 256 * from_le bs

abbrev pub AllBytes : List ℕ → Type 0
AllBytes [] = Unit {0}
AllBytes (b ∷ bs) = (b < 256) × AllBytes bs

pub length-le_bytes : (n v : ℕ) → length (le_bytes n v) ≡ n
length-le_bytes zero v = refl
length-le_bytes (suc n) v = ap suc (length-le_bytes n (v / 256))

pub le_bytes-AllBytes : (n v : ℕ) → AllBytes (le_bytes n v)
le_bytes-AllBytes zero v = tt
le_bytes-AllBytes (suc n) v = (omega arith, le_bytes-AllBytes n (v / 256))

pub le_bytes-from_le : (bs : List ℕ) → AllBytes bs → le_bytes (length bs) (from_le bs) ≡ bs
le_bytes-from_le [] h = refl
le_bytes-from_le (b ∷ bs) h =
    ap₂ ◌∷◌ (omega (arith, h.0))
      (ap (le_bytes (length bs)) (omega (arith, h.0)) ∙ le_bytes-from_le bs h.1)

pub from_le-le_bytes4 : (v : ℕ) → v < 2 ^ 32 → from_le (le_bytes 4 v) ≡ v
from_le-le_bytes4 v h = omega arith

pub from_le-le_bytes8 : (v : ℕ) → v < 2 ^ 64 → from_le (le_bytes 8 v) ≡ v
from_le-le_bytes8 v h = omega arith

-- An array of `uint32_t` or `float` as the bytes that it occupies.
abbrev pub words_to_bytes : List ℕ → List ℕ
words_to_bytes [] = []
words_to_bytes (w ∷ ws) = le_bytes 4 w ++ words_to_bytes ws

-- The first `k` words of such an array.
abbrev pub bytes_to_words : ℕ → List ℕ → List ℕ
bytes_to_words zero bs = []
bytes_to_words (suc k) bs = from_le (take 4 bs) ∷ bytes_to_words k (drop 4 bs)

abbrev pub AllWords : List ℕ → Type 0
AllWords [] = Unit {0}
AllWords (w ∷ ws) = (w < 2 ^ 32) × AllWords ws

pub get_or-AllWords : (ws : List ℕ) (k : ℕ) → AllWords ws → get_or ws k 0 < 2 ^ 32
get_or-AllWords [] k h = omega arith
get_or-AllWords (w ∷ ws) zero h = h.0
get_or-AllWords (w ∷ ws) (suc k) h = get_or-AllWords ws k h.1

pub tabulate_from-AllWords :
    (n i : ℕ) (f : ℕ → ℕ) → ((k : ℕ) → f k < 2 ^ 32) → AllWords (tabulate_from n i f)
tabulate_from-AllWords zero i f h = tt
tabulate_from-AllWords (suc n) i f h = (h i, tabulate_from-AllWords n (i + 1) f h)

pub replicate-AllWords : (n v : ℕ) → v < 2 ^ 32 → AllWords (replicate n v)
replicate-AllWords zero v h = tt
replicate-AllWords (suc n) v h = (h, replicate-AllWords n v h)

pub length-words_to_bytes : (ws : List ℕ) → length (words_to_bytes ws) ≡ 4 * length ws
length-words_to_bytes [] = refl
length-words_to_bytes (w ∷ ws) = omega (arith, length-words_to_bytes ws)

pub words_to_bytes-AllBytes : (ws : List ℕ) → AllBytes (words_to_bytes ws)
words_to_bytes-AllBytes [] = tt
words_to_bytes-AllBytes (w ∷ ws) =
    (omega arith, (omega arith, (omega arith, (omega arith, words_to_bytes-AllBytes ws))))

-- Reading back an array that was stored.
pub bytes_to_words-words_to_bytes :
    (ws : List ℕ) (k : ℕ) → AllWords ws → k ≡ length ws → bytes_to_words k (words_to_bytes ws) ≡ ws
bytes_to_words-words_to_bytes [] zero h e = refl
bytes_to_words-words_to_bytes [] (suc k) h e = absurd (omega arith)
bytes_to_words-words_to_bytes (w ∷ ws) zero h e = absurd (omega arith)
bytes_to_words-words_to_bytes (w ∷ ws) (suc k) h e =
    ap₂ ◌∷◌ (from_le-le_bytes4 w h.0) (bytes_to_words-words_to_bytes ws k h.1 (omega arith))

-- Of words that need not fit, their low 32 bits.
pub bytes_to_words-words_to_bytes_mod :
    (ws : List ℕ) (k : ℕ)
    → k ≡ length ws
    → bytes_to_words k (words_to_bytes ws) ≡ map (λ w. w % 2 ^ 32) ws
bytes_to_words-words_to_bytes_mod [] zero e = refl
bytes_to_words-words_to_bytes_mod [] (suc k) e = absurd (omega arith)
bytes_to_words-words_to_bytes_mod (w ∷ ws) zero e = absurd (omega arith)
bytes_to_words-words_to_bytes_mod (w ∷ ws) (suc k) e =
    ap₂ ◌∷◌ (omega arith) (bytes_to_words-words_to_bytes_mod ws k (omega arith))
