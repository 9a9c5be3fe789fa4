-- ===== src/Pop/Window.antt =====
-- src/pop/sk/window.rs: the replay window of a session. A `u64` of the bitmap is its 64 bits, from the
-- lowest, and the array is a function of the index: the code only shifts, joins and tests bits.
pub mod Bits
pub mod Replay
mod Tests
use solid_server_rs.Prelude.{
  ℕ, zero, suc, ◌+◌, ◌-◌, ◌/◌, ◌%◌, ltb, leb, Bool, true, false, ◌&&◌, ◌||◌, if◌then◌else◌, ◌==◌,
}

abbrev pub window_bits : ℕ
window_bits = 1024

abbrev pub words : ℕ
words = 16

abbrev pub Word : Type 0
Word = ℕ → Bool

abbrev pub Bitmap : Type 0
Bitmap = ℕ → Word

-- `w << k` and `w >> k`
abbrev pub shift_left : Word → ℕ → Word
shift_left w k j = leb k j && w (j - k)

abbrev pub shift_right : Word → ℕ → Word
shift_right w k j = ltb (j + k) 64 && w (j + k)

abbrev pub no_bits : Bitmap
no_bits i j = false

abbrev pub set_word : Bitmap → ℕ → Word → Bitmap
set_word b i w k = if k == i then w else b k

pub data WindowVerdict : Type 0 where
  accept duplicate below_window : WindowVerdict

pub record ReplayWindow : Type 0 where
  pub high : ℕ
  pub bitmap : Bitmap

unfoldable pub new : ReplayWindow
new = record { high = 0; bitmap = no_bits }

unfoldable pub get_bit : Bitmap → ℕ → Bool
get_bit b i = b (i / 64) (i % 64)

unfoldable pub set_bit : Bitmap → ℕ → Bitmap
set_bit b i = set_word b (i / 64) (λ j. b (i / 64) j || j == i % 64)

-- the word that comes to stand at index `i`
unfoldable pub moved_word : ℕ → ℕ → Bitmap → ℕ → Word
moved_word word_shift bit_shift b i j =
    (if leb word_shift i then shift_left (b (i - word_shift)) bit_shift j else false)
    || (ltb 0 bit_shift
        && (ltb word_shift i && shift_right (b (i - word_shift - 1)) (64 - bit_shift) j))

-- the loop of `shift`, from the highest of `n` words down
unfoldable pub shift_words : ℕ → ℕ → ℕ → Bitmap → Bitmap
unfolding moved_word
shift_words zero word_shift bit_shift b = b
shift_words (suc i) word_shift bit_shift b =
    shift_words i word_shift bit_shift (set_word b i (moved_word word_shift bit_shift b i))

unfoldable pub shift : Bitmap → ℕ → Bitmap
unfolding shift_words
shift b by = if leb window_bits by then no_bits else shift_words words (by / 64) (by % 64) b

unfoldable pub check_and_mark : ReplayWindow → ℕ → ReplayWindow × WindowVerdict
unfolding get_bit set_bit shift
check_and_mark w n =
    if ltb w.high n
    then (record { high = n; bitmap = set_bit (shift w.bitmap (n - w.high)) 0 }, accept)
    else if leb window_bits (w.high - n)
    then (w, below_window)
    else if get_bit w.bitmap (w.high - n)
    then (w, duplicate)
    else (record w { bitmap = set_bit w.bitmap (w.high - n) }, accept)
