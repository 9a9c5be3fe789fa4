-- ===== src/Pop/Window/Bits.antt =====
-- src/pop/sk/window.rs: the bits after a mark and after a shift.
use solid_server_rs.Prelude.{
  ℕ, zero, suc, ◌+◌, ◌-◌, ◌/◌, ◌%◌, ◌≤◌, ◌<◌, ltb, leb, ◌≡◌, refl, ap, ◌∙◌, sym, inl, inr, Bool,
  true, false, ◌&&◌, ◌||◌, if◌then◌else◌, ◌==◌, arith, Bool-cases, ==_iff, ltb→lt, lt→ltb, leb→le,
}
use solid_server_rs.Pop.Window.{
  Bitmap, window_bits, words, set_word, get_bit, set_bit, moved_word, shift_words, shift,
}

same_bit : (d i : ℕ) → d / 64 ≡ i / 64 → (d % 64 == i % 64) ≡ (d == i)
same_bit d i h = ground arith

other_word : (d i : ℕ) → (d / 64 == i / 64) ≡ false → (d == i) ≡ false
other_word d i h = ground arith

or_false : (b : Bool) → (b || false) ≡ b
or_false true = refl
or_false false = refl

or_none : (b p q : Bool) → (b || (p && (q && false))) ≡ b
or_none true p q = refl
or_none false true true = refl
or_none false true false = refl
or_none false false q = refl

and_false : (p : Bool) → (p && false) ≡ false
and_false true = refl
and_false false = refl

pub get_bit-set_bit : (b : Bitmap) (i d : ℕ) → get_bit (set_bit b i) d ≡ (get_bit b d || d == i)
unfolding get_bit set_bit
get_bit-set_bit b i d = elim (Bool-cases (d / 64 == i / 64)) [
  | inl y ↦
      let e : d / 64 ≡ i / 64 = (==_iff (d / 64) (i / 64)).0 y in
      rw y (rw e (ap (λ t. b (i / 64) (d % 64) || t) (same_bit d i e)))
  | inr n ↦ rw (n, other_word d i n) (sym (or_false (b (d / 64) (d % 64))))
]

-- a word that is moved depends on no higher word
moved_word_of_agree :
    (ws bs i j : ℕ) (a b : Bitmap)
    → ((k : ℕ) → k ≤ i → (l : ℕ) → a k l ≡ b k l)
    → moved_word ws bs a i j ≡ moved_word ws bs b i j
unfolding moved_word
moved_word_of_agree ws bs i j a b h =
    rw (h (i - ws) (omega arith) (j - bs), h (i - ws - 1) (omega arith) (j + (64 - bs))) refl

-- Each word is moved from the words that stood there before the loop.
shift_words_lem :
    (n ws bs i j : ℕ) (b : Bitmap)
    → shift_words n ws bs b i j ≡ (if ltb i n then moved_word ws bs b i j else b i j)
unfolding shift_words
shift_words_lem zero ws bs i j b = ground arith
shift_words_lem (suc n) ws bs i j b =
    let b' = set_word b n (moved_word ws bs b n) in
    let rest = shift_words_lem n ws bs i j b' in
    elim (Bool-cases (ltb i n)) [
      | inl y ↦
          let below : i < n = ltb→lt i n y in
          let at_all : ltb i (suc n) ≡ true = lt→ltb i (suc n) (omega arith) in
          rest
          ∙ (rw y (
              rw at_all (
                moved_word_of_agree ws bs i j b' b (λ k le l.
                  let other : (k == n) ≡ false = ground arith in
                  ap (λ t. (if t then moved_word ws bs b n else b k) l) other))))
      | inr above ↦ elim (Bool-cases (i == n)) [
        | inl same ↦
            let e : i ≡ n = (==_iff i n).0 same in
            let at_all : ltb i (suc n) ≡ true = lt→ltb i (suc n) (omega arith) in
            rest ∙ (rw above (rw same (rw at_all (rw e refl))))
        | inr other ↦
            let none_there : ltb i (suc n) ≡ false = ground arith in
            rest ∙ (rw above (rw other (rw none_there refl)))
      ]
    ]

moved_in :
    (b : Bitmap) (by d : ℕ)
    → by ≤ d
    → moved_word (by / 64) (by % 64) b (d / 64) (d % 64) ≡ get_bit b (d - by)
unfolding moved_word get_bit
moved_in b by d h = elim (Bool-cases (leb (by % 64) (d % 64))) [
  | inl y ↦
      let le : by % 64 ≤ d % 64 = leb→le _ _ y in
      let at_word : leb (by / 64) (d / 64) ≡ true = ground arith in
      let high : ltb (d % 64 + (64 - by % 64)) 64 ≡ false = ground arith in
      let i : (d - by) / 64 ≡ d / 64 - by / 64 = omega arith in
      let j : (d - by) % 64 ≡ d % 64 - by % 64 = omega arith in
      rw at_word (
        rw y (
          rw high (
            rw (i, j)
              (or_none (b (d / 64 - by / 64) (d % 64 - by % 64)) (ltb 0 (by % 64))
                (ltb (by / 64) (d / 64))))))
  | inr n ↦
      let lt : d % 64 < by % 64 = ground arith in
      let at_word : leb (by / 64) (d / 64) ≡ true = ground arith in
      let some_bits : ltb 0 (by % 64) ≡ true = ground arith in
      let after : ltb (by / 64) (d / 64) ≡ true = ground arith in
      let low : ltb (d % 64 + (64 - by % 64)) 64 ≡ true = ground arith in
      let i : (d - by) / 64 ≡ d / 64 - by / 64 - 1 = omega arith in
      let j : (d - by) % 64 ≡ d % 64 + (64 - by % 64) = omega arith in
      rw at_word (rw n (rw some_bits (rw after (rw low (rw (i, j) refl)))))
]

moved_out :
    (b : Bitmap) (by d : ℕ) → d < by → moved_word (by / 64) (by % 64) b (d / 64) (d % 64) ≡ false
unfolding moved_word
moved_out b by d h =
    let before : ltb (by / 64) (d / 64) ≡ false = ground arith in
    elim (Bool-cases (leb (by / 64) (d / 64))) [
      | inl y ↦
          let low : leb (by % 64) (d % 64) ≡ false = ground arith in
          rw (y, before) (rw low (and_false (ltb 0 (by % 64))))
      | inr n ↦ rw (n, before) (and_false (ltb 0 (by % 64)))
    ]

-- After a shift, a bit that is tracked is the one that stood for the same value before, and the bits of
-- the values that are new are clear.
pub get_bit-shift :
    (b : Bitmap) (by d : ℕ)
    → d < window_bits
    → get_bit (shift b by) d ≡ (if ltb d by then false else get_bit b (d - by))
unfolding shift get_bit
get_bit-shift b by d h = elim (Bool-cases (leb window_bits by)) [
  | inl y ↦ let new_one : ltb d by ≡ true = ground arith in rw (y, new_one) refl
  | inr n ↦
      let in_words : ltb (d / 64) words ≡ true = ground arith in
      let moved : shift_words words (by / 64) (by % 64) b (d / 64) (d % 64)
          ≡ moved_word (by / 64) (by % 64) b (d / 64) (d % 64) =
        shift_words_lem words (by / 64) (by % 64) (d / 64) (d % 64) b ∙ (rw in_words refl) in
      rw n (elim (Bool-cases (ltb d by)) [
        | inl y ↦ rw y (moved ∙ moved_out b by d (ltb→lt d by y))
        | inr m ↦ rw m (moved ∙ moved_in b by d (ground arith))
      ])
]
