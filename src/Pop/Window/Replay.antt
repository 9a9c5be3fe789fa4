-- ===== src/Pop/Window/Replay.antt =====
-- src/pop/sk/window.rs: the window against the list of the counters that were accepted.
use solid_server_rs.Prelude.{
  ℕ, ◌-◌, ◌≤◌, ◌<◌, max, ltb, leb, ◌≡◌, refl, ap, ◌∙◌, sym, inl, inr, Bool, true, false, ◌||◌,
  if◌then◌else◌, ◌==◌, List, [], ◌∷◌, any, All, arith, Bool-cases, ltb→lt,
}
use solid_server_rs.Pop.Window.{
  ReplayWindow, WindowVerdict, accept, duplicate, below_window, window_bits, new, get_bit, set_bit,
  shift, check_and_mark,
}
use solid_server_rs.Pop.Window.Bits.{get_bit-set_bit, get_bit-shift}

unfoldable pub verdicts : ReplayWindow → List ℕ → List WindowVerdict
verdicts w [] = []
verdicts w (n ∷ ns) = (check_and_mark w n).1 ∷ verdicts (check_and_mark w n).0 ns

abbrev pub highest : List ℕ → ℕ
highest [] = 0
highest (n ∷ ns) = max n (highest ns)

abbrev pub was_seen : List ℕ → ℕ → Bool
was_seen seen n = any (λ m. m == n) seen

-- A counter above all that were accepted is fresh, one too far below the highest is too old, and one
-- between is a duplicate exactly if it was accepted before.
unfoldable pub expected : List ℕ → ℕ → WindowVerdict
expected seen n =
    if ltb (highest seen) n
    then accept
    else if leb window_bits (highest seen - n)
    then below_window
    else if was_seen seen n
    then duplicate
    else accept

abbrev pub remember : List ℕ → ℕ → WindowVerdict → List ℕ
remember seen n accept = n ∷ seen
remember seen n duplicate = seen
remember seen n below_window = seen

unfoldable pub expected_verdicts : List ℕ → List ℕ → List WindowVerdict
expected_verdicts seen [] = []
expected_verdicts seen (n ∷ ns) =
    expected seen n ∷ expected_verdicts (remember seen n (expected seen n)) ns

record Tracks (seen : List ℕ) (w : ReplayWindow) : Type 0 where
  high : w.high ≡ highest seen
  bits : (d : ℕ) → d < window_bits → d < w.high → get_bit w.bitmap d ≡ was_seen seen (w.high - d)

not_seen_above : (seen : List ℕ) (v : ℕ) → highest seen < v → was_seen seen v ≡ false
not_seen_above [] v h = refl
not_seen_above (m ∷ seen) v h = ground (arith, not_seen_above seen v)

or_comm : (a b : Bool) → (a || b) ≡ (b || a)
or_comm true true = refl
or_comm true false = refl
or_comm false true = refl
or_comm false false = refl

-- the bits after a counter above the highest
advance-bits :
    (seen : List ℕ) (w : ReplayWindow) (n d : ℕ)
    → Tracks seen w
    → w.high < n
    → d < window_bits
    → d < n
    → get_bit (set_bit (shift w.bitmap (n - w.high)) 0) d ≡ was_seen (n ∷ seen) (n - d)
advance-bits seen w n d t above small lt =
    let by = n - w.high in
    let old : (if ltb d by then false else get_bit w.bitmap (d - by)) ≡ was_seen seen (n - d) =
      elim (Bool-cases (ltb d by)) [
        | inl y ↦
            let new_value : highest seen < n - d = ground (arith, t.high, ltb→lt d by y) in
            rw y (sym (not_seen_above seen (n - d) new_value))
        | inr m ↦
            let same : w.high - (d - by) ≡ n - d = ground arith in
            let at_d = t.bits (d - by) (omega (arith, small)) (ground arith) in
            rw m (at_d ∙ ap (was_seen seen) same)
      ] in
    let head : (d == 0) ≡ (n == n - d) = ground arith in
    get_bit-set_bit (shift w.bitmap by) 0 d
    ∙ rw (get_bit-shift w.bitmap by d small) (rw old (or_comm (was_seen seen (n - d)) (d == 0)))
    ∙ ap (λ t. t || was_seen seen (n - d)) head

-- the bits after a fresh counter inside the window
mark-bits :
    (seen : List ℕ) (w : ReplayWindow) (n d : ℕ)
    → Tracks seen w
    → n ≤ w.high
    → d < window_bits
    → d < w.high
    → get_bit (set_bit w.bitmap (w.high - n)) d ≡ was_seen (n ∷ seen) (w.high - d)
mark-bits seen w n d t below small lt =
    let head : (d == w.high - n) ≡ (n == w.high - d) = ground arith in
    get_bit-set_bit w.bitmap (w.high - n) d
    ∙ rw (t.bits d small lt) (or_comm (was_seen seen (w.high - d)) (d == w.high - n))
    ∙ ap (λ t. t || was_seen seen (w.high - d)) head

check_and_mark-Tracks :
    (seen : List ℕ) (w : ReplayWindow) (n : ℕ)
    → 1 ≤ n
    → Tracks seen w
    → ((check_and_mark w n).1 ≡ expected seen n)
      × Tracks (remember seen n (expected seen n)) (check_and_mark w n).0
unfolding check_and_mark expected
check_and_mark-Tracks seen w n pos t = elim (Bool-cases (ltb w.high n)) [
  | inl y ↦
      let above : w.high < n = ltb→lt w.high n y in
      let y' : ltb (highest seen) n ≡ true = rw (← t.high) y in
      rw (y, y')
        (
          refl,
          record {
            high = omega (arith, above, t.high);
            bits = λ d small lt. advance-bits seen w n d t above small lt;
          },
        )
  | inr m ↦
      let within : n ≤ w.high = ground arith in
      let m' : ltb (highest seen) n ≡ false = rw (← t.high) m in
      elim (Bool-cases (leb window_bits (w.high - n))) [
        | inl old ↦
            let old' : leb window_bits (highest seen - n) ≡ true = rw (← t.high) old in
            rw (m, m') (rw (old, old') (refl, t))
        | inr tracked ↦
            let tracked' : leb window_bits (highest seen - n) ≡ false = rw (← t.high) tracked in
            let same : w.high - (w.high - n) ≡ n = omega (arith, within) in
            let bit : get_bit w.bitmap (w.high - n) ≡ was_seen seen n =
              t.bits (w.high - n) (ground arith) (omega (arith, within, pos))
              ∙ ap (was_seen seen) same in
            elim (Bool-cases (was_seen seen n)) [
              | inl again ↦ rw (m, m') (rw (tracked, tracked') (rw bit (rw again (refl, t))))
              | inr fresh ↦
                  rw (m, m')
                    (rw (tracked, tracked')
                      (rw bit (
                        rw fresh (
                          refl,
                          record {
                            high = omega (arith, within, t.high);
                            bits = λ d small lt. mark-bits seen w n d t within small lt;
                          },
                        ))))
            ]
      ]
]

verdicts_of_Tracks :
    (ns seen : List ℕ) (w : ReplayWindow)
    → All (λ n. 1 ≤ n) ns
    → Tracks seen w
    → verdicts w ns ≡ expected_verdicts seen ns
unfolding verdicts expected_verdicts
verdicts_of_Tracks [] seen w h t = refl
verdicts_of_Tracks (n ∷ ns) seen w (pos, h) t =
    let (same, t') = check_and_mark-Tracks seen w n pos t in
    let rest =
      verdicts_of_Tracks ns (remember seen n (expected seen n)) (check_and_mark w n).0 h t' in
    rw same (ap (λ vs. expected seen n ∷ vs) rest)

-- On any sequence of counters from 1 on, a new window gives the verdicts of one that remembers every
-- counter it has accepted: fresh above the highest, too old at 1024 or more below it, and between
-- these a duplicate exactly if the counter was accepted before.
pub verdicts-expected :
    (ns : List ℕ) → All (λ n. 1 ≤ n) ns → verdicts new ns ≡ expected_verdicts [] ns
unfolding new
verdicts-expected ns h =
    verdicts_of_Tracks ns [] new h
      (record { high = refl; bits = λ d small lt. absurd (omega (arith, lt)) })
