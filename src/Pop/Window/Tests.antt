-- ===== src/Pop/Window/Tests.antt =====
-- src/pop/sk/window.rs at concrete counters, and the theorem there.
use solid_server_rs.Prelude.{ℕ, ◌≡◌, refl, List, [], ◌∷◌, arith}
use solid_server_rs.Pop.Window.{
  accept, duplicate, below_window, new, check_and_mark, get_bit, set_bit, shift, shift_words,
  moved_word,
}
use solid_server_rs.Pop.Window.Replay.{verdicts, expected_verdicts, verdicts-expected}

abbrev counters : List ℕ
counters = 5 ∷ 3 ∷ 5 ∷ 70 ∷ 3 ∷ 2000 ∷ 976 ∷ 977 ∷ 977 ∷ []

their_verdicts :
    verdicts new counters
    ≡ accept ∷ accept ∷ duplicate ∷ accept ∷ duplicate ∷ accept ∷ below_window ∷ accept ∷ duplicate
      ∷ []
unfolding verdicts new check_and_mark get_bit set_bit shift shift_words moved_word
their_verdicts = refl

verdicts-expected_example : verdicts new counters ≡ expected_verdicts [] counters
verdicts-expected_example = verdicts-expected counters (omega arith)
