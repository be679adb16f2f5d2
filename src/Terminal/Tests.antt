-- ===== src/Terminal/Tests.antt =====
-- Runs of terminal.cpp, and its theorems on a screen.
use nemo_os.Base.{ℕ, [], ◌∷◌, replicate, length-replicate}
use nemo_os.Terminal.{Terminal, init, write, backspace}
use nemo_os.Terminal.Screen.{OnScreen, start, after, writing, erasing, reachable-OnScreen}

abbrev screen : Terminal
screen = record {
  buffer = replicate 2000 0;
  row = 24;
  col = 79;
  color = 7;
  cursor = 0;
  serial = [];
}

-- "Hi", a new line, and an erased character.
reachable-OnScreen_example :
    OnScreen (backspace (write (b'H' ∷ b'i' ∷ b'\n' ∷ b'x' ∷ []) (init screen)))
reachable-OnScreen_example =
    reachable-OnScreen screen _ (length-replicate {A = ℕ} 2000 0) (
      after _ _ _ (after _ _ _ (start _) (writing (b'H' ∷ b'i' ∷ b'\n' ∷ b'x' ∷ []) _)) (erasing _))
