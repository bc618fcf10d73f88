-- ===== src/Ring/Examples.antt =====
-- A buffer of three lines that takes five.
use andaime.Base.{ℕ, ◌≡◌, refl, true, ◌∷◌, [], some}
use andaime.Ring.{CircularBuffer, new_circular_buffer, add, add_all, get_lines}
use andaime.Ring.Window.{get_lines-add_all}
use andaime.Base.{arith}

abbrev wrapped : CircularBuffer ℕ
wrapped = record { lines = 4 ∷ 5 ∷ 3 ∷ []; cur = 2; full = true }

five_lines : add_all (new_circular_buffer 3 0) (1 ∷ 2 ∷ 3 ∷ 4 ∷ 5 ∷ []) ≡ some wrapped
unfolding add_all add new_circular_buffer
five_lines = refl

get_lines-add_all_example :
    (cb : CircularBuffer ℕ) × (add_all (new_circular_buffer 3 0) (1 ∷ 2 ∷ 3 ∷ 4 ∷ 5 ∷ []) ≡ some cb)
    × (get_lines cb ≡ 3 ∷ 4 ∷ 5 ∷ [])
get_lines-add_all_example = get_lines-add_all 3 0 (1 ∷ 2 ∷ 3 ∷ 4 ∷ 5 ∷ []) (omega arith)
