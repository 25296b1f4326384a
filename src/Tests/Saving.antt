-- ===== src/Tests/Saving.antt =====
-- core/entry_move.go: two moves, of which the second lands while the first is being written.
use vair.Base.{ℕ, ◌≡◌, refl, false, List, [], ◌∷◌}
use vair.Saver.{
  round, copied, written, Saver, save_tab_order, write_on, moving, saving, writing, Reach, here,
  next, loaded_tab,
}
use vair.Saver.Order.{writers_done}

abbrev order : List ℕ
order = 0 ∷ 1 ∷ 2 ∷ []

abbrev moved : Saver
moved = record (loaded_tab order) { memory = 2 ∷ 0 ∷ 1 ∷ []; movers = 1 }

abbrev saved : Saver
saved = save_tab_order (record moved { movers = 0 })

abbrev in_copy : Saver
in_copy = write_on saved [] round [] false

abbrev moved_again : Saver
moved_again = record in_copy { memory = 1 ∷ 2 ∷ 0 ∷ []; movers = 1 }

abbrev saved_again : Saver
saved_again = save_tab_order (record moved_again { movers = 0 })

two_moves : Reach (loaded_tab order) saved_again
unfolding save_tab_order write_on
two_moves =
    next
      (next
        (next (next (next here (moving (loaded_tab order) (2 ∷ 0 ∷ 1 ∷ []))) (saving moved 0 refl))
          (writing saved [] round [] false refl))
        (moving in_copy (1 ∷ 2 ∷ 0 ∷ [])))
      (saving moved_again 0 refl)

abbrev one_written : Saver
one_written = write_on (write_on in_copy [] (copied (2 ∷ 0 ∷ 1 ∷ [])) [] false) [] written [] false

one_move : Reach (loaded_tab order) one_written
unfolding save_tab_order write_on
one_move =
    next
      (next
        (next (next (next here (moving (loaded_tab order) (2 ∷ 0 ∷ 1 ∷ []))) (saving moved 0 refl))
          (writing saved [] round [] false refl))
        (writing in_copy [] (copied (2 ∷ 0 ∷ 1 ∷ [])) [] false refl))
      (writing (write_on in_copy [] (copied (2 ∷ 0 ∷ 1 ∷ [])) [] false) [] written [] false refl)

writers_done_example : one_written.disk ≡ one_written.memory
unfolding save_tab_order write_on
writers_done_example = writers_done order one_written one_move refl refl refl
