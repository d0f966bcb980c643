-- ===== src/Tests/Rooms.antt =====
-- The rooms of the event pipeline on concrete schedules.
use kakao_x_termux.Prelude.{◌≡◌, ◌≤◌, refl, true, false, List, [], ◌∷◌, arith, length}
use kakao_x_termux.Prelude.Texts.{contains, add}
use kakao_x_termux.Dict.{lookup, insert}
use kakao_x_termux.Pipeline.State.{mark_room_ready}
use kakao_x_termux.Pipeline.Admission.{commit}
use kakao_x_termux.Pipeline.Schedule.{Section, commits, takes, run}
use kakao_x_termux.Pipeline.Order.{handed_out}
use kakao_x_termux.Pipeline.Refinement.{Moves, moves_of, view, empty_view, run-init-Moves}
use kakao_x_termux.Pipeline.Fairness.{reached, no_starvation, position, takes_in}
use kakao_x_termux.Tests.Events.{envelope, schedule, small}

run-init-Moves_example : Moves (moves_of schedule small) empty_view (view (run schedule small))
run-init-Moves_example = run-init-Moves 4 2 2 60 false schedule

-- The room "q" waits behind the room "r".
abbrev two_rooms : List Section
two_rooms = commits (envelope "e1" "r") ∷ commits (envelope "e2" "q") ∷ []

abbrev two_looks : List Section
two_looks = takes ∷ commits (envelope "e3" "s") ∷ takes ∷ []

no_starvation_example :
    (contains "q" (reached 4 2 2 60 two_rooms).ready_rooms ≡ true)
    × (1 ≤ length (handed_out "q" two_looks (reached 4 2 2 60 two_rooms)))
unfolding run commit mark_room_ready lookup insert contains add position takes_in
no_starvation_example = no_starvation 4 2 2 60 two_rooms two_looks "q" refl refl (omega arith)
