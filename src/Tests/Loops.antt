-- ===== src/Tests/Loops.antt =====
-- The accept loop, and the client's loops.
use g_tun.Prelude.{◌≡◌, refl, true, false, List, [], ◌∷◌}
use g_tun.Netutil.Accept.{Event, accepted, failed, next_delay, accept_loop}
use g_tun.Netutil.Accept.Delays.{expected_waits, served, ends, accept_loop_lem}
use g_tun.Client.Loop.{Round, run_dynamic}

abbrev events : List Event
events =
    failed false false
    ∷ failed false false
    ∷ accepted 5
    ∷ failed false false
    ∷ failed true false
    ∷ []

waits_test : (accept_loop 0 events).waits ≡ 5_000_000 ∷ 10_000_000 ∷ 5_000_000 ∷ []
unfolding accept_loop next_delay
waits_test = refl

accept_loop_lem_example :
    ((accept_loop 0 events).handled ≡ served events)
    × ((accept_loop 0 events).returned ≡ ends events)
    × ((accept_loop 0 events).waits ≡ expected_waits 0 events)
accept_loop_lem_example = accept_loop_lem events

abbrev lost : Round
lost = record { established = false; done = false; cancelled = false }

abbrev accepted_once : Round
accepted_once = record { established = true; done = false; cancelled = false }

abbrev over : Round
over = record { established = false; done = true; cancelled = false }

abbrev rounds : List Round
rounds = lost ∷ lost ∷ accepted_once ∷ lost ∷ over ∷ []

run_dynamic_test : (run_dynamic rounds).waits ≡ 3 ∷ 6 ∷ 3 ∷ 6 ∷ []
unfolding run_dynamic
run_dynamic_test = refl
