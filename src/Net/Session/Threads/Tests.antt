-- ===== src/Net/Session/Threads/Tests.antt =====
-- Two sends of a session that interleave, and the theorems on them.
use simple_mmo.Prelude.{◌+◌, ◌≤◌, ◌≡◌, [], ◌∷◌, ◌++◌}
use simple_mmo.Net.Session.Threads.{SendThreads, at_rest, Reach}
use simple_mmo.Net.Session.Threads.Order.{gathered, reachable-in_order}
use simple_mmo.Net.Session.Threads.Races.{send_races}

-- Buffer 1 has been sent, buffer 2 waits.
abbrev stranded : SendThreads
stranded = at_rest (2 ∷ []) (1 ∷ 2 ∷ []) (1 ∷ [])

two_sends : Reach (at_rest [] [] []) stranded
two_sends = (send_races 1 2 [] []).0

reachable-in_order_example :
    (stranded.gathering + stranded.in_socket ≤ 1)
    × (stranded.sent ++ (gathered stranded.gathering stranded.send_buffers ++ stranded.send_queue)
        ≡ stranded.submitted)
reachable-in_order_example = reachable-in_order two_sends
