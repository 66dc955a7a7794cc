-- ===== src/Net/Session/Tests.antt =====
-- Runs of a session, and its theorems at them.
use simple_mmo.Prelude.{ℕ, refl, true, false, some, List, [], ◌∷◌}
use simple_mmo.Net.RecvBuffer.{RecvBuffer}
use simple_mmo.Net.SendBuffer.{SendBuffer}
use simple_mmo.Net.Session.{Session, CurrentPlayer, sends, send_done, disconnects, Event, run}
use simple_mmo.Net.Session.Lifetime.{Returns, IsOwned, run-IsOwned}
use simple_mmo.Net.Session.Sent.{submitted}
use simple_mmo.Net.Session.Sending.{SplitsInOrder, run-sent}

abbrev entering : RecvBuffer
entering = record {
  buffer_size = 6;
  read_pos = 0;
  write_pos = 0;
  buffer = 4 ∷ 0 ∷ 6 ∷ 0 ∷ 0 ∷ 0 ∷ [];
}

abbrev player : CurrentPlayer
player = record { player_id = 7; room = some 1 }

abbrev logged_in : Session
logged_in = record {
  session_id = 7;
  connected = true;
  recv_buffer = entering;
  send_queue = [];
  send_registered = false;
  in_flight = [];
  current_player = some player;
  log = [];
}

abbrev packet : ℕ → SendBuffer
packet n = record { buffer = n ∷ []; write_pos = 1 }

-- The second and third buffer wait until the first send is done, and then go out together.
abbrev three_sends : List Event
three_sends =
    sends false (packet 1)
    ∷ sends false (packet 2)
    ∷ sends false (packet 3)
    ∷ send_done false 1
    ∷ disconnects
    ∷ sends false (packet 4)
    ∷ []

run-IsOwned_example : Returns (IsOwned player) (run three_sends logged_in)
run-IsOwned_example =
    run-IsOwned player three_sends logged_in (record { logged_in = refl; released = refl })

run-sent_example : Returns (SplitsInOrder (submitted three_sends)) (run three_sends logged_in)
run-sent_example =
    run-sent player three_sends logged_in
      (record { logged_in = refl; unsent = refl; no_queue = refl; none_under_way = refl })
