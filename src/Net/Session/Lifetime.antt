-- ===== src/Net/Session/Lifetime.antt =====
-- The end of a session: `Session::Disconnect` (Session.cpp) and the handlers that call it.
use simple_mmo.Prelude.{
  ℕ, suc, ◌+◌, ◌≡◌, inl, inr, Bool, true, false, some, List, [], ◌∷◌, ◌++◌, arith, Option-cases,
}
use simple_mmo.Net.SendBuffer.{SendBuffer}
use simple_mmo.Net.Session.{
  Session, CurrentPlayer, Effect, start_recv, start_send, leave_room, add_session, release_session,
  Outcome, ok, null_dereference, endless_loop, disconnect, register_send, send, process_send, Event,
  sends, send_done, disconnects, step, run, ◌>>=◌,
}

abbrev pub releases : List Effect → ℕ
releases [] = 0
releases (release_session i ∷ es) = suc (releases es)
releases (_ ∷ es) = releases es

pub releases-append : (xs ys : List Effect) → releases (xs ++ ys) ≡ releases xs + releases ys
releases-append [] ys = omega arith
releases-append (release_session i ∷ xs) ys = omega (arith, releases-append xs ys)
releases-append (start_recv n ∷ xs) ys = releases-append xs ys
releases-append (start_send n ∷ xs) ys = releases-append xs ys
releases-append (leave_room r p ∷ xs) ys = releases-append xs ys
releases-append (add_session i ∷ xs) ys = releases-append xs ys

abbrev pub open_count : Bool → ℕ
open_count true = 1
open_count false = 0

-- A player belongs to the session, and it is connected or has been released, not both.
pub record IsOwned (p : CurrentPlayer) (s : Session) : Type 0 where
  pub logged_in : s.current_player ≡ some p
  pub released : releases s.log + open_count s.connected ≡ 1

-- The handler ends without a fault, in a state with that property.
abbrev pub Returns : (Session → Type 0) → Outcome Session → Type 0
Returns P (ok s) = P s
Returns P _ = ⊥

releases-note :
    (log : List Effect) (e : Effect) → releases (log ++ e ∷ []) ≡ releases log + releases (e ∷ [])
releases-note log e = releases-append log (e ∷ [])

pub disconnect-IsOwned :
    (p : CurrentPlayer) (s : Session) → IsOwned p s → Returns (IsOwned p) (disconnect s)
unfolding disconnect
disconnect-IsOwned p s o = elim (Option-cases p.room) [
  | inl e ↦ ground (arith, e, releases-note s.log (release_session s.session_id))
  | inr (r, e) ↦ ground (
    arith,
    e,
    releases-note s.log (leave_room r p.player_id),
    releases-note (s.log ++ leave_room r p.player_id ∷ []) (release_session s.session_id),
  )
]

abbrev started : Session → Session
started s = record s {
  in_flight = s.in_flight ++ s.send_queue;
  send_queue = [];
  log = s.log ++ start_send (s.in_flight ++ s.send_queue) ∷ [];
}

pub register_send-IsOwned :
    (p : CurrentPlayer) (fails : Bool) (s : Session)
    → IsOwned p s
    → Returns (IsOwned p) (register_send fails s)
unfolding register_send
register_send-IsOwned p fails s o = ground (
  arith,
  releases-note s.log (start_send (s.in_flight ++ s.send_queue)),
  disconnect-IsOwned p (record (started s) { in_flight = []; send_registered = false }),
)

send-IsOwned :
    (p : CurrentPlayer) (fails : Bool) (b : SendBuffer) (push_only : Bool) (s : Session)
    → IsOwned p s
    → Returns (IsOwned p) (send fails b push_only s)
unfolding send
send-IsOwned p fails b push_only s o = ground (
  arith,
  register_send-IsOwned p fails
      (record s { send_queue = s.send_queue ++ b ∷ []; send_registered = true }),
)

process_send-IsOwned :
    (p : CurrentPlayer) (fails : Bool) (n : ℕ) (s : Session)
    → IsOwned p s
    → Returns (IsOwned p) (process_send fails n s)
unfolding process_send
process_send-IsOwned p fails n s o = ground (
  arith,
  disconnect-IsOwned p (record s { in_flight = [] }),
  register_send-IsOwned p fails (record s { in_flight = [] }),
)

pub step-IsOwned :
    (p : CurrentPlayer) (e : Event) (s : Session) → IsOwned p s → Returns (IsOwned p) (step e s)
unfolding step
step-IsOwned p (sends fails b) s o = send-IsOwned p fails b false s o
step-IsOwned p (send_done fails n) s o = process_send-IsOwned p fails n s o
step-IsOwned p disconnects s o = disconnect-IsOwned p s o

pub Returns-map :
    (P Q : Session → Type 0) (m : Outcome Session)
    → Returns P m
    → ((s : Session) → P s → Q s)
    → Returns Q m
Returns-map P Q (ok s) h k = k s h
Returns-map P Q null_dereference h k = absurd h
Returns-map P Q endless_loop h k = absurd h

pub Returns-bind :
    (P Q : Session → Type 0) (m : Outcome Session) (f : Session → Outcome Session)
    → Returns P m
    → ((s : Session) → P s → Returns Q (f s))
    → Returns Q (m >>= f)
Returns-bind P Q (ok s) f h k = k s h
Returns-bind P Q null_dereference f h k = absurd h
Returns-bind P Q endless_loop f h k = absurd h

-- If the handlers of a session run one after the other, each to its end, then once a player has
-- logged in, no order of sends, completions and disconnects makes a handler of the session fail,
-- and at every moment the service has been told to release it at most once: not yet while it is
-- connected, and exactly once afterwards.
pub run-IsOwned :
    (p : CurrentPlayer) (es : List Event) (s : Session)
    → IsOwned p s
    → Returns (IsOwned p) (run es s)
unfolding run
run-IsOwned p [] s o = o
run-IsOwned p (e ∷ es) s o =
    Returns-bind (IsOwned p) (IsOwned p) (step e s) (run es) (step-IsOwned p e s o)
      (λ t. run-IsOwned p es t)
