-- ===== src/Net/Session/Sent.antt =====
-- What a session has given to the socket (Session.cpp): `Disconnect` and `RegisterSend`.
use simple_mmo.Prelude.{
  ℕ, ◌≡◌, refl, sym, ap, ◌∙◌, inl, inr, Bool, true, false, Option, none, some, List, [], ◌∷◌, ◌++◌,
  append_assoc, append-nil, arith, if◌then◌else◌, Bool-cases,
}
use simple_mmo.Net.SendBuffer.{SendBuffer}
use simple_mmo.Net.Session.{
  Session, CurrentPlayer, Effect, start_recv, start_send, leave_room, add_session, release_session,
  ok, disconnect, register_send, Event, sends, note_leave, note,
}
use simple_mmo.Net.Session.Lifetime.{Returns}

-- The buffers that went to `WSASend`, in order.
abbrev pub sent : List Effect → List SendBuffer
sent [] = []
sent (start_send bs ∷ es) = bs ++ sent es
sent (_ ∷ es) = sent es

sent-append : (xs ys : List Effect) → sent (xs ++ ys) ≡ sent xs ++ sent ys
sent-append [] ys = refl
sent-append (start_send bs ∷ xs) ys =
    ap (λ t. bs ++ t) (sent-append xs ys) ∙ sym (append_assoc bs (sent xs) (sent ys))
sent-append (start_recv n ∷ xs) ys = sent-append xs ys
sent-append (leave_room r p ∷ xs) ys = sent-append xs ys
sent-append (add_session i ∷ xs) ys = sent-append xs ys
sent-append (release_session i ∷ xs) ys = sent-append xs ys

pub sent-note : (log : List Effect) (e : Effect) → sent (log ++ e ∷ []) ≡ sent log ++ sent (e ∷ [])
sent-note log e = sent-append log (e ∷ [])

-- The buffers handed to `Send`, in order.
abbrev pub submitted : List Event → List SendBuffer
submitted [] = []
submitted (sends fails b ∷ es) = b ∷ submitted es
submitted (_ ∷ es) = submitted es

-- `all` was handed to `Send`; what was not sent yet is `rest`, and waits in the queue as long as the
-- session is connected. While no send is registered, none is under way and none waits.
pub record IsInOrder (p : CurrentPlayer) (all rest : List SendBuffer) (s : Session) : Type 0 where
  pub logged_in : s.current_player ≡ some p
  pub prefix : sent s.log ++ rest ≡ all
  pub waiting : s.connected ≡ true → rest ≡ s.send_queue
  pub idle : s.send_registered ≡ false → s.in_flight ≡ []
  pub idle_queue : s.connected ≡ true → s.send_registered ≡ false → s.send_queue ≡ []

abbrev pub Sent : CurrentPlayer → List SendBuffer → Session → Type 0
Sent p all s = (rest : List SendBuffer) × IsInOrder p all rest s

leave-sent :
    (room : Option ℕ) (p : ℕ) (s : Session)
    → let t = note_leave room p s in
      (sent t.log ≡ sent s.log)
      × (t.current_player ≡ s.current_player)
      × (t.connected ≡ s.connected)
      × (t.in_flight ≡ s.in_flight)
      × (t.send_registered ≡ s.send_registered)
leave-sent none p s = (refl, refl, refl, refl, refl)
leave-sent (some r) p s =
    (sent-note s.log (leave_room r p) ∙ append-nil (sent s.log), refl, refl, refl, refl)

module _ (p : CurrentPlayer) where
  -- The state that `disconnect` leaves.
  closed : Session → Session
  closed s =
      if s.connected
      then note (release_session s.session_id)
          (note_leave p.room p.player_id (record s { connected = false }))
      else s

  disconnect-closed : (s : Session) → s.current_player ≡ some p → disconnect s ≡ ok (closed s)
  unfolding disconnect closed
  disconnect-closed s l = ground arith

  closed-sent :
      (s : Session)
      → (sent (closed s).log ≡ sent s.log)
        × ((closed s).current_player ≡ s.current_player)
        × ((closed s).connected ≡ false)
        × ((closed s).in_flight ≡ s.in_flight)
        × ((closed s).send_registered ≡ s.send_registered)
  unfolding closed
  closed-sent s =
      let t = record s { connected = false } in
      ground (
        arith,
        leave-sent p.room p.player_id t,
        sent-note (note_leave p.room p.player_id t).log (release_session s.session_id),
        append-nil (sent (note_leave p.room p.player_id t).log),
      )

  pub disconnect-Sent :
      (s : Session) (rest all : List SendBuffer)
      → s.current_player ≡ some p
      → sent s.log ++ rest ≡ all
      → (s.send_registered ≡ false → s.in_flight ≡ [])
      → Returns (Sent p all) (disconnect s)
  disconnect-Sent s rest all l e f =
      rw (disconnect-closed s l) (rest, ground (arith, closed-sent s))

  -- A state that is about to start a send: none is under way, and one is registered.
  pub record IsReady (all rest : List SendBuffer) (s : Session) : Type 0 where
    pub logged_in : s.current_player ≡ some p
    pub prefix : sent s.log ++ rest ≡ all
    pub waiting : s.connected ≡ true → rest ≡ s.send_queue
    pub none_under_way : s.in_flight ≡ []
    pub registered : s.connected ≡ true → s.send_registered ≡ true

  abbrev started : Session → Session
  started s = record s {
    in_flight = s.in_flight ++ s.send_queue;
    send_queue = [];
    log = s.log ++ start_send (s.in_flight ++ s.send_queue) ∷ [];
  }

  sent-started :
      (all rest : List SendBuffer) (s : Session)
      → IsReady all rest s
      → s.connected ≡ true
      → sent (started s).log ++ [] ≡ all
  sent-started all rest s r c =
      append-nil (sent (started s).log)
      ∙ sent-note s.log (start_send (s.in_flight ++ s.send_queue))
      ∙ ground (arith, r, append-nil s.send_queue)

  register_send-skipped :
      (fails : Bool) (s : Session) → s.connected ≡ false → register_send fails s ≡ ok s
  unfolding register_send
  register_send-skipped fails s c = ground arith

  register_send-failing :
      (s : Session)
      → s.connected ≡ true
      → register_send true s
        ≡ disconnect (record (started s) { in_flight = []; send_registered = false })
  unfolding register_send
  register_send-failing s c = ground arith

  register_send-started :
      (s : Session) → s.connected ≡ true → register_send false s ≡ ok (started s)
  unfolding register_send
  register_send-started s c = ground arith

  pub register_send-Sent :
      (all rest : List SendBuffer) (fails : Bool) (s : Session)
      → IsReady all rest s
      → Returns (Sent p all) (register_send fails s)
  register_send-Sent all rest true s r = elim (Bool-cases s.connected) [
    | inr c ↦ rw (register_send-skipped true s c) (rest, ground arith)
    | inl c ↦ rw (register_send-failing s c) (
        disconnect-Sent (record (started s) { in_flight = []; send_registered = false }) [] all
          r.logged_in (sent-started all rest s r c) (λ _. refl))
  ]
  register_send-Sent all rest false s r = elim (Bool-cases s.connected) [
    | inr c ↦ rw (register_send-skipped false s c) (rest, ground arith)
    | inl c ↦ rw (register_send-started s c) ([], ground (arith, sent-started all rest s r c))
  ]
