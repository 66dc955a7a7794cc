-- ===== src/Net/Session/Sending.antt =====
-- The order of what a session sends: `Send`, `RegisterSend` and `ProcessSend`, each run to its end.
use simple_mmo.Prelude.{
  ℕ, ◌≡◌, refl, sym, ap, ◌∙◌, inl, inr, Bool, true, false, some, List, [], ◌∷◌, ◌++◌, append_assoc,
  append-nil, arith, Bool-cases, ◌≢◌, ℕ_discrete,
}
use simple_mmo.Net.SendBuffer.{SendBuffer}
use simple_mmo.Net.Session.{
  Session, CurrentPlayer, ok, disconnect, register_send, send, process_send, Event, sends,
  send_done, disconnects, step, run,
}
use simple_mmo.Net.SendBufferQueue.{is_empty}
use simple_mmo.Net.Session.Lifetime.{Returns, Returns-bind, Returns-map}
use simple_mmo.Net.Session.Sent.{
  sent, submitted, IsInOrder, Sent, disconnect-Sent, register_send-Sent,
}

module _ (p : CurrentPlayer) where
  abbrev pushed : SendBuffer → Session → Session
  pushed b s = record s { send_queue = s.send_queue ++ b ∷ [] }

  send-closed :
      (fails : Bool) (b : SendBuffer) (s : Session)
      → s.connected ≡ false
      → send fails b false s ≡ ok s
  unfolding send
  send-closed fails b s c = ground arith

  send-queued :
      (fails : Bool) (b : SendBuffer) (s : Session)
      → s.connected ≡ true
      → s.send_registered ≡ true
      → send fails b false s ≡ ok (pushed b s)
  unfolding send
  send-queued fails b s c g = ground arith

  send-register_send :
      (fails : Bool) (b : SendBuffer) (s : Session)
      → s.connected ≡ true
      → s.send_registered ≡ false
      → send fails b false s ≡ register_send fails (record (pushed b s) { send_registered = true })
  unfolding send
  send-register_send fails b s c g = ground arith

  send-Sent :
      (all rest : List SendBuffer) (fails : Bool) (b : SendBuffer) (s : Session)
      → IsInOrder p all rest s
      → Returns (Sent p (all ++ b ∷ [])) (send fails b false s)
  send-Sent all rest fails b s v =
      let longer : sent s.log ++ (rest ++ b ∷ []) ≡ all ++ b ∷ [] =
        sym (append_assoc (sent s.log) rest (b ∷ [])) ∙ ap (λ t. t ++ b ∷ []) v.prefix in
      elim (Bool-cases s.connected) [
        | inr c ↦ rw (send-closed fails b s c) (rest ++ b ∷ [], ground (arith, longer))
        | inl c ↦ elim (Bool-cases s.send_registered) [
          | inl g ↦ rw (send-queued fails b s c g) (rest ++ b ∷ [], ground (arith, longer))
          | inr g ↦ rw (send-register_send fails b s c g) (
              register_send-Sent p (all ++ b ∷ []) (rest ++ b ∷ []) fails
                (record (pushed b s) { send_registered = true }) (ground (arith, longer)))
        ]
      ]

  process_send-disconnect :
      (fails : Bool) (s : Session)
      → process_send fails 0 s ≡ disconnect (record s { in_flight = [] })
  unfolding process_send
  process_send-disconnect fails s = refl

  process_send-idle :
      (fails : Bool) (n : ℕ) (s : Session)
      → n ≢ 0
      → s.send_queue ≡ []
      → process_send fails n s ≡ ok (record s { in_flight = []; send_registered = false })
  unfolding process_send
  process_send-idle fails n s nz e = ground arith

  process_send-register_send :
      (fails : Bool) (n : ℕ) (s : Session)
      → n ≢ 0
      → is_empty s.send_queue ≡ false
      → process_send fails n s ≡ register_send fails (record s { in_flight = [] })
  unfolding process_send
  process_send-register_send fails n s nz e = ground arith

  empty : (q : List SendBuffer) → is_empty q ≡ true → q ≡ []
  empty [] e = refl
  empty (b ∷ q) e = cc

  process_send-Sent :
      (all rest : List SendBuffer) (fails : Bool) (n : ℕ) (s : Session)
      → IsInOrder p all rest s
      → Returns (Sent p all) (process_send fails n s)
  process_send-Sent all rest fails n s v = elim (ℕ_discrete n 0) [
    | yes z ↦
        rw (z, process_send-disconnect fails s)
          (disconnect-Sent p (record s { in_flight = [] }) rest all v.logged_in v.prefix
            (λ _. refl))
    | no nz ↦ elim (Bool-cases (is_empty s.send_queue)) [
      | inl e ↦
          rw (process_send-idle fails n s nz (empty s.send_queue e))
            (rest, ground (arith, empty s.send_queue e))
      | inr e ↦ rw (process_send-register_send fails n s nz e) (
          register_send-Sent p all rest fails (record s { in_flight = [] })
            (record {
              logged_in = v.logged_in;
              prefix = v.prefix;
              waiting = v.waiting;
              none_under_way = refl;
              registered = ground arith;
            }))
    ]
  ]

  step-Sent :
      (all : List SendBuffer) (e : Event) (s : Session)
      → Sent p all s
      → Returns (Sent p (all ++ submitted (e ∷ []))) (step e s)
  unfolding step
  step-Sent all (sends fails b) s (rest, v) = send-Sent all rest fails b s v
  step-Sent all (send_done fails n) s (rest, v) =
      rw (append-nil all) (process_send-Sent all rest fails n s v)
  step-Sent all disconnects s (rest, v) =
      rw (append-nil all) (disconnect-Sent p s rest all v.logged_in v.prefix v.idle)

  submitted-cons :
      (e : Event) (es : List Event) → submitted (e ∷ []) ++ submitted es ≡ submitted (e ∷ es)
  submitted-cons (sends fails b) es = refl
  submitted-cons (send_done fails n) es = refl
  submitted-cons disconnects es = refl

  run-Sent :
      (all : List SendBuffer) (es : List Event) (s : Session)
      → Sent p all s
      → Returns (Sent p (all ++ submitted es)) (run es s)
  unfolding run
  run-Sent all [] s v = rw (append-nil all) v
  run-Sent all (e ∷ es) s v =
      Returns-bind (Sent p (all ++ submitted (e ∷ []))) (Sent p (all ++ submitted (e ∷ es)))
        (step e s) (run es) (step-Sent all e s v)
        (λ t w.
          rw (← submitted-cons e es, ← append_assoc all (submitted (e ∷ [])) (submitted es))
            (run-Sent (all ++ submitted (e ∷ [])) es t w))

-- A session that a player has logged in to, with nothing sent or waiting.
pub record IsFresh (p : CurrentPlayer) (s : Session) : Type 0 where
  pub logged_in : s.current_player ≡ some p
  pub unsent : sent s.log ≡ []
  pub no_queue : s.send_queue ≡ []
  pub none_under_way : s.in_flight ≡ []

-- `all` splits into what was sent and what the queue still holds.
abbrev pub SplitsInOrder : List SendBuffer → Session → Type 0
SplitsInOrder all t =
    (rest : List SendBuffer) × (sent t.log ++ rest ≡ all)
    × (t.connected ≡ true → rest ≡ t.send_queue)
    × (t.connected ≡ true → t.send_registered ≡ false → rest ≡ [])

-- If the handlers of a session run one after the other, each to its end, then from a fresh
-- logged-in session on, whatever sends, completions and disconnects happen, no handler fails, and
-- the buffers given to the socket are, in order and each once, a first part of those handed to
-- Send; the others are, while the session is connected, exactly those in its queue, and there are
-- none when no send is registered.
pub run-sent :
    (p : CurrentPlayer) (es : List Event) (s : Session)
    → IsFresh p s
    → Returns (SplitsInOrder (submitted es)) (run es s)
run-sent p es s f =
    Returns-map (Sent p (submitted es)) (SplitsInOrder (submitted es)) (run es s)
      (run-Sent p [] es s ([], ground (arith, f)))
      (λ t v. (v.0, v.1.prefix, v.1.waiting, ground (arith, v.1)))
