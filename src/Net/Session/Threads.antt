-- ===== src/Net/Session/Threads.antt =====
-- The threads that send through one session (Session.cpp): `Send`, `RegisterSend` and `ProcessSend`
-- while it is connected, no `WSASend` fails and no completion reports 0 bytes. Each operation on the
-- queue and on the atomic flag is one step, and any thread may take the next step. The counters say
-- how many threads stand at a point of the code.
pub mod Order
pub mod Races
mod Tests
use simple_mmo.Prelude.{ℕ, suc, Bool, true, false, List, [], ◌∷◌, ◌++◌, ◌≡◌}

pub record SendThreads : Type 0 where
  -- `_sendQueue`, its oldest buffer first, `_sendRegistered`, and `_sendEvent.sendBuffers`
  pub send_queue : List ℕ
  pub send_registered : Bool
  pub send_buffers : List ℕ
  -- in `Send`, before the exchange
  pub pushing : ℕ
  -- in the loop of `RegisterSend`
  pub gathering : ℕ
  -- `WSASend` has been called and has not completed
  pub in_socket : ℕ
  -- in `ProcessSend`: before `isEmpty`, and between it and the store
  pub completing : ℕ
  pub closing : ℕ
  -- the buffers handed to `Send` and those handed to `WSASend` so far, oldest first
  pub submitted : List ℕ
  pub sent : List ℕ

-- A connected session through which nobody sends, after these buffers.
abbrev pub at_rest : List ℕ → List ℕ → List ℕ → SendThreads
at_rest waiting all done = record {
  send_queue = waiting;
  send_registered = false;
  send_buffers = [];
  pushing = 0;
  gathering = 0;
  in_socket = 0;
  completing = 0;
  closing = 0;
  submitted = all;
  sent = done;
}

pub data SendStep (s : SendThreads) : SendThreads → Type 0 where
  -- `_sendQueue.Push(sendBuffer)`
  push :
      (b : ℕ)
      → SendStep s (record s {
        send_queue = s.send_queue ++ b ∷ [];
        submitted = s.submitted ++ b ∷ [];
        pushing = suc s.pushing;
      })
  -- `compare_exchange_strong` succeeds, or fails
  register :
      {n : ℕ}
      → s.pushing ≡ suc n
      → s.send_registered ≡ false
      → SendStep s (record s { pushing = n; send_registered = true; gathering = suc s.gathering })
  already_registered :
      {n : ℕ} → s.pushing ≡ suc n → s.send_registered ≡ true → SendStep s (record s { pushing = n })
  -- `Try_pop` with a buffer; without one, and then `WSASend` of what has been gathered
  gather :
      {n : ℕ} {b : ℕ} {rest : List ℕ}
      → s.gathering ≡ suc n
      → s.send_queue ≡ b ∷ rest
      → SendStep s (record s { send_queue = rest; send_buffers = s.send_buffers ++ b ∷ [] })
  start :
      {n : ℕ}
      → s.gathering ≡ suc n
      → s.send_queue ≡ []
      → SendStep s
          (record s { gathering = n; in_socket = suc s.in_socket; sent = s.sent ++ s.send_buffers })
  -- `ProcessSend` on a thread that takes the completion
  complete :
      {n : ℕ}
      → s.in_socket ≡ suc n
      → SendStep s (record s { in_socket = n; send_buffers = []; completing = suc s.completing })
  -- `isEmpty`, or not
  found_empty :
      {n : ℕ}
      → s.completing ≡ suc n
      → s.send_queue ≡ []
      → SendStep s (record s { completing = n; closing = suc s.closing })
  found_more :
      {n : ℕ} {b : ℕ} {rest : List ℕ}
      → s.completing ≡ suc n
      → s.send_queue ≡ b ∷ rest
      → SendStep s (record s { completing = n; gathering = suc s.gathering })
  -- `_sendRegistered.store(false)`
  store :
      {n : ℕ} → s.closing ≡ suc n → SendStep s (record s { closing = n; send_registered = false })

pub data Reach (s : SendThreads) : SendThreads → Type 0 where
  here : Reach s s
  next : {t u : SendThreads} → Reach s t → SendStep t u → Reach s u
