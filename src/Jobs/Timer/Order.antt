-- ===== src/Jobs/Timer/Order.antt =====
-- The order of the timer's queue (Timer.h, Timer.cpp), and what a round releases.
use simple_mmo.Prelude.{
  ℕ, suc, ◌≤◌, ◌<◌, true, List, [], ◌∷◌, ◌++◌, ◌≡◌, refl, ap, arith, All, dec_lt, map, le→leb,
  lt→leb,
}
use simple_mmo.Jobs.Timer.{TimerItem, push, reserve, collect, release, run_once}

-- Ascending by time.
abbrev pub IsAscending : List TimerItem → Type 0
IsAscending [] = Unit {0}
IsAscending (x ∷ q) = All (λ y. x.execute_time ≤ y.execute_time) q × IsAscending q

abbrev AllFrom : ℕ → List TimerItem → Type 0
AllFrom t = All (λ y. t ≤ y.execute_time)

AllFrom-mono : (s t : ℕ) (q : List TimerItem) → s ≤ t → AllFrom t q → AllFrom s q
AllFrom-mono s t [] h a = tt
AllFrom-mono s t (y ∷ q) h a = (omega arith, AllFrom-mono s t q h a.1)

push-AllFrom :
    (t : ℕ) (x : TimerItem) (q : List TimerItem)
    → t ≤ x.execute_time
    → AllFrom t q
    → AllFrom t (push x q)
unfolding push
push-AllFrom t x [] h a = (h, tt)
push-AllFrom t x (y ∷ q) h a = ground (arith, push-AllFrom t x q h a.1)

push-IsAscending : (x : TimerItem) (q : List TimerItem) → IsAscending q → IsAscending (push x q)
unfolding push
push-IsAscending x [] a = (tt, tt)
push-IsAscending x (y ∷ q) a = elim (dec_lt x.execute_time y.execute_time) [
  | yes h ↦ ground (arith, AllFrom-mono x.execute_time y.execute_time q (omega arith) a.0)
  | no h ↦
      ground (arith, push-AllFrom y.execute_time x q (omega arith) a.0, push-IsAscending x q a.1)
]

-- Reserve keeps a queue whose items stand in ascending order of their times in that order, so that
-- the earliest is on top.
pub reserve-IsAscending :
    (now ms job target : ℕ) (q : List TimerItem)
    → IsAscending q
    → IsAscending (reserve now ms job target q)
unfolding reserve
reserve-IsAscending now ms job target q a = push-IsAscending _ q a

release-map : (xs : List TimerItem) → release (λ _. true) xs ≡ map (λ x. (x.job_queue, x.job)) xs
unfolding release
release-map [] = refl
release-map (x ∷ xs) = ap (λ t. (x.job_queue, x.job) ∷ t) (release-map xs)

AllFrom-append_left : (t : ℕ) (xs ys : List TimerItem) → AllFrom t (xs ++ ys) → AllFrom t xs
AllFrom-append_left t [] ys a = tt
AllFrom-append_left t (x ∷ xs) ys a = (a.0, AllFrom-append_left t xs ys a.1)

-- The parts into which `collect` cuts the queue.
pub record IsCut (now : ℕ) (q ready rest : List TimerItem) : Type 0 where
  pub whole : ready ++ rest ≡ q
  pub due : All (λ x. x.execute_time ≤ now) ready
  pub not_due : All (λ x. now < x.execute_time) rest
  pub ready_ascending : IsAscending ready
  pub rest_ascending : IsAscending rest

collect-due :
    (now : ℕ) (x : TimerItem) (q ready rest : List TimerItem)
    → x.execute_time ≤ now
    → IsAscending (x ∷ q)
    → IsCut now q ready rest
    → IsCut now (x ∷ q) (x ∷ ready) rest
collect-due now x q ready rest h a c = record {
  whole = ap (λ t. x ∷ t) c.whole;
  due = (h, c.due);
  not_due = c.not_due;
  ready_ascending =
      (AllFrom-append_left x.execute_time ready rest (rw c.whole a.0), c.ready_ascending);
  rest_ascending = c.rest_ascending;
}

-- On an ascending queue a round takes out exactly the items that are due, in ascending order, and
-- leaves exactly those that are not, in ascending order; none is lost, made up or changed.
pub collect-IsCut :
    (now : ℕ) (q : List TimerItem) → IsAscending q → IsCut now q (collect now q).0 (collect now q).1
unfolding collect
collect-IsCut now [] a = record {
  whole = refl;
  due = tt;
  not_due = tt;
  ready_ascending = tt;
  rest_ascending = tt;
}
collect-IsCut now (x ∷ q) a = elim (dec_lt now x.execute_time) [
  | yes h ↦ rw (lt→leb now x.execute_time h) (record {
    whole = refl;
    due = tt;
    not_due = (h, AllFrom-mono (suc now) x.execute_time q h a.0);
    ready_ascending = tt;
    rest_ascending = a;
  })
  | no h ↦ rw (le→leb x.execute_time now (omega arith)) (
      collect-due now x q (collect now q).0 (collect now q).1 (omega arith) a
        (collect-IsCut now q a.1))
]

-- A round pushes, to queues that are all alive, the jobs of exactly the due items, in the order of
-- their times, and keeps the other items.
pub run_once-jobs :
    (now : ℕ) (q : List TimerItem)
    → IsAscending q
    → (ready : List TimerItem) × IsCut now q ready (run_once (λ _. true) now q).1
      × ((run_once (λ _. true) now q).0 ≡ map (λ x. (x.job_queue, x.job)) ready)
unfolding run_once
run_once-jobs now q a = ((collect now q).0, collect-IsCut now q a, release-map (collect now q).0)
