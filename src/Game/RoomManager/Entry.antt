-- ===== src/Game/RoomManager/Entry.antt =====
-- What `RoomManager::EnterPlayer` (Room.cpp) queues.
use simple_mmo.Prelude.{
  ℕ, suc, ◌+◌, ◌<◌, true, false, Option, none, some, [], ◌∷◌, ◌==◌, if◌then◌else◌, ltb, Dict, find,
  emplace, All, ◌++◌, subst, ◌≡◌, refl, ap, ◌∙◌, arith, Bool-cases, inl, inr, ==_refl,
}
use simple_mmo.Game.Removal.{count, count-append}
use simple_mmo.Game.RoomManager.{
  ManagedRoom, RoomManager, max_room_capacity, push_enter, skip_room, enter_first, push_to,
  create_room, entered_or_new, enter_player,
}

-- How many jobs are queued by which a player enters a room.
unfoldable pub queued : ℕ → Dict ManagedRoom → ℕ
queued p [] = 0
queued p ((id, room) ∷ rooms) = count p room.entering + queued p rooms

-- No id above the last one given is in use.
abbrev pub IsNumbered : RoomManager → Type 0
IsNumbered m = (i : ℕ) → m.last_id < i → find i m.rooms ≡ none

abbrev pub AreFull : Dict ManagedRoom → Type 0
AreFull = All (λ e. ltb e.1.num_players max_room_capacity ≡ false)

-- The rooms with the job in one of them, which has fewer players than the capacity and comes behind
-- full rooms only.
pub record EntersFirst (player id : ℕ) (rooms after : Dict ManagedRoom) : Type 0 where
  pub skipped : Dict ManagedRoom
  pub room : ManagedRoom
  pub others : Dict ManagedRoom
  pub were : rooms ≡ skipped ++ (id, room) ∷ others
  pub skipped_full : AreFull skipped
  pub has_space : ltb room.num_players max_room_capacity ≡ true
  pub now : after ≡ skipped ++ (id, push_enter player room) ∷ others

abbrev pub fresh_room : ManagedRoom
fresh_room = record { num_players = 0; entering = [] }

-- One job more for the player, none for others, in the first room with space, and a new room only
-- if all are full, with nobody else in it.
pub record Enters (player : ℕ) (m : RoomManager) (after : Option ℕ × RoomManager) : Type 0 where
  pub jobs : (p : ℕ) → queued p after.1.rooms ≡ (if player == p then 1 else 0) + queued p m.rooms
  pub full : after.0 ≡ none → AreFull m.rooms
  pub entered : (id : ℕ) → after.0 ≡ some id → EntersFirst player id m.rooms after.1.rooms
  pub created :
      after.0 ≡ none → after.1.rooms ≡ (suc m.last_id, push_enter player fresh_room) ∷ m.rooms
  pub numbered : IsNumbered after.1

queued_push :
    (player p id : ℕ) (room : ManagedRoom) (rooms : Dict ManagedRoom)
    → queued p ((id, push_enter player room) ∷ rooms)
      ≡ (if player == p then 1 else 0) + (count p room.entering + queued p rooms)
unfolding queued count
queued_push player p id room rooms = ground (arith, count-append p room.entering (player ∷ []))

-- The same keys as before.
abbrev SameKeys : Dict ManagedRoom → Dict ManagedRoom → Type 0
SameKeys rooms rooms' = (i : ℕ) → find i rooms ≡ none → find i rooms' ≡ none

abbrev Finds : ℕ → Dict ManagedRoom → Option (ℕ × Dict ManagedRoom) → Type 0
Finds player rooms none = AreFull rooms
Finds player rooms (some (id, rooms')) =
    ((p : ℕ) → queued p rooms' ≡ (if player == p then 1 else 0) + queued p rooms)
    × SameKeys rooms rooms'
    × EntersFirst player id rooms rooms'

SameKeys-front :
    (id : ℕ) (a b : ManagedRoom) (rooms rooms' : Dict ManagedRoom)
    → SameKeys rooms rooms'
    → SameKeys ((id, a) ∷ rooms) ((id, b) ∷ rooms')
unfolding find
SameKeys-front id a b rooms rooms' k i h = ground (arith, k i)

skip_room-Finds :
    (player id : ℕ) (room : ManagedRoom) (rooms : Dict ManagedRoom)
    (rest : Option (ℕ × Dict ManagedRoom))
    → ltb room.num_players max_room_capacity ≡ false
    → Finds player rooms rest
    → Finds player ((id, room) ∷ rooms) (skip_room id room rest)
unfolding queued
skip_room-Finds player id room rooms none full w = (full, w)
skip_room-Finds player id room rooms (some (i, rooms')) full (w, k, e) = (
  λ p. omega (arith, w p),
  SameKeys-front id room room rooms rooms' k,
  record {
    skipped = (id, room) ∷ e.skipped;
    room = e.room;
    others = e.others;
    were = ap (λ l. (id, room) ∷ l) e.were;
    skipped_full = (full, e.skipped_full);
    has_space = e.has_space;
    now = ap (λ l. (id, room) ∷ l) e.now;
  },
)

enter_first-Finds :
    (player : ℕ) (rooms : Dict ManagedRoom) → Finds player rooms (enter_first player rooms)
unfolding enter_first queued
enter_first-Finds player [] = tt
enter_first-Finds player ((id, room) ∷ rooms) =
    elim (Bool-cases (ltb room.num_players max_room_capacity)) [
      | inl free ↦ rw free (
        λ p. queued_push player p id room rooms,
        SameKeys-front id room (push_enter player room) rooms rooms (λ i h. h),
        record {
          skipped = [];
          room = room;
          others = rooms;
          were = refl;
          skipped_full = tt;
          has_space = free;
          now = refl;
        },
      )
      | inr full ↦ rw full (
          skip_room-Finds player id room rooms (enter_first player rooms) full
            (enter_first-Finds player rooms))
    ]

push_to-create_room :
    (player : ℕ) (m : RoomManager)
    → IsNumbered m
    → push_to player (suc m.last_id) (create_room m).1.rooms
      ≡ (suc m.last_id, push_enter player fresh_room) ∷ m.rooms
unfolding create_room emplace push_to
push_to-create_room player m h = rw (h (suc m.last_id) (omega arith), ==_refl (suc m.last_id)) refl

entered-Enters :
    (player : ℕ) (m : RoomManager) (o : Option (ℕ × Dict ManagedRoom))
    → IsNumbered m
    → Finds player m.rooms o
    → Enters player m (entered_or_new player m o)
unfolding create_room queued find count
entered-Enters player m (some (id, rooms)) h (w, k, f) = record {
  jobs = w;
  full = λ e. cc;
  entered = λ i e. subst (λ j. EntersFirst player j m.rooms rooms) (cc) f;
  created = λ e. cc;
  numbered = λ i l. k i (h i l);
}
entered-Enters player m none h full = record {
  jobs = λ p. ap (queued p) (push_to-create_room player m h) ∙ ground arith;
  full = λ e. full;
  entered = λ i e. cc;
  created = λ e. push_to-create_room player m h;
  numbered =
      λ i l. ap (find i) (push_to-create_room player m h) ∙ ground (arith, h i (omega (arith, l)));
}

-- If no id above the last one given is in use, EnterPlayer queues exactly one more job by which
-- the player enters a room and none for anyone else; where it gives the player an owner, that is
-- the first room with fewer than 100 players, the job is the last of that room's, and all other
-- rooms are as before; it makes a new room, with the next id and the job for it, only if all rooms
-- are full; and no id above the last one given is in use afterwards.
pub enter_player-Enters :
    (player : ℕ) (m : RoomManager) → IsNumbered m → Enters player m (enter_player player m)
unfolding enter_player
enter_player-Enters player m h =
    entered-Enters player m (enter_first player m.rooms) h (enter_first-Finds player m.rooms)
