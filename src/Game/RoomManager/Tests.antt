-- ===== src/Game/RoomManager/Tests.antt =====
-- A manager with a full room and one with a place.
use simple_mmo.Prelude.{[], ◌∷◌, ◌≡◌, refl, find, arith}
use simple_mmo.Game.RoomManager.{RoomManager, enter_player, enter_first}
use simple_mmo.Game.RoomManager.Entry.{IsNumbered, Enters, enter_player-Enters}

abbrev manager : RoomManager
manager = record {
  rooms =
      (1, record { num_players = 100; entering = [] })
      ∷ (2, record { num_players = 99; entering = 5 ∷ [] })
      ∷ [];
  last_id = 2;
}

manager-IsNumbered : IsNumbered manager
unfolding find
manager-IsNumbered i l = ground (arith, l)

-- The room with 99 players is given a second job before it has run the first.
over_capacity :
    (enter_player 7 manager).1.rooms
    ≡ (1, record { num_players = 100; entering = [] })
      ∷ (2, record { num_players = 99; entering = 5 ∷ 7 ∷ [] })
      ∷ []
unfolding enter_player enter_first
over_capacity = refl

enter_player-Enters_example : Enters 7 manager (enter_player 7 manager)
enter_player-Enters_example = enter_player-Enters 7 manager manager-IsNumbered
