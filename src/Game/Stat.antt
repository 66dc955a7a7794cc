-- ===== src/Game/Stat.antt =====
-- StatComponent.h: hit points. They are C++ `int`s. The sum of OnHealed wraps around; the difference
-- of OnDamaged can only overflow for negative damage, and that overflow is not modelled.
pub mod Bounds
mod Tests
use simple_mmo.Prelude.{ℕ, Bool, true, false, if◌then◌else◌}
use simple_mmo.Prelude.Int.{ℤ, pos, negsuc, ◌+ℤ◌, ◌-ℤ◌, min_ℤ, wrap_int}
use simple_mmo.Game.Floats.{Floats}
use simple_mmo.Game.Objects.{StatInfo}

-- `_statInfo->hp <= 0`
abbrev pub is_dead : ℤ → Bool
is_dead (pos ℕ.zero) = true
is_dead (pos (ℕ.suc n)) = false
is_dead (negsuc n) = true

module _ ⦃fl : Floats⦄ where
  -- StatComponent::OnDamaged, with the damage done.
  unfoldable pub stat_on_damaged : ℤ → StatInfo → ℤ × StatInfo
  stat_on_damaged damage s =
      if is_dead s.hp
      then (pos 0, s)
      else (let actual_damage = min_ℤ s.hp damage in
          (actual_damage, record s { hp = s.hp -ℤ actual_damage }))

  unfoldable pub stat_on_healed : ℤ → StatInfo → StatInfo
  stat_on_healed amount s =
      if is_dead s.hp then s else record s { hp = min_ℤ s.max_hp (wrap_int (s.hp +ℤ amount)) }
