-- ===== src/Game/Stat/Bounds.antt =====
-- The bounds of hit points under OnDamaged and OnHealed (StatComponent.h).
use simple_mmo.Prelude.{
  All, ap, sym, subst, ◌<◌, ◌∙◌, ◌+◌, ◌↔◌, true, List, [], ◌∷◌, ◌≡◌, refl, arith,
}
use simple_mmo.Prelude.Int.{
  ℤ, pos, ◌≤ℤ◌, ◌+ℤ◌, pos_part, +ℤ_parts, -ℤ_parts, two_31, wrap_int, wrap_int-fits,
}
use simple_mmo.Game.Floats.{Floats}
use simple_mmo.Game.Objects.{StatInfo}
use simple_mmo.Game.Stat.{is_dead, stat_on_damaged, stat_on_healed}

-- What happens to a character's hit points.
pub data Change : Type 0 where
  hit : ℤ → Change
  heal : ℤ → Change

-- The amount is not negative, and healing fits on top of the maximum into 32 bits.
abbrev pub Fits : ℤ → Change → Type 0
Fits max_hp (hit damage) = pos 0 ≤ℤ damage
Fits max_hp (heal healed) = (pos 0 ≤ℤ healed) × (pos_part max_hp + pos_part healed < two_31)

module _ ⦃fl : Floats⦄ where
  pub record IsInBounds (s : StatInfo) : Type 0 where
    pub low : pos 0 ≤ℤ s.hp
    pub high : s.hp ≤ℤ s.max_hp

  -- The actual damage of a hit and the stats after it.
  pub record IsHit (damage : ℤ) (s : StatInfo) (actual : ℤ) (s' : StatInfo) : Type 0 where
    pub bounds : IsInBounds s'
    pub same_max : s'.max_hp ≡ s.max_hp
    pub at_least : pos 0 ≤ℤ actual
    pub at_most : actual ≤ℤ damage
    pub taken : pos_part s'.hp + pos_part actual ≡ pos_part s.hp
    pub kills : (is_dead s'.hp ≡ true) ↔ (s.hp ≤ℤ damage)

  -- To a character whose hit points are between 0 and their maximum, damage that is not negative
  -- does at most what it says, takes exactly what it reports, kills exactly when it reaches the
  -- hit points, and leaves them within these bounds.
  pub stat_on_damaged-IsHit :
      (damage : ℤ) (s : StatInfo)
      → pos 0 ≤ℤ damage
      → IsInBounds s
      → IsHit damage s (stat_on_damaged damage s).0 (stat_on_damaged damage s).1
  unfolding stat_on_damaged
  stat_on_damaged-IsHit damage s d b = ground (arith, b, -ℤ_parts s.hp s.hp, -ℤ_parts s.hp damage)

  wrap_int-healed :
      (amount : ℤ) (s : StatInfo)
      → pos 0 ≤ℤ amount
      → pos_part s.max_hp + pos_part amount < two_31
      → IsInBounds s
      → wrap_int (s.hp +ℤ amount) ≡ s.hp +ℤ amount
  wrap_int-healed amount s d f b =
      wrap_int-fits (s.hp +ℤ amount) (ground (arith, b.low, b.high, +ℤ_parts s.hp amount))
        (ground (arith, b.low, b.high, +ℤ_parts s.hp amount))

  stat_on_healed-IsInBounds :
      (amount : ℤ) (s : StatInfo)
      → pos 0 ≤ℤ amount
      → pos_part s.max_hp + pos_part amount < two_31
      → IsInBounds s
      → IsInBounds (stat_on_healed amount s)
  unfolding stat_on_healed
  stat_on_healed-IsInBounds amount s d f b =
      ground (arith, b, wrap_int-healed amount s d f b, +ℤ_parts s.hp amount)

  abbrev change : Change → StatInfo → StatInfo
  change (hit damage) s = (stat_on_damaged damage s).1
  change (heal amount) s = stat_on_healed amount s

  abbrev pub changes : List Change → StatInfo → StatInfo
  changes [] s = s
  changes (c ∷ cs) s = changes cs (change c s)

  change-IsInBounds :
      (c : Change) (s : StatInfo) → Fits s.max_hp c → IsInBounds s → IsInBounds (change c s)
  change-IsInBounds (hit damage) s d b = (stat_on_damaged-IsHit damage s d b).bounds
  change-IsInBounds (heal healed) s d b = stat_on_healed-IsInBounds healed s d.0 d.1 b

  max_hp-change : (c : Change) (s : StatInfo) → (change c s).max_hp ≡ s.max_hp
  unfolding stat_on_damaged stat_on_healed
  max_hp-change (hit damage) s = ground arith
  max_hp-change (heal healed) s = ground arith

  change-dead : (c : Change) (s : StatInfo) → is_dead s.hp ≡ true → change c s ≡ s
  unfolding stat_on_damaged stat_on_healed
  change-dead (hit damage) s h = ground arith
  change-dead (heal healed) s h = ground arith

  changes-dead : (cs : List Change) (s : StatInfo) → is_dead s.hp ≡ true → changes cs s ≡ s
  changes-dead [] s h = refl
  changes-dead (c ∷ cs) s h = ap (changes cs) (change-dead c s h) ∙ changes-dead cs s h

  -- Whatever amounts of damage and healing, none negative, a character takes whose hit points are
  -- between 0 and their maximum, they stay there, if the maximum and each amount of healing together
  -- are less than 2^31; and if they are 0 at some moment, nothing changes from then on.
  pub changes-IsInBounds :
      (before after : List Change) (s : StatInfo)
      → All (Fits s.max_hp) before
      → IsInBounds s
      → IsInBounds (changes before s)
        × (is_dead (changes before s).hp ≡ true
            → changes after (changes before s) ≡ changes before s)
  changes-IsInBounds [] after s d b = (b, changes-dead after s)
  changes-IsInBounds (c ∷ before) after s d b =
      changes-IsInBounds before after (change c s)
        (subst (λ m. All (Fits m) before) (sym (max_hp-change c s)) d.1)
        (change-IsInBounds c s d.0 b)
