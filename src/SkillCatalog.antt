-- ===== src/SkillCatalog.antt =====
-- The skills and who has learnt them: include/SkillCatalog.h, src/SkillCatalog.cpp,
-- include/PlayerSkillBook.h and src/PlayerSkillBook.cpp.
use dnf_mock_server_client.Prelude.{
  ℕ, nat_eq, Bool, true, false, ◌&&◌, ◌||◌, not, Option, none, some, List, ltb, ◌==◌, if◌then◌else◌,
  is_some, length, all,
}
use dnf_mock_server_client.Map.{Map, find, contains, emplace, size}
use Prim.Native.String.{String}
use dnf_mock_server_client.Prelude.{string_eq}
use dnf_mock_server_client.Float.{Float, ◌<f◌, ◌≤f◌, zero_float}
use dnf_mock_server_client.Sort.{sort_by}

pub data SkillEffectType : Type 0 where
  damage heal buff debuff : SkillEffectType

pub data SkillTargetType : Type 0 where
  self party enemy : SkillTargetType

pub data SkillStat : Type 0 where
  no_stat attack defense move_speed : SkillStat

pub record SkillEffect (R : Type 0) : Type 0 where
  pub type : SkillEffectType
  pub target : SkillTargetType
  pub stat : SkillStat
  pub value : R
  pub duration_ticks : ℕ

pub record SkillHitBox (R : Type 0) : Type 0 where
  pub forward_range : R
  pub backward_range : R
  pub half_depth : R
  pub height : R

pub record SkillTemplate (R : Type 0) : Type 0 where
  pub id : ℕ
  pub name : String
  pub cooldown_ticks : ℕ
  pub mana_cost : ℕ
  pub startup_ticks : ℕ
  pub active_ticks : ℕ
  pub recovery_ticks : ℕ
  pub hit_box : SkillHitBox R
  pub effects : List (SkillEffect R)

abbrev pub SkillCatalog : Type 0 → Type 0
SkillCatalog R = Map ℕ (SkillTemplate R)

abbrev pub has_stat : SkillStat → Bool
has_stat SkillStat.no_stat = false
has_stat _ = true

unfoldable pub is_valid_target : SkillEffectType → SkillTargetType → Bool
is_valid_target SkillEffectType.damage SkillTargetType.enemy = true
is_valid_target SkillEffectType.debuff SkillTargetType.enemy = true
is_valid_target SkillEffectType.heal SkillTargetType.self = true
is_valid_target SkillEffectType.heal SkillTargetType.party = true
is_valid_target SkillEffectType.buff SkillTargetType.self = true
is_valid_target SkillEffectType.buff SkillTargetType.party = true
is_valid_target _ _ = false

abbrev pub is_status_effect : SkillEffectType → Bool
is_status_effect SkillEffectType.buff = true
is_status_effect SkillEffectType.debuff = true
is_status_effect _ = false

module _ {R : Type 0} ⦃f : Float R⦄ where
  unfoldable pub is_valid_effect : SkillEffect R → Bool
  unfolding is_valid_target
  is_valid_effect effect =
      if not (is_valid_target effect.type effect.target)
        || not (f.is_finite effect.value)
        || effect.value ≤f zero_float
      then false
      else if is_status_effect effect.type
      then has_stat effect.stat && ltb 0 effect.duration_ticks
      else not (has_stat effect.stat) && effect.duration_ticks == 0

  unfoldable pub is_valid_hit_box : SkillHitBox R → Bool
  is_valid_hit_box box =
      f.is_finite box.forward_range
      && f.is_finite box.backward_range
      && f.is_finite box.half_depth
      && f.is_finite box.height
      && zero_float <f box.forward_range
      && zero_float ≤f box.backward_range
      && zero_float <f box.half_depth
      && zero_float <f box.height

  unfoldable pub add_skill : SkillCatalog R → SkillTemplate R → SkillCatalog R × Bool
  unfolding is_valid_effect is_valid_hit_box
  add_skill catalog skill =
      if skill.id == 0
        || skill.name == ""
        || skill.active_ticks == 0
        || not (is_valid_hit_box skill.hit_box)
        || length skill.effects == 0
        || contains skill.id catalog
      then (catalog, false)
      else if not (all is_valid_effect skill.effects)
      then (catalog, false)
      else (emplace skill.id skill catalog, true)

module _ {R : Type 0} where
  unfoldable pub get_skill : SkillCatalog R → ℕ → Option (SkillTemplate R)
  get_skill catalog skill_id = find skill_id catalog

  unfoldable pub skill_count : SkillCatalog R → ℕ
  skill_count catalog = size catalog

  -- A skill book is the table of the levels.
  unfoldable pub learn_skill : SkillCatalog R → Map ℕ ℕ → ℕ → Map ℕ ℕ × Bool
  learn_skill catalog book skill_id =
      if not (is_some (get_skill catalog skill_id))
      then (book, false)
      else (emplace skill_id 1 book, not (contains skill_id book))

unfoldable pub has_skill : Map ℕ ℕ → ℕ → Bool
has_skill book skill_id = contains skill_id book

unfoldable pub skill_level : Map ℕ ℕ → ℕ → ℕ
skill_level book skill_id = elim (find skill_id book) [ none ↦ 0 | some level ↦ level ]

-- `Snapshot`: the skills with their levels, by id.
unfoldable pub owned_skills : Map ℕ ℕ → List (ℕ × ℕ)
owned_skills book = sort_by (λ e. e.0) book
