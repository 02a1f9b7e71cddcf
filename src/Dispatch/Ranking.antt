-- ===== src/Dispatch/Ranking.antt =====
-- The order of the shortlist: `_rank_by_eta` and `_priority_bonuses` of
-- app_base/modules/ride/application/matching_service.py, with `PriorityPolicy.bonus_seconds` of
-- app_base/modules/ride/domain/priority.py. What the location service, the router and the
-- priority ledger answer is an argument.
use diddi_go_backend.Base.{
  ℕ, Bool, not, ◌||◌, Option, none, some, List, [], ◌∷◌, ◌++◌, if◌then◌else◌, leb, length, is_some,
}
use diddi_go_backend.Base.Int.{ℤ, pos, ◌-ℤ◌, ◌*ℤ◌, leb_ℤ, ltb_ℤ}

-- What a wave's ranking asks from outside. `eta` is none for a driver whose position or estimate
-- is missing, `points` for one that the priority ledger does not know, or when it fails.
pub record Estimates : Type 0 where
  pub ranking_enabled : Bool
  pub positions_known : Bool
  pub eta : ℕ → Option ℕ
  pub points : ℕ → Option ℤ
  pub priority_cap_seconds : ℤ
  pub priority_seconds_per_point : ℤ

-- `PriorityPolicy.bonus_seconds`
abbrev pub bonus_seconds : Estimates → ℤ → ℤ
bonus_seconds est points = points *ℤ est.priority_seconds_per_point

abbrev pub min_ℤ : ℤ → ℤ → ℤ
min_ℤ a b = if ltb_ℤ b a then b else a

-- `bonuses.get(user_id, 0)`
abbrev pub capped_bonus : Estimates → Option ℤ → ℤ
capped_bonus est none = pos 0
capped_bonus est (some points) = min_ℤ (bonus_seconds est points) est.priority_cap_seconds

-- The drivers with an estimate, each with the key that the sort uses, and the others.
pub record Timed : Type 0 where
  pub user_id : ℕ
  pub seconds : ℕ

abbrev pub timed_with : Option ℕ → ℕ → List Timed → List Timed
timed_with none u ts = ts
timed_with (some t) u ts = record { user_id = u; seconds = t } ∷ ts

abbrev pub timed : Estimates → List ℕ → List Timed
timed est [] = []
timed est (u ∷ us) = timed_with (est.eta u) u (timed est us)

abbrev pub untimed : Estimates → List ℕ → List ℕ
untimed est [] = []
untimed est (u ∷ us) = if is_some (est.eta u) then untimed est us else u ∷ untimed est us

abbrev pub key : Estimates → Timed → ℤ
key est t = pos t.seconds -ℤ capped_bonus est (est.points t.user_id)

-- `timed.sort(key=…)`, which is stable.
abbrev pub insert : Estimates → Timed → List Timed → List Timed
insert est t [] = t ∷ []
insert est t (u ∷ us) = if leb_ℤ (key est t) (key est u) then t ∷ u ∷ us else u ∷ insert est t us

abbrev pub sort : Estimates → List Timed → List Timed
sort est [] = []
sort est (t ∷ ts) = insert est t (sort est ts)

abbrev pub users : List Timed → List ℕ
users [] = []
users (t ∷ ts) = t.user_id ∷ users ts

-- `_rank_by_eta`
unfoldable pub rank_by_eta : Estimates → Bool → List ℕ → List ℕ
rank_by_eta est has_pickup eligible =
    if not est.ranking_enabled
      || leb (length eligible) 1
      || not has_pickup
      || not est.positions_known
    then eligible
    else users (sort est (timed est eligible)) ++ untimed est eligible
