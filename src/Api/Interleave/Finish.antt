-- ===== src/Api/Interleave/Finish.antt =====
-- Every call of api.js that is in flight ends.
use league_table.Prelude.{ℕ, suc, ◌+◌, ◌≡◌, List, [], ◌∷◌}
use league_table.Number.{Number}
use league_table.Api.Types.{DataSource, AppStore}
use league_table.Api.Interleave.{Task, loading, loaded, saving, World, Advance}

module _ {W : Type 0} where
  -- the steps that a call has left
  abbrev pub steps_left : Task W → ℕ
  steps_left (loading class_id cached failure) = 2
  steps_left (loaded class_id cached answer) = 1
  steps_left (saving class_id saved) = 1

  abbrev pub all_steps_left : List (Task W) → ℕ
  all_steps_left [] = 0
  all_steps_left (task ∷ tasks) = steps_left task + all_steps_left tasks

module _ {W : Type 0} ⦃num : Number W⦄ {S : Type 0} (source : DataSource W)
    (store : AppStore W S) where
  -- `n` steps of calls in flight, while no call starts
  pub data Drain (w : World W S) : ℕ → World W S → Type 0 where
    start : Drain w 0 w
    then_advance :
        {n : ℕ} {u v : World W S} → Drain w n u → Advance source store u v → Drain w (suc n) v

  abbrev pub Drained : World W S → ℕ → Type 0
  Drained w n = (u : World W S) × (u.tasks ≡ []) × Drain w n u
