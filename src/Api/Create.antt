-- ===== src/Api/Create.antt =====
-- `createApi` of api.js: its checks, and the state that it starts with.
use league_table.Prelude.{◌≡◌, refl, Option, none, some, []}
use league_table.Number.{Number}
use league_table.Api.Types.{Result, ok, err, other_error, DataSource, AppStore, ApiState}
use league_table.Api.Interleave.{World}
use league_table.Api.Interleave.Sound.{AreSound}
use league_table.Api.Interleave.Apart.{AreCoherent}

module _ {W S : Type 0} where
  -- the variables before the first call, over a store in this state
  abbrev pub new_state : S → ApiState W S
  new_state state = record { caches = []; last_refresh_at = 0; forced_error = none; store = state }

  unfoldable pub create_api :
      Option (DataSource W) → Option (AppStore W S) → S → Result (ApiState W S)
  create_api none store state = err (other_error "createApi requires a DataSource")
  create_api (some source) none state = err (other_error "createApi requires an AppStore")
  create_api (some source) (some store) state = ok (new_state state)

module _ {W : Type 0} ⦃num : Number W⦄ {S : Type 0} (source : DataSource W)
    (store : AppStore W S) where
  abbrev idle : S → World W S
  idle state = record { api = new_state state; tasks = [] }

  -- With a source and a store the service is created, and it starts with sound snapshots that agree
  -- with the store, as it has none.
  pub create_api-starts :
      (state : S)
      → (create_api (some source) (some store) state ≡ ok (idle state).api)
        × AreSound (idle state)
        × AreCoherent source store (idle state)
  unfolding create_api
  create_api-starts state =
      (refl, record { cache = λ k. tt; tasks = tt }, record { cache = λ k. tt; tasks = tt })
