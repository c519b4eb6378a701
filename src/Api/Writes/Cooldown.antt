-- ===== src/Api/Writes/Cooldown.antt =====
-- The cooldown of `refresh` in api.js.
use Prim.Native.String.{◌++◌}
use league_table.Prelude.{
  ℕ, ◌+◌, ◌<◌, ◌≤◌, String, ◌≡◌, refl, ap, ◌∙◌, Bool, true, false, inl, inr, arith, ltb, count_text,
}
use league_table.Number.{Number}
use league_table.Api.Types.{Result, err, api_error, Snapshot, DataSource, AppStore, ApiState, Env}
use league_table.Api.Actions.{Result-cases}
use league_table.Api.Load.{load}
use league_table.Api.Load.Outcome.{Outcome, load-Outcome}
use league_table.Api.Writes.{refresh_cooldown, seconds_left, refresh}

abbrev pub refusal : {A : Type 0} → ℕ → ℕ → Result A
unfolding count_text
refusal now last = err (
    api_error
      (("Please wait " ++ count_text (seconds_left now last)) ++ "s before refreshing again.") 429)

module _ {W : Type 0} ⦃num : Number W⦄ {S : Type 0} (source : DataSource W)
    (store : AppStore W S) where
  refresh-refused :
      (env : Env) (class_id : String) (s : ApiState W S)
      → env.called_at < s.last_refresh_at + refresh_cooldown
      → refresh source store env class_id s ≡ (refusal env.called_at s.last_refresh_at, s)
  unfolding refresh refusal
  refresh-refused env class_id s h =
      let early : ltb env.called_at (s.last_refresh_at + refresh_cooldown) ≡ true = ground arith in
      rw early refl

  Outcome-last_refresh :
      (env : Env) (class_id : String) (force : Bool) (s : ApiState W S)
      {out : Result (Snapshot W) × ApiState W S}
      → Outcome source store env class_id force s out
      → out.1.last_refresh_at ≡ s.last_refresh_at
  Outcome-last_refresh env class_id force s (Outcome.hit _ _ _ _) = refl
  Outcome-last_refresh env class_id force s (Outcome.refreshed _ _ _) = refl
  Outcome-last_refresh env class_id force s (Outcome.served_stale _ _ _ _ _) = refl
  Outcome-last_refresh env class_id force s (Outcome.failed _ _ _ _) = refl

  refresh-stamps :
      (env : Env) (class_id : String) (s : ApiState W S)
      → s.last_refresh_at + refresh_cooldown ≤ env.called_at
      → (refresh source store env class_id s).1.last_refresh_at ≡ env.called_at
  unfolding refresh refusal
  refresh-stamps env class_id s h =
      let late : ltb env.called_at (s.last_refresh_at + refresh_cooldown) ≡ false = ground arith in
      let stamped : ApiState W S = record s { last_refresh_at = env.called_at } in
      let kept =
        Outcome-last_refresh env class_id true stamped
          (load-Outcome source store env class_id true stamped) in
      rw late (elim (Result-cases (load source store env class_id true stamped).0) [
        | inl (snap, e) ↦ rw e kept
        | inr (x, e) ↦ rw e kept
      ])

  -- The cooldown counts from every refresh that it let through, one whose read failed too, and over
  -- all classes: a later refresh less than 10 seconds after it is refused with 429, the message
  -- saying how long is left, and changes nothing.
  pub refresh_twice :
      (first second : Env) (class_id other : String) (s : ApiState W S)
      → s.last_refresh_at + refresh_cooldown ≤ first.called_at
      → second.called_at < first.called_at + refresh_cooldown
      → let after = (refresh source store first class_id s).1 in
        refresh source store second other after ≡ (refusal second.called_at first.called_at, after)
  refresh_twice first second class_id other s h soon =
      let stamp = refresh-stamps first class_id s h in
      let after = (refresh source store first class_id s).1 in
      refresh-refused second other after (ground arith)
      ∙ ap (λ t. (refusal second.called_at t, after)) stamp
