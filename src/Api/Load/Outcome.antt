-- ===== src/Api/Load/Outcome.antt =====
-- What `load` answers and what it leaves in the cache, on every path.
use league_table.Prelude.{
  ◌+◌, ◌<◌, String, ◌≡◌, ◌≢◌, refl, ap, sym, ◌∙◌, Bool, true, false, none, some, ◌⊎◌, inl, inr,
  arith, Bool-cases, Option-cases, ltb, lookup, insert,
}
use league_table.Number.{Number}
use league_table.Api.Types.{Error, Result, ok, err, Snapshot, DataSource, AppStore, ApiState, Env}
use league_table.Api.Actions.{Result-cases, ok-injective, lookup-insert_self, lookup-insert_ne}
use league_table.Api.Load.{cache_ttl, fail_first, attempt, is_fresh, settle, load}

module _ {W : Type 0} ⦃num : Number W⦄ {S : Type 0} (source : DataSource W) (store : AppStore W S)
    (env : Env) (class_id : String) (force : Bool) (s : ApiState W S) where
  -- The read that `load` makes when the cache does not answer.
  abbrev pub reading : Result (Snapshot W)
  reading = attempt source store env s class_id (fail_first source store env s.forced_error)

  -- The cache does not answer: a refresh is forced, or nothing is cached for less than a minute.
  abbrev pub MustRead : Type 0
  MustRead = (force ≡ true) ⊎ (is_fresh source store env (lookup class_id s.caches) ≡ false)

  -- The paths of `load`, with the result and the state that each leaves.
  pub data Outcome : Result (Snapshot W) × ApiState W S → Type 0 where
    hit :
        (cached : Snapshot W)
        → lookup class_id s.caches ≡ some cached
        → force ≡ false
        → env.called_at < cached.at + cache_ttl
        → Outcome (ok cached, s)
    refreshed :
        (snap : Snapshot W)
        → MustRead
        → reading ≡ ok snap
        → Outcome (ok snap, record s { caches = insert class_id snap s.caches })
    served_stale :
        (cached : Snapshot W) (e : Error)
        → MustRead
        → lookup class_id s.caches ≡ some cached
        → reading ≡ err e
        → Outcome (
          ok (record cached { stale = true }),
          record s { caches = insert class_id (record cached { stale = true }) s.caches },
        )
    failed :
        (e : Error)
        → MustRead
        → lookup class_id s.caches ≡ none
        → reading ≡ err e
        → Outcome (err e, s)

  read-Outcome :
      MustRead → Outcome (settle source store class_id (lookup class_id s.caches) reading s)
  read-Outcome due = elim (Result-cases reading) [
    | inl (snap, e) ↦ rw e (refreshed snap due e)
    | inr (x, e) ↦ elim (Option-cases (lookup class_id s.caches)) [
      | inl c ↦ rw (e, c) (failed x due c e)
      | inr (cached, c) ↦ rw (e, c) (served_stale cached x due c e)
    ]
  ]

  pub load_due :
      MustRead
      → load source store env class_id force s
        ≡ settle source store class_id (lookup class_id s.caches) reading s
  unfolding load
  load_due (inl forced) = rw forced
  load_due (inr old) = elim (Bool-cases force) [ inl f ↦ rw f | inr f ↦ rw (f, old) ]

  pub load_fresh :
      (cached : Snapshot W)
      → lookup class_id s.caches ≡ some cached
      → force ≡ false
      → ltb env.called_at (cached.at + cache_ttl) ≡ true
      → load source store env class_id force s ≡ (ok cached, s)
  unfolding load
  load_fresh cached c f young = rw (f, c, young)

  -- a young cached snapshot is what `load` returns
  pub load_fresh-same :
      (cached found : Snapshot W)
      → lookup class_id s.caches ≡ some cached
      → force ≡ false
      → env.called_at < cached.at + cache_ttl
      → (load source store env class_id force s).0 ≡ ok found
      → cached ≡ found
  load_fresh-same cached found c f young e =
      let hit = load_fresh cached c f (ground arith) in
      ok-injective (sym (ap (λ (out : Result (Snapshot W) × ApiState W S). out.0) hit) ∙ e)

  -- `load` takes one of four paths: a cached snapshot younger than a minute, with no read; a fresh
  -- one, which replaces the cached one; the cached one marked stale, where the read fails; or the
  -- error of the read, only where nothing is cached.
  pub load-Outcome : Outcome (load source store env class_id force s)
  load-Outcome = elim (Bool-cases force) [
    | inl forced ↦ rw (load_due (inl forced)) (read-Outcome (inl forced))
    | inr f ↦ elim (Option-cases (lookup class_id s.caches)) [
      | inl c ↦ let due : MustRead = inr (rw c refl) in rw (load_due due) (read-Outcome due)
      | inr (cached, c) ↦ elim (Bool-cases (ltb env.called_at (cached.at + cache_ttl))) [
        | inl young ↦ rw (load_fresh cached c f young) (hit cached c f (ground arith))
        | inr old ↦
            let due : MustRead = inr (rw (c, old) refl) in rw (load_due due) (read-Outcome due)
      ]
    ]
  ]

  -- what every path leaves
  Outcome-cached :
      {out : Result (Snapshot W) × ApiState W S}
      → Outcome out
      → (snap : Snapshot W) → out.0 ≡ ok snap
      → lookup class_id out.1.caches ≡ some snap
  Outcome-cached (hit cached c f young) snap e = c ∙ ap some (ok-injective e)
  Outcome-cached (refreshed snap' due r) snap e =
      lookup-insert_self class_id snap' s.caches ∙ ap some (ok-injective e)
  Outcome-cached (served_stale cached x due c r) snap e =
      lookup-insert_self class_id _ s.caches ∙ ap some (ok-injective e)
  Outcome-cached (failed x due c r) snap e = cc

  -- Whatever `load` returns is then the cached snapshot of the class.
  pub load-cached :
      (snap : Snapshot W)
      → (load source store env class_id force s).0 ≡ ok snap
      → lookup class_id (load source store env class_id force s).1.caches ≡ some snap
  load-cached snap e = Outcome-cached load-Outcome snap e

  Outcome-keeps :
      {out : Result (Snapshot W) × ApiState W S}
      → Outcome out
      → (other : String) → other ≢ class_id
      → (lookup other out.1.caches ≡ lookup other s.caches)
        × (out.1.store ≡ s.store)
        × (out.1.last_refresh_at ≡ s.last_refresh_at)
        × (out.1.forced_error ≡ s.forced_error)
  Outcome-keeps (hit cached c f young) other h = (refl, refl, refl, refl)
  Outcome-keeps (refreshed snap due r) other h =
      (lookup-insert_ne class_id other snap _ h, refl, refl, refl)
  Outcome-keeps (served_stale cached x due c r) other h =
      (lookup-insert_ne class_id other _ _ h, refl, refl, refl)
  Outcome-keeps (failed x due c r) other h = (refl, refl, refl, refl)

  Outcome-store : {out : Result (Snapshot W) × ApiState W S} → Outcome out → out.1.store ≡ s.store
  Outcome-store (hit cached c f young) = refl
  Outcome-store (refreshed snap due r) = refl
  Outcome-store (served_stale cached x due c r) = refl
  Outcome-store (failed x due c r) = refl

  pub load-store : (load source store env class_id force s).1.store ≡ s.store
  load-store = Outcome-store load-Outcome

  -- `load` touches the cache of no other class, and neither the store nor the other variables.
  pub load_keeps :
      (other : String)
      → other ≢ class_id
      → let after = (load source store env class_id force s).1 in
        (lookup other after.caches ≡ lookup other s.caches)
        × (after.store ≡ s.store)
        × (after.last_refresh_at ≡ s.last_refresh_at)
        × (after.forced_error ≡ s.forced_error)
  load_keeps other h = Outcome-keeps load-Outcome other h
