-- ===== src/Api/Interleave/Sound.antt =====
-- What every snapshot of the service satisfies, in whatever order the calls of api.js interleave.
use league_table.Prelude.{
  String, ◌≡◌, refl, true, Option, none, some, inl, inr, Bool-cases, Option-cases, All, Dict,
  lookup, insert, eq_iff, lookup-insert, ◌===◌, IfSome,
}
use mathlib.Core.Path.{subst}
use league_table.Number.{Number}
use league_table.Model.{Settings}
use league_table.Api.Types.{
  Error, Result, ok, err, Snapshot, DataSource, AppStore, ApiState, Env, then_read,
}
use league_table.Api.Load.{data_check, class_query, attempt, read_all, settle}
use league_table.Api.Interleave.{Task, loading, loaded, saving, World}

-- What holds of an answer, where there is one.
pub data IfOk {A : Type 0} (P : A → Type 0) : Result A → Type 0 where
  answered : (a : A) → P a → IfOk P (ok a)
  refused : (e : Error) → IfOk P (err e)

pub IfOk-map :
    {A : Type 0} (P Q : A → Type 0) → ((a : A) → P a → Q a) → (r : Result A) → IfOk P r → IfOk Q r
IfOk-map P Q f _ (answered a h) = answered a (f a h)
IfOk-map P Q f _ (refused e) = refused e

pub then_read-IfOk :
    {A B : Type 0} (P : B → Type 0) (r : Result A) (f : A → Result B)
    → ((a : A) → r ≡ ok a → IfOk P (f a))
    → IfOk P (then_read r f)
then_read-IfOk P (ok a) f h = h a refl
then_read-IfOk P (err e) f h = refused e

module _ {V : Type 0} where
  -- what holds of every entry of a map, by its key
  abbrev pub Everywhere : (String → V → Type 0) → Dict V → Type 0
  Everywhere P d = (k : String) → IfSome (P k) (lookup k d)

  pub Everywhere-map :
      (P Q : String → V → Type 0) (d : Dict V)
      → ((k : String) (v : V) → P k v → Q k v)
      → Everywhere P d
      → Everywhere Q d
  Everywhere-map P Q d f h k = elim (Option-cases (lookup k d)) [
    | inl e ↦ rw e tt
    | inr (v, e) ↦ let hv : P k v = subst (IfSome (P k)) e (h k) in rw e (f k v hv)
  ]

  pub Everywhere-insert :
      (P : String → V → Type 0) (c : String) (v : V) (d : Dict V)
      → P c v
      → Everywhere P d
      → Everywhere P (insert c v d)
  Everywhere-insert P c v d hv h k = elim (Bool-cases (c === k)) [
    | inl same ↦
        let e : c ≡ k = (eq_iff c k).0 same in
        rw (lookup-insert c k v d, same) (subst (λ k. P k v) e hv)
    | inr other ↦ rw (lookup-insert c k v d, other) (h k)
  ]

module _ {W : Type 0} ⦃num : Number W⦄ where
  -- A snapshot of a class: its own, and checked.
  unfoldable pub IsSound : String → Snapshot W → Type 0
  unfolding data_check
  IsSound class_id snap =
      (snap.class_id ≡ class_id) × (snap.issues ≡ data_check snap.students snap.entries)

  -- what holds of the snapshots that a call holds
  abbrev pub OfTask :
      (String → Snapshot W → Type 0) → (String → Settings W → Type 0) → Task W → Type 0
  OfTask P Q (loading class_id cached failure) = IfSome (P class_id) cached
  OfTask P Q (loaded class_id cached answer) = IfSome (P class_id) cached × IfOk (P class_id) answer
  OfTask P Q (saving class_id saved) = Q class_id saved

  abbrev pub IsSoundTask : Task W → Type 0
  IsSoundTask = OfTask IsSound (λ class_id saved. Unit)

  -- the snapshots of the cache and of the calls in flight
  pub record AreSound {S : Type 0} (w : World W S) : Type 0 where
    pub cache : Everywhere IsSound w.api.caches
    pub tasks : All IsSoundTask w.tasks

  module _ {S : Type 0} (source : DataSource W) (store : AppStore W S) where
    -- a snapshot that is read from the store in this state
    abbrev pub IsReadFrom : S → String → Snapshot W → Type 0
    IsReadFrom state class_id snap =
        IsSound class_id snap × (store.get_league_settings state class_id ≡ ok snap.settings)

    read_all-IfOk :
        (env : Env) (state : S) (class_id : String)
        → IfOk (IsReadFrom state class_id) (read_all source store env state class_id)
    unfolding read_all IsSound
    read_all-IfOk env state class_id =
        then_read-IfOk _ (source.list_students class_id) _ λ students _.
          then_read-IfOk _ (source.list_criteria class_id) _ λ criteria _.
            then_read-IfOk _ (source.list_weeks "t1") _ λ weeks _.
              then_read-IfOk _ (source.get_entries (class_query class_id)) _ λ entries _.
                then_read-IfOk _ (store.list_baselines state class_id) _ λ baselines _.
                  then_read-IfOk _ (store.list_weekly_updates state class_id) _ λ updates _.
                    then_read-IfOk _ (store.get_league_settings state class_id) _
                      λ settings e. answered _ ((refl, refl), e)

    pub attempt-IfOk :
        (env : Env) (s : ApiState W S) (class_id : String) (failure : Option Error)
        → IfOk (IsReadFrom s.store class_id) (attempt source store env s class_id failure)
    attempt-IfOk env s class_id (some e) = refused e
    attempt-IfOk env s class_id none = read_all-IfOk env s.store class_id

  -- the caches after a load that held `P`, and after a save
  pub settle-caches :
      {S : Type 0} (source : DataSource W) (store : AppStore W S) (P : String → Snapshot W → Type 0)
      → ((k : String) (snap : Snapshot W) → P k snap → P k (record snap { stale = true }))
      → (class_id : String) (cached : Option (Snapshot W)) (answer : Result (Snapshot W))
        (s : ApiState W S)
      → IfSome (P class_id) cached
      → IfOk (P class_id) answer
      → Everywhere P s.caches
      → Everywhere P (settle source store class_id cached answer s).1.caches
  settle-caches source store P old class_id cached (ok snap) s hc (answered _ ha) h =
      Everywhere-insert P class_id snap s.caches ha h
  settle-caches source store P old class_id none (err e) s hc ha h = h
  settle-caches source store P old class_id (some snap) (err e) s hc ha h =
      Everywhere-insert P class_id _ s.caches (old class_id snap hc) h
