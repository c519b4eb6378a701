-- ===== src/Api/Interleave/Coherent.antt =====
-- With saves apart from the loads of their class, the cache of api.js agrees with the store.
use mathlib.Core.Path.{subst}
use league_table.Prelude.{
  String, ◌≡◌, ◌≢◌, refl, true, false, Option, none, some, inl, inr, arith, Bool-cases,
  Option-cases, List, ◌∷◌, any, All, Dict, lookup, eq_iff, ◌===◌, Reach, Reach-keeps, Take,
  All-taken, IfSome,
}
use league_table.Number.{Number}
use league_table.Model.{Settings}
use league_table.Api.Types.{Error, Result, ok, err, SettingsPatch, Snapshot, DataSource, AppStore}
use league_table.Api.Actions.{ne-of_differs, differs-of_ne}
use league_table.Api.Contract.{KeepsSettings, LeavesSettings}
use league_table.Api.Writes.{update_cached}
use league_table.Api.Writes.Saved.{update_cached_self, update_cached_other}
use league_table.Api.Interleave.{
  Task, saving, World, Advance, Step, finish_loading, with_store, start_saving,
}
use league_table.Api.Interleave.Apart.{
  is_saving, is_of, IsApart, ApartStep, Agrees, Holds, AgreesUnlessSaving, AreCoherent, SameFor,
  tasks-move, others-SameFor, everywhere-SameFor, cache-moves, others-save, Take-Apart,
  settled_agree,
}
use league_table.Api.Interleave.Sound.{
  IfOk, answered, IfOk-map, Everywhere, Everywhere-insert, OfTask, attempt-IfOk,
}

module _ {W : Type 0} ⦃num : Number W⦄ {S : Type 0} (source : DataSource W)
    (store : AppStore W S) where
  -- the cache once a save has written its answer into it
  module _ (state : S) (before after : List (Task W)) (c : String) (saved : Settings W)
      (caches : Dict (Snapshot W)) where
    abbrev updated : Dict (Snapshot W)
    updated = update_cached c saved (lookup c caches) caches

    updated_own :
        store.get_league_settings state c ≡ ok saved
        → IfSome (AgreesUnlessSaving source store state after c) (lookup c updated)
    updated_own e =
        rw (update_cached_self c saved caches)
          (elim (Option-cases (lookup c caches)) [ inl f ↦ rw f tt | inr (snap, f) ↦ rw f (inl e) ])

    kept_other :
        (k : String)
        → (any (is_saving k) before ≡ true → any (is_saving k) after ≡ true)
        → (cached : Option (Snapshot W))
        → IfSome (AgreesUnlessSaving source store state before k) cached
        → IfSome (AgreesUnlessSaving source store state after k) cached
    kept_other k kept none h = tt
    kept_other k kept (some snap) (inl agrees) = inl agrees
    kept_other k kept (some snap) (inr s) = inr (kept s)

    updated-AreCoherent :
        store.get_league_settings state c ≡ ok saved
        → ((k : String) → k ≢ c → any (is_saving k) before ≡ true → any (is_saving k) after ≡ true)
        → Everywhere (AgreesUnlessSaving source store state before) caches
        → Everywhere (AgreesUnlessSaving source store state after) updated
    updated-AreCoherent e kept h k = elim (Bool-cases (c === k)) [
      | inl same ↦
          let i : c ≡ k = (eq_iff c k).0 same in
          subst (λ k. IfSome (AgreesUnlessSaving source store state after k) (lookup k updated)) i
            (updated_own e)
      | inr differs ↦
          let ne : k ≢ c = ne-of_differs c k differs in
          rw (update_cached_other c k saved (lookup c caches) caches ne)
            (kept_other k (kept k ne) (lookup k caches) (h k))
    ]

  abbrev AllAgree : World W S → Type 0
  AllAgree = AreCoherent source store

  settle-AreCoherent :
      (w : World W S) (c : String) (cached : Option (Snapshot W)) (answer : Result (Snapshot W))
      (rest : List (Task W))
      → IfSome (Agrees source store w.api.store c) cached
      → IfOk (Agrees source store w.api.store c) answer
      → Everywhere (AgreesUnlessSaving source store w.api.store rest) w.api.caches
      → All (OfTask (Agrees source store w.api.store) (Holds source store w.api.store)) rest
      → AllAgree (finish_loading source store c cached answer rest w)
  settle-AreCoherent w c cached (ok snap) rest hc (answered _ ha) h hs = record {
    cache = Everywhere-insert _ c snap w.api.caches (inl ha) h;
    tasks = hs;
  }
  settle-AreCoherent w c none (err e) rest hc ha h hs = record { cache = h; tasks = hs }
  settle-AreCoherent w c (some snap) (err e) rest hc ha h hs = record {
    cache = Everywhere-insert _ c _ w.api.caches (inl hc) h;
    tasks = hs;
  }

  -- the cache where a task ends that is no save
  cache-taken :
      (w : World W S) {task : Task W} {rest : List (Task W)}
      → Take task w.tasks rest
      → ((k : String) → is_saving k task ≡ false)
      → Everywhere (AgreesUnlessSaving source store w.api.store w.tasks) w.api.caches
      → Everywhere (AgreesUnlessSaving source store w.api.store rest) w.api.caches
  cache-taken w {task} {rest} t other h =
      cache-moves source store w.api.store w.api.store w.tasks rest w.api.caches (λ k. inl refl)
        (λ k. Take-Apart source store w k t (other k)) h

  Advance-AreCoherent : (w u : World W S) → Advance source store w u → AllAgree w → AllAgree u
  Advance-AreCoherent w _ (Advance.read env c cached failure rest t) h =
      let (hc, hs) = All-taken _ t h.tasks in
      record {
        cache = cache-taken w t (λ k. refl) h.cache;
        tasks =
            ((hc, IfOk-map _ _ (λ a k. k.1) _ (attempt-IfOk source store env w.api c failure)), hs);
      }
  Advance-AreCoherent w _ (Advance.finish_load c cached answer rest t) h =
      let ((hc, ha), hs) = All-taken _ t h.tasks in
      settle-AreCoherent w c cached answer rest hc ha (cache-taken w t (λ k. refl) h.cache) hs
  Advance-AreCoherent w _ (Advance.finish_save c saved rest t) h =
      let (e, hs) = All-taken _ t h.tasks in
      record {
        cache =
            updated-AreCoherent w.api.store w.tasks rest c saved w.api.caches e
              (λ k ne. Take-Apart source store w k t (differs-of_ne c k ne)) h.cache;
        tasks = hs;
      }

  -- the store changes no settings of a league
  store-AreCoherent :
      (w : World W S) (new : S)
      → ((k : String) → SameFor source store w.api.store new k)
      → AllAgree w
      → AllAgree (with_store new w)
  store-AreCoherent w new same h = record {
    cache =
        cache-moves source store w.api.store new w.tasks w.tasks w.api.caches (λ k. inl (same k))
          (λ k s. s) h.cache;
    tasks =
        tasks-move source store w.api.store new w.tasks
          (everywhere-SameFor source store w.api.store new same w.tasks) h.tasks;
  }

module _ {W : Type 0} ⦃num : Number W⦄ {S : Type 0} (source : DataSource W) (store : AppStore W S)
    (keeps : KeepsSettings store) (leaves : LeavesSettings store) where
  failed-SameFor :
      (w : World W S) (c : String) (patch : SettingsPatch W) {e : Error}
      → (store.save_league_settings w.api.store c patch).0 ≡ err e
      → (k : String)
      → SameFor source store w.api.store (store.save_league_settings w.api.store c patch).1 k
  failed-SameFor w c patch e k = elim (Bool-cases (c === k)) [
    | inl same ↦
        let i : c ≡ k = (eq_iff c k).0 same in
        subst (SameFor source store w.api.store _) i (leaves.after_failure w.api.store c patch e)
    | inr other ↦ keeps.league_others w.api.store c k patch (ne-of_differs c k other)
  ]

  begin_save-AreCoherent :
      (w : World W S) (c : String) (patch : SettingsPatch W) (saved : Settings W)
      → (store.save_league_settings w.api.store c patch).0 ≡ ok saved
      → any (is_of c) w.tasks ≡ false
      → AreCoherent source store w
      → AreCoherent source store
          (start_saving c saved (store.save_league_settings w.api.store c patch).1 w)
  begin_save-AreCoherent w c patch saved e apart h =
      let new : S = (store.save_league_settings w.api.store c patch).1 in
      record {
        cache =
            cache-moves source store w.api.store new w.tasks (saving c saved ∷ w.tasks) w.api.caches
              (λ k. elim (Bool-cases (c === k)) [
                | inl same ↦ inr (ground arith)
                | inr other ↦
                    inl (others-save source store keeps w c k patch (ne-of_differs c k other))
              ])
              (λ k s. ground arith) h.cache;
        tasks = (
          keeps.league_read_back w.api.store c patch e,
          tasks-move source store w.api.store new w.tasks
              (others-SameFor source store w.api.store new c
                (λ k ne. others-save source store keeps w c k patch ne) w.tasks apart)
              h.tasks,
        );
      }

  Step-AreCoherent :
      (w u : World W S)
      → ApartStep source store w u
      → AreCoherent source store w
      → AreCoherent source store u
  unfolding IsApart
  Step-AreCoherent w u (Step.advance a, apart) h = Advance-AreCoherent source store w u a h
  Step-AreCoherent w _ (Step.begin_load env c force due, apart) h = record {
    cache = h.cache;
    tasks =
        (settled_agree source store _ w.tasks c (lookup c w.api.caches) apart (h.cache c), h.tasks);
  }
  Step-AreCoherent w _ (Step.begin_save c patch saved e, apart) h =
      begin_save-AreCoherent w c patch saved e apart h
  Step-AreCoherent w _ (Step.fail_save c patch x e, apart) h =
      store-AreCoherent source store w _ (failed-SameFor w c patch e) h
  Step-AreCoherent w _ (Step.save_risk c patch, apart) h =
      store-AreCoherent source store w _ (λ k. leaves.after_risk w.api.store c k patch) h
  Step-AreCoherent w _ (Step.write_note draft text, apart) h =
      store-AreCoherent source store w _ (λ k. leaves.after_note w.api.store draft text k) h
  Step-AreCoherent w _ (Step.stamp_refresh now due, apart) h = record {
    cache = h.cache;
    tasks = h.tasks;
  }
  Step-AreCoherent w _ (Step.set_error message, apart) h = record {
    cache = h.cache;
    tasks = h.tasks;
  }

  -- Over a store whose saved settings read back, and whose failed saves and other writes leave the
  -- settings of a league, and as long as no save that succeeds overlaps a load or another save of
  -- its class: however else the calls interleave, from a state in which the cached snapshots and
  -- the calls in flight agree with the store, a class that is not being saved has cached, if
  -- anything, the settings that the store holds for it.
  pub Reach-Agrees :
      (w u : World W S) (k : String) (snap : Snapshot W)
      → AreCoherent source store w
      → Reach (ApartStep source store) w u
      → any (is_saving k) u.tasks ≡ false
      → lookup k u.api.caches ≡ some snap
      → store.get_league_settings u.api.store k ≡ ok snap.settings
  Reach-Agrees w u k snap h r quiet e =
      let after : AreCoherent source store u =
        Reach-keeps (AreCoherent source store) Step-AreCoherent r h in
      subst (IfSome (Agrees source store u.api.store k)) e (
        settled_agree source store u.api.store u.tasks k (lookup k u.api.caches) quiet
          (after.cache k))
