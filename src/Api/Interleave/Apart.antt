-- ===== src/Api/Interleave/Apart.antt =====
-- Saves of api.js's settings that overlap no load of the same class.
use league_table.Prelude.{
  String, ◌≡◌, ◌≢◌, ◌∙◌, Bool, true, false, ◌||◌, Option, none, some, ◌⊎◌, inl, inr, arith,
  Bool-cases, List, [], ◌∷◌, any, All, Dict, eq_iff, ◌===◌, Take, IfSome,
}
use league_table.Number.{Number}
use league_table.Model.{Settings}
use league_table.Api.Types.{ok, SettingsPatch, Snapshot, DataSource, AppStore}
use league_table.Api.Contract.{KeepsSettings}
use league_table.Api.Interleave.{Task, loading, loaded, saving, World, Step}
use league_table.Api.Interleave.Sound.{IfOk-map, Everywhere, Everywhere-map, OfTask}

pub any-taken :
    {A : Type 0} (p : A → Bool) {x : A} {xs rest : List A}
    → Take x xs rest
    → any p xs ≡ (p x || any p rest)
any-taken p Take.first = ground arith
any-taken p (Take.later t) = ground (arith, any-taken p t)

module _ {W : Type 0} where
  abbrev pub class_of : Task W → String
  class_of (loading class_id cached failure) = class_id
  class_of (loaded class_id cached answer) = class_id
  class_of (saving class_id saved) = class_id

  abbrev pub is_saving : String → Task W → Bool
  is_saving k (loading class_id cached failure) = false
  is_saving k (loaded class_id cached answer) = false
  is_saving k (saving class_id saved) = class_id === k

  abbrev pub is_of : String → Task W → Bool
  is_of k task = class_of task === k

module _ {W : Type 0} ⦃num : Number W⦄ {S : Type 0} (source : DataSource W)
    (store : AppStore W S) where
  -- A load starts only where no save of its class is under way, and a save that succeeds only where
  -- no call of its class is.
  unfoldable pub IsApart : (w u : World W S) → Step source store w u → Type 0
  IsApart w _ (Step.begin_load env c force due) = any (is_saving c) w.tasks ≡ false
  IsApart w _ (Step.begin_save c patch saved e) = any (is_of c) w.tasks ≡ false
  IsApart w _ (Step.fail_save c patch x e) = Unit
  IsApart w _ (Step.advance a) = Unit
  IsApart w _ (Step.save_risk c patch) = Unit
  IsApart w _ (Step.write_note draft text) = Unit
  IsApart w _ (Step.stamp_refresh now due) = Unit
  IsApart w _ (Step.set_error message) = Unit

  abbrev pub ApartStep : World W S → World W S → Type 0
  ApartStep w u = (st : Step source store w u) × IsApart w u st

  -- A snapshot with the settings that the store holds for the class.
  abbrev pub Agrees : S → String → Snapshot W → Type 0
  Agrees state k snap = store.get_league_settings state k ≡ ok snap.settings

  abbrev pub Holds : S → String → Settings W → Type 0
  Holds state k saved = store.get_league_settings state k ≡ ok saved

  abbrev pub AgreesUnlessSaving : S → List (Task W) → String → Snapshot W → Type 0
  AgreesUnlessSaving state tasks k snap = Agrees state k snap ⊎ (any (is_saving k) tasks ≡ true)

  pub record AreCoherent (w : World W S) : Type 0 where
    pub cache : Everywhere (AgreesUnlessSaving w.api.store w.tasks) w.api.caches
    pub tasks : All (OfTask (Agrees w.api.store) (Holds w.api.store)) w.tasks

  -- the two states have the same settings for a class
  abbrev pub SameFor : S → S → String → Type 0
  SameFor old new k = store.get_league_settings new k ≡ store.get_league_settings old k

  -- the same under a store that has the same settings for the class
  Agrees-moves :
      (old new : S) (k : String)
      → SameFor old new k
      → (cached : Option (Snapshot W)) → IfSome (Agrees old k) cached
      → IfSome (Agrees new k) cached
  Agrees-moves old new k e none h = tt
  Agrees-moves old new k e (some snap) h = e ∙ h

  task-moves :
      (old new : S) (task : Task W)
      → SameFor old new (class_of task)
      → OfTask (Agrees old) (Holds old) task
      → OfTask (Agrees new) (Holds new) task
  task-moves old new (loading c cached failure) e h = Agrees-moves old new c e cached h
  task-moves old new (loaded c cached answer) e (hc, ha) =
      (Agrees-moves old new c e cached hc, IfOk-map _ _ (λ snap k. e ∙ k) answer ha)
  task-moves old new (saving c saved) e h = e ∙ h

  pub tasks-move :
      (old new : S) (tasks : List (Task W))
      → All (λ task. SameFor old new (class_of task)) tasks
      → All (OfTask (Agrees old) (Holds old)) tasks
      → All (OfTask (Agrees new) (Holds new)) tasks
  tasks-move old new [] e h = tt
  tasks-move old new (task ∷ tasks) (e, es) (h, hs) =
      (task-moves old new task e h, tasks-move old new tasks es hs)

  -- where only the settings of a class have changed that no task is of
  pub others-SameFor :
      (old new : S) (c : String)
      → ((k : String) → k ≢ c → SameFor old new k)
      → (tasks : List (Task W)) → any (is_of c) tasks ≡ false
      → All (λ task. SameFor old new (class_of task)) tasks
  others-SameFor old new c same [] h = tt
  others-SameFor old new c same (task ∷ tasks) h = elim (Bool-cases (class_of task === c)) [
    | inl e ↦ absurd (ground arith)
    | inr e ↦
        let other : class_of task ≢ c =
          λ i. let t : (class_of task === c) ≡ true = (eq_iff (class_of task) c).1 i in cc in
        (same (class_of task) other, others-SameFor old new c same tasks (ground arith))
  ]

  pub everywhere-SameFor :
      (old new : S)
      → ((k : String) → SameFor old new k)
      → (tasks : List (Task W)) → All (λ task. SameFor old new (class_of task)) tasks
  everywhere-SameFor old new same [] = tt
  everywhere-SameFor old new same (task ∷ tasks) =
      (same (class_of task), everywhere-SameFor old new same tasks)

  -- the caches once the store has changed, and the tasks with it
  pub cache-moves :
      (old new : S) (before after : List (Task W)) (caches : Dict (Snapshot W))
      → ((k : String) → SameFor old new k ⊎ (any (is_saving k) after ≡ true))
      → ((k : String) → any (is_saving k) before ≡ true → any (is_saving k) after ≡ true)
      → Everywhere (AgreesUnlessSaving old before) caches
      → Everywhere (AgreesUnlessSaving new after) caches
  cache-moves old new before after caches same kept h =
      Everywhere-map _ _ caches
        (λ k snap p. elim p [
          | inl agrees ↦ elim (same k) [ inl e ↦ inl (e ∙ agrees) | inr s ↦ inr s ]
          | inr s ↦ inr (kept k s)
        ])
        h

  -- the settings of every class but the saved one are those of before
  pub others-save :
      KeepsSettings store
      → (w : World W S) (c k : String) (patch : SettingsPatch W) → k ≢ c
      → SameFor w.api.store (store.save_league_settings w.api.store c patch).1 k
  others-save keeps w c k patch h = keeps.league_others w.api.store c k patch h

  pub Take-Apart :
      (w : World W S) (k : String) {task : Task W} {rest : List (Task W)}
      → Take task w.tasks rest
      → is_saving k task ≡ false
      → any (is_saving k) w.tasks ≡ true
      → any (is_saving k) rest ≡ true
  Take-Apart w k t other h = ground (arith, any-taken (is_saving k) t)

  pub settled_agree :
      (state : S) (tasks : List (Task W)) (k : String) (cached : Option (Snapshot W))
      → any (is_saving k) tasks ≡ false
      → IfSome (AgreesUnlessSaving state tasks k) cached
      → IfSome (Agrees state k) cached
  settled_agree state tasks k none quiet h = tt
  settled_agree state tasks k (some snap) quiet (inl agrees) = agrees
  settled_agree state tasks k (some snap) quiet (inr s) = absurd (ground arith)
