-- ===== src/Screen/Proper/Acts.antt =====
-- What a user does keeps the state proper.
use league_table.Prelude.{
  ℕ, ◌≡◌, refl, String, Bool, true, false, not, Option, none, some, List, [], ◌∷◌, arith,
  if◌then◌else◌, inl, inr, ◌==◌, get_elem?, Option-cases, zero, suc, ◌===◌, eq_iff,
}
use league_table.Api.Writes.{trimmed}
use league_table.Screen.Types.{
  Role, Boot, Screen, Request, Opened, Identity, student, instructor, admin,
}
use league_table.Screen.Handlers.{
  Sent, is_league, is_student, clamp_week, load_class, go_to_week, digit_key, pick_some_keys,
  ask_drawer, ask_note, ask_as_student, toggle_present, log_in_as, log_in_student, log_in_teacher,
}
use league_table.Screen.Proper.{is_discreet, IsProper, clamp_week-Fits, without_me-single}

module _ {V : Type 0} where
  -- what a handler leaves is proper
  pub record KeptBy (x : Sent V) : Type 0 where
    pub kept : IsProper x.0

  abbrev pub keeps : (x : Sent V) → IsProper x.0 → KeptBy x
  keeps x h = record { kept = h }

  pub kept_if :
      (b : Bool) (x y : Sent V)
      → (b ≡ true → KeptBy x)
      → (b ≡ false → KeptBy y)
      → KeptBy (if b then x else y)
  kept_if true x y h k = h refl
  kept_if false x y h k = k refl

  pub no_drawer :
      (s : Screen V) → is_discreet s ≡ true → is_discreet (record s { drawer = none }) ≡ true
  no_drawer s h = ground arith

  pub load_class-Proper :
      (id : String) (s : Screen V)
      → is_student s.role ≡ false
      → IsProper s
      → KeptBy (load_class id s)
  load_class-Proper id s teacher (one, fits, d, own) =
      keeps _ (without_me-single s.views one, fits, no_drawer s d, ground arith)

  pub go_to_week-Proper :
      (boot : Boot) (i : ℕ) (s : Screen V)
      → s.boot ≡ some boot
      → IsProper s
      → KeptBy (go_to_week (clamp_week boot i) s)
  go_to_week-Proper boot i s e (one, fits, d, own) =
      kept_if (clamp_week boot i == s.week_idx) _ _ (λ same. keeps _ (one, fits, d, own))
        (λ moved. keeps _ (one, rw e (clamp_week-Fits boot i), no_drawer s d, own))

  pub toggle_present-Proper : (s : Screen V) → IsProper s → KeptBy (toggle_present s)
  toggle_present-Proper s (one, fits, d, own) =
      kept_if (not s.logged_in) _ _ (λ out. keeps _ (one, fits, d, own))
        (λ inside.
          kept_if (is_student s.role) _ _ (λ pupil. keeps _ (one, fits, d, own))
            (λ teacher.
              kept_if s.present _ _ (λ shown. keeps _ (one, fits, refl, own))
                (λ hidden.
                  kept_if (is_league s.tab) _ _ (λ there. keeps _ (one, fits, ground arith, own))
                    (λ elsewhere. keeps _ (one, fits, ground arith, ground arith)))))

  -- out of a session nothing is presented
  not_presenting : (s : Screen V) → s.logged_in ≡ false → is_discreet s ≡ true → s.present ≡ false
  not_presenting s out d = ground arith

  pub hidden_is_discreet : (s : Screen V) → s.present ≡ false → is_discreet s ≡ true
  hidden_is_discreet s h = ground arith

  log_in_student-Proper :
      (found : Option Identity) (s : Screen V)
      → s.logged_in ≡ false
      → IsProper s
      → KeptBy (log_in_student found s)
  log_in_student-Proper none s out (one, fits, d, own) = keeps _ (one, fits, d, own)
  log_in_student-Proper (some identity) s out (one, fits, d, own) = keeps _ (
    without_me-single s.views one,
    fits,
    hidden_is_discreet (log_in_student (some identity) s).0 (not_presenting s out d),
    (eq_iff identity.class_id identity.class_id).1 refl,
  )

  pub log_in_as-Proper :
      (r : Role) (s : Screen V) → s.logged_in ≡ false → IsProper s → KeptBy (log_in_as r s)
  log_in_as-Proper instructor s out (one, fits, d, own) = keeps _ (
    without_me-single s.views one,
    fits,
    hidden_is_discreet (log_in_teacher instructor s).0 (not_presenting s out d),
    refl,
  )
  log_in_as-Proper admin s out (one, fits, d, own) = keeps _ (
    without_me-single s.views one,
    fits,
    hidden_is_discreet (log_in_teacher admin s).0 (not_presenting s out d),
    refl,
  )
  log_in_as-Proper student s out h = log_in_student-Proper _ s out h

  pub digit_key-Proper :
      (n : ℕ) (boot : Option Boot) (s : Screen V) → IsProper s → KeptBy (digit_key n boot s)
  digit_key-Proper n none s h = keeps _ h
  digit_key-Proper zero (some boot) s h =
      kept_if (is_league s.tab) _ _ (λ on. keeps _ h) (λ off. keeps _ h)
  digit_key-Proper (suc i) (some boot) s h = elim (Option-cases (get_elem? boot.criteria_keys i)) [
    | inl e ↦ rw (e, digit_key) (keeps _ h)
    | inr (key, e) ↦
        rw (e, digit_key) (kept_if (is_league s.tab) _ _ (λ on. keeps _ h) (λ off. keeps _ h))
  ]

  pub pick_some_keys-Proper :
      (keys : List String) (s : Screen V) → IsProper s → KeptBy (pick_some_keys keys s)
  pick_some_keys-Proper [] s h = keeps _ h
  pick_some_keys-Proper (k ∷ ks) s (one, fits, d, own) = keeps _ (one, fits, no_drawer s d, own)

  pub ask_drawer-Proper :
      (id : String) (boot : Option Boot) (s : Screen V) → IsProper s → KeptBy (ask_drawer id boot s)
  ask_drawer-Proper id none s h = keeps _ h
  ask_drawer-Proper id (some boot) s h = keeps _ h

  pub ask_note-Proper :
      (body : String) (o : Option (Opened V)) (s : Screen V)
      → IsProper s
      → KeptBy (ask_note body o s)
  ask_note-Proper body none s h = keeps _ h
  ask_note-Proper body (some o) s h =
      kept_if (trimmed (some body) === "") _ _ (λ blank. keeps _ h) (λ written. keeps _ h)

  pub ask_as_student-Proper :
      (request : String → String → Request) (identity : Option Identity) (s : Screen V)
      → IsProper s
      → KeptBy (ask_as_student request identity s)
  ask_as_student-Proper request none s h = keeps _ h
  ask_as_student-Proper request (some i) s h = keeps _ h
