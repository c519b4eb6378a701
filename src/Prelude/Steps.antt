-- ===== src/Prelude/Steps.antt =====
-- Runs of a step relation, the tasks that a scheduler picks from, and what holds of an option.
use mathlib.Core.Option.{Option, none, some}
use mathlib.Core.List.{List, ◌∷◌}
use league_table.Prelude.Lists.{All}

-- What a state reaches by steps of `R`.
pub data Reach {A : Type 0} (R : A → A → Type 0) (s : A) : A → Type 0 where
  here : Reach R s s
  next : {t u : A} → Reach R s t → R t u → Reach R s u

module _ {A : Type 0} {R : A → A → Type 0} where
  -- What every step keeps holds of what is reached.
  pub Reach-keeps :
      (P : A → Type 0) → ((t u : A) → R t u → P t → P u) → {s t : A} → Reach R s t → P s → P t
  Reach-keeps P keep Reach.here h = h
  Reach-keeps P keep (Reach.next r st) h = keep _ _ st (Reach-keeps P keep r h)

  pub Reach-trans : {s t u : A} → Reach R s t → Reach R t u → Reach R s u
  Reach-trans r Reach.here = r
  Reach-trans r (Reach.next q st) = Reach.next (Reach-trans r q) st

module _ {A : Type 0} where
  -- `Take x xs rest`: `rest` is `xs` without one occurrence of `x`.
  pub data Take (x : A) : List A → List A → Type 0 where
    first : {xs : List A} → Take x (x ∷ xs) xs
    later : {y : A} {xs rest : List A} → Take x xs rest → Take x (y ∷ xs) (y ∷ rest)

  pub All-taken :
      (P : A → Type 0) {x : A} {xs rest : List A} → Take x xs rest → All P xs → P x × All P rest
  All-taken P Take.first h = h
  All-taken P (Take.later t) (hy, h) = let (hx, rest) = All-taken P t h in (hx, (hy, rest))

  abbrev pub IfSome : (A → Type 0) → Option A → Type 0
  IfSome P none = Unit
  IfSome P (some a) = P a
