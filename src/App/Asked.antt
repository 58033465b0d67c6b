-- ===== src/App/Asked.antt =====
-- internal/app/app.go: the launches among the effects of a run.
use mathlib.Core.List.{append-nil}
use ocihood.Base.{◌≡◌, refl, ap, ◌∙◌, List, [], ◌∷◌, ◌++◌, Option-cases, inl, inr}
use ocihood.Reconcile.{Decision}
use ocihood.Notification.{Event}
use ocihood.App.Run.{Runner, Going, Effect, notified, watched, launched, notify}

-- The decisions that the launches among the effects were asked with, in their order.
unfoldable pub decisions_of : List Effect → List Decision
decisions_of [] = []
decisions_of (launched d c key ∷ es) = d ∷ decisions_of es
decisions_of (notified e ∷ es) = decisions_of es
decisions_of (watched ∷ es) = decisions_of es

pub decisions_of-append :
    (xs ys : List Effect) → decisions_of (xs ++ ys) ≡ decisions_of xs ++ decisions_of ys
unfolding decisions_of
decisions_of-append [] ys = refl
decisions_of-append (launched d c key ∷ xs) ys = ap (◌∷◌ d) (decisions_of-append xs ys)
decisions_of-append (notified e ∷ xs) ys = decisions_of-append xs ys
decisions_of-append (watched ∷ xs) ys = decisions_of-append xs ys

abbrev pub asked : Going → List Decision
asked g = decisions_of g.effects

pub asked-notify : (r : Runner) (ev : Event) (g : Going) → asked (notify r ev g) ≡ asked g
unfolding notify decisions_of
asked-notify r ev g = elim (Option-cases r.notifier) [
  | inl silent ↦ rw (silent, notify) refl
  | inr (send, heard) ↦
      rw (heard, notify)
        (decisions_of-append g.effects (notified ev ∷ []) ∙ append-nil (decisions_of g.effects))
]

pub disk-notify : (r : Runner) (ev : Event) (g : Going) → (notify r ev g).disk ≡ g.disk
unfolding notify
disk-notify r ev g = elim (Option-cases r.notifier) [
  | inl silent ↦ rw (silent, notify) refl
  | inr (send, heard) ↦ rw (heard, notify) refl
]
