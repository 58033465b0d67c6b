-- ===== src/App/Rounds.antt =====
-- internal/app/app.go: the launches that the loop of `Run` asks for, and when it ends.
use mathlib.Core.List.{append_assoc, append-nil}
use ocihood.Base.{
  some_inj, ℕ, suc, ◌≤◌, String, Bool, true, false, ◌≡◌, ◌≢◌, sym, ap, ◌∙◌, none, some, List, [],
  ◌∷◌, ◌++◌, arith, take, length, inl, inr,
}
use ocihood.Io.{ok, err}
use ocihood.Reconcile.{Decision, new_attempt}
use ocihood.State.Disk.{Disk}
use ocihood.Config.{Effective}
use ocihood.Capacity.{CapacityResult}
use ocihood.Discovery.{Discovered}
use ocihood.App.Persist.{attempt_validity}
use ocihood.App.Renew.{new_attempt_and_persist_made}
use ocihood.App.Run.{Runner, Round, Going, Ended, lost_capacity, loop}
use ocihood.App.Asked.{asked}
use ocihood.App.Turns.{turn-Turned}

-- The abstract run: it launches with a decision, and then with one new attempt after the other, each
-- made of the random bytes and the time of the round before.
unfoldable pub attempts : Decision → List Round → List Decision
attempts decision [] = []
attempts decision (round ∷ rounds) =
    decision ∷ elim (new_attempt round.random round.now attempt_validity).0 [
      | ok a ↦ attempts (record decision { attempt = some a }) rounds
      | err e ↦ []
    ]

-- Whatever it launches, a round of launching that does not find capacity gone.
abbrev pub IsSteady : Round → Type 0
IsSteady round =
    (decision : Decision) (c : CapacityResult) (key : String) (disk : Disk)
    → lost_capacity (round.launch decision c key disk).0.1 ≡ false

module _ (sha256 : String → String) (r : Runner) (once : Bool) (e : Effective) (d : Discovered)
    (key : String) where
  no_loss :
      (round : Round) (c : CapacityResult) (at : Disk) (decision : Decision)
      → IsSteady round
      → ¬ (lost_capacity (round.launch decision c key at).0.1 ≡ true)
  no_loss round c at decision steady lost = let kept = steady decision c key at in cc

  -- The loop refines the abstract run: the decisions that it launches with are, in order and without a
  -- gap, the first ones of the abstract run.
  pub loop-attempts :
      (rounds : List Round) (is_resumed : Bool) (decision : Decision) (g : Going) (x : Ended)
      → loop sha256 r once e d key rounds is_resumed decision g ≡ some x
      → (n : ℕ) × (n ≤ length rounds)
        × (asked x.going ≡ asked g ++ take n (attempts decision rounds))
  unfolding loop attempts
  loop-attempts [] is_resumed decision g x h = absurd (cc)
  loop-attempts (round ∷ rounds) is_resumed decision g x h =
      elim (turn-Turned sha256 r once e d key (loop sha256 r once e d key rounds) round is_resumed
        decision g) [
          | inl (y, ends, inl quiet) ↦
              let same : y ≡ x = some_inj (sym ends ∙ h) in
              (
                0,
                omega arith,
                ap (λ z. asked z.going) (sym same) ∙ quiet ∙ sym (append-nil (asked g)),
              )
          | inl (y, ends, inr one) ↦
              let same : y ≡ x = some_inj (sym ends ∙ h) in
              (1, omega arith, ap (λ z. asked z.going) (sym same) ∙ one)
          | inr k ↦
              let (n, few, rest) =
                loop-attempts rounds false (record decision { attempt = some k.attempt }) k.next x
                  (sym k.continues ∙ h) in
              let made =
                new_attempt_and_persist_made sha256 e.state_dir e.account d.target_id round.random
                  round.now k.old k.next.disk k.attempt k.stored in
              (
                suc n,
                omega arith,
                rw made (
                    rest
                    ∙ ap
                        (λ l.
                          l
                          ++ take n
                              (attempts (record decision { attempt = some k.attempt }) rounds))
                        k.asks
                    ∙ append_assoc (asked g) (decision ∷ []) _),
              )
        ]

  -- The loop ends at the latest with the first round whose launch, whatever it launches, does not find
  -- capacity gone.
  pub loop-ends :
      (before after : List Round) (round : Round) (is_resumed : Bool) (decision : Decision)
      (g : Going)
      → IsSteady round
      → loop sha256 r once e d key (before ++ round ∷ after) is_resumed decision g ≢ none
  unfolding loop
  loop-ends [] after round is_resumed decision g steady =
      elim (turn-Turned sha256 r once e d key (loop sha256 r once e d key after) round is_resumed
        decision g) [
          | inl (y, ends, _) ↦ rw ends (λ q. cc)
          | inr k ↦ absurd (no_loss round k.capacity k.at decision steady k.lost)
        ]
  loop-ends (b ∷ before) after round is_resumed decision g steady =
      elim (turn-Turned sha256 r once e d key (loop sha256 r once e d key (before ++ round ∷ after))
        b is_resumed decision g) [
          | inl (y, ends, _) ↦ rw ends (λ q. cc)
          | inr k ↦ rw k.continues (
              loop-ends before after round false (record decision { attempt = some k.attempt })
                k.next steady)
        ]
