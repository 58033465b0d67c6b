-- ===== src/Capacity/Once.antt =====
-- internal/capacity/capacity.go: `Watch` in `--once`, one cycle over the availability domains.
use ocihood.Base.{
  ℕ, suc, String, take, drop, length-take, drop-get_elem, get_elem-take, drop-length, pos_part, ◌+◌,
  ◌-◌, ◌%◌, ◌≤◌, ◌<◌, ◌≡◌, ◌≢◌, refl, ap, sym, ◌∙◌, arith, Bool, true, false, none, some, List, [],
  ◌∷◌, ◌++◌, if◌then◌else◌, leb, ◌==◌, length, ℤ, pos, eq_int, All, All-append, Bool-cases,
  Option-cases, negsuc, ◌||◌, lt_int, le_int, inl, inr, ◌⊎◌,
}
use ocihood.Errors.{Err, capacity_error}
use ocihood.Errors.Kinds.{CapacityKind}
use ocihood.Io.{Result, err}
use ocihood.Capacity.{WatchState, Input, CapacityResult, Float64, Config, validate}
use ocihood.Capacity.Watch.{
  Effect, probed, saved, slept, WatchStep, again, stop, ad_at, next_index, Round, watch_round,
  watch_loop, round_body, on_kind, no_capacity, found, on_fatal, end_cycle, wait, watch, initial,
  Start,
}

-- The availability domains that were probed, in their order.
abbrev pub asked_domains : List Effect → List String
asked_domains [] = []
asked_domains (probed q ∷ es) = q.availability_domain ∷ asked_domains es
asked_domains (saved _ ∷ es) = asked_domains es
asked_domains (slept _ ∷ es) = asked_domains es

abbrev pub NoSleep : Effect → Type 0
NoSleep (slept _) = ⊥
NoSleep _ = Unit

asked_domains-append :
    (es fs : List Effect) → asked_domains (es ++ fs) ≡ asked_domains es ++ asked_domains fs
asked_domains-append [] fs = refl
asked_domains-append (probed q ∷ es) fs =
    ap (◌∷◌ q.availability_domain) (asked_domains-append es fs)
asked_domains-append (saved _ ∷ es) fs = asked_domains-append es fs
asked_domains-append (slept _ ∷ es) fs = asked_domains-append es fs

-- The next index, without the remainder.
succ_mod : (x n : ℕ) → x < n → (x + 1) % n ≡ (if (x + 1) == n then 0 else x + 1)
succ_mod x n h = grind arith

-- The domains that are left until the cycle is back at `start`.
abbrev left : ℕ → ℕ → ℕ → ℕ
left n start x = if leb start x then n - x + start else start - x

module _ (ads : List String) (start : ℕ) where
  -- The domains of the cycle from domain `x` on, up to the first of the cycle, `start`.
  abbrev rest : ℕ → List String
  rest x = if leb start x then drop x ads ++ take start ads else drop x (take start ads)

  -- Those after domain `x`.
  abbrev rest_after : ℕ → List String
  rest_after x =
      if leb start x then drop (x + 1) ads ++ take start ads else drop (x + 1) (take start ads)

  rest-ad_at :
      (x : ℕ) → x < length ads → start < length ads → rest x ≡ ad_at ads (pos x) ∷ rest_after x
  rest-ad_at x h k = elim (Bool-cases (leb start x)) [
    | inl past ↦ rw (past, drop-get_elem ads x h) refl
    | inr ahead ↦
        let x_lt : x < start = ground arith in
        let short : x < length (take start ads) =
          rw (length-take start ads (omega arith)) (omega arith) in
        rw (ahead, drop-get_elem (take start ads) x short, get_elem-take ads start x x_lt) refl
  ]

  rest-rest_after :
      (x : ℕ)
      → x < length ads
      → start < length ads
      → ((x + 1) % length ads ≡ start → ⊥)
      → rest_after x ≡ rest ((x + 1) % length ads)
  rest-rest_after x h k away =
      let y = succ_mod x (length ads) h in
      elim (Bool-cases ((x + 1) == length ads)) [
        | inl over ↦
            let e : (x + 1) % length ads ≡ 0 = rw over at y in
            let n : x + 1 ≡ length ads = ground arith in
            let past : leb start x ≡ true = ground arith in
            let ahead : leb start 0 ≡ false = ground (arith, away) in
            rw (e, past, ahead, n, drop-length ads) refl
        | inr within ↦
            let e : (x + 1) % length ads ≡ x + 1 = rw within at y in
            let same : leb start (x + 1) ≡ leb start x = ground (arith, away) in rw (e, same) refl
      ]

pub WatchStep-cases :
    (w : WatchStep)
    → ((t : WatchState) × (w ≡ again t)) ⊎ ((y : Result CapacityResult) × (w ≡ stop y))
WatchStep-cases (again t) = inl (t, refl)
WatchStep-cases (stop y) = inr (y, refl)

module _ (float : Float64) (c : Config float) (i : Input) (once : i.once ≡ true) (start : ℕ)
    (in_range : start < length i.availability_domains) where
  -- A round that goes on has moved one domain on, which is not the first again, and did not sleep.
  round_again :
      (s t : WatchState) (r : Round float c i) (x : ℕ)
      → s.next_ad ≡ pos x
      → x < length i.availability_domains
      → (watch_round float c i (pos start) s r).1 ≡ again t
      → (t.next_ad ≡ next_index i.availability_domains (pos x))
        × (eq_int t.next_ad (pos start) ≡ false)
        × (asked_domains (watch_round float c i (pos start) s r).0
            ≡ ad_at i.availability_domains (pos x) ∷ [])
  unfolding watch_round round_body on_kind no_capacity found on_fatal end_cycle wait
  round_again s t r x e h go = ground arith

  round_once :
      (s : WatchState) (r : Round float c i) (x : ℕ)
      → s.next_ad ≡ pos x
      → (asked_domains (watch_round float c i (pos start) s r).0
          ≡ ad_at i.availability_domains (pos x) ∷ [])
        × All NoSleep (watch_round float c i (pos start) s r).0
  unfolding watch_round round_body on_kind no_capacity found on_fatal end_cycle wait
  round_once s r x e = ground arith

  -- What holds of a cycle that stands at domain `x`.
  abbrev CycleFrom : WatchState → ℕ → List (Round float c i) → Type 0
  CycleFrom s x rs =
      ((k : ℕ) × (k ≤ left (length i.availability_domains) start x)
        × (asked_domains (watch_loop float c i (pos start) s rs).0
            ≡ take k (rest i.availability_domains start x)))
      × All NoSleep (watch_loop float c i (pos start) s rs).0
      × (left (length i.availability_domains) start x ≤ length rs
          → (watch_loop float c i (pos start) s rs).1 ≢ none)

  one_more :
      (s : WatchState) (x : ℕ) (r : Round float c i) (rs : List (Round float c i))
      → s.next_ad ≡ pos x
      → x < length i.availability_domains
      → ((t : WatchState) (y : ℕ)
          → t.next_ad ≡ pos y
          → y < length i.availability_domains
          → CycleFrom t y rs)
      → CycleFrom s x (r ∷ rs)
  unfolding watch_loop
  one_more s x r rs e h later = elim (WatchStep-cases (watch_round float c i (pos start) s r).1) [
    | inl (t, go) ↦
        let n = length i.availability_domains in
        let (moved, back, one) = round_again s t r x e h go in
        let (_, quiet) = round_once s r x e in
        let y = (x + 1) % n in
        let y_eq = succ_mod x n h in
        let y_lt : y < n = ground arith in
        let y_ne : (y ≡ start) → ⊥ = λ same. ground (arith, moved, back) in
        let fewer : left n start y + 1 ≡ left n start x = ground arith in
        let ((k, few, asks), later_quiet, ends) = later t y moved y_lt in
        rw (go, watch_loop)
          (
            (
              suc k,
              omega arith,
              asked_domains-append (watch_round float c i (pos start) s r).0
                    (watch_loop float c i (pos start) t rs).0
                  ∙ rw
                      (
                        one,
                        asks,
                        rest-ad_at i.availability_domains start x h in_range,
                        rest-rest_after i.availability_domains start x h in_range y_ne,
                      )
                      refl,
            ),
            All-append NoSleep (watch_round float c i (pos start) s r).0
                (watch_loop float c i (pos start) t rs).0 quiet later_quiet,
            λ enough. ends (omega arith),
          )
    | inr (y, done) ↦
        let (one, quiet) = round_once s r x e in
        rw (done, watch_loop)
          (
            (1, ground arith, one ∙ rw (rest-ad_at i.availability_domains start x h in_range) refl),
            quiet,
            λ _. ground arith,
          )
  ]

  cycle :
      (rs : List (Round float c i)) (s : WatchState) (x : ℕ)
      → s.next_ad ≡ pos x
      → x < length i.availability_domains
      → CycleFrom s x rs
  unfolding watch_loop
  cycle [] s x e h = ((0, omega arith, refl), tt, λ enough. absurd (ground arith))
  cycle (r ∷ rs) s x e h = one_more s x r rs e h (λ t y. cycle rs t y)

start_index :
    (k : ℤ) (n : ℕ)
    → 0 < n
    → (x : ℕ) × ((if lt_int k (pos 0) || le_int (pos n) k then pos 0 else k) ≡ pos x) × (x < n)
start_index (negsuc k) n h = (0, ground arith, h)
start_index (pos k) n h = elim (Bool-cases (leb n k)) [
  | inl over ↦ (0, ground arith, h)
  | inr within ↦ (k, ground arith, ground arith)
]

valid_nonempty :
    (float : Float64) (complete : Bool) (c : Config float) (i : Input)
    → validate float complete c i ≡ none
    → 0 < length i.availability_domains
unfolding validate
valid_nonempty float complete c i h = ground arith

module _ (float : Float64) (c : Config float) (i : Input) (complete : Bool) (t : Start float c i)
    (rs : List (Round float c i)) where
  watch_is_loop :
      i.once ≡ true
      → validate float complete c i ≡ none
      → watch float c i complete t rs
        ≡ watch_loop float c i (initial float c i).next_ad (initial float c i) rs
  unfolding watch
  watch_is_loop once fine = ground arith

  watch_refused :
      {e : Err}
      → validate float complete c i ≡ some e
      → watch float c i complete t rs ≡ ([], some (err (capacity_error CapacityKind.fatal "" e)))
  unfolding watch
  watch_refused bad = ground arith

-- The domains in the cyclic order from index `x` on, each once.
abbrev pub rotated : List String → ℕ → List String
rotated ads x = drop x ads ++ take x ads

-- With `--once` the watcher probes the availability domains one after the other, in their cyclic order
-- from the one where it resumes, none of them twice, and never sleeps; and once as many rounds were
-- answered as there are domains it has returned, whatever the answers are.
pub watch-once :
    (float : Float64) (c : Config float) (i : Input) (complete : Bool) (t : Start float c i)
    (rs : List (Round float c i))
    → i.once ≡ true
    → ((k : ℕ) × (k ≤ length i.availability_domains)
        × (asked_domains (watch float c i complete t rs).0
            ≡ take k (rotated i.availability_domains (pos_part (initial float c i).next_ad))))
      × All NoSleep (watch float c i complete t rs).0
      × (length i.availability_domains ≤ length rs → (watch float c i complete t rs).1 ≢ none)
watch-once float c i complete t rs once = elim (Option-cases (validate float complete c i)) [
  | inr (e, bad) ↦
      rw (watch_refused float c i complete t rs bad) ((0, omega arith, refl), tt, λ _. cc)
  | inl fine ↦
      let (x, at_x, x_lt) =
        start_index i.resume.next_ad (length i.availability_domains)
          (valid_nonempty float complete c i fine) in
      let ((k, few, asks), quiet, ends) =
        cycle float c i once x x_lt rs (initial float c i) x at_x x_lt in
      let e : watch float c i complete t rs ≡ watch_loop float c i (pos x) (initial float c i) rs =
        watch_is_loop float c i complete t rs once fine
        ∙ ap (λ k. watch_loop float c i k (initial float c i) rs) at_x in
      let self : leb x x ≡ true = ground arith in
      let whole : rest i.availability_domains x x ≡ rotated i.availability_domains x =
        rw self refl in
      let from_x = ap (λ z. take k (rotated i.availability_domains (pos_part z))) (sym at_x) in
      rw e
        ((k, ground arith, asks ∙ ap (take k) whole ∙ from_x), quiet, λ enough. ends (ground arith))
]
