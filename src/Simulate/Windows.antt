-- ===== src/Simulate/Windows.antt =====
-- The date windows of internal/services/simulate.go.
use stat_tree_server.Base.{
  ℕ, ◌≡◌, ◌⊎◌, refl, ap, Bool, true, false, not, ◌&&◌, ◌||◌, List, [], ◌∷◌, some, arith, ltb, leb,
  ◌==◌, if◌then◌else◌, inl, inr, Bool-cases,
}
use stat_tree_server.Base.Sort.{keep}
use stat_tree_server.Models.{LotteryResult}
use stat_tree_server.Simulate.{
  DateWindow, bound, stamp, union_windows, kept_draws, filter_draws_by_window,
}

-- Whether a date lies within inclusive bounds, of which 0 is open.
abbrev pub within : ℕ → ℕ → ℕ → Bool
within from to date = (from == 0 || leb from date) && (to == 0 || leb date to)

abbrev pub in_window : DateWindow → ℕ → Bool
in_window w = within (bound w.from) (bound w.to)

kept_draws-keep :
    {F : Type 0} (from to : ℕ) (draws : List (LotteryResult F))
    → kept_draws from to draws ≡ keep (λ d. within from to d.draw_date) draws
unfolding kept_draws keep
kept_draws-keep from to [] = refl
kept_draws-keep from to (d ∷ draws) = ground (arith, kept_draws-keep from to draws)

open_window :
    {F : Type 0} (draws : List (LotteryResult F)) → draws ≡ keep (λ d. within 0 0 d.draw_date) draws
unfolding keep
open_window [] = refl
open_window (d ∷ draws) = ap (◌∷◌ d) (open_window draws)

-- filterDrawsByWindow keeps, in order, exactly the draws whose date lies within the inclusive bounds.
pub filter_draws_by_window-keep :
    {F : Type 0} (draws : List (LotteryResult F)) (from to : ℕ)
    → filter_draws_by_window draws from to ≡ keep (λ d. within from to d.draw_date) draws
unfolding filter_draws_by_window
filter_draws_by_window-keep draws from to = elim (Bool-cases (from == 0 && to == 0)) [
  | inl e ↦
      let e_from : from ≡ 0 = ground arith in
      let e_to : to ≡ 0 = ground arith in rw (e_from, e_to) (open_window draws)
  | inr e ↦ rw e (kept_draws-keep from to draws)
]

bound-stamp : (t : ℕ) → bound (stamp t) ≡ t
bound-stamp t = elim (Bool-cases (t == 0)) [ inl e ↦ rw e (ground arith) | inr e ↦ rw e refl ]

abbrev lower : ℕ → ℕ → ℕ
lower a b = if b == 0 || (not (a == 0) && ltb b a) then b else a

abbrev upper : ℕ → ℕ → ℕ
upper a b = if b == 0 || (not (a == 0) && ltb a b) then b else a

lower-covers :
    (a b t : ℕ)
    → ((a == 0 || leb a t) ≡ true) ⊎ ((b == 0 || leb b t) ≡ true)
    → (lower a b == 0 || leb (lower a b) t) ≡ true
lower-covers a b t h = ground arith

upper-covers :
    (a b t : ℕ)
    → ((a == 0 || leb t a) ≡ true) ⊎ ((b == 0 || leb t b) ≡ true)
    → (upper a b == 0 || leb t (upper a b)) ≡ true
upper-covers a b t h = ground arith

and_left : (p q : Bool) → p && q ≡ true → p ≡ true
and_left true q e = refl
and_left false q e = e

and_right : (p q : Bool) → p && q ≡ true → q ≡ true
and_right true q e = e
and_right false q e = absurd (ground arith)

both : (p q : Bool) → p ≡ true → q ≡ true → p && q ≡ true
both p q e e' = rw (e, e') refl

-- A date lies in the union of two windows if it lies in one of them.
pub union_windows-covers :
    (a b : DateWindow) (date : ℕ)
    → (in_window a date ≡ true) ⊎ (in_window b date ≡ true)
    → (u : DateWindow) × (union_windows (some a) (some b) ≡ some u) × (in_window u date ≡ true)
unfolding union_windows
union_windows-covers a b date h =
    let af = bound a.from in
    let at' = bound a.to in
    let bf = bound b.from in
    let bt = bound b.to in
    (
      _,
      refl,
      rw (bound-stamp (lower af bf), bound-stamp (upper at' bt))
          (both _ _
            (lower-covers af bf date
              (elim h [ inl e ↦ inl (and_left _ _ e) | inr e ↦ inr (and_left _ _ e) ]))
            (upper-covers at' bt date (elim h [
              | inl e ↦ inl (and_right (af == 0 || leb af date) _ e)
              | inr e ↦ inr (and_right (bf == 0 || leb bf date) _ e)
            ]))),
    )
