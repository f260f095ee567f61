-- ===== src/Manager/Callers/Served.antt =====
-- What a call of Archive in internal/services/lottery_manager.go has found, from its start to its
-- answer, while the table of draws does not change.
use mathlib.Core.Option.{some-injective, none-ne-some}
use stat_tree_server.Base.{
  ℕ, ◌≡◌, ◌⊎◌, refl, sym, ap, ◌∙◌, Bool, true, false, [], Option, none, some, Bool-cases, inl, inr,
  Option-cases, clash,
}
use stat_tree_server.Manager.Keys.{key_of-found, same_key-path}
use stat_tree_server.Manager.Sound.{found_cached}
use stat_tree_server.Manager.Cache.{
  LotteryManager, built, failed, found, error, blocked, window_key, find_key, access, touch,
}
use stat_tree_server.Manager.Callers.{
  Caller, idle, calling, holding, selecting, listening, stranded, hitting, building, finishing,
  returned, entered, Move, call, call_again, enter, in_flight, ready_now, listen, miss_channel,
  wake, wake_error, cancel, cancel_stranded, hit, build_archive, build_fails, finish,
}
use stat_tree_server.Manager.Callers.Coherent.{Coherent}
use stat_tree_server.Manager.Callers.Good.{IsGood, cached-IsGood}
use stat_tree_server.Manager.Callers.Stays.{Stays}
use stat_tree_server.Manager.Callers.Named.{IsNamed}

-- The call has not returned.
abbrev pub in_call : {A : Type 0} → Caller A → Bool
in_call idle = false
in_call (returned a) = false
in_call _ = true

module _ {A T : Type 0} (reads : T → ℕ → ℕ → A) where
  module _ (from to : ℕ) where
    -- The archive is what the table has for a window with the same key.
    abbrev pub IsAnswer : T → A → Type 0
    IsAnswer t a =
        (lo : ℕ) × (hi : ℕ) × (window_key lo hi ≡ window_key from to) × (a ≡ reads t lo hi)

    -- The entry is good and has the key of the window.
    abbrev pub HasFound : T → LotteryManager A → (ℕ → Caller A) → ℕ → Type 0
    HasFound t m callers e =
        IsGood reads t m.entries m.next_id callers e × ((m.entries e).key ≡ window_key from to)

    -- What holds of a call for the window, as far as it has come.
    abbrev pub IsServing : T → LotteryManager A → (ℕ → Caller A) → Caller A → Type 0
    IsServing t m callers (calling lo hi) = (lo ≡ from) × (hi ≡ to)
    IsServing t m callers (holding e) = HasFound t m callers e
    IsServing t m callers (selecting e) = HasFound t m callers e
    IsServing t m callers (listening e) = HasFound t m callers e
    IsServing t m callers (hitting e) = HasFound t m callers e × ((m.entries e).loading ≡ false)
    IsServing t m callers (building e lo hi) = (lo ≡ from) × (hi ≡ to)
    IsServing t m callers (finishing e lo hi (built a)) = a ≡ reads t from to
    IsServing t m callers (returned (found (some a))) = IsAnswer t a
    IsServing t m callers _ = Unit

    keeps-HasFound :
        (t : T) (m m' : LotteryManager A) (callers callers' : ℕ → Caller A) (e : ℕ)
        → (IsGood reads t m.entries m.next_id callers e
            → Stays reads t m.entries m'.entries m'.next_id callers' e)
        → HasFound t m callers e
        → HasFound t m' callers' e
    keeps-HasFound t m m' callers callers' e keep (g, k) = let s = keep g in (s.0, s.1 ∙ k)

    -- A step that keeps the good entries keeps what holds of a call that stands still.
    pub keeps-IsServing :
        (t : T) (m m' : LotteryManager A) (callers callers' : ℕ → Caller A)
        → ((e : ℕ)
            → IsGood reads t m.entries m.next_id callers e
            → Stays reads t m.entries m'.entries m'.next_id callers' e)
        → (p : Caller A) → IsServing t m callers p
        → IsServing t m' callers' p
    keeps-IsServing t m m' cs cs' keep idle h = tt
    keeps-IsServing t m m' cs cs' keep (calling lo hi) h = h
    keeps-IsServing t m m' cs cs' keep (holding e) h = keeps-HasFound t m m' cs cs' e (keep e) h
    keeps-IsServing t m m' cs cs' keep (selecting e) h = keeps-HasFound t m m' cs cs' e (keep e) h
    keeps-IsServing t m m' cs cs' keep (listening e) h = keeps-HasFound t m m' cs cs' e (keep e) h
    keeps-IsServing t m m' cs cs' keep stranded h = tt
    keeps-IsServing t m m' cs cs' keep (hitting e) (h, over) =
        (keeps-HasFound t m m' cs cs' e (keep e) h, (keep e h.0).2 over)
    keeps-IsServing t m m' cs cs' keep (building e lo hi) h = h
    keeps-IsServing t m m' cs cs' keep (finishing e lo hi (built a)) h = h
    keeps-IsServing t m m' cs cs' keep (finishing e lo hi (failed text)) h = tt
    keeps-IsServing t m m' cs cs' keep (returned (found none)) h = tt
    keeps-IsServing t m m' cs cs' keep (returned (found (some a))) h = h
    keeps-IsServing t m m' cs cs' keep (returned (error text)) h = tt
    keeps-IsServing t m m' cs cs' keep (returned blocked) h = tt

    enter-IsServing :
        (t : T) (m : LotteryManager A) (callers callers' : ℕ → Caller A)
        → Coherent reads t [] m callers
        → ((e : ℕ)
            → IsGood reads t m.entries m.next_id callers e
            → Stays reads t m.entries
                (access from to m).1.entries
                (access from to m).1.next_id
                callers'
                e)
        → IsServing t (access from to m).1 callers' (entered from to (access from to m).0)
    unfolding access
    enter-IsServing t m cs cs' c keep =
        elim (Option-cases (find_key (window_key from to) m.cache)) [
          | inl absent ↦ rw absent (refl, refl)
          | inr (x, at_x) ↦
              let g =
                cached-IsGood reads t m.entries m.next_id m.cache cs x c
                  (found_cached (window_key from to) x m.cache at_x) in
              let k = same_key-path (m.entries x).key (window_key from to) (
                key_of-found (λ e. (m.entries e).key) (window_key from to) x m.cache c.keyed
                  at_x) in
              let keep' : (e : ℕ)
                  → IsGood reads t m.entries m.next_id cs e
                  → Stays reads t m.entries m.entries m.next_id cs' e =
                rw (at_x, access) at keep in
              let h : HasFound t m cs' x = keeps-HasFound t m m cs cs' x (keep' x) (g, k) in
              elim (Bool-cases (m.entries x).loading) [
                | inl busy ↦ rw (at_x, busy) h
                | inr over ↦ rw (at_x, over) h
              ]
        ]

    hit-IsServing :
        (t : T) (m m' : LotteryManager A) (callers callers' : ℕ → Caller A) (e : ℕ) (o : Option A)
        → IsNamed m
        → HasFound t m callers e
        → (o ≡ none) ⊎ (o ≡ some (reads t (m.entries e).from (m.entries e).to))
        → IsServing t m' callers' (returned (found o))
    hit-IsServing t m m' cs cs' e none named h now = tt
    hit-IsServing t m m' cs cs' e (some a) named (g, k) (inl empty) =
        absurd (none-ne-some _ (sym empty))
    hit-IsServing t m m' cs cs' e (some a) named (g, k) (inr now) =
        ((m.entries e).from, (m.entries e).to, sym (named e g.known) ∙ k, some-injective _ _ now)

    -- The call itself moves on.
    pub own-IsServing :
        {t : T} {m m' : LotteryManager A} {p p' : Caller A} (callers callers' : ℕ → Caller A)
        → Move reads t m p m' p'
        → in_call p ≡ true
        → IsNamed m
        → Coherent reads t [] m callers
        → ((e : ℕ)
            → IsGood reads t m.entries m.next_id callers e
            → Stays reads t m.entries m'.entries m'.next_id callers' e)
        → IsServing t m callers p
        → IsServing t m' callers' p'
    own-IsServing cs cs' (call lo hi) busy named c keep h = absurd (clash busy refl)
    own-IsServing cs cs' (call_again lo hi) busy named c keep h = absurd (clash busy refl)
    own-IsServing {t} {m} cs cs' (enter {from = lo} {to = hi}) busy named c keep (at_lo, at_hi) =
        entering lo hi at_lo at_hi keep
      where
        entering :
            (lo hi : ℕ)
            → lo ≡ from
            → hi ≡ to
            → ((e : ℕ)
                → IsGood reads t m.entries m.next_id cs e
                → Stays reads t m.entries
                    (access lo hi m).1.entries
                    (access lo hi m).1.next_id
                    cs'
                    e)
            → IsServing t (access lo hi m).1 cs' (entered lo hi (access lo hi m).0)
        entering lo hi at_lo at_hi keep =
            rw (at_lo, at_hi) (enter-IsServing t m cs cs' c (rw (at_lo, at_hi) at keep))
    own-IsServing {t} {m} {m'} cs cs' (in_flight {e} b) busy named c keep h =
        keeps-HasFound t m m' cs cs' e (keep e) h
    own-IsServing {t} {m} {m'} cs cs' (ready_now {e} b) busy named c keep h =
        (keeps-HasFound t m m' cs cs' e (keep e) h, b)
    own-IsServing {t} {m} {m'} cs cs' (listen {e} b) busy named c keep h =
        keeps-HasFound t m m' cs cs' e (keep e) h
    own-IsServing cs cs' (miss_channel b) busy named c keep h = tt
    own-IsServing {t} {m} {m'} cs cs' (wake {e} b r) busy named c keep h =
        (keeps-HasFound t m m' cs cs' e (keep e) h, b)
    own-IsServing cs cs' (wake_error b r) busy named c keep h = tt
    own-IsServing cs cs' cancel busy named c keep h = tt
    own-IsServing cs cs' cancel_stranded busy named c keep h = tt
    own-IsServing {t} {m} cs cs' (hit {e}) busy named c keep (h, over) =
        hit-IsServing t m (touch e m) cs cs' e (m.entries e).arch named h (h.0.fresh over)
    own-IsServing {t} cs cs' (build_archive {from = lo} {to = hi}) busy named c keep
          (at_lo, at_hi) =
        ap (λ x. reads t x hi) at_lo ∙ ap (reads t from) at_hi
    own-IsServing cs cs' (build_fails text) busy named c keep h = tt
    own-IsServing cs cs' (finish {result = built a}) busy named c keep h = (from, to, refl, h)
    own-IsServing cs cs' (finish {result = failed text}) busy named c keep h = tt
