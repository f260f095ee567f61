-- ===== src/Manager/Callers/Wakes.antt =====
-- The calls of Archive in internal/services/lottery_manager.go that wait for a load of another call.
use mathlib.Core.Option.{some-injective, none-ne-some}
use stat_tree_server.Base.{ℕ, ◌≡◌, ◌≢◌, refl, sym, ap, ◌∙◌, true, false, some, eq→==, ne→==}
use stat_tree_server.Manager.Cache.{
  LotteryManager, Loaded, built, failed, answer_of, window_key, finish_load, evict,
}
use stat_tree_server.Manager.Sections.{store_self}
use stat_tree_server.Manager.Callers.{
  Caller, idle, calling, holding, selecting, listening, stranded, hitting, building, finishing,
  returned, Move, cancel, cancel_stranded, build_archive, finish, update, World, Reach,
}
use stat_tree_server.Manager.Callers.Manned.{load_of}
use stat_tree_server.Manager.Callers.Flights.{Reach-IsFlown}

-- The move is not the end of the call's context.
abbrev pub IsPatient :
    {A T : Type 0} {reads : T → ℕ → ℕ → A} {t : T} {m m' : LotteryManager A} {p p' : Caller A}
    → Move reads t m p m' p'
    → Type 0
IsPatient cancel = ⊥
IsPatient cancel_stranded = ⊥
IsPatient _ = Unit

-- The worlds that such steps of one call alone lead to.
pub data Alone {A T : Type 0} (reads : T → ℕ → ℕ → A) (i : ℕ) (w : World A T)
    : World A T → Type 0 where
  rest : Alone reads i w w
  go :
      {v : World A T} {m : LotteryManager A} {p p' : Caller A}
      → Alone reads i w v
      → v.callers i ≡ p
      → (mv : Move reads v.table v.manager p m p') → IsPatient mv
      → Alone reads i w (record v { manager = m; callers = update v.callers i p' })

pub update_at :
    {A : Type 0} (callers : ℕ → Caller A) (i : ℕ) (p : Caller A) → update callers i p i ≡ p
update_at callers i p = rw (eq→== i i refl) refl

update_other :
    {A : Type 0} (callers : ℕ → Caller A) (i j : ℕ) (p : Caller A)
    → j ≢ i
    → update callers i p j ≡ callers j
update_other callers i j p other = rw (ne→== j i other) refl

module _ {A T : Type 0} (reads : T → ℕ → ℕ → A) where
  -- By such steps of the call `i` alone the channel of the entry is closed, and the call `j` stands as
  -- before.
  abbrev pub Closes : ℕ → ℕ → ℕ → World A T → Type 0
  Closes i j e w =
      (v : World A T) × Alone reads i w v
      × ((v.manager.entries e).loading ≡ false)
      × (v.callers j ≡ w.callers j)

  finish_closes :
      (e from to : ℕ) (result : Loaded A) (m : LotteryManager A)
      → ((finish_load (window_key from to) e result m).entries e).loading ≡ false
  unfolding finish_load evict
  finish_closes e from to (built a) m = ap (λ r. r.loading) (store_self m.entries e _)
  finish_closes e from to (failed text) m = ap (λ r. r.loading) (store_self m.entries e _)

  finishing-Closes :
      (i j e from to : ℕ) (result : Loaded A) (w : World A T)
      → j ≢ i
      → w.callers i ≡ finishing e from to result
      → Closes i j e w
  finishing-Closes i j e from to result w other at_i = (
    record w {
      manager = finish_load (window_key from to) e result w.manager;
      callers = update w.callers i (returned (answer_of result));
    },
    go rest at_i finish tt,
    finish_closes e from to result w.manager,
    update_other w.callers i j (returned (answer_of result)) other,
  )

  building-Closes :
      (i j e from to : ℕ) (w : World A T)
      → j ≢ i
      → w.callers i ≡ building e from to
      → Closes i j e w
  building-Closes i j e from to w other at_i =
      let result : Loaded A = built (reads w.table from to) in
      let p : Caller A = finishing e from to result in
      (
        record w {
          manager = finish_load (window_key from to) e result w.manager;
          callers = update (update w.callers i p) i (returned (answer_of result));
        },
        go (go rest at_i build_archive tt) (update_at w.callers i p) finish tt,
        finish_closes e from to result w.manager,
        update_other (update w.callers i p) i j (returned (answer_of result)) other
            ∙ update_other w.callers i j p other,
      )

  load-Closes :
      (i j e : ℕ) (w : World A T) (p : Caller A)
      → j ≢ i
      → w.callers i ≡ p
      → load_of p ≡ some e
      → Closes i j e w
  load-Closes i j e w (building x from to) other at_i load =
      building-Closes i j e from to w other
        (at_i ∙ ap (λ y. building y from to) (some-injective _ _ load))
  load-Closes i j e w (finishing x from to result) other at_i load =
      finishing-Closes i j e from to result w other
        (at_i ∙ ap (λ y. finishing y from to result) (some-injective _ _ load))
  load-Closes i j e w idle other at_i load = absurd (none-ne-some _ load)
  load-Closes i j e w (calling from to) other at_i load = absurd (none-ne-some _ load)
  load-Closes i j e w (holding x) other at_i load = absurd (none-ne-some _ load)
  load-Closes i j e w (selecting x) other at_i load = absurd (none-ne-some _ load)
  load-Closes i j e w (listening x) other at_i load = absurd (none-ne-some _ load)
  load-Closes i j e w stranded other at_i load = absurd (none-ne-some _ load)
  load-Closes i j e w (hitting x) other at_i load = absurd (none-ne-some _ load)
  load-Closes i j e w (returned a) other at_i load = absurd (none-ne-some _ load)

  -- However calls of Archive, writes and invalidations interleave: while a call listens on the open
  -- channel of an entry, some call loads the entry, and its own steps can close the channel.
  pub listening-Closes :
      {w : World A T}
      → Reach reads w
      → (j e : ℕ) → w.callers j ≡ listening e
      → (w.manager.entries e).loading ≡ true
      → (i : ℕ) × (load_of (w.callers i) ≡ some e) × Closes i j e w
  listening-Closes {w} r j e at_j open_channel =
      let (i, load) = (Reach-IsFlown r).1.manned e open_channel in
      (
        i,
        load,
        load-Closes i j e w (w.callers i)
            (λ same. none-ne-some _ (ap load_of (sym at_j ∙ ap w.callers same) ∙ load)) refl load,
      )
