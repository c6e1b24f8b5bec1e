-- ===== src/Quota/Exhausted/Chosen.antt =====
-- Which window `exhausted_window` of src/jev_router/quota.py gives, and when it gives none.
use mathlib.Core.List.{Memᴰ}
use mathlib.Core.Bool.{true≢false}
use jev_router.Common.{
  ◌≡◌, ◌⊎◌, refl, sym, ap, ◌∙◌, subst, Bool, true, false, not, inl, inr, str_eq, str_eq_iff, List,
  [], ◌∷◌, Option, none, some, keep, if◌then◌else◌, Bool-cases, of_some, Memᴰ-keep, or_true,
}
use jev_router.Common.Float.{Float, Number, ◌<=◌, ◌<<◌}
use jev_router.Common.Table.{any-Memᴰ}
use jev_router.Config.Router.{QuotaPolicyCfg}
use jev_router.Quota.{
  fresh, stale, unknown, error, QuotaWindow, QuotaSnapshot, percent, share, has_number, is_reading,
  is_old, snapshot_status,
}
use jev_router.Quota.Exhausted.{
  is_fresh, summary_window, windows_of, reaches_mark, is_spent, reset_key, exhausted_in,
  exhausted_window,
}
use jev_router.Quota.Exhausted.Latest.{StrictLaws, latest-some, latest-none}

module _ ⦃f : Float⦄ where
  -- A reading without an error, and no older than the limit where there is one
  pub record IsCurrent (s : QuotaSnapshot) (now : Number) (stale_after : Option Number)
      : Type 0 where
    pub no_error : s.error ≡ ""
    pub timely :
        (after : Number) → stale_after ≡ some after → (after << f.sub now s.fetched_at) ≡ false

  -- A window of the snapshot, or, where it has none, its own numbers as one
  pub IsWindow : QuotaSnapshot → QuotaWindow → Type 0
  IsWindow s w =
      Memᴰ w s.windows
      ⊎ ((s.windows ≡ [])
          × (w ≡ record {
            name = "";
            used_percent = s.used_percent;
            used = none;
            limit = none;
            expected_used_percent = none;
            window_minutes = s.window_minutes;
            resets_at = s.resets_at;
          }))

  pub AtMark : QuotaPolicyCfg → QuotaWindow → Type 0
  AtMark knobs w = (p : Number) × (percent w ≡ some p) × ((knobs.exhausted_at <= p) ≡ true)

  -- The window of a current reading that is at the mark and resets last, or no window at the mark
  pub Says :
      Option QuotaSnapshot → QuotaPolicyCfg → Number → Option Number → Option QuotaWindow → Type 0
  Says snapshot knobs now stale_after (some w) =
      (s : QuotaSnapshot) × (snapshot ≡ some s)
      × IsCurrent s now stale_after
      × IsWindow s w
      × AtMark knobs w
      × ((v : QuotaWindow) → IsWindow s v → AtMark knobs v → (reset_key w << reset_key v) ≡ false)
  Says snapshot knobs now stale_after none =
      (s : QuotaSnapshot)
      → snapshot ≡ some s
      → IsCurrent s now stale_after
      → (v : QuotaWindow) → IsWindow s v
      → ¬ AtMark knobs v

  from_listed :
      (s : QuotaSnapshot) (w : QuotaWindow) (ws : List QuotaWindow)
      → s.windows ≡ ws
      → Memᴰ w (elim ws [ [] ↦ summary_window s ∷ [] | x ∷ xs ↦ x ∷ xs ])
      → IsWindow s w
  unfolding IsWindow summary_window
  from_listed s w [] e (Memᴰ.head same) = inr (e, same)
  from_listed s w [] e (Memᴰ.tail m) = elim m [ ]
  from_listed s w (x ∷ xs) e m = inl (subst (Memᴰ w) (sym e) m)

  to_listed :
      (s : QuotaSnapshot) (w : QuotaWindow) (ws : List QuotaWindow)
      → s.windows ≡ ws
      → IsWindow s w
      → Memᴰ w (elim ws [ [] ↦ summary_window s ∷ [] | x ∷ xs ↦ x ∷ xs ])
  unfolding IsWindow summary_window
  to_listed s w [] e (inl m) = elim (subst (Memᴰ w) e m) [ ]
  to_listed s w (x ∷ xs) e (inl m) = subst (Memᴰ w) e m
  to_listed s w [] e (inr (none_, same)) = Memᴰ.head same
  to_listed s w (x ∷ xs) e (inr (none_, same)) = cc

  windows_of-IsWindow : (s : QuotaSnapshot) (w : QuotaWindow) → Memᴰ w (windows_of s) → IsWindow s w
  unfolding windows_of
  windows_of-IsWindow s w m = from_listed s w s.windows refl m

  IsWindow-windows_of : (s : QuotaSnapshot) (w : QuotaWindow) → IsWindow s w → Memᴰ w (windows_of s)
  unfolding windows_of
  IsWindow-windows_of s w m = to_listed s w s.windows refl m

  reaches_mark-mark :
      (mark : Number) (o : Option Number)
      → reaches_mark mark o ≡ true
      → (p : Number) × (o ≡ some p) × ((mark <= p) ≡ true)
  unfolding reaches_mark
  reaches_mark-mark mark none h = cc
  reaches_mark-mark mark (some p) h = (p, refl, h)

  is_spent-AtMark :
      (knobs : QuotaPolicyCfg) (w : QuotaWindow) → is_spent knobs w ≡ true → AtMark knobs w
  unfolding is_spent AtMark
  is_spent-AtMark knobs w h = reaches_mark-mark knobs.exhausted_at (percent w) h

  AtMark-is_spent :
      (knobs : QuotaPolicyCfg) (w : QuotaWindow) → AtMark knobs w → is_spent knobs w ≡ true
  unfolding is_spent AtMark reaches_mark
  AtMark-is_spent knobs w (p, e, h) = rw e h

  keep-Memᴰ :
      (p : QuotaWindow → Bool) (ws : List QuotaWindow) (w : QuotaWindow)
      → Memᴰ w ws
      → p w ≡ true
      → Memᴰ w (keep p ws)
  unfolding keep
  keep-Memᴰ p [] w m hit = elim m [ ]
  keep-Memᴰ p (x ∷ xs) w (Memᴰ.head e) hit = rw (sym e, hit) (Memᴰ.head refl)
  keep-Memᴰ p (x ∷ xs) w (Memᴰ.tail m) hit = elim (Bool-cases (p x)) [
    | inl yes_ ↦ rw yes_ (Memᴰ.tail (keep-Memᴰ p xs w m hit))
    | inr no_ ↦ rw no_ (keep-Memᴰ p xs w m hit)
  ]

  own_number :
      (o : Option Number) (p : Number)
      → (elim o [ none ↦ none | some x ↦ some x ]) ≡ some p
      → has_number o ≡ true
  unfolding has_number
  own_number none p h = cc
  own_number (some x) p h = refl

  -- A reading with a window at the mark has a number, so a current one is fresh.
  IsWindow-is_reading :
      (s : QuotaSnapshot) (w : QuotaWindow) (p : Number)
      → s.error ≡ ""
      → IsWindow s w
      → percent w ≡ some p
      → is_reading s ≡ true
  unfolding is_reading IsWindow has_number percent share
  IsWindow-is_reading s w p good (inl m) used =
      rw
        (
          good,
          any-Memᴰ (λ w. has_number (percent w)) s.windows w m (rw used refl),
          or_true (has_number s.used_percent),
        )
        refl
  IsWindow-is_reading s w p good (inr (none_, same)) used =
      rw (good, own_number s.used_percent p (ap (λ v. percent v) (sym same) ∙ used)) refl

  IsCurrent-fresh :
      (s : QuotaSnapshot) (now : Number) (stale_after : Option Number)
      → IsCurrent s now stale_after
      → is_reading s ≡ true
      → is_fresh (snapshot_status (some s) now stale_after) ≡ true
  unfolding snapshot_status is_old is_fresh
  IsCurrent-fresh s now none c reading = rw (reading, c.no_error) refl
  IsCurrent-fresh s now (some after) c reading = rw (reading, c.no_error, c.timely after refl) refl

  fresh_only :
      (good reading old : Bool)
      → is_fresh (
          if not good then error else if not reading then unknown else if old then stale else fresh)
        ≡ true
      → (good ≡ true) × (old ≡ false)
  unfolding is_fresh
  fresh_only true true false h = (refl, refl)
  fresh_only true true true h = cc
  fresh_only true false old h = cc
  fresh_only false reading old h = cc

  fresh-IsCurrent :
      (s : QuotaSnapshot) (now : Number) (stale_after : Option Number)
      → is_fresh (snapshot_status (some s) now stale_after) ≡ true
      → IsCurrent s now stale_after
  unfolding snapshot_status is_old is_fresh
  fresh-IsCurrent s now stale_after h =
      let (good, young) =
        fresh_only (str_eq s.error "") (is_reading s) (is_old s now stale_after) h in
      record {
        no_error = (str_eq_iff s.error "").0 good;
        timely = λ after given. ap (is_old s now) (sym given) ∙ young;
      }

  module _ (laws : StrictLaws) (knobs : QuotaPolicyCfg) (now : Number)
      (stale_after : Option Number) where
    abbrev spent_of : QuotaSnapshot → List QuotaWindow
    spent_of s = keep (is_spent knobs) (windows_of s)

    at_mark-spent :
        (s : QuotaSnapshot) (v : QuotaWindow) → IsWindow s v → AtMark knobs v → Memᴰ v (spent_of s)
    at_mark-spent s v its marked =
        keep-Memᴰ (is_spent knobs) (windows_of s) v (IsWindow-windows_of s v its)
          (AtMark-is_spent knobs v marked)

    exhausted_in-Says :
        (s : QuotaSnapshot) (is_fresh_ : Bool)
        → is_fresh (snapshot_status (some s) now stale_after) ≡ is_fresh_
        → (o : Option QuotaWindow) → exhausted_in knobs is_fresh_ (some s) ≡ o
        → Says (some s) knobs now stale_after o
    unfolding exhausted_in Says AtMark
    exhausted_in-Says s true current (some w) h =
        let (chosen, last) = latest-some laws (spent_of s) w h in
        let (member, spent) = Memᴰ-keep (is_spent knobs) (windows_of s) w chosen in
        (
          s,
          refl,
          fresh-IsCurrent s now stale_after current,
          windows_of-IsWindow s w member,
          is_spent-AtMark knobs w spent,
          λ v its marked. last v (at_mark-spent s v its marked),
        )
    exhausted_in-Says s true current none h = λ t same is_current v its marked.
        latest-none laws (spent_of s) v h
          (at_mark-spent s v (subst (λ x. IsWindow x v) (sym (of_some same)) its) marked)
    exhausted_in-Says s false old (some w) h = cc
    exhausted_in-Says s false old none h = λ t same is_current v its marked. true≢false (
        sym (
          IsCurrent-fresh t now stale_after is_current
            (IsWindow-is_reading t v marked.0 is_current.no_error its marked.1))
        ∙ ap (λ x. is_fresh (snapshot_status (some x) now stale_after)) (sym (of_some same))
        ∙ old)

    -- An exhausted window is a window of the snapshot, or stands for a snapshot that has none, is
    -- used up to the mark, and no other such window resets later, where an unknown reset counts
    -- as infinitely late. The snapshot is one without an error and within the age limit. Where no
    -- window is given, such a snapshot has no window at the mark. `<` on floats is a strict order.
    pub exhausted_window-Says :
        (snapshot : Option QuotaSnapshot)
        → Says snapshot knobs now stale_after (exhausted_window snapshot knobs now stale_after)
    unfolding exhausted_window exhausted_in Says
    exhausted_window-Says none = λ s same. cc
    exhausted_window-Says (some s) =
        exhausted_in-Says s (is_fresh (snapshot_status (some s) now stale_after)) refl
          (exhausted_window (some s) knobs now stale_after) refl
