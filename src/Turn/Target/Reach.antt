-- ===== src/Turn/Target/Reach.antt =====
-- `_target_index` only ever raises the answer above one more rung, up to the top.
use jev_router.Common.{
  ℕ, ◌+◌, ◌-◌, ◌≤◌, min, ◌≡◌, ap, Bool, true, String, List, [], ◌∷◌, Option, none, some, arith,
  length, index_of, index_of-lt,
}
use mathlib.Core.List.{Memᴰ}
use jev_router.Common.Float.{Float, Number}
use jev_router.Config.Adaptive.{Upward, jump, step, AdaptiveEffortCfg}
use jev_router.Turn.Evidence.{Evidence, reaches}
use jev_router.Turn.Target.{
  Note, Reached, reach, reach_if, reach_rungs, reach_named, target_index, target_by, one_more,
  cap_top,
}

reach-grows : (o : Option ℕ) (why : Note) (r : Reached) → r.want ≤ (reach o why r).want
unfolding reach
reach-grows none why r = omega arith
reach-grows (some i) why r = ground arith

reach_if-grows :
    (b : Bool) (o : Option ℕ) (why : Note) (r : Reached) → r.want ≤ (reach_if b o why r).want
reach_if-grows b o why r = ground (arith, reach-grows o why r)

asked_covers :
    (b : Bool) (o : Option ℕ) (i : ℕ) (why : Note) (r : Reached)
    → b ≡ true
    → o ≡ some i
    → i ≤ (reach_if b o why r).want
unfolding reach
asked_covers b o i why r asked at = ground arith

module _ ⦃f : Float⦄ where
  reach_rungs-grows :
      (e : Evidence) (rungs : List String) (table : List (String × Number)) (r : Reached)
      → r.want ≤ (reach_rungs e rungs table r).want
  unfolding reach_rungs
  reach_rungs-grows e rungs [] r = omega arith
  reach_rungs-grows e rungs ((rung, entry) ∷ rest) r =
      let r' =
        reach_if (reaches e.difficulty entry) (index_of rungs rung) (Note.difficulty_asks rung) r in
      omega (
        arith,
        reach_if-grows (reaches e.difficulty entry) (index_of rungs rung)
            (Note.difficulty_asks rung) r,
        reach_rungs-grows e rungs rest r',
      )

  -- Every rung whose entry the difficulty reaches is reached.
  reach_rungs-covers :
      (e : Evidence) (rungs : List String) (table : List (String × Number)) (r : Reached)
      (rung : String) (entry : Number) (i : ℕ)
      → Memᴰ (rung, entry) table
      → reaches e.difficulty entry ≡ true
      → index_of rungs rung ≡ some i
      → i ≤ (reach_rungs e rungs table r).want
  unfolding reach_rungs
  reach_rungs-covers e rungs [] r rung entry i there high at = elim there [ ]
  reach_rungs-covers e rungs ((rung', entry') ∷ rest) r rung entry i (Memᴰ.head same) high at =
      let r' =
        reach_if (reaches e.difficulty entry') (index_of rungs rung') (Note.difficulty_asks rung')
          r in
      omega (
        arith,
        asked_covers (reaches e.difficulty entry') (index_of rungs rung') i
            (Note.difficulty_asks rung') r (rw (← ap (λ (p : String × Number). p.1) same) high)
            (rw (← ap (λ (p : String × Number). p.0) same) at),
        reach_rungs-grows e rungs rest r',
      )
  reach_rungs-covers e rungs ((rung', entry') ∷ rest) r rung entry i (Memᴰ.tail there) high at =
      reach_rungs-covers e rungs rest
        (reach_if (reaches e.difficulty entry') (index_of rungs rung') (Note.difficulty_asks rung')
          r)
        rung entry i there high at

  reach_named-grows :
      (e : Evidence) (cfg : AdaptiveEffortCfg) (rungs : List String) (protected : Bool)
      (r : Reached)
      → r.want ≤ (reach_named e cfg.thresholds cfg.targets rungs protected r).want
  unfolding reach_named
  reach_named-grows e cfg rungs protected r = grind (arith, reach_if-grows)

  -- The answer lies above one more rung, or at the top, and never above the top.
  module _ (e : Evidence) (cfg : AdaptiveEffortCfg) (rungs : List String) (at : ℕ)
      (protected : Bool) where
    abbrev first : Reached
    first = record { want = one_more rungs at; note = none }

    target_by_bounds :
        (u : Upward)
        → (min (at + 1) (length rungs - 1) ≤ (target_by u e cfg rungs at protected).want)
          × ((target_by u e cfg rungs at protected).want ≤ length rungs - 1)
    unfolding target_by one_more cap_top
    target_by_bounds step = omega arith
    target_by_bounds jump = omega (
      arith,
      reach_rungs-grows e rungs cfg.targets.difficulty first,
      reach_named-grows e cfg rungs protected (reach_rungs e rungs cfg.targets.difficulty first),
    )

  pub target_index_bounds :
      (e : Evidence) (cfg : AdaptiveEffortCfg) (rungs : List String) (at : ℕ) (protected : Bool)
      → (min (at + 1) (length rungs - 1) ≤ (target_index e cfg rungs at protected).want)
        × ((target_index e cfg rungs at protected).want ≤ length rungs - 1)
  unfolding target_index
  target_index_bounds e cfg rungs at protected =
      target_by_bounds e cfg rungs at protected cfg.upward

  -- Under `jump` the target is no lower than any rung of the ladder whose entry the difficulty
  -- reaches.
  pub target_index-covers :
      (e : Evidence) (cfg : AdaptiveEffortCfg) (rungs : List String) (at : ℕ) (protected : Bool)
      (rung : String) (entry : Number) (i : ℕ)
      → cfg.upward ≡ jump
      → Memᴰ (rung, entry) cfg.targets.difficulty
      → reaches e.difficulty entry ≡ true
      → index_of rungs rung ≡ some i
      → i ≤ (target_index e cfg rungs at protected).want
  unfolding target_index target_by cap_top
  target_index-covers e cfg rungs at protected rung entry i jumps there high where' =
      let r = first e cfg rungs at protected in
      rw (jumps, target_by)
        (omega (
          arith,
          index_of-lt rungs rung i where',
          reach_rungs-covers e rungs cfg.targets.difficulty r rung entry i there high where',
          reach_named-grows e cfg rungs protected (reach_rungs e rungs cfg.targets.difficulty r),
        ))
