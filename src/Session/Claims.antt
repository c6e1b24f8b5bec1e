-- ===== src/Session/Claims.antt =====
-- The execution claims of `Sessions` (src/jev_router/sessions.py): how many requests of a session
-- are in flight, as a dictionary in the process.
mod Tests
use jev_router.Common.{
  ℕ, zero, suc, ◌-◌, ◌≤◌, ◌≡◌, refl, sym, ap, subst, ◌∙◌, Bool, true, false, String, str_eq,
  str_eq_iff, List, [], ◌∷◌, Option, none, some, leb, lookup, if◌then◌else◌, Bool-cases, inl, inr,
  arith,
}
use jev_router.Common.Dict.{set_item, pop_item, lookup-set_item, lookup-pop_item}
use jev_router.Session.{SessionRoutingCfg}

abbrev pub Inflight : Type 0
Inflight = List (String × ℕ)

abbrev or_zero : Option ℕ → ℕ
or_zero none = 0
or_zero (some n) = n

-- `self._inflight.get(session_id, 0)`, which is also `inflight`
unfoldable pub inflight : Inflight → String → ℕ
unfolding lookup
inflight held session_id = or_zero (lookup session_id held)

take : SessionRoutingCfg → Inflight → String → ℕ → Inflight × Bool
unfolding set_item
take cfg held session_id n =
    if leb cfg.max_inflight_per_session n
    then (held, false)
    else (set_item session_id held (suc n), true)

-- Take the in-flight slot, or report that somebody else has it.
unfoldable pub claim : SessionRoutingCfg → Inflight → String → Inflight × Bool
unfolding inflight take
claim cfg held session_id = take cfg held session_id (inflight held session_id)

put_back : Inflight → String → ℕ → Inflight
unfolding set_item pop_item
put_back held session_id zero = pop_item session_id held
put_back held session_id (suc n) = set_item session_id held (suc n)

-- `held - 1` is at most 0 where it stops at 0 here, and the entry goes either way.
unfoldable pub release : Inflight → String → Inflight
unfolding inflight put_back
release held session_id = put_back held session_id (inflight held session_id - 1)

pub data Call : Type 0 where
  claims releases : String → Call

unfoldable pub after : SessionRoutingCfg → Inflight → Call → Inflight
unfolding claim release
after cfg held (claims session_id) = (claim cfg held session_id).0
after cfg held (releases session_id) = release held session_id

unfoldable pub after_all : SessionRoutingCfg → Inflight → List Call → Inflight
unfolding after
after_all cfg held [] = held
after_all cfg held (c ∷ cs) = after_all cfg (after cfg held c) cs

module _ (held : Inflight) (session_id other_id : String) where
  inflight-set_item :
      (n : ℕ)
      → inflight (set_item session_id held n) other_id
        ≡ (if str_eq session_id other_id then n else inflight held other_id)
  unfolding inflight
  inflight-set_item n =
      ap or_zero (lookup-set_item session_id other_id held n)
      ∙ (elim (Bool-cases (str_eq session_id other_id)) [ inl e ↦ rw e refl | inr m ↦ rw m refl ])

  inflight-put_back :
      (n : ℕ)
      → inflight (put_back held session_id n) other_id
        ≡ (if str_eq session_id other_id then n else inflight held other_id)
  unfolding inflight put_back
  inflight-put_back zero =
      ap or_zero (lookup-pop_item session_id other_id held)
      ∙ (elim (Bool-cases (str_eq session_id other_id)) [ inl e ↦ rw e refl | inr m ↦ rw m refl ])
  inflight-put_back (suc n) = inflight-set_item (suc n)

  same_count : str_eq session_id other_id ≡ true → inflight held session_id ≡ inflight held other_id
  same_count e = ap (inflight held) ((str_eq_iff session_id other_id).0 e)

-- One counter, which stops at the limit and at 0.
abbrev counted : ℕ → Bool → ℕ → ℕ
counted limit true n = if leb limit n then n else suc n
counted limit false n = n - 1

-- What a call does to the count of one session: those of the others stay.
unfoldable count_after : SessionRoutingCfg → Call → String → ℕ → ℕ
count_after cfg (claims session_id) other_id n =
    if str_eq session_id other_id then counted cfg.max_inflight_per_session true n else n
count_after cfg (releases session_id) other_id n =
    if str_eq session_id other_id then counted cfg.max_inflight_per_session false n else n

unfoldable count_after_all : SessionRoutingCfg → List Call → String → ℕ → ℕ
unfolding count_after
count_after_all cfg [] other_id n = n
count_after_all cfg (c ∷ cs) other_id n =
    count_after_all cfg cs other_id (count_after cfg c other_id n)

inflight-take :
    (cfg : SessionRoutingCfg) (held : Inflight) (session_id other_id : String) (n : ℕ)
    → inflight held session_id ≡ n
    → inflight (take cfg held session_id n).0 other_id
      ≡ count_after cfg (claims session_id) other_id (inflight held other_id)
unfolding take count_after
inflight-take cfg held session_id other_id n holds =
    elim (Bool-cases (str_eq session_id other_id)) [
      | inl e ↦
          rw (e, sym (same_count held session_id other_id e), holds)
            (elim (Bool-cases (leb cfg.max_inflight_per_session n)) [
              | inl full ↦ rw full (sym (same_count held session_id other_id e) ∙ holds)
              | inr free ↦ rw (free, inflight-set_item held session_id other_id (suc n), e) refl
            ])
      | inr m ↦ rw m (elim (Bool-cases (leb cfg.max_inflight_per_session n)) [
        | inl full ↦ rw full refl
        | inr free ↦ rw (free, inflight-set_item held session_id other_id (suc n), m) refl
      ])
    ]

inflight-after :
    (cfg : SessionRoutingCfg) (held : Inflight) (c : Call) (other_id : String)
    → inflight (after cfg held c) other_id ≡ count_after cfg c other_id (inflight held other_id)
unfolding after claim release count_after
inflight-after cfg held (claims session_id) other_id =
    inflight-take cfg held session_id other_id (inflight held session_id) refl
inflight-after cfg held (releases session_id) other_id =
    inflight-put_back held session_id other_id (inflight held session_id - 1)
    ∙ elim (Bool-cases (str_eq session_id other_id)) [
      | inl e ↦ rw (e, same_count held session_id other_id e) refl
      | inr n ↦ rw n refl
    ]

-- The dictionary of claims is as good as one independent counter for each session, which a claim
-- raises below the limit and a release lowers down to 0.
inflight-after_all :
    (cfg : SessionRoutingCfg) (held : Inflight) (calls : List Call) (session_id : String)
    → inflight (after_all cfg held calls) session_id
      ≡ count_after_all cfg calls session_id (inflight held session_id)
unfolding after_all count_after_all
inflight-after_all cfg held [] session_id = refl
inflight-after_all cfg held (c ∷ cs) session_id =
    inflight-after_all cfg (after cfg held c) cs session_id
    ∙ ap (count_after_all cfg cs session_id) (inflight-after cfg held c session_id)

count_after-within :
    (cfg : SessionRoutingCfg) (c : Call) (session_id : String) (n : ℕ)
    → n ≤ cfg.max_inflight_per_session
    → count_after cfg c session_id n ≤ cfg.max_inflight_per_session
unfolding count_after
count_after-within cfg (claims other_id) session_id n h = ground arith
count_after-within cfg (releases other_id) session_id n h = ground arith

count_after_all-within :
    (cfg : SessionRoutingCfg) (calls : List Call) (session_id : String) (n : ℕ)
    → n ≤ cfg.max_inflight_per_session
    → count_after_all cfg calls session_id n ≤ cfg.max_inflight_per_session
unfolding count_after_all
count_after_all-within cfg [] session_id n h = h
count_after_all-within cfg (c ∷ cs) session_id n h =
    count_after_all-within cfg cs session_id (count_after cfg c session_id n)
      (count_after-within cfg c session_id n h)

after_all-within :
    (cfg : SessionRoutingCfg) (calls : List Call) (session_id : String)
    → inflight (after_all cfg [] calls) session_id ≤ cfg.max_inflight_per_session
unfolding inflight
after_all-within cfg calls session_id =
    subst (λ n. n ≤ cfg.max_inflight_per_session) (sym (inflight-after_all cfg [] calls session_id))
      (count_after_all-within cfg calls session_id 0 (omega arith))

claim-below :
    (cfg : SessionRoutingCfg) (held : Inflight) (session_id : String)
    → (claim cfg held session_id).1 ≡ true
    → leb cfg.max_inflight_per_session (inflight held session_id) ≡ false
unfolding claim take
claim-below cfg held session_id h = ground arith

one_back :
    (cfg : SessionRoutingCfg) (session_id other_id : String) (n : ℕ)
    → (str_eq session_id other_id ≡ true → leb cfg.max_inflight_per_session n ≡ false)
    → count_after cfg
        (releases session_id)
        other_id
        (count_after cfg (claims session_id) other_id n)
      ≡ n
unfolding count_after
one_back cfg session_id other_id n below = elim (Bool-cases (str_eq session_id other_id)) [
  | inl e ↦ rw (e, below e) (omega arith)
  | inr m ↦ rw m refl
]

-- A release after a claim that was granted restores the count of every session.
release-claim :
    (cfg : SessionRoutingCfg) (held : Inflight) (session_id other_id : String)
    → (claim cfg held session_id).1 ≡ true
    → inflight (release (claim cfg held session_id).0 session_id) other_id ≡ inflight held other_id
unfolding claim after inflight
release-claim cfg held session_id other_id got =
    inflight-after cfg (claim cfg held session_id).0 (releases session_id) other_id
    ∙ ap (count_after cfg (releases session_id) other_id)
        (inflight-after cfg held (claims session_id) other_id)
    ∙ one_back cfg session_id other_id (inflight held other_id) (λ e.
      subst (λ n. leb cfg.max_inflight_per_session n ≡ false)
        (same_count held session_id other_id e) (claim-below cfg held session_id got))
