-- ===== src/Middleware/RateLimit/Refinement.antt =====
-- src/middleware/rate_limit.rs: the limiter against an ideal one that never forgets a request.
use mathlib.Core.Logic.{ite, if_pos, if_neg}
use legaltech_contract_autom.Common.{
  ℕ, ◌-◌, ◌≤◌, ◌<◌, ◌≡◌, refl, sym, ◌∙◌, ◌≢◌, inl, inr, any, not, Bool, true, false, List, [], ◌∷◌,
  ◌++◌, ltb, leb, if◌then◌else◌, filter, length, Bool-cases, arith,
}
use legaltech_contract_autom.Middleware.RateLimit.{
  KeyedRateLimiter, new, Answer, allowed, limited, panicked, cutoff, clean, retain_keys, reject,
  admit, check,
}
use mathlib.Core.List.{append-nil}
use mathlib.Core.Path.{subst}
use legaltech_contract_autom.Middleware.RateLimit.Entries.{
  entry, set, Distinct, entry-set_self, entry-set_ne, Distinct-set, Distinct-filter,
  filter-entry-filter,
}

filter-append :
    {A : Type 0} (p : A → Bool) (xs ys : List A) → filter p (xs ++ ys) ≡ filter p xs ++ filter p ys
filter-append p [] ys = refl
filter-append p (x ∷ xs) ys = ground (arith, filter-append p xs ys)

-- A later cutoff keeps less.
filter-later :
    (c d : ℕ) → c ≤ d → (ts : List ℕ) → filter (ltb d) (filter (ltb c) ts) ≡ filter (ltb d) ts
filter-later c d le [] = refl
filter-later c d le (t ∷ ts) = ground (arith, filter-later c d le ts)

∷-eq : {A : Type 0} {a b : A} {xs ys : List A} → a ≡ b → xs ≡ ys → (a ∷ xs) ≡ (b ∷ ys)
∷-eq h t = cc

-- A history: who was let through and when, oldest first.
abbrev pub History : Type 0 → Type 0
History K = List (K × ℕ)

module _ {K : Type 0} (dec : Discrete K) where
  unfoldable pub times : K → History K → List ℕ
  times key [] = []
  times key ((k, t) ∷ h) = ite (dec k key) (t ∷ times key h) (times key h)

  -- The specification: of the requests that were ever let through, those of the key within the
  -- window before `now` decide, and the oldest of them says how long to wait.
  unfoldable pub decide : ℕ → ℕ → List ℕ → Answer
  decide window now [] = panicked
  decide window now (oldest ∷ newer) = limited (window - (now - oldest))

  unfoldable pub ideal : (max_requests window now : ℕ) → K → History K → Answer × History K
  unfolding decide times
  ideal max_requests window now key h =
      let recent = filter (ltb (now - window)) (times key h) in
      if ltb (length recent) max_requests
      then (allowed, h ++ (key, now) ∷ [])
      else (decide window now recent, h)

  unfoldable pub run : List (ℕ × K) → KeyedRateLimiter K → List Answer
  run [] s = []
  run ((now, key) ∷ calls) s = let (a, s') = check dec now key s in a ∷ run calls s'

  unfoldable pub run_ideal : (max_requests window : ℕ) → List (ℕ × K) → History K → List Answer
  run_ideal max_requests window [] h = []
  run_ideal max_requests window ((now, key) ∷ calls) h =
      let (a, h') = ideal max_requests window now key h in
      a ∷ run_ideal max_requests window calls h'

  -- The clock of a list of calls does not run backwards, and starts after `start`.
  abbrev pub Ordered : ℕ → List (ℕ × K) → Type 0
  Ordered start [] = Unit
  Ordered start ((now, key) ∷ calls) = (start ≤ now) × Ordered now calls

  record Tracks (last : ℕ) (s : KeyedRateLimiter K) (h : History K) : Type 0 where
    sound : s.poisoned ≡ false
    distinct : Distinct dec s.inner
    agrees :
        (key : K) (c : ℕ)
        → last - s.window ≤ c
        → filter (ltb c) (entry dec key s.inner) ≡ filter (ltb c) (times key h)

  clean-entries :
      (map : List (K × List ℕ)) (key : K) (c d : ℕ)
      → c ≤ d
      → Distinct dec map
      → filter (ltb d) (entry dec key (clean c map)) ≡ filter (ltb d) (entry dec key map)
  unfolding clean retain_keys
  clean-entries map key c d le h = elim (Bool-cases (ltb 10_000 (length map))) [
    | inl e ↦
        rw
          (
            e,
            sym (filter-later c d le (entry dec key (filter (λ x. any (ltb c) x.1) map))),
            filter-entry-filter dec (ltb c) key map h,
          )
          (filter-later c d le (entry dec key map))
    | inr e ↦ rw e refl
  ]

  pub times-append :
      (key k : K) (t : ℕ) (h : History K)
      → times key (h ++ (k, t) ∷ []) ≡ times key h ++ ite (dec k key) (t ∷ []) []
  unfolding times
  times-append key k t [] = ground arith
  times-append key k t ((k', t') ∷ h) = ground (arith, times-append key k t h)

  cutoff_warm : (window now : ℕ) → window ≤ now → cutoff window now ≡ now - window
  cutoff_warm window now h = ground arith

  module _ (last now : ℕ) (key : K) (s : KeyedRateLimiter K) (h : History K) (t : Tracks last s h)
      (le : last ≤ now) where
    abbrev kept : List (K × List ℕ)
    kept = clean (now - s.window) s.inner

    kept-entry :
        (k : K) (d : ℕ)
        → now - s.window ≤ d
        → filter (ltb d) (entry dec k kept) ≡ filter (ltb d) (times k h)
    kept-entry k d hd =
        clean-entries s.inner k (now - s.window) d hd t.distinct ∙ t.agrees k d (omega arith)

    Distinct-kept : Distinct dec kept
    unfolding clean retain_keys
    Distinct-kept = elim (Bool-cases (ltb 10_000 (length s.inner))) [
      | inl e ↦ rw e (Distinct-filter dec (λ x. any (ltb (now - s.window)) x.1) s.inner t.distinct)
      | inr e ↦ rw e t.distinct
    ]

    Tracks-set :
        (v : List ℕ) (h' : History K)
        → ((d : ℕ) → now - s.window ≤ d → filter (ltb d) v ≡ filter (ltb d) (times key h'))
        → ((k : K) → k ≢ key → times k h' ≡ times k h)
        → Tracks now (record s { inner = set dec key v kept }) h'
    Tracks-set v h' self other = record {
      sound = t.sound;
      distinct = Distinct-set dec key v kept Distinct-kept;
      agrees = λ k d hd. elim (dec k key) [
        | yes e ↦ rw (e, entry-set_self dec key v kept) (self d hd)
        | no e ↦ rw (entry-set_ne dec key k v kept e, other k e) (kept-entry k d hd)
      ];
    }

  -- One call answers as the ideal, and the two stay in step.
  abbrev InStep : ℕ → Answer × KeyedRateLimiter K → KeyedRateLimiter K → Answer × History K → Type 0
  InStep now real s spec =
      (real.0 ≡ spec.0)
      × Tracks now real.1 spec.1
      × (real.1.max_requests ≡ s.max_requests)
      × (real.1.window ≡ s.window)

  module _ (last now : ℕ) (key : K) (s : KeyedRateLimiter K) (h : History K) (t : Tracks last s h)
      (le : last ≤ now) (positive : 0 < s.max_requests) where
    abbrev recent : List ℕ
    recent = filter (ltb (now - s.window)) (times key h)

    recent-recent :
        (d : ℕ) → now - s.window ≤ d → filter (ltb d) recent ≡ filter (ltb d) (times key h)
    recent-recent d hd = filter-later (now - s.window) d hd (times key h)

    after_reject :
        (ts : List ℕ)
        → recent ≡ ts
        → leb s.max_requests (length ts) ≡ true
        → InStep now
            (reject dec now key s (kept last now key s h t le) ts)
            s
            (decide s.window now ts, h)
    unfolding reject decide
    after_reject [] e full = ground arith
    after_reject (oldest ∷ newer) e full = (
      refl,
      Tracks-set last now key s h t le (oldest ∷ newer) h
          (λ d hd.
            subst (λ ts. filter (ltb d) ts ≡ filter (ltb d) (times key h)) e (recent-recent d hd))
          (λ k ne. refl),
      refl,
      refl,
    )

    after_allow :
        InStep now
          (
            allowed,
            record s { inner = set dec key (recent ++ now ∷ []) (kept last now key s h t le) },
          )
          s
          (allowed, h ++ (key, now) ∷ [])
    after_allow = (
      refl,
      Tracks-set last now key s h t le (recent ++ now ∷ []) (h ++ (key, now) ∷ [])
          (λ d hd.
            rw
              (
                filter-append (ltb d) recent (now ∷ []),
                recent-recent d hd,
                times-append key key now h,
                if_pos (dec key key) refl (now ∷ []) [],
              )
              (sym (filter-append (ltb d) (times key h) (now ∷ []))))
          (λ k ne.
            rw (times-append k key now h, if_neg (dec key k) (λ e. ne (cc)) (now ∷ []) [])
              (append-nil (times k h))),
      refl,
      refl,
    )

    admit-InStep :
        InStep now
          (admit dec now key s (kept last now key s h t le) recent)
          s
          (ideal s.max_requests s.window now key h)
    unfolding admit ideal
    admit-InStep = elim (Bool-cases (leb s.max_requests (length recent))) [
      | inl full ↦ rw (full, opposite full) (after_reject recent refl full)
      | inr room ↦ rw (room, opposite room) after_allow
    ]
      where
        opposite :
            {b : Bool}
            → leb s.max_requests (length recent) ≡ b
            → ltb (length recent) s.max_requests ≡ not b
        opposite e = ground arith

    check_warm :
        s.window ≤ now
        → check dec now key s ≡ admit dec now key s (kept last now key s h t le) recent
    unfolding check
    check_warm warm =
        simp
          (
            t.sound,
            cutoff_warm s.window now warm,
            kept-entry last now key s h t le key (now - s.window) (omega arith),
          )
          refl

    check-InStep :
        s.window ≤ now
        → InStep now (check dec now key s) s (ideal s.max_requests s.window now key h)
    check-InStep warm = rw (check_warm warm) admit-InStep

  run-ideal_from :
      (last : ℕ) (s : KeyedRateLimiter K) (h : History K) (calls : List (ℕ × K))
      → Tracks last s h
      → 0 < s.max_requests
      → s.window ≤ last
      → Ordered last calls
      → run calls s ≡ run_ideal s.max_requests s.window calls h
  unfolding run run_ideal
  run-ideal_from last s h [] t pos warm o = refl
  run-ideal_from last s h ((now, key) ∷ calls) t pos warm o =
      let st = check-InStep last now key s h t o.0 pos (omega arith) in
      let ih =
        run-ideal_from now _ _ calls st.1 (omega (arith, pos, st.2))
          (omega (arith, warm, o.0, st.3)) o.1 in
      ∷-eq st.0 (simp (st.2, st.3) at ih)

  -- Calls on a limiter that has let nothing through yet, with a positive limit, at instants that do
  -- not go back and are at least one window after the clock's earliest instant: every answer is
  -- that of the ideal, which remembers all requests ever let through. Dropping old entries and
  -- whole keys, and the limits of other keys, change no answer, and no call panics.
  pub run-ideal :
      (max_requests window start : ℕ) (calls : List (ℕ × K))
      → 0 < max_requests
      → window ≤ start
      → Ordered start calls
      → run calls (new max_requests window) ≡ run_ideal max_requests window calls []
  unfolding new times entry
  run-ideal max_requests window start calls pos warm o =
      run-ideal_from start (new max_requests window) [] calls
        (record { sound = refl; distinct = tt; agrees = λ key c h. refl }) pos warm o
