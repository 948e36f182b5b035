-- ===== src/Agents/Plans.antt =====
-- The journal's lines, and the trade that is open, over the steps of the supervisor.
use btc_laptop_agents.Prelude.{
  String, ◌≡◌, refl, ap, ◌∙◌, if-both, if◌then◌else◌, not, str_eq, inl, Option, none, some, List,
  [], ◌∷◌, ◌++◌, map,
}
use btc_laptop_agents.Float.{Float}
use btc_laptop_agents.Agents.Types.{State}
use btc_laptop_agents.Paper.Types.{Side}
use btc_laptop_agents.Agents.Journal.{
  ExitEvent, Events, Entry, new_trade, plan_created, canceled, filled, exited, Journal, coach_note,
  is_last, terms_of, plan_key, over, is_empty, open_plan, open_with, follow, log_events,
  journal_coach,
}
use btc_laptop_agents.Agents.Sweeps.{IsIn}

-- The open trade, if there is one, is known.
abbrev pub IsTracked : Option String → List String → Type 0
IsTracked none ids = Unit
IsTracked (some k) ids = IsIn k ids

module _ {F Fill : Type 0} where
  -- The ids of the trades known after a line, and after some lines.
  abbrev pub learn : List String → Entry F Fill → List String
  learn ids (new_trade k side) = k ∷ ids
  learn ids _ = ids

  abbrev pub known : List String → List (Entry F Fill) → List String
  known ids [] = ids
  known ids (e ∷ es) = known (learn ids e) es

  abbrev pub IsAbout : List String → Entry F Fill → Type 0
  IsAbout ids (new_trade k side) = Unit
  IsAbout ids (plan_created k key) = IsIn k ids
  IsAbout ids (canceled k n) = IsIn k ids
  IsAbout ids (filled k f) = IsIn k ids
  IsAbout ids (exited k x tags) = IsIn k ids

  -- Every line is about a trade that a line before it opened.
  abbrev pub IsTraced : List String → List (Entry F Fill) → Type 0
  IsTraced ids [] = Unit
  IsTraced ids (e ∷ es) = IsAbout ids e × IsTraced (learn ids e) es

  pub record IsJournal (s : State F) (j : Journal F Fill) : Type 0 where
    pub traced : IsTraced [] j.lines
    pub tracked : IsTracked s.trade_id (known [] j.lines)

  IsTraced-append :
      (ids : List String) (es fs : List (Entry F Fill))
      → IsTraced ids es
      → IsTraced (known ids es) fs
      → IsTraced ids (es ++ fs)
  IsTraced-append ids [] fs h k = k
  IsTraced-append ids (e ∷ es) fs h k = (h.0, IsTraced-append (learn ids e) es fs h.1 k)

  known-append :
      (ids : List String) (es fs : List (Entry F Fill))
      → known ids (es ++ fs) ≡ known (known ids es) fs
  known-append ids [] fs = refl
  known-append ids (e ∷ es) fs = known-append (learn ids e) es fs

  -- Lines that open no trade and are about known ones.
  map-IsTraced :
      {A : Type 0} (f : A → Entry F Fill) (ids : List String) (xs : List A)
      → ((a : A) → learn ids (f a) ≡ ids)
      → ((a : A) → IsAbout ids (f a))
      → IsTraced ids (map f xs)
  map-IsTraced f ids [] same about = tt
  map-IsTraced f ids (x ∷ xs) same about = (about x, rw (same x) (map-IsTraced f ids xs same about))

  map-known :
      {A : Type 0} (f : A → Entry F Fill) (ids : List String) (xs : List A)
      → ((a : A) → learn ids (f a) ≡ ids)
      → known ids (map f xs) ≡ ids
  map-known f ids [] same = refl
  map-known f ids (x ∷ xs) same = ap (λ i. known i (map f xs)) (same x) ∙ map-known f ids xs same

module _ {F Fill : Type 0} ⦃fl : Float F⦄ where
  log_events-IsJournal :
      (tid : String) (ev : Events F Fill) (s : State F) (j : Journal F Fill)
      → IsTraced [] j.lines
      → IsTracked s.trade_id (known [] j.lines)
      → IsIn tid (known [] j.lines)
      → IsJournal (log_events tid ev s j).0 (log_events tid ev s j).1
  unfolding log_events
  log_events-IsJournal tid ev s j t k h =
      let ids = known [] j.lines in
      let fills = map (λ (f : Fill). filled tid f) ev.fills in
      let exits = map (λ (x : ExitEvent F). exited tid x (coach_note x)) ev.exits in
      let quiet : known ids fills ≡ ids = map-known _ ids ev.fills (λ a. refl) in
      let before : known [] (j.lines ++ fills) ≡ ids = known-append [] j.lines fills ∙ quiet in
      let silent : known ids exits ≡ ids = map-known _ ids ev.exits (λ a. refl) in
      let after : known [] ((j.lines ++ fills) ++ exits) ≡ ids =
        known-append [] (j.lines ++ fills) exits ∙ rw before silent in
      let ends = map (λ n. canceled tid n) ev.cancels in
      let canceled_lines =
        IsTraced-append [] j.lines ends t
          (map-IsTraced (λ n. canceled tid n) ids ev.cancels (λ a. refl) (λ a. h)) in
      let filled_lines =
        IsTraced-append [] j.lines fills t
          (map-IsTraced (λ (f : Fill). filled tid f) ids ev.fills (λ a. refl) (λ a. h)) in
      let exited_lines = IsTraced-append [] (j.lines ++ fills) exits filled_lines (
        rw before (
          map-IsTraced (λ (x : ExitEvent F). exited tid x (coach_note x)) ids ev.exits (λ a. refl)
            (λ a. h))) in
      if-both (λ (p : State F × Journal F Fill). IsJournal p.0 p.1) (not (is_empty ev.cancels))
        (over s, record j { lines = j.lines ++ ends })
        (if is_empty ev.exits then s else over s, record j { lines = (j.lines ++ fills) ++ exits })
        (record { traced = canceled_lines; tracked = tt })
        (record {
          traced = exited_lines;
          tracked = rw after (
              if-both (λ (u : State F). IsTracked u.trade_id ids) (is_empty ev.exits) s (over s) k
                tt);
        })

  follow-IsJournal :
      (o : Option String) (ev : Events F Fill) (s : State F) (j : Journal F Fill)
      → IsTracked o (known [] j.lines)
      → IsJournal s j
      → IsJournal (follow o ev s j).0 (follow o ev s j).1
  unfolding follow
  follow-IsJournal none ev s j t h = h
  follow-IsJournal (some tid) ev s j t h =
      if-both (λ (p : State F × Journal F Fill). IsJournal p.0 p.1) (str_eq tid "") (s, j)
        (log_events tid ev s j) h (log_events-IsJournal tid ev s j h.traced h.tracked t)

module _ {F Fill W : Type 0} ⦃fl : Float F⦄ (two_places : F → String)
    (new_id : W → String × W) where
  -- A new plan's lines open its trade.
  open_with-IsJournal :
      (o : Option String) (terms : Option (Side × Option F × F × F)) (s : State F)
      (j : Journal F Fill) (w : W)
      → IsJournal s j
      → IsJournal
          (open_with two_places new_id o terms s j w).0
          (open_with two_places new_id o terms s j w).1
  unfolding open_with
  open_with-IsJournal (some k) terms s j w h = h
  open_with-IsJournal none none s j w h = h
  open_with-IsJournal none (some terms) s j w h =
      let key = plan_key two_places s.setup terms in
      let tid = (new_id w).0 in
      let lines = new_trade tid terms.0 ∷ plan_created tid key ∷ [] in
      let opened : IsIn tid (known [] (j.lines ++ lines)) =
        rw (known-append [] j.lines lines) (inl refl) in
      if-both (λ (p : State F × Journal F Fill × W). IsJournal p.0 p.1)
        (is_last j.last_plan_key key) (s, j, w)
        (
          record s { trade_id = some tid },
          record { last_plan_key = some key; lines = j.lines ++ lines },
          (new_id w).1,
        )
        h
        (record {
          traced = IsTraced-append [] j.lines lines h.traced (tt, (inl refl, tt));
          tracked = opened;
        })

  pub journal_coach-IsJournal :
      (ev : Events F Fill) (s : State F) (j : Journal F Fill) (w : W)
      → IsJournal s j
      → IsJournal
          (journal_coach two_places new_id ev s j w).0
          (journal_coach two_places new_id ev s j w).1
  unfolding journal_coach open_plan
  journal_coach-IsJournal ev s j w h =
      let a = open_with-IsJournal s.trade_id (terms_of s.order) s j w h in
      follow-IsJournal _ ev _ _ a.tracked a
