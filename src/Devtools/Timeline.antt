-- ===== src/Devtools/Timeline.antt =====
-- packages/devtools/src/index.ts: what a limited timeline keeps of the whole one.
use effect_state_tree.Base.{
  ℕ, zero, suc, ◌-◌, ◌≤◌, ◌≡◌, refl, ◌⊎◌, All, sym, ap, ◌∙◌, false, Option, none, some, List, [],
  ◌∷◌, ◌++◌, if◌then◌else◌, length, drop, take, last?, Bool-cases, inl, inr, arith, last?-append,
  length-drop,
}
use effect_state_tree.Snapshot.{leaf, null}
use effect_state_tree.Runtime.{Envelope}
use effect_state_tree.Runtime.Context.{has_tag}
use effect_state_tree.History.{keep_last}
use effect_state_tree.Devtools.{
  DevtoolsState, devtools_skip_tag, base_of, rebase, record_devtools_commit, latest, is_nullish,
  resume, travel_tags,
}

-- The timeline after a sequence of commits, in order.
pub timeline : Option ℕ → List Envelope → DevtoolsState → DevtoolsState
timeline limit [] state = state
timeline limit (c ∷ cs) state = timeline limit cs (record_devtools_commit state c limit)

take-length : (xs : List Envelope) → take (length xs) xs ≡ xs
take-length [] = refl
take-length (x ∷ xs) = ap (x ∷◌) (take-length xs)

drop_nil : (n : ℕ) → ◌≡◌ {A = List Envelope} (drop n []) []
drop_nil zero = refl
drop_nil (suc n) = refl

entries-rebase :
    (base : Option Envelope) (state : DevtoolsState) (kept : List Envelope)
    → (rebase base state kept).entries ≡ kept
entries-rebase none state kept = refl
entries-rebase (some b) state kept = refl

record_devtools_commit_bounded :
    (n : ℕ) (state : DevtoolsState) (c : Envelope)
    → length state.entries ≤ n
    → length (record_devtools_commit state c (some n)).entries ≤ n
unfolding record_devtools_commit
record_devtools_commit_bounded n state c h =
    elim (Bool-cases (has_tag c.info.tags devtools_skip_tag)) [
      | inl skipped ↦ rw skipped h
      | inr eligible ↦
          let es = state.entries ++ c ∷ [] in
          let kept = drop (length es - n) es in
          rw eligible (
            omega (
              arith,
              ap length (entries-rebase (base_of es kept) state kept),
              length-drop (length es - n) es,
            ))
    ]

minus_self : (es : List Envelope) → length es - length es ≡ 0
minus_self es = omega arith

base_none : (es : List Envelope) → base_of es es ≡ none
base_none es = rw (minus_self es)

-- The tree's root after the commit is neither null nor undefined.
abbrev pub IsPresent : Envelope → Type 0
IsPresent e = is_nullish e.proposal.after ≡ false

take_all : (xs : List Envelope) → take (length xs - 0) xs ≡ xs
take_all xs = let e : length xs - 0 ≡ length xs = omega arith in rw e (take-length xs)

latest-rebase :
    (base : Option Envelope) (state : DevtoolsState) (kept : List Envelope) (c : Envelope)
    → IsPresent c
    → last? kept ≡ some c
    → latest (rebase base state kept) ≡ c.proposal.after
unfolding latest
latest-rebase none state kept c present e = rw (e, present)
latest-rebase (some b) state kept c present e = rw (e, present)

kept_cases : (n : ℕ) (xs : List Envelope) → (drop n xs ≡ []) ⊎ (last? (drop n xs) ≡ last? xs)
kept_cases zero xs = inr refl
kept_cases (suc n) [] = inl refl
kept_cases (suc n) (x ∷ []) = inl (drop_nil n)
kept_cases (suc n) (x ∷ y ∷ xs) = kept_cases n (y ∷ xs)

latest-rebase_all :
    (state : DevtoolsState) (es : List Envelope) (c : Envelope) (limit : Option ℕ)
    → IsPresent c
    → last? es ≡ some c
    → latest (rebase (base_of es (keep_last limit es)) state (keep_last limit es))
      ≡ c.proposal.after
unfolding latest
latest-rebase_all state es c none present e = latest-rebase (base_of es es) state es c present e
latest-rebase_all state es c (some n) present e = elim (kept_cases (length es - n) es) [
  | inl gone ↦ rw (gone, take_all es, e, present)
  | inr same ↦
      latest-rebase (base_of es (drop (length es - n) es)) state (drop (length es - n) es) c present
        (same ∙ e)
]

latest-record_devtools_commit :
    (state : DevtoolsState) (c : Envelope) (limit : Option ℕ)
    → IsPresent c
    → latest (record_devtools_commit state c limit)
      ≡ (if has_tag c.info.tags devtools_skip_tag then latest state else c.proposal.after)
unfolding record_devtools_commit
latest-record_devtools_commit state c limit present =
    elim (Bool-cases (has_tag c.info.tags devtools_skip_tag)) [
      | inl skipped ↦ rw skipped
      | inr eligible ↦ rw eligible (
          latest-rebase_all state (state.entries ++ c ∷ []) c limit present
            (last?-append state.entries c))
    ]

latest-timeline_agree :
    (limit limit' : Option ℕ) (cs : List Envelope) (a b : DevtoolsState)
    → All IsPresent cs
    → latest a ≡ latest b
    → latest (timeline limit cs a) ≡ latest (timeline limit' cs b)
unfolding timeline
latest-timeline_agree limit limit' [] a b present e = e
latest-timeline_agree limit limit' (c ∷ cs) a b (here, rest) e =
    latest-timeline_agree limit limit' cs (record_devtools_commit a c limit)
      (record_devtools_commit b c limit') rest
      (latest-record_devtools_commit a c limit here
        ∙ ap (λ v. if has_tag c.info.tags devtools_skip_tag then v else c.proposal.after) e
        ∙ sym (latest-record_devtools_commit b c limit' here))

-- Where no commit leaves a root that is null or undefined, `resume` goes back to the same snapshot
-- under every limit, that of a timeline with no limit, for all commits recorded from one state.
pub resume-timeline :
    (limit : Option ℕ) (cs : List Envelope) (state : DevtoolsState)
    → All IsPresent cs
    → resume (timeline limit cs state) ≡ resume (timeline none cs state)
unfolding resume
resume-timeline limit cs state present =
    ap (λ v. record { target = v; tags = travel_tags })
      (latest-timeline_agree limit none cs state state present refl)

-- A commit that leaves a null root is recorded, and `resume` goes back to the snapshot that the
-- timeline starts from instead of the latest one.
resume_null_root :
    (state : DevtoolsState) (c : Envelope)
    → has_tag c.info.tags devtools_skip_tag ≡ false
    → c.proposal.after ≡ leaf null
    → (resume (record_devtools_commit state c none)).target ≡ state.initial
unfolding resume record_devtools_commit latest
resume_null_root state c eligible e =
    rw (eligible, base_none (state.entries ++ c ∷ []), last?-append state.entries c, e)

-- Under a limit, a timeline of any commits never holds more entries than the limit.
timeline_bounded :
    (n : ℕ) (cs : List Envelope) (state : DevtoolsState)
    → length state.entries ≤ n
    → length (timeline (some n) cs state).entries ≤ n
unfolding timeline
timeline_bounded n [] state h = h
timeline_bounded n (c ∷ cs) state h =
    timeline_bounded n cs (record_devtools_commit state c (some n))
      (record_devtools_commit_bounded n state c h)
