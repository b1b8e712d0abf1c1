-- ===== src/History/Limit.antt =====
-- packages/history/src/history.ts: the states a history can reach, within the limit.
use effect_state_tree.Base.{
  ℕ, ◌+◌, ◌≤◌, ◌-◌, ◌≡◌, ap, ◌||◌, Option, some, List, [], ◌∷◌, init, last?, length, Bool-cases,
  inl, inr, arith, length-append, length-drop, init-last?,
}
use effect_state_tree.Runtime.{Envelope}
use effect_state_tree.Runtime.Context.{has_tag}
use effect_state_tree.Runtime.Store.{is_empty}
use effect_state_tree.History.{
  Attached, HistoryState, HistoryOptions, record_history, has_any_tag, keep_last, history_skip_tag,
}
use effect_state_tree.History.Reached.{Reached, start, recorded, undone, redone}

abbrev IsWithin : {A : Type 0} → ℕ → HistoryState A → Type 0
IsWithin n h = length h.undo + length h.redo ≤ n

length-init :
    {A : Type 0} {x : A} (xs : List A) → last? xs ≡ some x → length (init xs) + 1 ≡ length xs
length-init {x} xs h = omega (arith, length-append (init xs) (x ∷ []), ap length (init-last? xs h))

keep_last-length : {A : Type 0} (n : ℕ) (xs : List A) → length (keep_last (some n) xs) + 0 ≤ n
keep_last-length n xs = omega (arith, length-drop (length xs - n) xs)

record_history-IsWithin :
    {A : Type 0} (opts : HistoryOptions) (n : ℕ) (attached : Option (Attached A))
    (h : HistoryState A) (commit : Envelope)
    → opts.limit ≡ some n
    → IsWithin n h
    → IsWithin n (record_history opts attached h commit)
unfolding record_history
record_history-IsWithin opts n attached h commit e within =
    elim (Bool-cases (has_any_tag commit.info.tags opts.baseline_tags)) [
      | inl baseline ↦ rw baseline (omega arith)
      | inr usual ↦
          rw usual
            (elim (Bool-cases (
              has_tag commit.info.tags history_skip_tag
              || is_empty commit.change.patches.forward)) [
                | inl skipped ↦ rw skipped within
                | inr kept ↦ rw (kept, e) (keep_last-length n _)
              ])
    ]

-- Under a limit, the two stacks together never hold more entries than the limit.
pub Reached-IsWithin :
    {A : Type 0} (opts : HistoryOptions) (n : ℕ) {h : HistoryState A}
    → opts.limit ≡ some n
    → Reached opts h
    → IsWithin n h
Reached-IsWithin opts n e start = omega arith
Reached-IsWithin opts n e (recorded {h} attached commit before) =
    record_history-IsWithin opts n attached h commit e (Reached-IsWithin opts n e before)
Reached-IsWithin opts n e (undone {h} x last before) = omega (
  arith,
  Reached-IsWithin opts n e before,
  length-init h.undo last,
  length-append h.redo (x ∷ []),
)
Reached-IsWithin opts n e (redone {h} x last before) = omega (
  arith,
  Reached-IsWithin opts n e before,
  length-init h.redo last,
  length-append h.undo (x ∷ []),
)
