-- ===== src/Runtime/Notify.antt =====
-- packages/runtime/src/store.ts: `flushNotifications`. A listener may commit, and so call it again,
-- while the loop runs; the call then only adds to the pending map.
use effect_state_tree.Base.{
  ℕ, zero, suc, ◌+◌, ◌<◌, ◌≤◌, ◌≡◌, refl, sym, ◌∙◌, subst, Bool, true, false, Option, none, some,
  List, [], ◌∷◌, ◌==◌, if◌then◌else◌, arith, Bool-cases, Option-cases, inl, inr, length, All,
}
use effect_state_tree.Runtime.{Envelope}

abbrev pub Pending : Type 0
Pending = List (ℕ × Envelope)

-- `pendingNotifications.get`
unfoldable pub pending_at : ℕ → Pending → Option Envelope
pending_at r [] = none
pending_at r ((q, c) ∷ m) = if q == r then some c else pending_at r m

-- `pendingNotifications.delete`
unfoldable pub without : ℕ → Pending → Pending
without r [] = []
without r ((q, c) ∷ m) = let rest = without r m in if q == r then rest else (q, c) ∷ rest

-- `pendingNotifications.set`
unfoldable pub with_pending : ℕ → Envelope → Pending → Pending
unfolding without
with_pending r c m = (r, c) ∷ without r m

-- The variables of the notifications, and what the listeners have been given, last first.
pub record Notifier : Type 0 where
  pub pending : Pending
  pub last_notified : ℕ
  pub is_flushing : Bool
  pub delivered : List Envelope

unfoldable pub initial : Notifier
initial = record { pending = []; last_notified = 0; is_flushing = false; delivered = [] }

-- One round of the loop: the commit after the last one, if it has come.
unfoldable pub deliver : Notifier → Option Envelope → Notifier
unfolding without
deliver n none = record n { is_flushing = false }
deliver n (some c) = record {
  pending = without c.revision_after n.pending;
  last_notified = c.revision_after;
  is_flushing = n.is_flushing;
  delivered = c ∷ n.delivered;
}

unfoldable pub next_commit : Notifier → Option Envelope
unfolding pending_at
next_commit n = pending_at (n.last_notified + 1) n.pending

-- The head of `flushNotifications`: the commit is added, and the loop starts unless it runs.
unfoldable pub receive : Envelope → Notifier → Notifier
unfolding with_pending
receive c n = record {
  pending = with_pending c.revision_after c n.pending;
  last_notified = n.last_notified;
  is_flushing = true;
  delivered = n.delivered;
}

abbrev pub receive_all : List Envelope → Notifier → Notifier
receive_all [] n = n
receive_all (c ∷ cs) n = receive_all cs (receive c n)

-- What the listeners commit while they are given a commit, and what they do at the later ones.
abbrev pub first_made : List (List Envelope) → List Envelope
first_made [] = []
first_made (cs ∷ made) = cs

abbrev pub later_made : List (List Envelope) → List (List Envelope)
later_made [] = []
later_made (cs ∷ made) = made

abbrev flush_by : Option Envelope → Notifier → (Envelope → Notifier) → Notifier
flush_by none ended more = ended
flush_by (some c) ended more = more c

-- The loop; `made` has what the listeners commit at each commit that they are given, in order.
unfoldable pub flush : ℕ → List (List Envelope) → Notifier → Notifier
unfolding receive
flush zero made n = n
flush (suc fuel) made n =
    flush_by (next_commit n) (deliver n none)
      (λ c. flush fuel (later_made made) (receive_all (first_made made) (deliver n (some c))))

-- The calls and rounds of a store's life, in any order: a call may come at any time, a round only
-- while the loop runs.
pub data Runs : Notifier → Type 0 where
  starts : Runs initial
  called : {n : Notifier} (c : Envelope) → Runs n → Runs (receive c n)
  round : {n : Notifier} → n.is_flushing ≡ true → Runs n → Runs (deliver n (next_commit n))

-- The revisions n, n - 1, … 1, in this order.
abbrev pub CountsDown : ℕ → List Envelope → Type 0
CountsDown n [] = n ≡ 0
CountsDown n (c ∷ cs) = (m : ℕ) × (n ≡ suc m) × (c.revision_after ≡ n) × CountsDown m cs

abbrev IsKeyed : Pending → Type 0
IsKeyed = All (λ (e : ℕ × Envelope). e.1.revision_after ≡ e.0)

IsKeyed-without : (r : ℕ) (m : Pending) → IsKeyed m → IsKeyed (without r m)
unfolding without
IsKeyed-without r [] k = tt
IsKeyed-without r ((q, c) ∷ m) k = elim (Bool-cases (q == r)) [
  | inl e ↦ rw e (IsKeyed-without r m k.1)
  | inr e ↦ rw e (k.0, IsKeyed-without r m k.1)
]

pending_at-IsKeyed :
    (r : ℕ) (m : Pending) {c : Envelope}
    → IsKeyed m
    → pending_at r m ≡ some c
    → c.revision_after ≡ r
unfolding pending_at
pending_at-IsKeyed r [] k h = cc
pending_at-IsKeyed r ((q, d) ∷ m) k h = elim (Bool-cases (q == r)) [
  | inl e ↦ ground arith
  | inr e ↦ pending_at-IsKeyed r m k.1 (rw e at h)
]

record IsOrdered (n : Notifier) : Type 0 where
  keyed : IsKeyed n.pending
  counts : CountsDown n.last_notified n.delivered

deliver-IsOrdered : (n : Notifier) → IsOrdered n → IsOrdered (deliver n (next_commit n))
unfolding next_commit deliver
deliver-IsOrdered n i = elim (Option-cases (pending_at (n.last_notified + 1) n.pending)) [
  | inl e ↦ rw e (record { keyed = i.keyed; counts = i.counts })
  | inr (c, e) ↦
      let r : c.revision_after ≡ n.last_notified + 1 = pending_at-IsKeyed _ n.pending i.keyed e in
      rw e (record {
        keyed = IsKeyed-without c.revision_after n.pending i.keyed;
        counts = (n.last_notified, omega arith, refl, i.counts);
      })
]

Runs-IsOrdered : {n : Notifier} → Runs n → IsOrdered n
unfolding initial receive
Runs-IsOrdered starts = record { keyed = tt; counts = refl }
Runs-IsOrdered (called {n} c r) =
    let i = Runs-IsOrdered r in
    record { keyed = (refl, IsKeyed-without c.revision_after n.pending i.keyed); counts = i.counts }
Runs-IsOrdered (round {n} f r) = deliver-IsOrdered n (Runs-IsOrdered r)

-- Whatever the order in which commits arrive, listeners that commit included, the listeners have
-- been given the commits of the revisions 1, 2, … up to the last one notified, each exactly once
-- and in this order.
pub Runs-CountsDown : {n : Notifier} → Runs n → CountsDown n.last_notified n.delivered
Runs-CountsDown r = let i = Runs-IsOrdered r in i.counts

length-without : (r : ℕ) (m : Pending) → length (without r m) ≤ length m
unfolding without
length-without r [] = omega arith
length-without r ((q, c) ∷ m) = ground (arith, length-without r m)

length-without_lt :
    (r : ℕ) (m : Pending) {c : Envelope} → pending_at r m ≡ some c → length (without r m) < length m
unfolding without pending_at
length-without_lt r [] h = cc
length-without_lt r ((q, d) ∷ m) h = elim (Bool-cases (q == r)) [
  | inl e ↦ rw e (omega (arith, length-without r m))
  | inr e ↦ rw e (omega (arith, length-without_lt r m (rw e at h)))
]

deliver-pending :
    (n : Notifier) {c : Envelope}
    → IsOrdered n
    → next_commit n ≡ some c
    → length (deliver n (some c)).pending < length n.pending
unfolding next_commit deliver
deliver-pending n {c} i e =
    let r : c.revision_after ≡ n.last_notified + 1 = pending_at-IsKeyed _ n.pending i.keyed e in
    length-without_lt c.revision_after n.pending
      (subst (λ k. pending_at k n.pending ≡ some c) (sym r) e)

next_commit-deliver-none : (n : Notifier) → next_commit (deliver n none) ≡ next_commit n
unfolding next_commit deliver
next_commit-deliver-none n = refl

deliver-is_flushing_none : (n : Notifier) → (deliver n none).is_flushing ≡ false
unfolding deliver
deliver-is_flushing_none n = refl

deliver-is_flushing_some :
    (n : Notifier) (c : Envelope) → (deliver n (some c)).is_flushing ≡ n.is_flushing
unfolding deliver
deliver-is_flushing_some n c = refl

length-receive : (c : Envelope) (n : Notifier) → length (receive c n).pending ≤ length n.pending + 1
unfolding receive
length-receive c n = omega (arith, length-without c.revision_after n.pending)

length-receive_all :
    (cs : List Envelope) (n : Notifier)
    → length (receive_all cs n).pending ≤ length n.pending + length cs
length-receive_all [] n = omega arith
length-receive_all (c ∷ cs) n =
    omega (arith, length-receive_all cs (receive c n), length-receive c n)

receive_all-is_flushing :
    (cs : List Envelope) (n : Notifier)
    → n.is_flushing ≡ true
    → (receive_all cs n).is_flushing ≡ true
unfolding receive
receive_all-is_flushing [] n h = h
receive_all-is_flushing (c ∷ cs) n h = receive_all-is_flushing cs (receive c n) refl

receive_all-Runs : (cs : List Envelope) {n : Notifier} → Runs n → Runs (receive_all cs n)
receive_all-Runs [] r = r
receive_all-Runs (c ∷ cs) r = receive_all-Runs cs (called c r)

-- How many commits the listeners make in all.
abbrev pub count_made : List (List Envelope) → ℕ
count_made [] = 0
count_made (cs ∷ made) = length cs + count_made made

count_made-split :
    (made : List (List Envelope))
    → length (first_made made) + count_made (later_made made) ≡ count_made made
count_made-split [] = refl
count_made-split (cs ∷ made) = refl

-- Where the listeners make finitely many commits while the loop runs, it ends by its test, with more
-- fuel than there are pending commits and commits that the listeners make: it is not flushing, and
-- the next commit has not come.
pub flush_ends :
    (fuel : ℕ) (made : List (List Envelope)) (n : Notifier)
    → length n.pending + count_made made < fuel
    → n.is_flushing ≡ true
    → Runs n
    → ((flush fuel made n).is_flushing ≡ false) × (next_commit (flush fuel made n) ≡ none)
unfolding flush
flush_ends zero made n h f r = absurd (omega arith)
flush_ends (suc fuel) made n h f r = elim (Option-cases (next_commit n)) [
  | inl e ↦ rw e (deliver-is_flushing_none n, next_commit-deliver-none n ∙ e)
  | inr (c, e) ↦
      let given = deliver n (some c) in
      let next : Runs given = subst (λ o. Runs (deliver n o)) e (round f r) in
      rw e (
        flush_ends fuel (later_made made) (receive_all (first_made made) given)
          (omega (
            arith,
            deliver-pending n (Runs-IsOrdered r) e,
            count_made-split made,
            length-receive_all (first_made made) given,
          ))
          (receive_all-is_flushing (first_made made) given (deliver-is_flushing_some n c ∙ f))
          (receive_all-Runs (first_made made) next))
]
