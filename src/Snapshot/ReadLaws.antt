-- ===== src/Snapshot/ReadLaws.antt =====
-- packages/core/src/path.ts: what a failure of `getAtPath` says, and reading in two steps.
use effect_state_tree.Base.{
  ℕ, ◌+◌, ◌≡◌, refl, sym, ap, ◌∙◌, subst, [], ◌∷◌, ◌++◌, length, take, inl, inr, arith, ◌↔◌,
}
use effect_state_tree.Base.Result.{ok, err, Result-cases, ok-injective, err-injective, ok-ne-err}
use effect_state_tree.Path.{Segment, TreePath}
use effect_state_tree.Snapshot.{Value}
use effect_state_tree.Snapshot.Read.{PathFailure, path_failure, follow, get_from, get_at_path}

-- A failed walk from a value: the segments that could be followed, and the one that could not.
record Stops (whole : TreePath) (at : ℕ) (v : Value) (path : TreePath) (e : PathFailure)
    : Type 0 where
  followed : TreePath
  rest : TreePath
  last : Value
  split : path ≡ followed ++ e.segment ∷ rest
  place : e.at ≡ at + length followed
  same_path : e.path ≡ whole
  prefix : e.traversed ≡ take e.at whole
  reads : (p : TreePath) (n : ℕ) → get_from p n v followed ≡ ok last
  blocked : follow last e.segment ≡ err e.reason

get_from-step :
    (whole : TreePath) (at : ℕ) (v : Value) (s : Segment) (rest : TreePath) {w : Value}
    → follow v s ≡ ok w
    → get_from whole at v (s ∷ rest) ≡ get_from whole (at + 1) w rest
unfolding get_from
get_from-step whole at v s rest e = rw (e, get_from)

get_from-stop :
    (whole : TreePath) (at : ℕ) (v : Value) (s : Segment) (rest : TreePath) {reason : _}
    → follow v s ≡ err reason
    → get_from whole at v (s ∷ rest) ≡ err (path_failure reason whole at s)
unfolding get_from
get_from-stop whole at v s rest e = rw (e, get_from)

get_from-Stops :
    (whole : TreePath) (at : ℕ) (v : Value) (path : TreePath) {e : PathFailure}
    → get_from whole at v path ≡ err e
    → Stops whole at v path e
unfolding get_from
get_from-Stops whole at v [] h = absurd (ok-ne-err h)
get_from-Stops whole at v (s ∷ path) {e} h = elim (Result-cases (follow v s)) [
  | inr (reason, stuck) ↦
      subst (Stops whole at v (s ∷ path))
        (err-injective (sym (get_from-stop whole at v s path stuck) ∙ h))
        record {
          followed = [];
          rest = path;
          last = v;
          split = refl;
          place = omega arith;
          same_path = refl;
          prefix = refl;
          reads = λ p n. refl;
          blocked = stuck;
        }
  | inl (w, e) ↦
      let more =
        get_from-Stops whole (at + 1) w path (sym (get_from-step whole at v s path e) ∙ h) in
      record {
        followed = s ∷ more.followed;
        rest = more.rest;
        last = more.last;
        split = ap (s ∷◌) more.split;
        place = omega (arith, more.place);
        same_path = more.same_path;
        prefix = more.prefix;
        reads = λ p n. get_from-step p n v s more.followed e ∙ more.reads p (n + 1);
        blocked = more.blocked;
      }
]

take-append : (p q : TreePath) → take (length p) (p ++ q) ≡ p
take-append [] q = refl
take-append (s ∷ p) q = ap (s ∷◌) (take-append p q)

-- A failure names its path split at the segment that failed: the traversed part, as long as the
-- reported place, can be read, and from the value there the segment cannot be followed, for the
-- reported reason.
pub get_at_path-err :
    (root : Value) (path : TreePath) {e : PathFailure}
    → get_at_path root path ≡ err e
    → (rest : TreePath) × (v : Value) × (path ≡ e.traversed ++ e.segment ∷ rest)
      × (e.at ≡ length e.traversed)
      × (get_at_path root e.traversed ≡ ok v)
      × (follow v e.segment ≡ err e.reason)
unfolding get_at_path
get_at_path-err root path {e} h =
    let stop = get_from-Stops path 0 root path h in
    let at_length : e.at ≡ length stop.followed = omega (arith, stop.place) in
    let here : e.traversed ≡ stop.followed =
      stop.prefix
      ∙ ap (λ n. take n path) at_length
      ∙ ap (take (length stop.followed)) stop.split
      ∙ take-append stop.followed (e.segment ∷ stop.rest) in
    (
      stop.rest,
      stop.last,
      stop.split ∙ ap (◌++ e.segment ∷ stop.rest) (sym here),
      at_length ∙ ap length (sym here),
      ap (λ p. get_from p 0 root p) here ∙ stop.reads stop.followed 0,
      stop.blocked,
    )

get_from-ok :
    (p q : TreePath) (n m : ℕ) (v : Value) (path : TreePath) {z : Value}
    → get_from p n v path ≡ ok z
    → get_from q m v path ≡ ok z
unfolding get_from
get_from-ok p q n m v [] h = h
get_from-ok p q n m v (s ∷ path) h = elim (Result-cases (follow v s)) [
  | inl (w, e) ↦
      get_from-step q m v s path e
      ∙ get_from-ok p q (n + 1) (m + 1) w path (sym (get_from-step p n v s path e) ∙ h)
  | inr (reason, e) ↦ absurd (ok-ne-err (sym h ∙ get_from-stop p n v s path e))
]

get_from-append :
    (p q : TreePath) (n m : ℕ) (v : Value) (path more : TreePath) {w : Value} (z : Value)
    → get_from p n v path ≡ ok w
    → (get_from p n v (path ++ more) ≡ ok z) ↔ (get_from q m w more ≡ ok z)
unfolding get_from
get_from-append p q n m v [] more {w} z h =
    subst (λ x. (get_from p n v more ≡ ok z) ↔ (get_from q m x more ≡ ok z)) (ok-injective h)
      (λ r. get_from-ok p q n m v more r, λ r. get_from-ok q p m n v more r)
get_from-append p q n m v (s ∷ path) more {w} z h = elim (Result-cases (follow v s)) [
  | inl (x, e) ↦
      let more_from =
        get_from-append p q (n + 1) m x path more z (sym (get_from-step p n v s path e) ∙ h) in
      (
        λ r. more_from.0 (sym (get_from-step p n v s (path ++ more) e) ∙ r),
        λ r. get_from-step p n v s (path ++ more) e ∙ more_from.1 r,
      )
  | inr (reason, e) ↦ absurd (ok-ne-err (sym h ∙ get_from-stop p n v s path e))
]

-- Where a path can be read, reading a longer path is reading the rest of it from there.
get_at_path-append :
    (root v : Value) (path more : TreePath) (z : Value)
    → get_at_path root path ≡ ok v
    → (get_at_path root (path ++ more) ≡ ok z) ↔ (get_at_path v more ≡ ok z)
unfolding get_at_path
get_at_path-append root v path more z h =
    let relocate = get_from-append path more 0 0 root path more z h in
    (
      λ r. relocate.0 (get_from-ok (path ++ more) path 0 0 root (path ++ more) r),
      λ r. get_from-ok path (path ++ more) 0 0 root (path ++ more) (relocate.1 r),
    )
