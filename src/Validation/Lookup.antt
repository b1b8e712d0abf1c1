-- ===== src/Validation/Lookup.antt =====
-- packages/validation/src/report.ts: queries of a report against its flat list of issues.
use effect_state_tree.Base.{
  ◌≡◌, refl, sym, ap, ◌∙◌, Bool, some, List, [], ◌∷◌, ◌++◌, map, filter_by, All, All-append, ℕ,
  arith, Bool-cases, inl, inr, append_assoc, append-nil, if◌then◌else◌,
}
use effect_state_tree.Base.Text.{Text, text_eq, text_eq_iff, text_eq_refl}
use effect_state_tree.Base.Result.{Result, ok, err}
use effect_state_tree.Path.{TreePath, is_path_prefix}
use effect_state_tree.Path.Prefix.{IsComparable, is_path_prefix_iff}
use effect_state_tree.Path.Pointer.{path_to_pointer}
use effect_state_tree.Snapshot.{Value}
use effect_state_tree.Validation.{
  PropertyKey, Issue, Issues, pointer, filter, encoding, composite, any_of, single, nothing, also,
  IndexedIssue, append_path, key_segment, walk, walk_all, flatten_issue, PathIndex, get, set,
  or_empty, index_issue, index_issues, issues_at, issues_below, validate_tree, report_of,
}

get-set :
    (p k : Text) (issues : List IndexedIssue) (index : PathIndex)
    → get k (set p issues index) ≡ (if text_eq p k then some issues else get k index)
get-set p k issues [] = refl
get-set p k issues ((j, old) ∷ index) = ground (
  arith,
  get-set p k issues index,
  text_eq_iff j p,
  text_eq_iff j k,
  text_eq_iff p k,
  text_eq_refl p,
)

-- The issue's path has this pointer.
abbrev pub is_at : Text → IndexedIssue → Bool
is_at k issue = text_eq (path_to_pointer issue.path) k

get-index_issue :
    (k : Text) (index : PathIndex) (issue : IndexedIssue)
    → get k (index_issue index issue) ≡ (
        if is_at k issue
        then some (or_empty (get (path_to_pointer issue.path) index) ++ issue ∷ [])
        else get k index)
unfolding index_issue
get-index_issue k index issue =
    get-set (path_to_pointer issue.path) k
      (or_empty (get (path_to_pointer issue.path) index) ++ issue ∷ []) index

get-index_issue_step :
    (k : Text) (index : PathIndex) (issue : IndexedIssue) (rest : List IndexedIssue)
    → or_empty (get k (index_issue index issue)) ++ filter_by (is_at k) rest
      ≡ or_empty (get k index) ++ filter_by (is_at k) (issue ∷ rest)
get-index_issue_step k index issue rest = elim (Bool-cases (is_at k issue)) [
  | inl here ↦
      rw (get-index_issue k index issue, here, (text_eq_iff (path_to_pointer issue.path) k).0 here)
        (append_assoc (or_empty (get k index)) (issue ∷ []) (filter_by (is_at k) rest))
  | inr elsewhere ↦ rw (get-index_issue k index issue, elsewhere)
]

get-index_issues :
    (k : Text) (index : PathIndex) (issues : List IndexedIssue)
    → or_empty (get k (index_issues index issues))
      ≡ or_empty (get k index) ++ filter_by (is_at k) issues
unfolding index_issues
get-index_issues k index [] = sym (append-nil (or_empty (get k index)))
get-index_issues k index (issue ∷ issues) =
    get-index_issues k (index_issue index issue) issues ∙ get-index_issue_step k index issue issues

issues_at-report_of :
    {T : Type 0} (decoded : Result Issue T) (revision : ℕ) (path : TreePath)
    → issues_at (report_of decoded revision) path
      ≡ filter_by (is_at (path_to_pointer path)) (report_of decoded revision).issues
unfolding issues_at
issues_at-report_of (ok v) revision path = get-index_issues (path_to_pointer path) [] []
issues_at-report_of (err issue) revision path =
    get-index_issues (path_to_pointer path) [] (flatten_issue issue)

-- The index of a report answers like its flat list: the issues at a path are those of the list
-- whose path has the same JSON Pointer, in the list's order.
pub issues_at-validate_tree :
    {T : Type 0} (decode : Value → Result Issue T) (snapshot : Value) (revision : ℕ)
    (path : TreePath)
    → issues_at (validate_tree decode snapshot revision) path
      ≡ filter_by (is_at (path_to_pointer path)) (validate_tree decode snapshot revision).issues
unfolding validate_tree
issues_at-validate_tree decode snapshot revision path =
    issues_at-report_of (decode snapshot) revision path

abbrev Extends : TreePath → IndexedIssue → Type 0
Extends path i = (rest : TreePath) × (i.path ≡ path ++ rest)

-- Walking an issue at a path adds issues at or below the path, after those of the output so far.
Adds : TreePath → List IndexedIssue → List IndexedIssue → Type 0
Adds path output walked =
    (more : List IndexedIssue) × (walked ≡ output ++ more) × All (Extends path) more

Extends-shorten :
    (path keys : TreePath) (is : List IndexedIssue)
    → All (Extends (path ++ keys)) is
    → All (Extends path) is
Extends-shorten path keys [] h = tt
Extends-shorten path keys (i ∷ is) ((rest, e), h) =
    ((keys ++ rest, e ∙ append_assoc path keys rest), Extends-shorten path keys is h)

Adds-trans :
    (path : TreePath) (a b c : List IndexedIssue) → Adds path a b → Adds path b c → Adds path a c
unfolding Adds
Adds-trans path a b c (xs, e, h) (ys, e', k) =
    (xs ++ ys, e' ∙ ap (◌++ ys) e ∙ append_assoc a xs ys, All-append (Extends path) xs ys h k)

mutual
  unfolding Adds walk walk_all

  walk-Adds :
      (issue : Issue) (path : TreePath) (output : List IndexedIssue)
      → Adds path output (walk issue path output)
  walk-Adds (pointer keys issue) path output =
      let (more, e, below) = walk-Adds issue (append_path path keys) output in
      (more, e, Extends-shorten path (map key_segment keys) more below)
  walk-Adds (filter issue) path output = walk-Adds issue path output
  walk-Adds (encoding issue) path output = walk-Adds issue path output
  walk-Adds (composite issues) path output = walk_all-Adds issues path output
  walk-Adds (any_of issues) path output = walk_all-Adds issues path output
  walk-Adds (single text) path output = (
    (record { path = path; issue = single text; message = text }) ∷ [],
    refl,
    (([], sym (append-nil path)), tt),
  )

  walk_all-Adds :
      (issues : Issues) (path : TreePath) (output : List IndexedIssue)
      → Adds path output (walk_all issues path output)
  walk_all-Adds nothing path output = ([], sym (append-nil output), tt)
  walk_all-Adds (also issue issues) path output =
      Adds-trans path output (walk issue path output)
        (walk_all issues path (walk issue path output)) (walk-Adds issue path output)
        (walk_all-Adds issues path (walk issue path output))

filter_by-All :
    (path : TreePath) (is : List IndexedIssue)
    → All IsComparable path
    → All (Extends path) is
    → filter_by (λ i. is_path_prefix path i.path) is ≡ is
filter_by-All path [] h k = refl
filter_by-All path (i ∷ is) h (below, k) =
    rw ((is_path_prefix_iff path i.path h).1 below) (ap (i ∷◌) (filter_by-All path is h k))

-- Where decoding fails with an issue under a path without NaN, every issue of the report is found
-- at or below that path.
issues_below-validate_tree :
    {T : Type 0} (decode : Value → Result Issue T) (snapshot : Value) (revision : ℕ)
    (keys : List PropertyKey) (issue : Issue)
    → decode snapshot ≡ err (pointer keys issue)
    → All IsComparable (append_path [] keys)
    → issues_below (validate_tree decode snapshot revision) (append_path [] keys)
      ≡ (validate_tree decode snapshot revision).issues
unfolding validate_tree issues_below flatten_issue walk Adds
issues_below-validate_tree decode snapshot revision keys issue e comparable =
    let (more, walked, below) = walk-Adds issue (append_path [] keys) [] in
    rw (e, walked) (filter_by-All (append_path [] keys) more comparable below)
