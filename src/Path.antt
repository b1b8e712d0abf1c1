-- ===== src/Path.antt =====
-- packages/core/src/path.ts: tuple paths, their prefixes and overlap. JSON Pointers are in
-- Path/Pointer.antt.
pub mod Decimal
pub mod Prefix
pub mod Token
pub mod Pointer
pub mod PointerLaws
pub mod PointerErrors
pub mod Reencode
use effect_state_tree.Base.{
  ℕ, ◌≡◌, Bool, true, false, not, ◌&&◌, ◌||◌, List, [], ◌∷◌, length, ltb, ◌==◌, if◌then◌else◌,
}
use effect_state_tree.Base.Text.{Text, text_eq, codes}

-- `index n` is the number n, and `other t` a number that no natural number is (negative,
-- fractional, NaN, infinite), by its text `String(n)`.
pub data Segment : Type 0 where
  key : Text → Segment
  index : ℕ → Segment
  other : Text → Segment

abbrev pub TreePath : Type 0
TreePath = List Segment

-- 2 ^ 53: the safe integers are below it.
abbrev pub safe_limit : ℕ
safe_limit = 9007199254740992

abbrev pub nan_text : Text
nan_text = codes "NaN"

-- `a === b`: NaN differs from itself.
unfoldable pub same_segment : Segment → Segment → Bool
same_segment (key s) (key t) = text_eq s t
same_segment (index m) (index n) = m == n
same_segment (other s) (other t) = text_eq s t && not (text_eq s nan_text)
same_segment (key s) _ = false
same_segment (index m) _ = false
same_segment (other s) _ = false

-- The loop of `isPathPrefix`, from the index that both paths have been compared up to.
unfoldable pub prefix_from : TreePath → TreePath → Bool
prefix_from [] path = true
prefix_from (p ∷ prefix) [] = false
prefix_from (p ∷ prefix) (q ∷ path) = if same_segment p q then prefix_from prefix path else false

unfoldable pub is_path_prefix : TreePath → TreePath → Bool
unfolding prefix_from same_segment
is_path_prefix prefix path =
    if ltb (length path) (length prefix) then false else prefix_from prefix path

unfoldable pub paths_overlap : TreePath → TreePath → Bool
unfolding is_path_prefix
paths_overlap left right = is_path_prefix left right || is_path_prefix right left
