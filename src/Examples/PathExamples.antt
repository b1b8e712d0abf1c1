-- ===== src/Examples/PathExamples.antt =====
-- packages/core/src/path.ts at concrete paths and pointers.
use effect_state_tree.Base.{ℕ, ◌≡◌, ◌≢◌, refl, [], ◌∷◌, ◌⊎◌, get_elem?, arith, some}
use effect_state_tree.Base.Text.{Text, codes}
use effect_state_tree.Base.Result.{ok}
use effect_state_tree.Path.{TreePath, key, index}
use effect_state_tree.Path.Prefix.{IsComparable}
use effect_state_tree.Path.Decimal.{is_canonical}
use effect_state_tree.Path.Token.{DecodeError, invalid_pointer, invalid_escape, decode_token}
use effect_state_tree.Path.Pointer.{canonical, path_to_pointer, pointer_to_path}
use effect_state_tree.Path.PointerLaws.{pointer_roundtrip}
use effect_state_tree.Path.PointerErrors.{pointer_to_path-err}

abbrev items : TreePath
items = key (codes "items") ∷ []

abbrev first_name : TreePath
first_name = key (codes "items") ∷ index 0 ∷ key (codes "a/b~") ∷ []

abbrev pointer : Text
pointer = codes "/items/0/a~1b~0"

key-IsComparable : (t : Text) → IsComparable (key t)
key-IsComparable t h = cc

index-IsComparable : (n : ℕ) → IsComparable (index n)
index-IsComparable n h = cc

pointer_roundtrip_example : pointer_to_path (path_to_pointer first_name) canonical ≡ ok first_name
unfolding is_canonical
pointer_roundtrip_example = pointer_roundtrip first_name (refl, (omega arith, (refl, tt)))

abbrev bad_escape : DecodeError
bad_escape = record { at = 2; pointer = codes "/a~2"; reason = invalid_escape }

refused_example :
    (codes "/a~2" ≢ [])
    × (((bad_escape.reason ≡ invalid_pointer)
          × (bad_escape.at ≡ 0)
          × (get_elem? (codes "/a~2") 0 ≢ some 47))
        ⊎ ((bad_escape.reason ≡ invalid_escape)
            × (get_elem? (codes "/a~2") 0 ≡ some 47)
            × (get_elem? (codes "/a~2") bad_escape.at ≡ some 126)))
unfolding pointer_to_path decode_token
refused_example = pointer_to_path-err (codes "/a~2") canonical refl
