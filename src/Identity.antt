-- ===== src/Identity.antt =====
-- packages/core/src/identity.ts and `identityAt` of spec.ts: entity keys, the index of a snapshot's
-- entities and anchored paths. The entity annotation that the Schema has at a path, the order in
-- which `walkSchemaValue` visits a snapshot, `encodeURIComponent` (of well-formed strings) and the
-- text of a number that no natural number is are parameters.
pub mod Keys
pub mod Index
pub mod Anchors
use effect_state_tree.Base.{
  ℕ, zero, suc, ◌+◌, ◌==◌, Bool, true, false, not, ◌&&◌, Option, none, some, List, [], ◌∷◌, ◌++◌,
  take, length, if◌then◌else◌,
}
use effect_state_tree.Base.Text.{Text, text_eq, codes}
use effect_state_tree.Base.Result.{Result, ok, err, ◌>>=◌}
use effect_state_tree.Path.{TreePath, nan_text}
use effect_state_tree.Path.Decimal.{print}
use effect_state_tree.Snapshot.{Value, leaf, obj, string, number, other_number, lookup}
use effect_state_tree.Snapshot.Read.{PathFailure, get_at_path}
use effect_state_tree.Runtime.{EntityId, string_id, number_id, EntityIdentity}

pub record EntityAnnotation : Type 0 where
  pub type : Text
  pub id : Text

abbrev pub type_text : EntityId → Text
type_text (string_id t) = codes "string"
type_text (number_id t) = codes "number"

abbrev pub id_text : EntityId → Text
id_text (string_id t) = t
id_text (number_id t) = t

unfoldable pub entity_key : (Text → Text) → EntityIdentity → Text
entity_key encode identity =
    encode identity.entity_type
    ++ b':' ∷ (type_text identity.id ++ b':' ∷ encode (id_text identity.id))

pub record IndexEntry : Type 0 where
  pub key : Text
  pub identity : EntityIdentity
  pub path : TreePath

-- The `Map` of entries, the latest first.
abbrev pub EntityIndex : Type 0
EntityIndex = List IndexEntry

abbrev pub find_entry : Text → EntityIndex → Option IndexEntry
find_entry k [] = none
find_entry k (e ∷ es) = let rest = find_entry k es in if text_eq e.key k then some e else rest

-- One call of the visitor, with the entity annotation resolved from its Schema nodes.
pub record Visit : Type 0 where
  pub annotation : Option EntityAnnotation
  pub path : TreePath
  pub value : Value

pub data IndexError : Type 0 where
  missing_id unsupported_id : EntityAnnotation → TreePath → IndexError
  duplicate_entity : EntityIdentity → (first second : TreePath) → IndexError

-- The identity that an annotation gives to a value with a string or number as its id.
module _ (number_text : ℕ → Text) where
  abbrev pub read_id : Value → Option EntityId
  read_id (leaf (string t)) = some (string_id t)
  read_id (leaf (number n)) = some (number_id (print n))
  read_id (leaf (other_number b)) = some (number_id (number_text b))
  read_id v = none

  abbrev pub identified :
      EntityAnnotation → TreePath → Option EntityId → Result IndexError EntityIdentity
  identified a path none = err (unsupported_id a path)
  identified a path (some i) = ok (record { entity_type = a.type; id = i })

  abbrev pub own_id : EntityAnnotation → TreePath → Option Value → Result IndexError EntityIdentity
  own_id a path none = err (missing_id a path)
  own_id a path (some v) = identified a path (read_id v)

  unfoldable pub visit_identity :
      EntityAnnotation → TreePath → Value → Result IndexError EntityIdentity
  unfolding print lookup
  visit_identity a path (obj h symbols fs) = own_id a path (lookup a.id fs)
  visit_identity a path v = err (missing_id a path)

module _ (number_text : ℕ → Text) (encode : Text → Text) where
  abbrev pub add_entry :
      EntityIndex → EntityIdentity → TreePath → Option IndexEntry → Result IndexError EntityIndex
  add_entry index identity path (some previous) = err (duplicate_entity identity previous.path path)
  add_entry index identity path none =
      ok ((record { key = entity_key encode identity; identity = identity; path = path }) ∷ index)

  unfoldable pub visit_entity :
      EntityIndex → Option EntityAnnotation → TreePath → Value → Result IndexError EntityIndex
  unfolding visit_identity entity_key
  visit_entity index none path v = ok index
  visit_entity index (some a) path v = visit_identity number_text a path v >>= λ identity.
      add_entry index identity path (find_entry (entity_key encode identity) index)

  -- `buildEntityIndex`: once there is an error, the visits that follow do nothing.
  unfoldable pub build_entity_index : EntityIndex → List Visit → Result IndexError EntityIndex
  unfolding visit_entity
  build_entity_index index [] = ok index
  build_entity_index index (v ∷ vs) =
      visit_entity index v.annotation v.path v.value >>= λ more. build_entity_index more vs

pub record PathAnchor : Type 0 where
  pub depth : ℕ
  pub identity : Option EntityIdentity

pub record AnchoredPath : Type 0 where
  pub path : TreePath
  pub anchors : List PathAnchor

pub data AnchorError : Type 0 where
  identity_mismatch : TreePath → ℕ → (expected actual : Option EntityIdentity) → AnchorError
  unread : PathFailure → AnchorError

-- `===` on ids: NaN differs from itself.
abbrev pub same_id : EntityId → EntityId → Bool
same_id (string_id s) (string_id t) = text_eq s t
same_id (number_id s) (number_id t) = text_eq s t && not (text_eq s nan_text)
same_id (string_id s) (number_id t) = false
same_id (number_id s) (string_id t) = false

-- Whether an anchor matches, or neither side has an identity.
abbrev pub agree : Option EntityIdentity → Option EntityIdentity → Bool
agree none none = true
agree none (some j) = false
agree (some i) none = false
agree (some i) (some j) = text_eq i.entity_type j.entity_type && same_id i.id j.id

module _ (number_text : ℕ → Text) (annotation_at : Value → TreePath → Option EntityAnnotation) where
  abbrev pub identity_from : EntityAnnotation → Option EntityId → Option EntityIdentity
  identity_from a none = none
  identity_from a (some i) = some (record { entity_type = a.type; id = i })

  abbrev pub read_property : EntityAnnotation → Option Value → Option EntityIdentity
  read_property a none = none
  read_property a (some v) = identity_from a (read_id number_text v)

  abbrev pub identity_of : EntityAnnotation → Result PathFailure Value → Option EntityIdentity
  identity_of a (ok (obj h symbols fs)) = read_property a (lookup a.id fs)
  identity_of a r = none

  abbrev pub annotated : Option EntityAnnotation → Result PathFailure Value → Option EntityIdentity
  annotated none r = none
  annotated (some a) r = identity_of a r

  unfoldable pub identity_at : Value → TreePath → Option EntityIdentity
  unfolding get_at_path print lookup
  identity_at root path = annotated (annotation_at root path) (get_at_path root path)

-- A prefix that cannot be read ends the loop of `anchorPath`.
abbrev pub anchor_at :
    Result PathFailure Value → ℕ → Option EntityIdentity → List PathAnchor → List PathAnchor
anchor_at (err failure) depth identity rest = []
anchor_at (ok v) depth identity rest = (record { depth = depth; identity = identity }) ∷ rest

module _ (identity_at : Value → TreePath → Option EntityIdentity) where
  -- The loop of `anchorPath`, with the rounds left and the depth.
  abbrev pub anchors_from : Value → TreePath → ℕ → ℕ → List PathAnchor
  anchors_from root path zero depth = []
  anchors_from root path (suc left) depth =
      anchor_at (get_at_path root (take depth path)) depth (identity_at root (take depth path))
        (anchors_from root path left (depth + 1))

  unfoldable pub anchor_path : Value → TreePath → AnchoredPath
  unfolding get_at_path
  anchor_path root path = record { path = path; anchors = anchors_from root path (length path) 1 }

  abbrev pub compare_anchor :
      TreePath
      → PathAnchor
      → Result PathFailure Value
      → Option EntityIdentity
      → Result AnchorError (Unit {0})
  compare_anchor path a (err failure) actual = err (unread failure)
  compare_anchor path a (ok v) actual =
      if agree actual a.identity
      then ok tt
      else err (identity_mismatch path a.depth a.identity actual)

  abbrev pub check_anchor : Bool → Value → TreePath → PathAnchor → Result AnchorError (Unit {0})
  check_anchor ignore_last root path a =
      if ignore_last && (a.depth == length path)
      then ok tt
      else compare_anchor path a (get_at_path root (take a.depth path))
          (identity_at root (take a.depth path))

  abbrev pub check_anchors :
      Bool → Value → TreePath → List PathAnchor → Result AnchorError (Unit {0})
  check_anchors ignore_last root path [] = ok tt
  check_anchors ignore_last root path (a ∷ more) =
      check_anchor ignore_last root path a >>= λ _. check_anchors ignore_last root path more

  abbrev pub read_anchored : Result PathFailure Value → Result AnchorError Value
  read_anchored (ok v) = ok v
  read_anchored (err failure) = err (unread failure)

  unfoldable pub resolve_anchored_path : Bool → Value → AnchoredPath → Result AnchorError Value
  unfolding get_at_path
  resolve_anchored_path ignore_last root anchored =
      check_anchors ignore_last root anchored.path anchored.anchors >>= λ _.
      read_anchored (get_at_path root anchored.path)
