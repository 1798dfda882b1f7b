-- ===== src/Domain/Delta/Document.antt =====
-- packages/domain/src/delta.ts: reading a document at a pointer, and writing into the container
-- that holds its last token.
pub mod Frame
use horseness.Common.{
  ℕ, zero, suc, ◌+◌, ◌-◌, ◌*◌, List, [], ◌∷◌, Bool, true, false, ◌&&◌, ltb, leb, ◌==◌,
  if◌then◌else◌, Option, none, some,
}
use horseness.Domain.Canonical.{
  Text, text_beq, Json, null, bool, num, str, arr, obj, Items, nil, cons, Fields, end, field,
}

-- The digits behind the first one.
unfoldable pub digits : ℕ → Text → Option ℕ
digits n [] = some n
digits n (c ∷ s) =
    let rest = digits (n * 10 + (c - 0x30)) s in if leb 0x30 c && leb c 0x39 then rest else none

-- `/^(0|[1-9][0-9]*)$/u.test(token)`, and `Number(token)` for such a token.
unfoldable pub array_index : Text → Option ℕ
unfolding digits
array_index [] = none
array_index (c ∷ s) =
    if leb 0x31 c && leb c 0x39
    then digits (c - 0x30) s
    else elim s [ [] ↦ (if c == 0x30 then some 0 else none) | _ ∷ _ ↦ none ]

unfoldable pub length_items : Items → ℕ
length_items nil = 0
length_items (cons x xs) = suc (length_items xs)

unfoldable pub get_item : Items → ℕ → Option Json
get_item nil i = none
get_item (cons x xs) zero = some x
get_item (cons x xs) (suc i) = get_item xs i

-- `array[i] = v` for an index in range.
unfoldable pub set_item : Items → ℕ → Json → Items
set_item nil i v = nil
set_item (cons x xs) zero v = cons v xs
set_item (cons x xs) (suc i) v = cons x (set_item xs i v)

-- `array.splice(i, 1)`
unfoldable pub remove_item : Items → ℕ → Items
remove_item nil i = nil
remove_item (cons x xs) zero = xs
remove_item (cons x xs) (suc i) = cons x (remove_item xs i)

-- `array.splice(i, 0, v)`
unfoldable pub insert_item : Items → ℕ → Json → Items
insert_item xs zero v = cons v xs
insert_item nil (suc i) v = cons v nil
insert_item (cons x xs) (suc i) v = cons x (insert_item xs i v)

unfoldable pub get_field : Text → Fields → Option Json
get_field k end = none
get_field k (field j v fs) = if text_beq j k then some v else get_field k fs

-- `object[k] = v`
unfoldable pub set_field : Text → Json → Fields → Fields
set_field k v end = field k v end
set_field k v (field j w fs) =
    let rest = set_field k v fs in if text_beq j k then field j v fs else field j w rest

-- `Reflect.deleteProperty(object, k)`
unfoldable pub delete_field : Text → Fields → Fields
delete_field k end = end
delete_field k (field j w fs) =
    let rest = delete_field k fs in if text_beq j k then rest else field j w rest

abbrev item_at : Items → Option ℕ → Option Json
item_at xs none = none
item_at xs (some i) = get_item xs i

-- The member of a container that a token names.
unfoldable pub child : Json → Text → Option Json
unfolding array_index get_item get_field
child (arr xs) t = item_at xs (array_index t)
child (obj fs) t = get_field t fs
child _ t = none

abbrev pub is_container : Json → Bool
is_container (arr _) = true
is_container (obj _) = true
is_container _ = false

-- The container that holds the last token, and that token.
unfoldable pub parent_and_key : Json → List Text → Option (Json × Text)
unfolding child
parent_and_key current [] = none
parent_and_key current (key ∷ []) = if is_container current then some (current, key) else none
parent_and_key current (t ∷ u ∷ ts) = elim (child current t) [
  | none ↦ none
  | some next ↦ parent_and_key next (u ∷ ts)
]

unfoldable pub read_at : Json → List Text → Option Json
unfolding parent_and_key child
read_at document [] = some document
read_at document (t ∷ ts) = elim (parent_and_key document (t ∷ ts)) [
  | none ↦ none
  | some (parent, key) ↦ child parent key
]

abbrev set_at : Items → Option ℕ → Json → Items
set_at xs none v = xs
set_at xs (some i) v = set_item xs i v

-- The container with the named member replaced.
unfoldable pub set_child : Json → Text → Json → Json
unfolding array_index set_item set_field
set_child (arr xs) t v = arr (set_at xs (array_index t) v)
set_child (obj fs) t v = obj (set_field t v fs)
set_child j t v = j

-- The document after its container at the pointer has been mutated into `parent`: the source
-- mutates that object in place, and each object on the way holds the next one.
unfoldable pub put_parent : Json → List Text → Json → Json
unfolding set_child child
put_parent current [] parent = current
put_parent current (key ∷ []) parent = parent
put_parent current (t ∷ u ∷ ts) parent = elim (child current t) [
  | none ↦ current
  | some next ↦ set_child current t (put_parent next (u ∷ ts) parent)
]
