-- ===== src/Proto/Encoding/Properties.antt =====
-- json_to_props and props_to_json of src/proto/proto_ta.c: the properties of a service, written into
-- a JSON object with a list of values for each name, and read back.
use tpaf.Prelude.{
  ◌≡◌, refl, ap, sym, ◌∙◌, Bool, true, false, some, List, [], ◌∷◌, ◌++◌, if◌then◌else◌, arith, inl,
  inr, append-nil, append_assoc, Bool-cases, Option-cases,
}
use tpaf.Clib.Str.{Str, str_eq, str_eq_iff}
use tpaf.Sd.Props.{Props}
use tpaf.Sd.Props
use tpaf.Sd.Props.Laws.{values_of}
use tpaf.Sd.Pvalue.{Pvalue, int64}
use tpaf.Sd.Pvalue
use tpaf.Proto.Json.{Json, IsLawful, set_entry, get_entry}
use tpaf.Proto.Encoding.{
  json_to_pvalue, add_values, add_names, json_to_props, array_append_new, pvalue_to_json, or_array,
  prop_to_json, props_to_json_loop, props_to_json,
}

-- Properties by their names, in the order in which the names came.
abbrev Groups : Type 0
Groups = List (Str × List Pvalue)

insert : Groups → Str → Pvalue → Groups
insert [] name value = (name, value ∷ []) ∷ []
insert ((m, values) ∷ groups) name value =
    if str_eq m name
    then (m, values ++ value ∷ []) ∷ groups
    else (m, values) ∷ insert groups name value

insert_all : Groups → Props → Groups
insert_all groups [] = groups
insert_all groups ((name, value) ∷ p) = insert_all (insert groups name value) p

tagged : Str → List Pvalue → Props
tagged name [] = []
tagged name (value ∷ values) = (name, value) ∷ tagged name values

flatten : Groups → Props
flatten [] = []
flatten ((m, values) ∷ groups) = tagged m values ++ flatten groups

group_of : Groups → Str → List Pvalue
group_of [] name = []
group_of ((m, values) ∷ groups) name = if str_eq m name then values else group_of groups name

has_group : Groups → Str → Bool
has_group [] name = false
has_group ((m, values) ∷ groups) name = if str_eq m name then true else has_group groups name

abbrev AreDistinct : Groups → Type 0
AreDistinct [] = Unit {0}
AreDistinct ((m, values) ∷ groups) = (has_group groups m ≡ false) × AreDistinct groups

has_group-insert :
    (groups : Groups) (name n : Str) (value : Pvalue)
    → has_group (insert groups name value) n ≡ (if str_eq name n then true else has_group groups n)
unfolding insert has_group
has_group-insert [] name n value = refl
has_group-insert ((m, values) ∷ groups) name n value =
    ground (arith, has_group-insert groups name n value, str_eq_iff m name)

insert-AreDistinct :
    (groups : Groups) (name : Str) (value : Pvalue)
    → AreDistinct groups
    → AreDistinct (insert groups name value)
unfolding insert has_group
insert-AreDistinct [] name value d = ground arith
insert-AreDistinct ((m, values) ∷ groups) name value d = ground (
  arith,
  has_group-insert groups name m value,
  insert-AreDistinct groups name value,
  str_eq_iff m name,
  str_eq_iff name m,
)

group_of-insert :
    (groups : Groups) (name n : Str) (value : Pvalue)
    → group_of (insert groups name value) n
      ≡ (if str_eq name n then group_of groups n ++ value ∷ [] else group_of groups n)
unfolding insert group_of
group_of-insert [] name n value = ground arith
group_of-insert ((m, values) ∷ groups) name n value = ground (
  arith,
  group_of-insert groups name n value,
  str_eq_iff m name,
  str_eq_iff m n,
  str_eq_iff name n,
)

group_of-insert_all :
    (groups : Groups) (p : Props) (n : Str)
    → group_of (insert_all groups p) n ≡ group_of groups n ++ values_of p n
unfolding insert_all values_of
group_of-insert_all groups [] n = sym (append-nil _)
group_of-insert_all groups ((name, value) ∷ p) n = elim (Bool-cases (str_eq name n)) [
  | inl hit ↦ rw hit (
      group_of-insert_all (insert groups name value) p n
      ∙ ground (
        arith,
        group_of-insert groups name n value,
        append_assoc (group_of groups n) (value ∷ []) (values_of p n),
      ))
  | inr miss ↦ rw miss (
      group_of-insert_all (insert groups name value) p n
      ∙ ground (arith, group_of-insert groups name n value))
]

insert_all-AreDistinct :
    (groups : Groups) (p : Props) → AreDistinct groups → AreDistinct (insert_all groups p)
unfolding insert_all
insert_all-AreDistinct groups [] d = d
insert_all-AreDistinct groups ((name, value) ∷ p) d =
    insert_all-AreDistinct (insert groups name value) p (insert-AreDistinct groups name value d)

values_of-append : (p q : Props) (n : Str) → values_of (p ++ q) n ≡ values_of p n ++ values_of q n
unfolding values_of
values_of-append [] q n = refl
values_of-append ((name, value) ∷ p) q n = ground (arith, values_of-append p q n)

values_of-tagged :
    (m n : Str) (values : List Pvalue)
    → values_of (tagged m values) n ≡ (if str_eq m n then values else [])
unfolding values_of tagged
values_of-tagged m n [] = ground arith
values_of-tagged m n (value ∷ values) = ground (arith, values_of-tagged m n values)

no_values :
    (groups : Groups) (n : Str) → has_group groups n ≡ false → values_of (flatten groups) n ≡ []
unfolding flatten has_group values_of
no_values [] n h = refl
no_values ((m, values) ∷ groups) n h =
    rw (values_of-append (tagged m values) (flatten groups) n, values_of-tagged m n values)
      (ground (arith, no_values groups n))

values_of-flatten :
    (groups : Groups) (n : Str)
    → AreDistinct groups
    → values_of (flatten groups) n ≡ group_of groups n
unfolding flatten group_of values_of
values_of-flatten [] n d = refl
values_of-flatten ((m, values) ∷ groups) n d =
    rw (values_of-append (tagged m values) (flatten groups) n, values_of-tagged m n values)
      (ground (
        arith,
        values_of-flatten groups n,
        no_values groups m d.0,
        str_eq_iff m n,
        append-nil values,
      ))

module _ (J : Json) (law : IsLawful J) where
  open J use {Value}

  -- A JSON list that is read as these values.
  abbrev Holds : Value → List Pvalue → Type 0
  Holds l values =
      (J.is_array l ≡ true)
      × ((name : Str) (found : Props)
          → add_values J name (J.elements l) found ≡ some (found ++ tagged name values))

  abbrev Represents : List (Str × Value) → Groups → Type 0
  Represents [] [] = Unit {0}
  Represents [] (g ∷ groups) = ⊥
  Represents (e ∷ entries) [] = ⊥
  Represents ((k, l) ∷ entries) ((m, values) ∷ groups) =
      (k ≡ m) × Holds l values × Represents entries groups

  abbrev pub IsWritable : Props → Type 0
  IsWritable [] = Unit {0}
  IsWritable ((name, value) ∷ p) = ((j : Value) × (pvalue_to_json J value ≡ some j)) × IsWritable p

  add_names-Represents :
      (entries : List (Str × Value)) (groups : Groups) (found : Props)
      → Represents entries groups
      → add_names J entries found ≡ some (found ++ flatten groups)
  unfolding add_names flatten
  add_names-Represents [] [] found r = ap some (sym (append-nil found))
  add_names-Represents [] (g ∷ groups) found r = absurd r
  add_names-Represents (e ∷ entries) [] found r = absurd r
  add_names-Represents ((k, l) ∷ entries) ((m, values) ∷ groups) found r = ground (
    arith,
    r.1.1 k found,
    add_names-Represents entries groups (found ++ tagged k values) r.2,
    append_assoc found (tagged k values) (flatten groups),
  )

  json_to_pvalue-pvalue_to_json :
      (value : Pvalue) (j : Value)
      → pvalue_to_json J value ≡ some j
      → json_to_pvalue J j ≡ some value
  unfolding json_to_pvalue pvalue_to_json
  json_to_pvalue-pvalue_to_json (int64 z) j e =
      ground (arith, law.is_integer-integer z, law.integer_value-integer z)
  json_to_pvalue-pvalue_to_json (Pvalue.str s) j e = ground (
    arith,
    law.string_not_integer s j e,
    law.is_string-string s j e,
    law.string_value-string s j e,
  )

  add_values-append :
      (name : Str) (values : List Value) (j : Value) (value : Pvalue) (found q : Props)
      → json_to_pvalue J j ≡ some value
      → add_values J name values found ≡ some q
      → add_values J name (values ++ j ∷ []) found ≡ some (q ++ (name, value) ∷ [])
  unfolding add_values Props.add
  add_values-append name [] j value found q e h = ground (arith, Pvalue.clone-eq value)
  add_values-append name (u ∷ values) j value found q e h =
      elim (Option-cases (json_to_pvalue J u)) [
        | inl bad ↦ ground arith
        | inr (v, good) ↦
            ground (arith, add_values-append name values j value (Props.add found name v) q e)
      ]

  tagged-snoc :
      (name : Str) (values : List Pvalue) (value : Pvalue)
      → tagged name (values ++ value ∷ []) ≡ tagged name values ++ (name, value) ∷ []
  unfolding tagged
  tagged-snoc name [] value = refl
  tagged-snoc name (v ∷ values) value = ap (◌∷◌ (name, v)) (tagged-snoc name values value)

  append-Holds :
      (l : Value) (values : List Pvalue) (j : Value) (value : Pvalue)
      → json_to_pvalue J j ≡ some value
      → Holds l values
      → Holds (J.array_append l j) (values ++ value ∷ [])
  append-Holds l values j value e (is, reads) = (
    law.is_array-append l j is,
    λ name found.
        rw (law.elements-append l j is, tagged-snoc name values value)
          (add_values-append name (J.elements l) j value found (found ++ tagged name values) e
              (reads name found)
            ∙ ap some (append_assoc found (tagged name values) ((name, value) ∷ []))),
  )

  new-Holds :
      (j : Value) (value : Pvalue)
      → json_to_pvalue J j ≡ some value
      → Holds (J.array_append J.array j) (value ∷ [])
  unfolding add_values tagged
  new-Holds j value e =
      append-Holds J.array [] j value e
        (law.is_array-array, λ name found. rw law.elements-array (ap some (sym (append-nil found))))

  insert-Represents :
      (entries : List (Str × Value)) (groups : Groups) (name : Str) (j : Value) (value : Pvalue)
      → json_to_pvalue J j ≡ some value
      → Represents entries groups
      → Represents
          (set_entry entries name (J.array_append (or_array J (get_entry entries name)) j))
          (insert groups name value)
  unfolding insert
  insert-Represents [] [] name j value e r = (refl, new-Holds j value e, tt)
  insert-Represents [] (g ∷ groups) name j value e r = absurd r
  insert-Represents (u ∷ entries) [] name j value e r = absurd r
  insert-Represents ((k, l) ∷ entries) ((m, values) ∷ groups) name j value e (same, holds, rest) =
      elim (Bool-cases (str_eq k name)) [
        | inl hit ↦ rw (← same, hit) (refl, append-Holds l values j value e holds, rest)
        | inr miss ↦
            rw (← same, miss) (refl, holds, insert-Represents entries groups name j value e rest)
      ]

  -- An object that props_to_json builds.
  abbrev Built : Value → Groups → Type 0
  Built o groups = (J.is_object o ≡ true) × Represents (J.entries o) groups

  prop_to_json_lem :
      (o : Value) (name : Str) (value : Pvalue) (j : Value)
      → pvalue_to_json J value ≡ some j
      → prop_to_json J o name value
        ≡ J.object_set o name (J.array_append (or_array J (J.object_get o name)) j)
  unfolding prop_to_json array_append_new
  prop_to_json_lem o name value j e = ground arith

  prop_to_json-Built :
      (o : Value) (groups : Groups) (name : Str) (value : Pvalue) (j : Value)
      → pvalue_to_json J value ≡ some j
      → Built o groups
      → Built (prop_to_json J o name value) (insert groups name value)
  prop_to_json-Built o groups name value j e (is, r) =
      rw (prop_to_json_lem o name value j e, law.get-entries o name is)
        (
          law.is_object-set o name _ is,
          rw
              (law.entries-set o name (J.array_append (or_array J (get_entry (J.entries o) name)) j)
                is)
              (insert-Represents (J.entries o) groups name j value
                (json_to_pvalue-pvalue_to_json value j e) r),
        )

  loop-Built :
      (p : Props) (o : Value) (groups : Groups)
      → IsWritable p
      → Built o groups
      → Built (props_to_json_loop J o p) (insert_all groups p)
  unfolding props_to_json_loop insert_all
  loop-Built [] o groups w b = b
  loop-Built ((name, value) ∷ p) o groups (w, ws) b =
      loop-Built p (prop_to_json J o name value) (insert groups name value) ws
        (prop_to_json-Built o groups name value w.0 w.1 b)

  pub props_to_json-is_object : (p : Props) → IsWritable p → J.is_object (props_to_json J p) ≡ true
  unfolding props_to_json
  props_to_json-is_object p w =
      (loop-Built p J.object [] w (law.is_object-object, rw law.entries-object tt)).0

  -- Properties that are written as JSON are read back with the same values for each name, in the
  -- same order; the names may come in another order.
  pub json_to_props-props_to_json :
      (p : Props)
      → IsWritable p
      → (q : Props) × (json_to_props J (props_to_json J p) ≡ some q)
        × ((n : Str) → values_of q n ≡ values_of p n)
  unfolding props_to_json json_to_props group_of
  json_to_props-props_to_json p w =
      let (is, r) = loop-Built p J.object [] w (law.is_object-object, rw law.entries-object tt) in
      (
        flatten (insert_all [] p),
        add_names-Represents _ (insert_all [] p) [] r,
        λ n.
            values_of-flatten (insert_all [] p) n (insert_all-AreDistinct [] p tt)
            ∙ group_of-insert_all [] p n,
      )
