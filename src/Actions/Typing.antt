-- ===== src/Actions/Typing.antt =====
-- The values of an annotation, as a relation, and that the check decides it.
use freedom_box.Base.{ℕ, String, ◌≡◌, ◌↔◌, refl, Bool, true, Bool-cases, inl, inr, arith}
use freedom_box.Actions.Values.{
  Value, null, boolean, integer, float, text, list, dict, Items, Fields, end, field, Annotation,
  Annotations, any, none_type, bool_type, int_type, str_type, float_type, secret_str, union,
  list_of, dict_of, all_items, all_fields,
}
use freedom_box.Actions.Check.{is_valid_type}

-- `v` is a value of the annotation. A bool is an int, and no int is a float.
mutual
  pub data HasType : Annotation → Value → Type 0 where
    is_any : {v : Value} → HasType any v
    is_null : HasType none_type null
    is_boolean : {b : Bool} → HasType bool_type (boolean b)
    is_boolean_int : {b : Bool} → HasType int_type (boolean b)
    is_integer : {s : Bool} {n : ℕ} → HasType int_type (integer s n)
    is_text : {s : String} → HasType str_type (text s)
    is_float_number : {s : String} → HasType float_type (float s)
    is_secret : {s : String} → HasType secret_str (text s)
    in_union : {as_ : Annotations} {v : Value} → HasSomeType as_ v → HasType (union as_) v
    in_list : {a : Annotation} {vs : Items} → HaveType a vs → HasType (list_of a) (list vs)
    in_dict :
        {k a : Annotation} {fs : Fields} → FieldsHaveType k a fs → HasType (dict_of k a) (dict fs)

  pub data HasSomeType : Annotations → Value → Type 0 where
    here :
        {a : Annotation} {as_ : Annotations} {v : Value}
        → HasType a v
        → HasSomeType (Annotations.cons a as_) v
    there :
        {a : Annotation} {as_ : Annotations} {v : Value}
        → HasSomeType as_ v
        → HasSomeType (Annotations.cons a as_) v

  pub data HaveType : Annotation → Items → Type 0 where
    no_items : {a : Annotation} → HaveType a Items.nil
    items :
        {a : Annotation} {v : Value} {vs : Items}
        → HasType a v
        → HaveType a vs
        → HaveType a (Items.cons v vs)

  pub data FieldsHaveType : Annotation → Annotation → Fields → Type 0 where
    no_fields : {k a : Annotation} → FieldsHaveType k a end
    fields :
        {k a : Annotation} {s : String} {v : Value} {fs : Fields}
        → HasType k (text s)
        → HasType a v
        → FieldsHaveType k a fs
        → FieldsHaveType k a (field s v fs)

mutual
  unfolding is_valid_type

  HasType-sound : {a : Annotation} {v : Value} → HasType a v → is_valid_type a v ≡ true
  HasType-sound is_any = refl
  HasType-sound is_null = refl
  HasType-sound is_boolean = refl
  HasType-sound is_boolean_int = refl
  HasType-sound is_integer = refl
  HasType-sound is_text = refl
  HasType-sound is_float_number = refl
  HasType-sound is_secret = refl
  HasType-sound (in_union h) = HasSomeType-sound h
  HasType-sound (in_list h) = HaveType-sound h
  HasType-sound (in_dict h) = FieldsHaveType-sound h

  HasSomeType-sound :
      {as_ : Annotations} {v : Value} → HasSomeType as_ v → is_valid_type (union as_) v ≡ true
  HasSomeType-sound (here h) = ground (arith, HasType-sound h)
  HasSomeType-sound (there h) = ground (arith, HasSomeType-sound h)

  HaveType-sound :
      {a : Annotation} {vs : Items} → HaveType a vs → all_items (is_valid_type a) vs ≡ true
  HaveType-sound no_items = refl
  HaveType-sound (items h more) = ground (arith, HasType-sound h, HaveType-sound more)

  FieldsHaveType-sound :
      {k a : Annotation} {fs : Fields}
      → FieldsHaveType k a fs
      → all_fields (is_valid_type k) (is_valid_type a) fs ≡ true
  FieldsHaveType-sound no_fields = refl
  FieldsHaveType-sound (fields hk h more) =
      ground (arith, HasType-sound hk, HasType-sound h, FieldsHaveType-sound more)

-- The items of a list and the fields of a dictionary, when the test is right for each.
HaveType-complete :
    (a : Annotation)
    → ((v : Value) → is_valid_type a v ≡ true → HasType a v)
    → (vs : Items) → all_items (is_valid_type a) vs ≡ true
    → HaveType a vs
HaveType-complete a right Items.nil h = no_items
HaveType-complete a right (Items.cons v vs) h =
    items (right v (ground arith)) (HaveType-complete a right vs (ground arith))

FieldsHaveType-complete :
    (k a : Annotation)
    → ((v : Value) → is_valid_type k v ≡ true → HasType k v)
    → ((v : Value) → is_valid_type a v ≡ true → HasType a v)
    → (fs : Fields) → all_fields (is_valid_type k) (is_valid_type a) fs ≡ true
    → FieldsHaveType k a fs
FieldsHaveType-complete k a right_key right end h = no_fields
FieldsHaveType-complete k a right_key right (field s v fs) h =
    fields (right_key (text s) (ground arith)) (right v (ground arith))
      (FieldsHaveType-complete k a right_key right fs (ground arith))

mutual
  unfolding is_valid_type

  HasType-complete : (a : Annotation) (v : Value) → is_valid_type a v ≡ true → HasType a v
  HasType-complete any v h = is_any
  HasType-complete none_type null h = is_null
  HasType-complete bool_type (boolean b) h = is_boolean
  HasType-complete int_type (boolean b) h = is_boolean_int
  HasType-complete int_type (integer s n) h = is_integer
  HasType-complete str_type (text s) h = is_text
  HasType-complete float_type (float s) h = is_float_number
  HasType-complete secret_str (text s) h = is_secret
  HasType-complete (union as_) v h = in_union (HasSomeType-complete as_ v h)
  HasType-complete (list_of a) (list vs) h = in_list (HaveType-complete a (HasType-complete a) vs h)
  HasType-complete (dict_of k a) (dict fs) h =
      in_dict (FieldsHaveType-complete k a (HasType-complete k) (HasType-complete a) fs h)
  HasType-complete _ _ h = absurd (ground arith)

  HasSomeType-complete :
      (as_ : Annotations) (v : Value) → is_valid_type (union as_) v ≡ true → HasSomeType as_ v
  HasSomeType-complete Annotations.nil v h = absurd (ground arith)
  HasSomeType-complete (Annotations.cons a as_) v h = elim (Bool-cases (is_valid_type a v)) [
    | inl e ↦ here (HasType-complete a v e)
    | inr e ↦ there (HasSomeType-complete as_ v (ground arith))
  ]

-- The check of an argument accepts exactly the values of its annotation.
pub is_valid_type_iff : (a : Annotation) (v : Value) → (is_valid_type a v ≡ true) ↔ HasType a v
is_valid_type_iff a v = (HasType-complete a v, HasType-sound)
