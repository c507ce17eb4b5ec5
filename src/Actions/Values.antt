-- ===== src/Actions/Values.antt =====
-- The values of a request, as json.loads gives them, and the annotations of a privileged method.
use freedom_box.Base.{ℕ, String, Bool, true, ◌&&◌}

mutual
  pub data Value : Type 0 where
    null : Value
    boolean : Bool → Value
    -- the sign (true for negative numbers) and the magnitude
    integer : Bool → ℕ → Value
    -- the text of the number
    float : String → Value
    text : String → Value
    list : Items → Value
    dict : Fields → Value

  pub data Items : Type 0 where
    nil : Items
    cons : Value → Items → Items

  pub data Fields : Type 0 where
    end : Fields
    field : String → Value → Fields → Fields

mutual
  pub data Annotation : Type 0 where
    any none_type bool_type int_type str_type float_type secret_str : Annotation
    union : Annotations → Annotation
    list_of : Annotation → Annotation
    dict_of : Annotation → Annotation → Annotation
    -- anything else, such as a class or `list` without its items
    unsupported : Annotation

  pub data Annotations : Type 0 where
    nil : Annotations
    cons : Annotation → Annotations → Annotations

abbrev pub all_items : (Value → Bool) → Items → Bool
all_items p Items.nil = true
all_items p (Items.cons v vs) = p v && all_items p vs

abbrev pub all_fields : (Value → Bool) → (Value → Bool) → Fields → Bool
all_fields p q end = true
all_fields p q (field k v fs) = p (text k) && (q v && all_fields p q fs)
