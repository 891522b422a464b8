-- ===== src/Value.antt =====
-- What the program hands to encoding/json: the Go values behind `any`, as data. A struct and a map
-- are objects, a `[]byte` is a text of its own kind (encoding/json writes it in base64), and a
-- `time.Time` is carried as the RFC 3339 text that its MarshalJSON writes.
use chainbind_go.Prelude.{ℕ, ◌<◌, ◌≡◌, All, length, String, Bool, Option, none, some, List, [], ◌∷◌}
use chainbind_go.Prelude.Maps.{Map}
use chainbind_go.Prelude.Integers.{ℤ, pos, negsuc}

abbrev pub Bytes : Type 0
Bytes = List ℕ

-- A []byte where the program tells nil from an empty slice: nil is `none`.
abbrev pub Slice : Type 0
Slice = Option Bytes

abbrev pub contents : Slice → Bytes
contents none = []
contents (some b) = b

-- A byte string of the model is a list of numbers; these are its real bytes, so many of them.
abbrev pub IsByte : ℕ → Type 0
IsByte x = x < 256

abbrev pub IsBlock : ℕ → Bytes → Type 0
IsBlock n b = (length b ≡ n) × All IsByte b

pub record Time : Type 0 where
  pub rfc3339 : String

mutual
  pub data Value : Type 0 where
    null : Value
    bool : Bool → Value
    int : ℕ → Value
    -- `negative n` is -(n + 1)
    negative : ℕ → Value
    text : String → Value
    bytes : Bytes → Value
    time : Time → Value
    array : Values → Value
    object : Fields → Value

  pub data Values : Type 0 where
    nil : Values
    cons : Value → Values → Values

  pub data Fields : Type 0 where
    end : Fields
    field : String → Value → Fields → Fields

-- The members of an object, and the elements of an array, from the program's own lists.
abbrev pub fields : Map Value → Fields
fields [] = end
fields ((k, v) ∷ m) = field k v (fields m)

abbrev pub values : List Value → Values
values [] = nil
values (v ∷ vs) = cons v (values vs)

-- A struct or a map[string]string whose members are all texts.
abbrev pub texts : Map String → Fields
texts [] = end
texts ((k, s) ∷ m) = field k (text s) (texts m)

-- encoding/json writes a nil []byte as null, and an empty one as an empty text.
abbrev pub slice_bytes : Slice → Value
slice_bytes none = null
slice_bytes (some b) = bytes b

-- A Go `int`.
abbrev pub int_value : ℤ → Value
int_value (pos n) = int n
int_value (negsuc n) = negative n
