-- ===== src/Protocol/Value.antt =====
-- The values that a datapoint takes: Python's `bool`, `int`, `str` and `bytes`.
use jebao_flow_engine.Base.{zero, Bool, true, false, String, ◌==◌, str_eq, [], ◌∷◌, ◌&&◌, not}
use jebao_flow_engine.Base.Bytes.{Bytes}
use jebao_flow_engine.Base.Int.{ℤ, pos, negsuc}

pub data Value : Type 0 where
  of_bool : Bool → Value
  of_int : ℤ → Value
  of_text : String → Value
  of_bytes : Bytes → Value

abbrev pub int_eq : ℤ → ℤ → Bool
int_eq (pos m) (pos n) = m == n
int_eq (negsuc m) (negsuc n) = m == n
int_eq (pos m) (negsuc n) = false
int_eq (negsuc m) (pos n) = false

abbrev pub bytes_eq : Bytes → Bytes → Bool
bytes_eq [] [] = true
bytes_eq (x ∷ xs) (y ∷ ys) = x == y && bytes_eq xs ys
bytes_eq [] (y ∷ ys) = false
bytes_eq (x ∷ xs) [] = false

abbrev pub int_of_bool : Bool → ℤ
int_of_bool true = pos 1
int_of_bool false = pos 0

abbrev pub bool_eq : Bool → Bool → Bool
bool_eq true b = b
bool_eq false b = not b

-- Python's `==`: a boolean is the integer 0 or 1.
unfoldable pub value_eq : Value → Value → Bool
value_eq (of_bool a) (of_bool b) = bool_eq a b
value_eq (of_bool a) (of_int n) = int_eq (int_of_bool a) n
value_eq (of_int m) (of_bool b) = int_eq m (int_of_bool b)
value_eq (of_int m) (of_int n) = int_eq m n
value_eq (of_text s) (of_text t) = str_eq s t
value_eq (of_bytes xs) (of_bytes ys) = bytes_eq xs ys
value_eq _ _ = false

-- `bool(value)`
unfoldable pub truthy : Value → Bool
truthy (of_bool b) = b
truthy (of_int (pos zero)) = false
truthy (of_int _) = true
truthy (of_text s) = not (str_eq s "")
truthy (of_bytes []) = false
truthy (of_bytes (x ∷ xs)) = true
