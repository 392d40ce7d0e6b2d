-- ===== src/Value.antt =====
-- The JavaScript values that the primitives exchange with a script, and the errors of primitives.h.
use Prim.Native.String
use runtime_system.Base.{
  ℕ, ◌-◌, ◌%◌, ◌^◌, Bool, true, false, String, List, [], ◌∷◌, Option, none, some, ℤ, pos, negsuc,
  ltb, if◌then◌else◌,
}

-- A value without parts: a BigInt, an Integer or a String.
pub data Scalar : Type 0 where
  bigint : ℤ → Scalar
  integer : ℤ → Scalar
  text : String → Scalar

-- `error` is an object made by `v8::Exception::Error`, `fiber` the `js_object` of a fiber, and
-- `bytes` the contents of a new `Uint8Array`.
pub data Value : Type 0 where
  undefined null : Value
  scalar : Scalar → Value
  error : String → Value
  array : List String → Value
  object : List (String × Scalar) → Value
  fiber : ℕ → Value
  bytes : List ℕ → Value

-- How a primitive ends: with a return value or with an exception.
pub data Reply : Type 0 where
  returned : Value → Reply
  thrown : String → Reply

-- The conversion of a `uint64_t` to the `int64_t` that `v8::BigInt::New` takes.
unfoldable pub to_int64 : ℕ → ℤ
to_int64 n = if ltb n (2 ^ 63) then pos n else negsuc (2 ^ 64 - 1 - n)

-- `v8::BigInt::New(isolate, id)`.
unfoldable pub id_value : ℕ → Value
unfolding to_int64
id_value n = scalar (bigint (to_int64 n))

-- The view of a `Uint8Array`: its buffer, `ByteOffset()` and `ByteLength()`.
pub record View : Type 0 where
  pub buffer : ℕ
  pub offset : ℕ
  pub byte_length : ℕ

-- A `uv_buf_t`. The pointer `base` is a place in a buffer.
pub record Buf : Type 0 where
  pub buffer : ℕ
  pub base : ℕ
  pub len : ℕ

-- `GetUint8ArrayBufferData` and `uv_buf_init`, whose length is an `unsigned int`.
unfoldable pub buf_of_view : View → Buf
buf_of_view v = record { buffer = v.buffer; base = v.offset; len = v.byte_length % 2 ^ 32 }

unfoldable pub is_empty : String → Bool
is_empty String.[] = true
is_empty (String.◌∷◌ c s) = false

-- The message of `AsyncContext::CreateResultValue`; `strerror` is `uv_strerror`.
unfoldable pub message : (ℤ → String) → ℤ → String → String → String
unfolding is_empty
message strerror result syscall path =
    let plain = String.◌++◌ (String.◌++◌ syscall " ") (strerror result) in
    if is_empty path then plain else String.◌++◌ (String.◌++◌ (String.◌++◌ plain " (") path) ")"

-- `ThrowUVException` with a path.
unfoldable pub throw_uv : (ℤ → String) → ℤ → String → String → Reply
throw_uv strerror errno syscall path = thrown (
    String.◌++◌
      (String.◌++◌ (String.◌++◌ (String.◌++◌ (String.◌++◌ syscall " ") (strerror errno)) " (") path)
      ")")

-- What `ReportException` reads of a `TryCatch`: the text of the exception, the file and the line of
-- its message, if it has one, and the stack trace, if there is one.
pub record TryCatch : Type 0 where
  pub exception : String
  pub location : Option (String × Option ℤ)
  pub stack_trace : Option String

-- A line of `std::cerr`: a text, or a file, a line number and a text.
pub data Line : Type 0 where
  plain : String → Line
  located : (filename : String) (linenum : ℤ) → String → Line

-- The stack trace, unless it is empty.
trace_lines : Option String → List Line
unfolding is_empty
trace_lines none = []
trace_lines (some t) = if is_empty t then [] else plain t ∷ []

-- `FromMaybe(-1)`.
abbrev from_maybe : Option ℤ → ℤ
from_maybe none = negsuc 0
from_maybe (some n) = n

-- `ReportException`.
unfoldable pub report_exception : TryCatch → List Line
unfolding trace_lines
report_exception t = elim t.location [
  | none ↦ plain t.exception ∷ []
  | some (filename, linenum) ↦
      located filename (from_maybe linenum) t.exception ∷ trace_lines t.stack_trace
]
