-- ===== src/Encoding.antt =====
-- primitives_encoding.cpp.
use runtime_system.Base.{ℕ, String, List, none, some}
use runtime_system.Value.{scalar, text, bytes}
use runtime_system.State.{World}
use runtime_system.External.{External}
use runtime_system.Primitive.{Outcome, throw, give}

module _ (x : External) where
  -- `Encoding_Encode`: the bytes of `String::Utf8Value`, copied to a new buffer.
  unfoldable pub encoding_encode : String → World → Outcome
  encoding_encode str w = give (bytes (x.utf8_value str)) w

  -- `Encoding_Decode`.
  unfoldable pub encoding_decode : List ℕ → World → Outcome
  encoding_decode source w = elim (x.new_from_utf8 source) [
    | none ↦ throw "Failed to decode UTF-8 string" w
    | some str ↦ give (scalar (text str)) w
  ]
